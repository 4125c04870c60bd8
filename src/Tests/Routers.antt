-- ===== src/Tests/Routers.antt =====
-- A router that meets what is asked of `chi`: it keeps the routes in their order.
use urlshortner.Prelude.{str, returned, ◌≡◌, refl, none, some, List, [], ◌∷◌}
use urlshortner.Server.Http.{Handler, http_error}
use urlshortner.Server.Router.{HandlerDesc, Chi, default_route, new_router}
use urlshortner.Server.Router.Matching.{served, route_path, find_route, IsChi}

module _ {S : Type 0} where
  abbrev answer : List (HandlerDesc S) → Handler S
  answer routes r x = elim (find_route routes r.method (route_path r)) [
    | some route ↦ served route r x
    | none ↦ (returned tt, (x.0, http_error (str "404 page not found") 404 x.1))
  ]

  -- A router awaits the routes that come behind its own.
  abbrev pub listing : Chi S
  listing = record {
    Router = List (HandlerDesc S) → List (HandlerDesc S);
    new_router = λ routes. routes;
    route = λ pattern f r. f r;
    with_method = λ mws method path h r. λ routes.
        r (record { method = method; path = path; handler = h; middlewares = mws } ∷ routes);
    serve = λ r. answer (r []);
  }

  registered :
      (routes : List (HandlerDesc S)) (r : List (HandlerDesc S) → List (HandlerDesc S))
      → default_route listing routes r [] ≡ r routes
  unfolding default_route
  registered [] r = refl
  registered (route ∷ routes) r = registered routes (λ rest. r (route ∷ rest))

  in_order : (routes : List (HandlerDesc S)) → new_router listing routes [] ≡ routes
  unfolding new_router
  in_order routes = registered routes (λ rest. rest)

  pub listing-IsChi : IsChi listing
  listing-IsChi = record {
    finds = λ routes route r x routable found. rw (in_order routes) (rw (found, answer) refl);
    misses = λ routes r x w routable missed. (
      http_error (str "404 page not found") 404 w,
      rw (in_order routes) (rw (missed, answer) refl),
    );
  }
