-- ===== src/Server/Router.antt =====
-- internal/router/router.go: the table of the routes is registered with `chi`, which is a parameter.
pub mod Matching
use urlshortner.Prelude.{Str, str, List, [], ◌∷◌, ◌++◌}
use urlshortner.Server.Http.{Handler}

pub record HandlerDesc (S : Type 0) : Type 0 where
  pub method : Str
  pub path : Str
  pub handler : Handler S
  pub middlewares : List (Handler S → Handler S)

-- `chi`: `with_method` is `r.With(middlewares...).Method(method, path, handler)`.
pub record Chi (S : Type 0) : Type 1 where
  pub Router : Type 0
  pub new_router : Router
  pub route : Str → (Router → Router) → Router → Router
  pub with_method : List (Handler S → Handler S) → Str → Str → Handler S → Router → Router
  pub serve : Router → Handler S

module _ {S : Type 0} (chi : Chi S) where
  unfoldable pub default_route : List (HandlerDesc S) → chi.Router → chi.Router
  default_route [] r = r
  default_route (route ∷ routes) r =
      default_route routes
        (chi.with_method route.middlewares route.method route.path route.handler r)

  -- `NewRouter`, over the handlers.
  unfoldable pub new_router : List (HandlerDesc S) → chi.Router
  new_router handlers = chi.route (str "/") (default_route handlers) chi.new_router

-- `Middlewares`, and its loop.
appended :
    {S : Type 0}
    → List (Handler S → Handler S)
    → List (Handler S → Handler S)
    → List (Handler S → Handler S)
appended mws [] = mws
appended mws (f ∷ hs) = appended (mws ++ f ∷ []) hs

unfoldable pub middlewares :
    {S : Type 0} → List (Handler S → Handler S) → List (Handler S → Handler S)
unfolding appended
middlewares hs = appended [] hs
