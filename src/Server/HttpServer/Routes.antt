-- ===== src/Server/HttpServer/Routes.antt =====
-- internal/server/httpserver/httpserver.go, `New` and `Handlers`: the table of the routes.
use urlshortner.Prelude.{
  Outcome, returned, Str, str, All, contains, ◌≡◌, refl, false, Option, some, List, [], ◌∷◌, ◌⊎◌,
  inl, inr,
}
use urlshortner.Config.{Config}
use urlshortner.Storage.Errors.{Error}
use urlshortner.Storage.Interface.{StorerLoader}
use urlshortner.Storage.Filestorage.{Disk}
use urlshortner.Storage.Inmemory.{Ims}
use urlshortner.Storage.Inmemory.Loader.{ims_loader}
use urlshortner.Shortener.{MyShortener, in_memory}
use urlshortner.Server.Auth.{Gcm}
use urlshortner.Server.Http.{Request, Response, Handler}
use urlshortner.Server.Router.{HandlerDesc}
use urlshortner.Server.Router.Matching.{served}
use urlshortner.Server.HttpServer.Middleware.{auth_mw, gzip_mw}
use urlshortner.Server.HttpServer.Sessions.{auth_mw_serves}
use urlshortner.Server.HttpServer.Handlers.{Wire}
use urlshortner.Server.HttpServer.Handlers.Shorten.{make_short, make_short_json, shorten_batch_json}
use urlshortner.Server.HttpServer.Handlers.Lookup.{make_long, make_long_by_user, delete_batch}
use urlshortner.Server.HttpServer.Handlers.Stats.{ping_storage, stats}

-- The table, with what one request's turn draws from `uuid` and `crypto/rand`.
module _ (wire : Wire) {S : Type 0} (m : MyShortener S) (gcm : Gcm) (st : StorerLoader S)
    (uuid : Outcome Str) (random : Str × Option Error) (gzip : Str → Str) where
  abbrev pub with_auth : List (Handler S → Handler S)
  with_auth = gzip_mw gzip ∷ auth_mw gcm st uuid random ∷ []

  unfoldable pub handlers : List (HandlerDesc S)
  handlers =
      record {
        method = str "POST";
        path = str "/";
        handler = make_short wire m;
        middlewares = with_auth;
      }
      ∷ record {
        method = str "GET";
        path = str "/{id}";
        handler = make_long wire m;
        middlewares = with_auth;
      }
      ∷ record {
        method = str "POST";
        path = str "/api/shorten";
        handler = make_short_json wire m;
        middlewares = with_auth;
      }
      ∷ record {
        method = str "POST";
        path = str "/api/shorten/batch";
        handler = shorten_batch_json wire m;
        middlewares = with_auth;
      }
      ∷ record {
        method = str "GET";
        path = str "/api/user/urls";
        handler = make_long_by_user wire m;
        middlewares = with_auth;
      }
      ∷ record {
        method = str "DELETE";
        path = str "/api/user/urls";
        handler = delete_batch wire m;
        middlewares = with_auth;
      }
      ∷ record {
        method = str "GET";
        path = str "/ping";
        handler = ping_storage wire m;
        middlewares = with_auth;
      }
      ∷ record {
        method = str "GET";
        path = str "/api/internal/stats";
        handler = stats wire m;
        middlewares = gzip_mw gzip ∷ [];
      }
      ∷ []

module _ (wire : Wire) (encode_record : List Str → Str) (cfg : Config) (gcm : Gcm) (uuid : Str)
    (random : Str × Option Error) (gzip : Str → Str) where
  -- The handler of the route runs once, for some user, on the URLs as they are.
  abbrev pub HasUser : HandlerDesc (Ims × Disk) → Request → Ims → Disk → Response → Type 0
  HasUser route r s d w =
      (user_id : Str) × (s' : Ims) × (d' : Disk) × (w' : Response) × (served route r ((s, d), w)
        ≡ route.handler (record r { user_id = some user_id }) ((s', d'), w'))
      × (s'.entries ≡ s.entries)

  identified :
      (r : Request) (s : Ims) (d : Disk) (w : Response) (method path : Str)
      (handler : Handler (Ims × Disk))
      → contains (str "gzip") (r.header_values (str "Accept-Encoding")) ≡ false
      → HasUser
          (record {
            method = method;
            path = path;
            handler = handler;
            middlewares =
                gzip_mw gzip ∷ auth_mw gcm (ims_loader encode_record) (returned uuid) random ∷ [];
          })
          r
          s
          d
          w
  unfolding served gzip_mw
  identified r s d w method path handler plain =
      let (user_id, s', d', w', ran, same, others) =
        auth_mw_serves gcm encode_record (returned uuid) random handler r s d w
          (inl (uuid, refl)) in
      (user_id, s', d', w', rw plain ran, same)

  -- For a client that takes no compressed answer, every route but that of the statistics runs its
  -- handler for some user, whatever cookie the request has, and no URL has changed by then.
  pub routes_identified :
      (r : Request) (s : Ims) (d : Disk) (w : Response)
      → contains (str "gzip") (r.header_values (str "Accept-Encoding")) ≡ false
      → All
          (λ route. (route.path ≡ str "/api/internal/stats") ⊎ HasUser route r s d w)
          (handlers wire
            (in_memory encode_record cfg)
            gcm
            (ims_loader encode_record)
            (returned uuid)
            random
            gzip)
  unfolding handlers
  routes_identified r s d w plain = (
    inr (identified r s d w _ _ _ plain),
    (
      inr (identified r s d w _ _ _ plain),
      (
        inr (identified r s d w _ _ _ plain),
        (
          inr (identified r s d w _ _ _ plain),
          (
            inr (identified r s d w _ _ _ plain),
            (
              inr (identified r s d w _ _ _ plain),
              (inr (identified r s d w _ _ _ plain), (inl refl, tt)),
            ),
          ),
        ),
      ),
    ),
  )
