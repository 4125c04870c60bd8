-- ===== src/Server/HttpServer/Serving.antt =====
-- internal/server/httpserver/httpserver.go, `New`: the handler of the `http.Server`, behind `chi`.
use urlshortner.Prelude.{Outcome, Str, Exec, ◌==◌, true, ◌≡◌, refl, Option, List}
use urlshortner.Storage.Errors.{Error}
use urlshortner.Storage.Interface.{StorerLoader}
use urlshortner.Shortener.{MyShortener}
use urlshortner.Server.Auth.{Gcm}
use urlshortner.Server.Http.{Request, Response}
use urlshortner.Server.Router.{HandlerDesc, Chi, new_router}
use urlshortner.Server.Router.Matching.{is_routable}
use urlshortner.Server.HttpServer.Handlers.{Wire}
use urlshortner.Server.HttpServer.Routes.{handlers}

-- A request, with what its turn draws from `uuid` and `crypto/rand`.
pub record Turn : Type 0 where
  pub request : Request
  pub uuid : Outcome Str
  pub random : Str × Option Error

module _ {S : Type 0} (chi : Chi S) (wire : Wire) (m : MyShortener S) (gcm : Gcm)
    (st : StorerLoader S) (gzip : Str → Str) where
  abbrev pub routes : Turn → List (HandlerDesc S)
  routes t = handlers wire m gcm st t.uuid t.random gzip

  -- The whole of what the server does with a request.
  unfoldable pub serve : Turn → Exec (S × Response) (Unit {0})
  serve t = chi.serve (new_router chi (routes t)) t.request

  -- The patterns of the table have the two forms that are read, and no two routes clash.
  pub routes-IsRoutable : (t : Turn) → is_routable (routes t) ≡ true
  unfolding is_routable handlers ◌==◌
  routes-IsRoutable t = refl
