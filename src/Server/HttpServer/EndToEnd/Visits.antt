-- ===== src/Server/HttpServer/EndToEnd/Visits.antt =====
-- A client that comes back, after the requests of others: its session is still its own.
use urlshortner.Prelude.{
  Outcome, Str, str, All, load, ◌==◌, Bool, true, false, ◌≡◌, ◌∙◌, refl, Option, some, List, [],
}
use urlshortner.GoStd.Hex
use urlshortner.Config.{Config}
use urlshortner.Storage.Errors.{Error}
use urlshortner.Storage.Filestorage.{Disk}
use urlshortner.Storage.Inmemory.{Ims}
use urlshortner.Storage.Inmemory.Invariant.{IsWf}
use urlshortner.Storage.Inmemory.Loader.{ims_loader}
use urlshortner.Shortener.Finding.{IsShortened}
use urlshortner.Server.Auth.{Gcm, unseal_token}
use urlshortner.Server.Auth.Sessions.{load_user-result}
use urlshortner.Server.Http.{Request, Response, Handler, cookie, set_cookie}
use urlshortner.Server.Router.{Chi}
use urlshortner.Server.Router.Matching.{IsChi}
use urlshortner.Server.HttpServer.Handlers.{Wire}
use urlshortner.Server.HttpServer.Middleware.{auth_mw}
use urlshortner.Server.HttpServer.Sessions.{later_request}
use urlshortner.Server.HttpServer.Serving.{Turn}
use urlshortner.Server.HttpServer.Answers.{IsBytewise, IsRequest}
use urlshortner.Server.HttpServer.Answers.Requests.{serve_all, requests_answered}

module _ (chi : Chi (Ims × Disk)) (wire : Wire) (encode_record : List Str → Str) (cfg : Config)
    (gcm : Gcm) (gzip : Str → Str) where
  -- A cookie stands for the session of a user, in a well-formed storage whose records all stand under
  -- the ids of their URLs. After any requests by anyone, with paths that are not empty and bodies of
  -- bytes, from which the decoders give bytes, through a `chi` that runs the route that takes a
  -- request: as long as `crypto/rand` draws the key of that session for none of them, a request with
  -- the cookie is still served as that user, by whatever handler runs behind AuthMW, and it opens no
  -- session.
  pub session_stays :
      (ts : List Turn) (drawn : Str → Bool) (s : Ims) (d : Disk) (token user_id : Str)
      (uuid : Outcome Str) (random : Str × Option Error) (next : Handler (Ims × Disk)) (r : Request)
      (w : Response)
      → IsChi chi
      → IsBytewise wire
      → All (λ (t : Turn). IsRequest wire t.request) ts
      → All (λ (t : Turn). drawn (Hex.encode t.random.0) ≡ true) ts
      → drawn (unseal_token gcm token).0 ≡ false
      → IsWf s
      → IsShortened s
      → (token == []) ≡ false
      → load (unseal_token gcm token).0 s.sessions ≡ some user_id
      → r.cookie ≡ cookie token
      → (let (outs, x) = serve_all chi wire encode_record cfg gcm gzip ts (s, d) in
          auth_mw gcm (ims_loader encode_record) uuid random next r (x, w)
          ≡ next (record r { user_id = some user_id }) (x, set_cookie (str "userID") token w))
  session_stays ts drawn s d token user_id uuid random next r w c b rs draws undrawn wf shortened
        given known has =
      let x = (serve_all chi wire encode_record cfg gcm gzip ts (s, d)).1 in
      let (all_end, k) =
        requests_answered chi wire encode_record cfg gcm gzip ts drawn s d c b rs draws wf
          shortened in
      let still : load (unseal_token gcm token).0 x.0.sessions ≡ some user_id =
        k.sessions _ undrawn ∙ known in
      later_request gcm encode_record uuid random next r token user_id x.0 x.1 w has given
        (load_user-result gcm encode_record token x.0 x.1 ∙ rw still refl)
