-- ===== src/Server/HttpServer/EndToEnd/Routing.antt =====
-- Which routes of the table `POST /` and the GET of a short URL run.
use urlshortner.Prelude.{
  ℕ, Outcome, Str, str, All, ◌==◌, eq_sound, true, false, Bool-cases, inl, inr, ◌≡◌, ◌≢◌, refl,
  Option, some, [], ◌∷◌, arith,
}
use urlshortner.GoStd.Base64.Laws.{IsUrlSafe}
use urlshortner.Storage.Errors.{Error}
use urlshortner.Storage.Interface.{StorerLoader}
use urlshortner.Shortener.{MyShortener}
use urlshortner.Server.Auth.{Gcm}
use urlshortner.Server.Http.{Handler}
use urlshortner.Server.Router.{HandlerDesc}
use urlshortner.Server.Router.Matching.{
  find_route-param, has_byte, find_static, find_param, find_route, is_segment, is_param,
}
use urlshortner.Server.HttpServer.Handlers.{Wire}
use urlshortner.Server.HttpServer.Handlers.Shorten.{make_short}
use urlshortner.Server.HttpServer.Handlers.Lookup.{make_long}
use urlshortner.Server.HttpServer.Routes.{handlers, with_auth}

-- No letter of an id is a slash.
has_byte-urlsafe : (id : Str) → All IsUrlSafe id → has_byte b'/' id ≡ false
unfolding has_byte
has_byte-urlsafe [] h = refl
has_byte-urlsafe (c ∷ id) (safe, h) = ground (arith, has_byte-urlsafe id h)

-- Texts of which one alone has the byte differ.
apart : (b : ℕ) (s t : Str) → has_byte b s ≡ true → has_byte b t ≡ false → (s == t) ≡ false
apart b s t h k = elim (Bool-cases (s == t)) [
  | inr differ ↦ differ
  | inl same ↦ let e = eq_sound s t same in cc
]

module _ (wire : Wire) {S : Type 0} (m : MyShortener S) (gcm : Gcm) (st : StorerLoader S)
    (uuid : Outcome Str) (random : Str × Option Error) (gzip : Str → Str) where
  -- A route behind the two middlewares.
  abbrev pub desc : Str → Str → Handler S → HandlerDesc S
  desc method path handler = record {
    method = method;
    path = path;
    handler = handler;
    middlewares = with_auth wire m gcm st uuid random gzip;
  }

  pub find_route-post :
      find_route (handlers wire m gcm st uuid random gzip) (str "POST") (str "/")
      ≡ some (desc (str "POST") (str "/") (make_short wire m))
  unfolding find_route find_static handlers is_param ◌==◌
  find_route-post = refl

  pub find_route-get :
      (id : Str)
      → All IsUrlSafe id
      → id ≢ []
      → (str "ping" == id) ≡ false
      → find_route (handlers wire m gcm st uuid random gzip) (str "GET") (b'/' ∷ id)
        ≡ some (desc (str "GET") (str "/{id}") (make_long wire m))
  unfolding find_route find_static find_param handlers is_param is_segment has_byte ◌==◌
  find_route-get [] safe some_id no_ping = absurd (some_id refl)
  find_route-get (c ∷ id) safe some_id no_ping =
      let one_segment = has_byte-urlsafe (c ∷ id) safe in
      let urls = apart b'/' (str "api/user/urls") (c ∷ id) refl one_segment in
      let stats = apart b'/' (str "api/internal/stats") (c ∷ id) refl one_segment in
      find_route-param (str "GET") (b'/' ∷ c ∷ id) (handlers wire m gcm st uuid random gzip)
        (
          refl,
          (
            ground arith,
            (refl, (refl, (rw urls refl, (refl, (rw no_ping refl, (rw stats refl, tt)))))),
          ),
        )
        (rw one_segment refl)
