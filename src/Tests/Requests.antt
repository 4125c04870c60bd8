-- ===== src/Tests/Requests.antt =====
-- A few requests to the HTTP server, one after the other.
use urlshortner.GoStd.Hex
use urlshortner.Prelude.{
  Bool, contains, refl, true, Str, str, IsBytes, All, ◌==◌, returned, panicked, ◌≡◌, ◌≢◌, none,
  List, [], ◌∷◌, arith,
}
use urlshortner.Server.HttpServer.Handlers.{read_body}
use urlshortner.Server.HttpServer.Answers.{IsKept, IsBytewise, IsRequest}
use urlshortner.Server.HttpServer.Answers.Requests.{AllReturn, serve_all, requests_answered}
use urlshortner.Server.HttpServer.Serving.{Turn}
use urlshortner.Tests.Routers.{listing, listing-IsChi}
use urlshortner.Tests.Fixtures.{
  url, url_id, url-IsBytes, storage, storage-IsWf, storage-IsShortened, disk, cfg, join_fields,
  tagging, wire, request,
}

pub wire-IsBytewise : IsBytewise wire
wire-IsBytewise = record { urls = λ b h. h; batches = λ b h. tt }

request-IsRequest :
    (method path user_id body : Str)
    → path ≢ []
    → IsBytes body
    → IsRequest wire (record (request path user_id body) { method = method })
unfolding read_body ◌==◌
request-IsRequest method path user_id body some_path h = record { some_path = some_path; body = h }

-- A request of the given method, as a turn.
abbrev turn : Str → Str → Str → Str → Turn
turn method path body uuid = record {
  request = record (request path [] body) { method = method };
  uuid = returned uuid;
  random = (uuid, none);
}

-- POST of the URL, GET of its id, GET of the URLs of the user, the statistics, a path that no route
-- takes, and a POST for which no new user id can be drawn.
abbrev pub turns : List Turn
turns =
    turn (str "POST") (str "/") url (str "u7")
    ∷ turn (str "GET") (b'/' ∷ url_id) [] (str "u8")
    ∷ turn (str "GET") (str "/api/user/urls") [] (str "u9")
    ∷ turn (str "GET") (str "/api/internal/stats") [] []
    ∷ turn (str "GET") (str "/api/nothing") [] []
    ∷ record (turn (str "POST") (str "/") url []) { uuid = panicked }
    ∷ []

pub turns-IsRequest : All (λ (t : Turn). IsRequest wire t.request) turns
turns-IsRequest = (
  request-IsRequest (str "POST") (str "/") [] url (λ e. grind arith) url-IsBytes,
  (
    request-IsRequest (str "GET") (b'/' ∷ url_id) [] [] (λ e. grind arith) tt,
    (
      request-IsRequest (str "GET") (str "/api/user/urls") [] [] (λ e. grind arith) tt,
      (
        request-IsRequest (str "GET") (str "/api/internal/stats") [] [] (λ e. grind arith) tt,
        (
          request-IsRequest (str "GET") (str "/api/nothing") [] [] (λ e. grind arith) tt,
          (request-IsRequest (str "POST") (str "/") [] url (λ e. grind arith) url-IsBytes, tt),
        ),
      ),
    ),
  ),
)

-- The keys that the turns draw.
abbrev pub drawn : Str → Bool
drawn key =
    contains key
      (Hex.encode (str "u7") ∷ Hex.encode (str "u8") ∷ Hex.encode (str "u9") ∷ Hex.encode [] ∷ [])

pub turns-drawn : All (λ (t : Turn). drawn (Hex.encode t.random.0) ≡ true) turns
unfolding contains ◌==◌ Hex.encode
turns-drawn = (refl, (refl, (refl, (refl, (refl, (refl, tt))))))

requests_answered_example :
    (let (outs, x) =
        serve_all listing wire join_fields cfg tagging (λ w. w) turns (storage, disk) in
      AllReturn turns outs × IsKept (record { storage = storage; drawn = drawn }) x.0)
requests_answered_example =
    requests_answered listing wire join_fields cfg tagging (λ w. w) turns drawn storage disk
      listing-IsChi wire-IsBytewise turns-IsRequest turns-drawn storage-IsWf storage-IsShortened
