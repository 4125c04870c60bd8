-- ===== src/Server/HttpServer/EndToEnd.antt =====
-- internal/server/httpserver: a URL on its way through the whole server, and back.
pub mod Routing
pub mod Layers
pub mod Responses
pub mod Turns
pub mod Targets
pub mod Visits
use urlshortner.Prelude.{
  Str, str, IsBytes, All, ◌==◌, load, Bool, true, false, Outcome, returned, ◌≡◌, ◌≢◌, ◌∙◌, refl,
  Option, none, some, List, [], ◌∷◌, if◌then◌else◌,
}
use urlshortner.Config.{Config}
use urlshortner.Storage.Filestorage.{Disk}
use urlshortner.Storage.Inmemory.{Storer, Ims}
use urlshortner.Storage.Inmemory.Table.{entry}
use urlshortner.Storage.Inmemory.Invariant.{IsWf}
use urlshortner.Shortener.{shorten_url}
use urlshortner.Shortener.Finding.{IsShortened, is_deleted}
use urlshortner.Server.Auth.{Gcm}
use urlshortner.Server.Http.{Request, Response, new_response, status}
use urlshortner.Server.Router.{Chi}
use urlshortner.Server.Router.Matching.{IsChi}
use urlshortner.Server.HttpServer.Handlers.{Wire, read_body}
use urlshortner.Server.HttpServer.Serving.{Turn}
use urlshortner.Server.HttpServer.Answers.{
  Past, IsKept, IsKept-now, Persists, Persists-refl, IsBytewise, IsRequest,
}
use urlshortner.Server.HttpServer.Answers.Requests.{serve_all, requests_answered}
use urlshortner.Server.HttpServer.EndToEnd.Layers.{is_zipped}
use urlshortner.Server.HttpServer.EndToEnd.Responses.{sent_header}
use urlshortner.Server.HttpServer.EndToEnd.Targets.{IsRedirect, target, location-target}
use urlshortner.Server.HttpServer.EndToEnd.Turns.{IsReadable, turn, answers, posted, got}

-- The storage of now, with all keys open for new sessions.
abbrev now : Ims → Past
now s = record { storage = s; drawn = λ key. true }

All-draws : (ts : List Turn) → All (λ (t : Turn). true ≡ true) ts
All-draws [] = tt
All-draws (t ∷ ts) = (refl, All-draws ts)

module _ (chi : Chi (Ims × Disk)) (wire : Wire) (encode_record : List Str → Str) (cfg : Config)
    (gcm : Gcm) (gzip : Str → Str) where
  abbrev run : Turn → (Ims × Disk) × Response → Outcome (Unit {0}) × ((Ims × Disk) × Response)
  run = answers chi wire encode_record cfg gcm gzip

  -- The whole way through `chi`, which runs the route that takes a request, and both middlewares, over
  -- a well-formed storage whose records all stand under the ids of their URLs: `POST /` with a body
  -- that reads as a URL, of bytes and not empty, is answered by 201 if its id is new and by 409 if it
  -- is there, with the short URL as the body in both cases, compressed for a client that takes that.
  -- A GET of the id by anyone is then sent on by 307, unless the id had been deleted before: then by
  -- 410 to nowhere. It is sent to the very URL if that begins with `http://` or `https://` and has
  -- printable ASCII alone, which `http.Redirect` leaves as it is, and else to what `http.Redirect`
  -- makes of the URL at the path of the id. The paths need no escape, the cookies can be read, `crypto/rand` delivers, and the id is
  -- not `ping`, which has a route of its own.
  pub posted_and_got :
      (post get : Request) (uuid uuid' bytes bytes' url : Str) (s : Ims) (d : Disk)
      → IsChi chi
      → IsRedirect wire
      → IsBytes url
      → url ≢ []
      → (str "ping" == (shorten_url cfg url).0) ≡ false
      → IsWf s
      → IsShortened s
      → IsReadable (str "POST") (str "/") post
      → read_body wire post ≡ (url, none)
      → IsReadable (str "GET") (b'/' ∷ (shorten_url cfg url).0) get
      → (let (id, short) = shorten_url cfg url in
          let (out, (x, w)) = run (turn post uuid bytes) ((s, d), new_response) in
          let (out', (x', w')) = run (turn get uuid' bytes') (x, new_response) in
          let gone = is_deleted (entry s id) in
          (out ≡ returned tt)
          × (status w ≡ (elim (entry s id) [ none ↦ 201 | some r ↦ 409 ]))
          × (w.body ≡ (if is_zipped post then gzip short else short))
          × (out' ≡ returned tt)
          × (status w' ≡ (if gone then 410 else 307))
          × (load (str "Location") (sent_header w')
              ≡ (if gone then none else some (target wire get.path url))))
  posted_and_got post get uuid uuid' bytes bytes' url s d c laws h some_url no_ping wf shortened p
        read g =
      let since = now s in
      let k = IsKept-now since wf shortened in
      let (s₁, w, q, answered, k₁, held, gone, created, shown) =
        posted chi wire encode_record cfg gcm gzip post uuid bytes url since s d c h (λ key. refl) k
          p read in
      let (x, w', answered', redirected, located) =
        got chi wire encode_record cfg gcm gzip get uuid' bytes' url q since s₁ d c h some_url
          no_ping (λ key. refl) k₁ g held in
      let located' = rw gone at located in
      let sent_on = rw (location-target wire get.path url laws) at located' in
      rw answered (rw answered' (refl, created, shown, refl, rw gone at redirected, sent_on))

  -- A POST of a URL and a GET of its id, under the conditions of `posted_and_got`, but between the
  -- two the server gets any requests by anyone, with paths
  -- that are not empty and bodies of bytes, from which the decoders give bytes. The GET is then sent
  -- on by 307, to the very URL or to what `http.Redirect` makes of it as there, or by 410 to nowhere
  -- if the id is deleted by then. It is so in any case if it was deleted before the POST.
  pub posted_then_got :
      (post get : Request) (ts : List Turn) (uuid uuid' bytes bytes' url : Str) (s : Ims) (d : Disk)
      → IsChi chi
      → IsRedirect wire
      → IsBytewise wire
      → IsBytes url
      → url ≢ []
      → (str "ping" == (shorten_url cfg url).0) ≡ false
      → IsWf s
      → IsShortened s
      → IsReadable (str "POST") (str "/") post
      → read_body wire post ≡ (url, none)
      → All (λ (t : Turn). IsRequest wire t.request) ts
      → IsReadable (str "GET") (b'/' ∷ (shorten_url cfg url).0) get
      → (let id = (shorten_url cfg url).0 in
          let (out, (x, w)) = run (turn post uuid bytes) ((s, d), new_response) in
          let (outs, x') = serve_all chi wire encode_record cfg gcm gzip ts x in
          let (out', (x'', w')) = run (turn get uuid' bytes') (x', new_response) in
          let gone = is_deleted (entry x'.0 id) in
          (is_deleted (entry s id) ≡ true → gone ≡ true)
          × (out' ≡ returned tt)
          × (status w' ≡ (if gone then 410 else 307))
          × (load (str "Location") (sent_header w')
              ≡ (if gone then none else some (target wire get.path url))))
  posted_then_got post get ts uuid uuid' bytes bytes' url s d c laws b h some_url no_ping wf
        shortened p read rs g =
      let (s₁, w, q, answered, k₁, held, gone, created, shown) =
        posted chi wire encode_record cfg gcm gzip post uuid bytes url (now s) s d c h (λ key. refl)
          (IsKept-now (now s) wf shortened) p read in
      let (all_end, k₂) =
        requests_answered chi wire encode_record cfg gcm gzip ts (λ key. true) s₁ d c b rs
          (All-draws ts) k₁.wf k₁.shortened in
      let x' = (serve_all chi wire encode_record cfg gcm gzip ts (s₁, d)).1 in
      let (q', held', url', user', still) : Persists (some q) (entry x'.0 (shorten_url cfg url).0) =
        rw held at (k₂.stays (shorten_url cfg url).0) in
      let (x'', w', answered', redirected, located) =
        got chi wire encode_record cfg gcm gzip get uuid' bytes' url q' (now s₁) x'.0 x'.1 c h
          some_url no_ping (λ key. refl) k₂ g held' in
      let located' = rw (location-target wire get.path url laws) at located in
      rw answered (rw answered' (rw held' (λ old. still (gone ∙ old), refl, redirected, located')))
