-- ===== src/Server/HttpServer/Answers/Requests.antt =====
-- The HTTP server at work: one request after the other, over one in-memory storage.
use urlshortner.Prelude.{
  Str, All, Option-cases, inl, inr, Outcome, returned, Bool, true, ◌≡◌, refl, List, [], ◌∷◌,
}
use urlshortner.GoStd.Hex
use urlshortner.Storage.Inmemory.Invariant.{IsWf}
use urlshortner.Shortener.Finding.{IsShortened}
use urlshortner.Config.{Config}
use urlshortner.Storage.Filestorage.{Disk}
use urlshortner.Storage.Inmemory.{Ims}
use urlshortner.Storage.Inmemory.Loader.{ims_loader}
use urlshortner.Shortener.{in_memory}
use urlshortner.Server.Auth.{Gcm}
use urlshortner.Server.Http.{Response, new_response}
use urlshortner.Server.Router.{Chi}
use urlshortner.Server.Router.Matching.{served, route_path, find_route, All-find_route, IsChi}
use urlshortner.Server.HttpServer.Handlers.{Wire}
use urlshortner.Server.HttpServer.Serving.{Turn, routes, serve, routes-IsRoutable}
use urlshortner.Server.HttpServer.Answers.{
  Past, IsKept, IsKept-now, AnsweredIf, IsBytewise, IsRequest,
}
use urlshortner.Server.HttpServer.Answers.Serving.{Serves, routes_serve}

-- One outcome for every turn, which is a return if `uuid.New` delivers in that turn.
abbrev pub AllReturn : List Turn → List (Outcome (Unit {0}) × Response) → Type 0
AllReturn [] [] = Unit
AllReturn [] (o ∷ outs) = ⊥
AllReturn (t ∷ ts) [] = ⊥
AllReturn (t ∷ ts) (o ∷ outs) =
    ((u : Str) → t.uuid ≡ returned u → o.0 ≡ returned tt) × AllReturn ts outs

module _ (chi : Chi (Ims × Disk)) (wire : Wire) (encode_record : List Str → Str) (cfg : Config)
    (gcm : Gcm) (gzip : Str → Str) where
  abbrev pub serve_turn :
      Turn → (Ims × Disk) × Response → Outcome (Unit {0}) × ((Ims × Disk) × Response)
  serve_turn = serve chi wire (in_memory encode_record cfg) gcm (ims_loader encode_record) gzip

  -- The outcomes and the responses of the requests, one after the other over one storage. After a
  -- panic, which `net/http` recovers, the server goes on.
  unfoldable pub serve_all :
      List Turn → Ims × Disk → List (Outcome (Unit {0}) × Response) × (Ims × Disk)
  serve_all [] x = ([], x)
  serve_all (t ∷ ts) x =
      let (out, (x', w)) = serve_turn t (x, new_response) in
      let (outs, x'') = serve_all ts x' in ((out, w) ∷ outs, x'')

  serve_turn-Answered :
      (t : Turn) (since : Past) (s : Ims) (d : Disk) (w : Response)
      → IsChi chi
      → IsBytewise wire
      → IsRequest wire t.request
      → since.drawn (Hex.encode t.random.0) ≡ true
      → IsKept since s
      → AnsweredIf t.uuid since (serve_turn t ((s, d), w))
  unfolding serve
  serve_turn-Answered t since s d w c bytes h draws k =
      let m = in_memory encode_record cfg in
      let st = ims_loader encode_record in
      let table = routes chi wire m gcm st gzip t in
      let routable = routes-IsRoutable chi wire m gcm st gzip t in
      elim (Option-cases (find_route table t.request.method (route_path t.request))) [
        | inl no_route ↦
            let (w', missed) = c.misses table t.request (s, d) w routable no_route in
            rw missed (λ delivers. refl, k)
        | inr (route, found) ↦
            let serves =
              All-find_route (λ route. Serves wire since t.uuid (served route)) t.request.method
                (route_path t.request) table route
                (routes_serve wire since t.uuid encode_record cfg gcm gzip t.random draws bytes)
                found in
            rw (c.finds table route t.request ((s, d), w) routable found)
              (serves t.request s d w h k)
      ]

  serve_all-Answered :
      (ts : List Turn) (since : Past) (s : Ims) (d : Disk)
      → IsChi chi
      → IsBytewise wire
      → All (λ (t : Turn). IsRequest wire t.request) ts
      → All (λ (t : Turn). since.drawn (Hex.encode t.random.0) ≡ true) ts
      → IsKept since s
      → (let (outs, x) = serve_all ts (s, d) in AllReturn ts outs × IsKept since x.0)
  unfolding serve_all
  serve_all-Answered [] since s d c bytes h draws k = (tt, k)
  serve_all-Answered (t ∷ ts) since s d c bytes h draws k =
      let (ends, k') = serve_turn-Answered t since s d new_response c bytes h.0 draws.0 k in
      let x' = (serve_turn t ((s, d), new_response)).1.0 in
      let (all_end, k'') = serve_all-Answered ts since x'.0 x'.1 c bytes h.1 draws.1 k' in
      ((λ u e. ends (u, e), all_end), k'')

  -- With a `chi` that runs the route that takes a request, and decoders that give bytes for bytes:
  -- over a well-formed storage whose records all stand under the ids of their URLs, whatever requests
  -- the server gets, of any method and to any path that is not empty, with bodies
  -- of bytes, no handler and no middleware panics, but for the new user id of a turn in which
  -- `uuid.New` does, as it does when `crypto/rand` fails. In any case the storage stays well-formed, every record
  -- stays under the id of its own URL, and no record is lost: it keeps its URL and its user, and
  -- stays deleted once it is. A session stays as it is, if `crypto/rand` draws its key for none of
  -- the requests.
  pub requests_answered :
      (ts : List Turn) (drawn : Str → Bool) (s : Ims) (d : Disk)
      → IsChi chi
      → IsBytewise wire
      → All (λ (t : Turn). IsRequest wire t.request) ts
      → All (λ (t : Turn). drawn (Hex.encode t.random.0) ≡ true) ts
      → IsWf s
      → IsShortened s
      → (let (outs, x) = serve_all ts (s, d) in
          AllReturn ts outs × IsKept (record { storage = s; drawn = drawn }) x.0)
  requests_answered ts drawn s d c bytes h draws wf shortened =
      let since : Past = record { storage = s; drawn = drawn } in
      serve_all-Answered ts since s d c bytes h draws (IsKept-now since wf shortened)
