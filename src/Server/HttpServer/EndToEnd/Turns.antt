-- ===== src/Server/HttpServer/EndToEnd/Turns.antt =====
-- One turn of the server: `POST /` of a URL, or the GET of an id.
use urlshortner.Prelude.{
  true, Str, str, IsBytes, ◌==◌, eq_refl, load, length, ◌≤◌, Outcome, returned, ◌≡◌, ◌≢◌, ◌∙◌, ap,
  refl, Bool, false, Option, none, some, List, [], ◌∷◌, arith, if◌then◌else◌,
}
use urlshortner.GoStd.Base64
use urlshortner.GoStd.Base64.Laws.{encode_injective}
use urlshortner.Config.{Config}
use urlshortner.Storage.Errors.{Error, err_url_gone}
use urlshortner.Storage.Filestorage.{Disk}
use urlshortner.Storage.Inmemory
use urlshortner.Storage.Inmemory.{Storer, Ims}
use urlshortner.Storage.Inmemory.Table.{entry, record_of_value, store_in}
use urlshortner.Storage.Inmemory.Lookup.{load_url-entry, store_url-result, entry-store_url}
use urlshortner.Storage.Inmemory.Loader.{ims_loader}
use urlshortner.Shortener.{MyShortener, in_memory, shorten_url}
use urlshortner.Shortener.Finding.{is_deleted}
use urlshortner.Shortener.Ids.{shorten_url_lem}
use urlshortner.Server.Auth.{Gcm}
use urlshortner.Server.Http.{Request, Response, Handler, new_response, status}
use urlshortner.Server.Router.{Chi}
use urlshortner.Server.Router.Matching.{served, route_path, find_route, IsChi}
use urlshortner.Server.HttpServer.Handlers.{Wire, read_body}
use urlshortner.Server.HttpServer.Handlers.Shorten.{make_short}
use urlshortner.Server.HttpServer.Handlers.Lookup.{make_long}
use urlshortner.Server.HttpServer.Middleware.{cookie_error}
use urlshortner.Server.HttpServer.RoundTrip.{make_short-result, make_long-result}
use urlshortner.Server.HttpServer.Routes.{handlers}
use urlshortner.Server.HttpServer.Serving.{Turn, routes, serve, routes-IsRoutable}
use urlshortner.Server.HttpServer.Answers.{Past, IsKept}
use urlshortner.Server.HttpServer.Answers.Storing.{stored-IsKept}
use urlshortner.Server.HttpServer.Answers.Serving.{entries-IsKept}
use urlshortner.Server.HttpServer.Answers.Requests.{serve_turn}
use urlshortner.Server.HttpServer.EndToEnd.Routing.{desc, find_route-post, find_route-get}
use urlshortner.Server.HttpServer.EndToEnd.Layers.{is_zipped, started, ended, layers}
use urlshortner.Server.HttpServer.EndToEnd.Responses.{
  sent_header, short_response-ended, long_response-ended,
}

not_drawn : (since : Past) (key : Str) → since.drawn key ≡ true → since.drawn key ≡ false → ⊥
not_drawn since key drawn undrawn = cc

-- What is stored is there, and what was deleted stays so.
store_in-some :
    (url user_id : Str) (o : Option Storer)
    → (q : Storer) × (store_in (record { url = url; user_id = user_id; deleted = false }) o
        ≡ some q)
      × (q.deleted ≡ is_deleted o)
store_in-some url user_id none = (_, refl, refl)
store_in-some url user_id (some r) = (r, refl, refl)

-- A request of the method and to the path, with no escaped form of its own, whose cookie can be read.
pub record IsReadable (method path : Str) (r : Request) : Type 0 where
  pub of_method : r.method ≡ method
  pub to_path : r.path ≡ path
  pub plain_path : r.raw_path ≡ []
  pub readable : cookie_error r.cookie ≡ none

-- A turn in which `crypto/rand` delivers.
abbrev pub turn : Request → Str → Str → Turn
turn r uuid bytes = record { request = r; uuid = returned uuid; random = (bytes, none) }

module _ (chi : Chi (Ims × Disk)) (wire : Wire) (encode_record : List Str → Str) (cfg : Config)
    (gcm : Gcm) (gzip : Str → Str) where
  abbrev m : MyShortener (Ims × Disk)
  m = in_memory encode_record cfg

  abbrev pub answers :
      Turn → (Ims × Disk) × Response → Outcome (Unit {0}) × ((Ims × Disk) × Response)
  answers = serve_turn chi wire encode_record cfg gcm gzip

  shorten_url-ne-nil : (url : Str) → url ≢ [] → (shorten_url cfg url).0 ≢ []
  shorten_url-ne-nil [] some_url e = some_url refl
  shorten_url-ne-nil (b ∷ url) some_url e =
      let longer : length (b ∷ url) ≤ length (shorten_url cfg (b ∷ url)).0 =
        (shorten_url_lem cfg (b ∷ url)).3 in
      let empty : length (shorten_url cfg (b ∷ url)).0 ≡ 0 = rw e refl in omega arith

  -- The handler of the route that takes a request runs for some user, over the same URLs.
  turn_layers :
      (r : Request) (uuid bytes : Str) (method path pattern : Str) (next : Handler (Ims × Disk))
      (s : Ims) (d : Disk)
      → IsChi chi
      → IsReadable method path r
      → find_route
          (handlers wire m gcm (ims_loader encode_record) (returned uuid) (bytes, none) gzip)
          method
          path
        ≡ some (
            desc wire m gcm
              (ims_loader encode_record)
              (returned uuid)
              (bytes, none)
              gzip
              method
              pattern
              next)
      → (user_id : Str) × (token : Str) × (s' : Ims) × (s'.entries ≡ s.entries)
        × ((x : Ims × Disk) (w : Response)
            → next (record r { user_id = some user_id }) ((s', d), started (is_zipped r) token)
              ≡ (returned tt, (x, w))
            → answers (turn r uuid bytes) ((s, d), new_response)
              ≡ (returned tt, (x, ended gzip (is_zipped r) w)))
  unfolding serve served route_path
  turn_layers r uuid bytes method path pattern next s d c q found =
      let st = ims_loader encode_record in
      let t = turn r uuid bytes in
      let route = desc wire m gcm st (returned uuid) (bytes, none) gzip method pattern next in
      let here : find_route (routes chi wire m gcm st gzip t) r.method (route_path r) ≡ some route =
        rw (q.of_method, q.plain_path, q.to_path) found in
      let (user_id, token, s', same, runs) =
        layers gcm encode_record uuid bytes next gzip r s d q.readable in
      (
        user_id,
        token,
        s',
        same,
        λ x w ran.
            c.finds (routes chi wire m gcm st gzip t) route r ((s, d), new_response)
              (routes-IsRoutable chi wire m gcm st gzip t) here
            ∙ runs x w ran,
      )

  -- What a GET of the id of the URL finds.
  abbrev expected : Str → Bool → Str × Option Error
  expected url gone = if gone then ([], some err_url_gone) else (url, none)

  -- The body does not depend on the user.
  read_body-user_id :
      (r : Request) (user_id : Option Str)
      → read_body wire (record r { user_id = user_id }) ≡ read_body wire r
  unfolding read_body
  read_body-user_id r user_id = refl

  -- The GET finds the URL under its id, also when the sessions have changed since.
  load_url-kept :
      (url : Str) (r : Storer) (since : Past) (s : Ims)
      → IsBytes url
      → IsKept since s
      → entry s (shorten_url cfg url).0 ≡ some r
      → Inmemory.load_url (shorten_url cfg url).0 s ≡ (returned (expected url r.deleted), s)
  unfolding shorten_url
  load_url-kept url r since s h k held =
      let id = Base64.encode url in
      let (keyed, bytes) = k.shortened.ids id r held in
      let same = encode_injective url r.url h bytes keyed in
      load_url-entry id s k.wf ∙ rw held (rw (← same) refl)

  -- A record stands under the id afterwards; if one was deleted there, it still is.
  pub posted :
      (r : Request) (uuid bytes url : Str) (since : Past) (s : Ims) (d : Disk)
      → IsChi chi
      → IsBytes url
      → ((key : Str) → since.drawn key ≡ true)
      → IsKept since s
      → IsReadable (str "POST") (str "/") r
      → read_body wire r ≡ (url, none)
      → (let (id, short) = shorten_url cfg url in
          (s' : Ims) × (w : Response) × (q : Storer) × (answers
              (turn r uuid bytes)
              ((s, d), new_response)
            ≡ (returned tt, ((s', d), w)))
          × IsKept since s'
          × (entry s' id ≡ some q)
          × (q.deleted ≡ is_deleted (entry s id))
          × (status w ≡ (elim (entry s id) [ none ↦ 201 | some r ↦ 409 ]))
          × (w.body ≡ (if is_zipped r then gzip short else short)))
  posted r uuid bytes url since s d c h all k p read =
      let (id, short) = shorten_url cfg url in
      let found =
        find_route-post wire m gcm (ims_loader encode_record) (returned uuid) (bytes, none) gzip in
      let (user_id, token, s₁, same, runs) =
        turn_layers r uuid bytes (str "POST") (str "/") (str "/") (make_short wire m) s d c p
          found in
      let k₁ =
        entries-IsKept s s₁ same (λ key undrawn. absurd (not_drawn since key (all key) undrawn))
          k in
      let s₂ = (Inmemory.store_url id url user_id s₁).1 in
      let ran =
        make_short-result wire m (record r { user_id = some user_id }) user_id url (s₁, d) (s₂, d) _
          (started (is_zipped r) token) refl (read_body-user_id r (some user_id) ∙ read)
          (ap (λ o. (o, (s₂, d))) (store_url-result id url user_id s₁ k₁.wf)) in
      let e : entry s₁ id ≡ entry s id = ap (λ entries. record_of_value (load id entries)) same in
      let (q, held, gone) = store_in-some url user_id (entry s₁ id) in
      let stands : entry s₂ id ≡ some q =
        entry-store_url id url user_id id s₁ k₁.wf ∙ rw (eq_refl id) held in
      let (created, shown) = short_response-ended gzip (is_zipped r) token short (entry s₁ id) in
      (
        s₂,
        _,
        q,
        runs _ _ ran,
        stored-IsKept cfg user_id url s₁ h k₁,
        stands,
        gone ∙ ap is_deleted e,
        created ∙ ap (λ o. elim o [ none ↦ 201 | some r ↦ 409 ]) e,
        shown,
      )

  pub got :
      (r : Request) (uuid bytes url : Str) (q : Storer) (since : Past) (s : Ims) (d : Disk)
      → IsChi chi
      → IsBytes url
      → url ≢ []
      → (str "ping" == (shorten_url cfg url).0) ≡ false
      → ((key : Str) → since.drawn key ≡ true)
      → IsKept since s
      → IsReadable (str "GET") (b'/' ∷ (shorten_url cfg url).0) r
      → entry s (shorten_url cfg url).0 ≡ some q
      → (x : Ims × Disk) × (w : Response) × (answers (turn r uuid bytes) ((s, d), new_response)
          ≡ (returned tt, (x, w)))
        × (status w ≡ (if q.deleted then 410 else 307))
        × (load (str "Location") (sent_header w)
            ≡ (if q.deleted then none else some (wire.location r.path url)))
  got r uuid bytes url q since s d c h some_url no_ping all k g held =
      let id = (shorten_url cfg url).0 in
      let found =
        find_route-get wire m gcm (ims_loader encode_record) (returned uuid) (bytes, none) gzip id
          (shorten_url_lem cfg url).1 (shorten_url-ne-nil url some_url) no_ping in
      let (user_id, token, s₁, same, runs) =
        turn_layers r uuid bytes (str "GET") (b'/' ∷ id) (str "/{id}") (make_long wire m) s d c g
          found in
      let k₁ =
        entries-IsKept s s₁ same (λ key undrawn. absurd (not_drawn since key (all key) undrawn))
          k in
      let held₁ = ap (λ entries. record_of_value (load id entries)) same ∙ held in
      let loaded = load_url-kept url q since s₁ h k₁ held₁ in
      let ran =
        make_long-result wire m (record r { user_id = some user_id }) id (s₁, d) (s₁, d)
          (expected url q.deleted) (started (is_zipped r) token) g.to_path
          (ap (λ o. (o.0, (o.1, d))) loaded) in
      let (redirected, located) =
        long_response-ended wire gzip (is_zipped r) token r.path id url q.deleted some_url in
      ((s₁, d), _, runs _ _ ran, redirected, located)
