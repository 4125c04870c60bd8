-- ===== src/Server/HttpServer/RoundTrip.antt =====
-- Posting a URL and getting it back, over the in-memory storage.
use urlshortner.Prelude.{
  ℕ, Str, str, IsBytes, load, store, ◌==◌, returned, ◌≡◌, ap, refl, true, false, Bool, Option, none,
  some, List, [], ◌∷◌, ◌++◌, arith, if◌then◌else◌,
}
use urlshortner.Config.{Config}
use urlshortner.Storage.Errors.{Error, err_url_gone, error_text, is_conflict, is_url_gone}
use urlshortner.Storage.Filestorage.{Disk}
use urlshortner.Storage.Inmemory
use urlshortner.Storage.Inmemory.{Storer, Ims}
use urlshortner.Storage.Inmemory.Invariant.{IsWf}
use urlshortner.Storage.Inmemory.Table.{entry, store_error}
use urlshortner.Shortener
use urlshortner.Shortener.{MyShortener, in_memory, shorten_url}
use urlshortner.Shortener.Finding.{IsShortened, is_deleted, find_shortened}
use urlshortner.Server.Http.{
  Request, Response, new_response, http_error, set_header, write_header, write_body, status,
}
use urlshortner.Server.HttpServer.Handlers.{Wire, read_body}
use urlshortner.Server.HttpServer.Handlers.Shorten.{make_short}
use urlshortner.Server.HttpServer.Handlers.Lookup.{make_long}

-- What the client gets, by the storage's answer.
abbrev pub short_response : Str → Option Error → Response → Response
short_response url none w = write_body url (write_header 201 w)
short_response url (some e) w =
    if is_conflict (some e)
    then write_body url (write_header 409 w)
    else http_error (error_text e) 500 w

module _ (wire : Wire) where
  abbrev pub long_response : Str → Str → Str × Option Error → Response → Response
  long_response path id (url, some e) w =
      if is_url_gone (some e)
      then http_error (error_text e) 410 w
      else http_error (error_text e) 404 w
  long_response path id (url, none) w =
      if url == []
      then http_error (str "id " ++ id ++ str " not found") 404 w
      else write_body (wire.redirect_text (wire.location path url)) (
          write_header 307 (
            set_header (str "Content-Type") (str "text/html; charset=utf-8")
              (set_header (str "Location") (wire.location path url) w)))

  module _ {S : Type 0} (m : MyShortener S) where
    pub make_short-result :
        (r : Request) (user_id url : Str) (x x' : S) (err : Option Error) (w : Response)
        → r.user_id ≡ some user_id
        → read_body wire r ≡ (url, none)
        → Shortener.store_url m (shorten_url m.config url).0 url user_id x ≡ (returned err, x')
        → make_short wire m r (x, w)
          ≡ (returned tt, (x', short_response (shorten_url m.config url).1 err w))
    unfolding make_short
    make_short-result r user_id url x x' none w named read stored = ground arith
    make_short-result r user_id url x x' (some e) w named read stored = ground arith

    pub make_long-result :
        (r : Request) (id : Str) (x x' : S) (found : Str × Option Error) (w : Response)
        → r.path ≡ b'/' ∷ id
        → Shortener.find_url m id x ≡ (returned found, x')
        → make_long wire m r (x, w) ≡ (returned tt, (x', long_response r.path id found w))
    unfolding make_long
    make_long-result r id x x' (url, none) w at_path loaded = ground arith
    make_long-result r id x x' (url, some e) w at_path loaded = ground arith

short_response_lem :
    (url : Str) (o : Option Storer)
    → (status (short_response url (store_error o) new_response)
        ≡ (elim o [ none ↦ 201 | some r ↦ 409 ]))
      × ((short_response url (store_error o) new_response).body ≡ url)
unfolding is_conflict
short_response_lem url none = (refl, refl)
short_response_lem url (some r) = (refl, refl)

long_response_lem :
    (wire : Wire) (path id url : Str) (gone : Bool)
    → (let w =
          long_response wire path id
            (if gone then ([], some err_url_gone) else (url, none))
            new_response in
        let expected : ℕ = if gone then 410 else if url == [] then 404 else 307 in
        (status w ≡ expected)
        × (load (str "Location") w.header
            ≡ (if gone then none else if url == [] then none else some (wire.location path url))))
unfolding is_url_gone load store ◌==◌
long_response_lem wire path id url true = (refl, refl)
long_response_lem wire path id [] false = (refl, refl)
long_response_lem wire path id (b ∷ url) false = (refl, refl)

-- `POST /` of a URL, and then `GET` of the id that it was given, by anyone.
module _ (wire : Wire) (encode_record : List Str → Str) (cfg : Config) (user_id url : Str) (s : Ims)
    (d : Disk) where
  abbrev url_id : Str
  url_id = (shorten_url cfg url).0

  -- The answer to the GET: gone if the id was deleted before, not found for the empty URL.
  abbrev pub expected_status : ℕ
  expected_status = if is_deleted (entry s url_id) then 410 else if url == [] then 404 else 307

  -- Where the GET sends the client, if anywhere.
  abbrev pub expected_location : Str → Option Str
  expected_location path =
      if is_deleted (entry s url_id)
      then none
      else if url == []
      then none
      else some (wire.location path url)

  -- Over a well-formed storage whose records all stand under the ids of their URLs, a POST whose
  -- body reads as the URL is answered by 201 if the id is new and by 409 if it is there, with the
  -- short URL in both cases. A GET of that id is then answered by a redirection to the very URL,
  -- unless the record under the id had been deleted before (410), or the URL is empty (404).
  pub post_then_get :
      (post get : Request)
      → IsBytes url
      → IsWf s
      → IsShortened s
      → post.user_id ≡ some user_id
      → read_body wire post ≡ (url, none)
      → get.path ≡ b'/' ∷ url_id
      → (let posted = make_short wire (in_memory encode_record cfg) post ((s, d), new_response) in
          let got = make_long wire (in_memory encode_record cfg) get (posted.1.0, new_response) in
          (posted.0 ≡ returned tt)
          × (status posted.1.1 ≡ (elim (entry s url_id) [ none ↦ 201 | some r ↦ 409 ]))
          × (posted.1.1.body ≡ (shorten_url cfg url).1)
          × (got.0 ≡ returned tt)
          × (status got.1.1 ≡ expected_status)
          × (load (str "Location") got.1.1.header ≡ expected_location get.path))
  post_then_get post get bytes w k named read at_path =
      let (stored, loaded) = find_shortened cfg url user_id s bytes w k in
      let s' = (Inmemory.store_url url_id url user_id s).1 in
      let s'' = (Inmemory.load_url url_id s').1 in
      let gone = is_deleted (entry s url_id) in
      let (created, shown) = short_response_lem (shorten_url cfg url).1 (entry s url_id) in
      let (redirected, located) = long_response_lem wire get.path url_id url gone in
      rw
        (make_short-result wire (in_memory encode_record cfg) post user_id url (s, d) (s', d) _
          new_response named read (ap (λ o. (o, (s', d))) stored))
        (rw
          (make_long-result wire (in_memory encode_record cfg) get url_id (s', d) (s'', d) _
            new_response at_path (ap (λ o. (o, (s'', d))) loaded))
          (refl, created, shown, refl, redirected, located))
