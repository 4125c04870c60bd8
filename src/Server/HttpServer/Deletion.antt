-- ===== src/Server/HttpServer/Deletion.antt =====
-- Deleting URLs over HTTP, and what a client is then told, over the in-memory storage.
use urlshortner.Prelude.{
  ℕ, Str, str, ◌==◌, eq_refl, returned, ◌≡◌, ◌∙◌, ap, sym, refl, Option, none, some, List, [], ◌∷◌,
  arith, if◌then◌else◌,
}
use urlshortner.Config.{Config}
use urlshortner.Storage.Errors.{is_url_gone}
use urlshortner.Storage.Filestorage.{Disk}
use urlshortner.Storage.Inmemory.{Storer, Ims}
use urlshortner.Storage.Inmemory.Invariant.{IsWf, delete_urls_total}
use urlshortner.Storage.Inmemory.Table.{entry, answer, delete_in}
use urlshortner.Storage.Inmemory.Lookup.{load_url-entry}
use urlshortner.Storage.Inmemory.Delete.{entry-delete_urls}
use urlshortner.Shortener
use urlshortner.Shortener.{MyShortener, in_memory}
use urlshortner.Server.Http.{Request, Response, new_response, write_header, status}
use urlshortner.Server.HttpServer.Handlers.{Wire, ct_json, read_body}
use urlshortner.Server.HttpServer.Handlers.Lookup.{make_long, delete_batch}
use urlshortner.Server.HttpServer.RoundTrip.{long_response, make_long-result}

-- The status of a GET, by the record under the id.
abbrev pub get_status : Option Storer → ℕ
get_status none = 404
get_status (some r) = if r.deleted then 410 else if r.url == [] then 404 else 307

long_response-answer :
    (wire : Wire) (path id : Str) (o : Option Storer)
    → status (long_response wire path id (answer id o) new_response) ≡ get_status o
unfolding is_url_gone
long_response-answer wire path id none = refl
long_response-answer wire path id (some r) = ground arith

module _ (wire : Wire) {S : Type 0} (m : MyShortener S) where
  pub delete_batch-result :
      (r : Request) (user_id body : Str) (ids : List Str) (x x' : S) (w : Response)
      → r.user_id ≡ some user_id
      → r.get_header (str "Content-Type") ≡ ct_json
      → read_body wire r ≡ (body, none)
      → wire.decode_ids body ≡ (ids, none)
      → Shortener.delete_urls m user_id ids x ≡ (returned none, x')
      → delete_batch wire m r (x, w) ≡ (returned tt, (x', write_header 202 w))
  unfolding delete_batch
  delete_batch-result r user_id body ids x x' w named typed read decoded gone =
      ground (arith, eq_refl ct_json)

module _ (wire : Wire) (encode_record : List Str → Str) (cfg : Config) where
  -- A GET of an id is answered by its record alone.
  pub make_long-status :
      (get : Request) (id : Str) (s : Ims) (d : Disk)
      → IsWf s
      → get.path ≡ b'/' ∷ id
      → (let got = make_long wire (in_memory encode_record cfg) get ((s, d), new_response) in
          (got.0 ≡ returned tt) × (status got.1.1 ≡ get_status (entry s id)))
  make_long-status get id s d w at_path =
      let loaded = load_url-entry id s w in
      rw
        (make_long-result wire (in_memory encode_record cfg) get id (s, d) (s, d) _ new_response
          at_path (ap (λ o. (o.0, (o.1, d))) loaded))
        (refl, long_response-answer wire get.path id (entry s id))

  -- Over a well-formed storage, `DELETE /api/user/urls` with a JSON body that decodes is accepted
  -- with 202. Afterwards a GET answers 410 for each listed id whose live record is the user's, and
  -- for every other id by the record that was there before.
  pub delete_then_get :
      (del get : Request) (user_id body id : Str) (ids : List Str) (s : Ims) (d : Disk)
      → IsWf s
      → del.user_id ≡ some user_id
      → del.get_header (str "Content-Type") ≡ ct_json
      → read_body wire del ≡ (body, none)
      → wire.decode_ids body ≡ (ids, none)
      → get.path ≡ b'/' ∷ id
      → (let deleted = delete_batch wire (in_memory encode_record cfg) del ((s, d), new_response) in
          let got = make_long wire (in_memory encode_record cfg) get (deleted.1.0, new_response) in
          (deleted.0 ≡ returned tt)
          × (status deleted.1.1 ≡ 202)
          × (got.0 ≡ returned tt)
          × (status got.1.1 ≡ get_status (delete_in user_id ids id (entry s id))))
  delete_then_get del get user_id body id ids s d w named typed read decoded at_path =
      let (m', ran, w') = delete_urls_total user_id ids s w in
      let s' : Ims = record s { entries = m' } in
      let marked : entry s' id ≡ delete_in user_id ids id (entry s id) =
        ap (λ r. entry r.1 id) (sym ran) ∙ entry-delete_urls user_id id ids s w in
      let (back, told) = make_long-status get id s' d w' at_path in
      rw
        (delete_batch-result wire (in_memory encode_record cfg) del user_id body ids (s, d) (s', d)
          new_response named typed read decoded (ap (λ o. (o.0, (o.1, d))) ran))
        (refl, refl, back, told ∙ ap get_status marked)
