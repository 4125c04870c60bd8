-- ===== src/Server/HttpServer/Answers/Reading.antt =====
-- The handlers of the HTTP server that only read the storage, and the deletion.
use urlshortner.Prelude.{
  ℕ, ◌⊎◌, Str, str, ◌==◌, Bool-cases, Option-cases, inl, inr, returned, ◌≡◌, ◌≢◌, refl, Option,
  none, some, List, [], ◌∷◌, arith,
}
use urlshortner.Config.{Config}
use urlshortner.Storage.Interface.{Pairs, append_pair, load_by_user}
use urlshortner.Storage.Database.Ping.{pingdb}
use urlshortner.Storage.Errors.{Error}
use urlshortner.Storage.Filestorage.{Disk}
use urlshortner.Storage.Inmemory
use urlshortner.Storage.Inmemory.{Ims, visit_urls, load_urls_by_user, delete_urls}
use urlshortner.Storage.Inmemory.Invariant.{IsWf, visit_urls_total, delete_urls_total}
use urlshortner.Storage.Inmemory.Table.{entry, answer}
use urlshortner.Storage.Inmemory.Lookup.{load_url-entry}
use urlshortner.Storage.Inmemory.Delete.{entry-delete_urls}
use urlshortner.Storage.Inmemory.Counts.{count_users_lem, count_urls-result}
use urlshortner.Shortener.{in_memory, make_url}
use urlshortner.Shortener.Finding.{IsShortened, delete_urls-IsShortened}
use urlshortner.Server.Http.{Request, Response}
use urlshortner.Server.HttpServer.Handlers.{Wire, ct_json, or_empty, read_body}
use urlshortner.Server.HttpServer.Handlers.Lookup.{make_long, make_long_by_user, delete_batch}
use urlshortner.Server.HttpServer.Handlers.Stats.{ping_storage, stats}
use urlshortner.Server.HttpServer.Answers.{
  Past, Persists, Persists-delete_in, IsKept, Ends, Answered, Ends-Answered,
}

some_byte : (p : Str) → p ≢ [] → (b : ℕ) × (q : Str) × (p ≡ b ∷ q)
some_byte [] some_path = absurd (some_path refl)
some_byte (b ∷ q) some_path = (b, q, refl)

module _ (wire : Wire) (encode_record : List Str → Str) (cfg : Config) (s : Ims) (d : Disk)
    (w : Response) where
  found-Ends :
      (r : Request) (b : ℕ) (id : Str) (found : Str × Option Error)
      → r.path ≡ b ∷ id
      → Inmemory.load_url id s ≡ (returned found, s)
      → Ends (make_long wire (in_memory encode_record cfg) r ((s, d), w)) s
  unfolding make_long
  found-Ends r b id (url, none) at_path loaded = ground arith
  found-Ends r b id (url, some e) at_path loaded = ground arith

  pub make_long-Ends :
      (r : Request)
      → r.path ≢ []
      → IsWf s
      → Ends (make_long wire (in_memory encode_record cfg) r ((s, d), w)) s
  make_long-Ends r some_path k =
      let (b, id, at_path) = some_byte r.path some_path in
      found-Ends r b id (answer id (entry s id)) at_path (load_url-entry id s k)

  listed-Ends :
      (r : Request) (user_id : Str) (ps : Pairs)
      → r.user_id ≡ some user_id
      → visit_urls (append_pair (make_url cfg)) user_id s.entries [] ≡ returned ps
      → Ends (make_long_by_user wire (in_memory encode_record cfg) r ((s, d), w)) s
  unfolding make_long_by_user load_by_user load_urls_by_user
  listed-Ends r user_id [] named listed = ground arith
  listed-Ends r user_id (p ∷ ps) named listed = ground arith

  pub make_long_by_user-Ends :
      (r : Request) (user_id : Str)
      → r.user_id ≡ some user_id
      → IsWf s
      → Ends (make_long_by_user wire (in_memory encode_record cfg) r ((s, d), w)) s
  make_long_by_user-Ends r user_id named k =
      let (ps, listed) = visit_urls_total (append_pair (make_url cfg)) user_id s.entries [] k.own in
      listed-Ends r user_id ps named listed

  pub ping_storage-Ends :
      (r : Request) → Ends (ping_storage wire (in_memory encode_record cfg) r ((s, d), w)) s
  unfolding ping_storage
  ping_storage-Ends r = elim (Option-cases (pingdb wire.pinger cfg.db_dsn)) [
    | inl ok ↦ ground arith
    | inr (e, down) ↦ ground arith
  ]

  pub stats-Ends :
      (r : Request) → IsWf s → Ends (stats wire (in_memory encode_record cfg) r ((s, d), w)) s
  unfolding stats
  stats-Ends r k =
      let (us, counted, distinct, same) = count_users_lem s k in
      ground (arith, counted, count_urls-result s)

  -- Where the deletion leaves the storage: a request that is refused changes nothing.
  delete_batch-Ends :
      (r : Request) (s' : Ims)
      → delete_urls (or_empty r.user_id) (wire.decode_ids (read_body wire r).0).0 s
        ≡ (returned none, s')
      → (Ends (delete_batch wire (in_memory encode_record cfg) r ((s, d), w)) s)
        ⊎ (Ends (delete_batch wire (in_memory encode_record cfg) r ((s, d), w)) s')
  unfolding delete_batch
  delete_batch-Ends r s' deleted =
      elim (Bool-cases (r.get_header (str "Content-Type") == ct_json)) [
        | inr other_type ↦ inl (ground arith)
        | inl typed ↦ elim (Option-cases (read_body wire r).1) [
          | inr (e, unread) ↦ inl (ground arith)
          | inl read ↦ elim (Option-cases (wire.decode_ids (read_body wire r).0).1) [
            | inr (e, undecoded) ↦ inl (ground arith)
            | inl decoded ↦ inr (ground arith)
          ]
        ]
      ]

  pub delete_batch-Answered :
      {since : Past} (r : Request)
      → IsKept since s
      → Answered since (delete_batch wire (in_memory encode_record cfg) r ((s, d), w))
  delete_batch-Answered {since} r k =
      let user_id = or_empty r.user_id in
      let ids = (wire.decode_ids (read_body wire r).0).0 in
      let (m, deleted, wf) = delete_urls_total user_id ids s k.wf in
      let s' : Ims = record s { entries = m } in
      let shortened : IsShortened s' =
        rw deleted at (delete_urls-IsShortened user_id ids s k.wf k.shortened) in
      let stays : (id : Str) → Persists (entry since.storage id) (entry s' id) = λ id.
        rw (rw deleted at (entry-delete_urls user_id id ids s k.wf))
          (Persists-delete_in user_id ids id (entry since.storage id) (entry s id) (k.stays id)) in
      Ends-Answered (delete_batch wire (in_memory encode_record cfg) r ((s, d), w)) k
        (record { wf = wf; shortened = shortened; stays = stays; sessions = k.sessions })
        (delete_batch-Ends r s' deleted)
