-- ===== src/Server/HttpServer/Answers/Storing.antt =====
-- The handlers of the HTTP server that store URLs.
use urlshortner.Prelude.{
  load, ap, ◌∙◌, ◌⊎◌, Str, str, ◌==◌, IsBytes, All, Bool-cases, Option-cases, inl, inr, returned,
  ◌≡◌, refl, Option, none, some, List, [], ◌∷◌, ◌++◌, arith,
}
use urlshortner.Config.{Config}
use urlshortner.Storage.Errors.{Error, error_text}
use urlshortner.Storage.Filestorage.{Disk}
use urlshortner.Storage.Inmemory
use urlshortner.Storage.Inmemory.{Ims}
use urlshortner.Storage.Inmemory.Invariant.{store_url-IsWf}
use urlshortner.Storage.Inmemory.Table.{entry, store_error}
use urlshortner.Storage.Inmemory.Lookup.{store_url-result, entry-store_url}
use urlshortner.Shortener.{in_memory, shorten_url}
use urlshortner.Shortener.Finding.{store_url-IsShortened}
use urlshortner.Server.Http.{Request, Response, http_error}
use urlshortner.Server.HttpServer.Handlers.{Wire, Urlwid, Urlwidres, ct_json, or_empty, read_body}
use urlshortner.Server.HttpServer.Handlers.Shorten.{
  make_short, make_short_json, batch_loop, shorten_batch_json,
}
use urlshortner.Server.HttpServer.Answers.{
  Past, Persists-store_in, IsKept, Ends, Answered, Ends-Answered, IsBytewise,
}

module _ (cfg : Config) (user_id url : Str) (s : Ims) where
  abbrev pub stored : Ims
  stored = (Inmemory.store_url (shorten_url cfg url).0 url user_id s).1

  stored-sessions : stored.sessions ≡ s.sessions
  unfolding Inmemory.store_url
  stored-sessions = elim (Option-cases (load (shorten_url cfg url).0 s.entries)) [
    | inl free ↦ ground arith
    | inr (v, found) ↦ ground arith
  ]

  pub stored-IsKept : {since : Past} → IsBytes url → IsKept since s → IsKept since stored
  stored-IsKept {since} h k = record {
    wf = store_url-IsWf (shorten_url cfg url).0 url user_id s k.wf;
    shortened = store_url-IsShortened cfg url user_id s h k.wf k.shortened;
    stays = λ id.
        rw (entry-store_url (shorten_url cfg url).0 url user_id id s k.wf)
          (elim (Bool-cases ((shorten_url cfg url).0 == id)) [
            | inl here ↦
                rw here (Persists-store_in _ (entry since.storage id) (entry s id) (k.stays id))
            | inr elsewhere ↦ rw elsewhere (k.stays id)
          ]);
    sessions = λ key undrawn. ap (load key) stored-sessions ∙ k.sessions key undrawn;
  }

  -- Storing returns an error or none.
  store_url-returned :
      {since : Past}
      → IsKept since s
      → (err : Option Error) × (Inmemory.store_url (shorten_url cfg url).0 url user_id s
          ≡ (returned err, stored))
  store_url-returned k =
      let id = (shorten_url cfg url).0 in
      (store_error (entry s id), λ i. (store_url-result id url user_id s k.wf i, stored))

module _ (wire : Wire) (encode_record : List Str → Str) (cfg : Config) (s : Ims) (d : Disk)
    (w : Response) where
  make_short-Ends :
      (r : Request) (user_id : Str) (err : Option Error) (s' : Ims)
      → r.user_id ≡ some user_id
      → (let url = (read_body wire r).0 in
          Inmemory.store_url (shorten_url cfg url).0 url user_id s ≡ (returned err, s'))
      → (let o = make_short wire (in_memory encode_record cfg) r ((s, d), w) in
          Ends o s ⊎ Ends o s')
  unfolding make_short
  make_short-Ends r user_id err s' named done = elim (Option-cases (read_body wire r).1) [
    | inr (e, unread) ↦ inl (ground arith)
    | inl read ↦ elim (Option-cases err) [
      | inl fresh ↦ inr (ground arith)
      | inr (e, failed) ↦ inr (ground arith)
    ]
  ]

  make_short_json-Ends :
      (r : Request) (err : Option Error) (s' : Ims)
      → (let url = (wire.decode_urlreq (read_body wire r).0).0 in
          Inmemory.store_url (shorten_url cfg url).0 url (or_empty r.user_id) s
          ≡ (returned err, s'))
      → (let o = make_short_json wire (in_memory encode_record cfg) r ((s, d), w) in
          Ends o s ⊎ Ends o s')
  unfolding make_short_json
  make_short_json-Ends r err s' done =
      elim (Bool-cases (r.get_header (str "Content-Type") == ct_json)) [
        | inr other_type ↦ inl (ground arith)
        | inl typed ↦ elim (Option-cases (wire.decode_urlreq (read_body wire r).0).1) [
          | inr (e, undecoded) ↦ inl (elim (Option-cases (read_body wire r).1) [
            | inl read ↦ ground arith
            | inr (e, unread) ↦ ground arith
          ])
          | inl decoded ↦ inr (elim (Option-cases (read_body wire r).1) [
            | inl read ↦ elim (Option-cases err) [
              | inl fresh ↦ ground arith
              | inr (e, failed) ↦ ground arith
            ]
            | inr (e, unread) ↦ elim (Option-cases err) [
              | inl fresh ↦ ground arith
              | inr (e, failed) ↦ ground arith
            ]
          ])
        ]
      ]

  pub make_short-Answered :
      {since : Past} (r : Request) (user_id : Str)
      → r.user_id ≡ some user_id
      → IsBytes (read_body wire r).0
      → IsKept since s
      → Answered since (make_short wire (in_memory encode_record cfg) r ((s, d), w))
  make_short-Answered r user_id named h k =
      let url = (read_body wire r).0 in
      let (err, done) = store_url-returned cfg user_id url s k in
      Ends-Answered (make_short wire (in_memory encode_record cfg) r ((s, d), w)) k
        (stored-IsKept cfg user_id url s h k)
        (make_short-Ends r user_id err (stored cfg user_id url s) named done)

  pub make_short_json-Answered :
      {since : Past} (r : Request)
      → IsBytewise wire
      → IsBytes (read_body wire r).0
      → IsKept since s
      → Answered since (make_short_json wire (in_memory encode_record cfg) r ((s, d), w))
  make_short_json-Answered r h b k =
      let user_id = or_empty r.user_id in
      let url = (wire.decode_urlreq (read_body wire r).0).0 in
      let (err, done) = store_url-returned cfg user_id url s k in
      Ends-Answered (make_short_json wire (in_memory encode_record cfg) r ((s, d), w)) k
        (stored-IsKept cfg user_id url s (h.urls (read_body wire r).0 b) k)
        (make_short_json-Ends r err (stored cfg user_id url s) done)

module _ (wire : Wire) (encode_record : List Str → Str) (cfg : Config) (d : Disk) where
  -- A URL that was stored is followed by the others; an error ends the batch.
  batch_loop-step :
      (user_id : Str) (v : Urlwid) (vs : List Urlwid) (res : List Urlwidres) (s s' : Ims)
      (w : Response) (err : Option Error)
      → Inmemory.store_url (shorten_url cfg v.original_url).0 v.original_url user_id s
        ≡ (returned err, s')
      → (let o = batch_loop wire (in_memory encode_record cfg) user_id (v ∷ vs) res ((s, d), w) in
          Ends o s'
          ⊎ ((res' : List Urlwidres) × (o
                ≡ batch_loop wire (in_memory encode_record cfg) user_id vs res' ((s', d), w))))
  unfolding batch_loop
  batch_loop-step user_id v vs res s s' w none done = inr (
    res
        ++ record {
          correlation_id = v.correlation_id;
          short_url = (shorten_url cfg v.original_url).1;
        }
          ∷ [],
    ground arith,
  )
  batch_loop-step user_id v vs res s s' w (some e) done = inl (ground arith)

  batch_loop-Answered :
      {since : Past} (user_id : Str) (vs : List Urlwid) (res : List Urlwidres) (s : Ims)
      (w : Response)
      → All (λ (v : Urlwid). IsBytes v.original_url) vs
      → IsKept since s
      → Answered since (batch_loop wire (in_memory encode_record cfg) user_id vs res ((s, d), w))
  unfolding batch_loop
  batch_loop-Answered user_id [] res s w h k = (refl, k)
  batch_loop-Answered user_id (v ∷ vs) res s w h k =
      let s' = stored cfg user_id v.original_url s in
      let k' = stored-IsKept cfg user_id v.original_url s h.0 k in
      let (err, done) = store_url-returned cfg user_id v.original_url s k in
      elim (batch_loop-step user_id v vs res s s' w err done) [
        | inl (ends, same) ↦ (ends, rw same k')
        | inr (res', goes_on) ↦ rw goes_on (batch_loop-Answered user_id vs res' s' w h.1 k')
      ]

  -- A body that cannot be read is answered and decoded all the same.
  batch_started :
      (r : Request) (s : Ims) (w : Response)
      → (let o = shorten_batch_json wire (in_memory encode_record cfg) r ((s, d), w) in
          let vs = (wire.decode_batch (read_body wire r).0).0 in
          Ends o s
          ⊎ ((w' : Response) × (o
                ≡ batch_loop wire
                    (in_memory encode_record cfg)
                    (or_empty r.user_id)
                    vs
                    []
                    ((s, d), w'))))
  unfolding shorten_batch_json
  batch_started r s w = elim (Bool-cases (r.get_header (str "Content-Type") == ct_json)) [
    | inr other_type ↦ inl (ground arith)
    | inl typed ↦ elim (Option-cases (wire.decode_batch (read_body wire r).0).1) [
      | inr (e, undecoded) ↦ inl (elim (Option-cases (read_body wire r).1) [
        | inl read ↦ ground arith
        | inr (e', unread) ↦ ground arith
      ])
      | inl decoded ↦ inr (elim (Option-cases (read_body wire r).1) [
        | inl read ↦ (w, ground arith)
        | inr (e, unread) ↦ (http_error (error_text e) 500 w, ground arith)
      ])
    ]
  ]

  pub shorten_batch_json-Answered :
      {since : Past} (r : Request) (s : Ims) (w : Response)
      → IsBytewise wire
      → IsBytes (read_body wire r).0
      → IsKept since s
      → Answered since (shorten_batch_json wire (in_memory encode_record cfg) r ((s, d), w))
  shorten_batch_json-Answered r s w h b k =
      let vs = (wire.decode_batch (read_body wire r).0).0 in
      elim (batch_started r s w) [
        | inl (ends, same) ↦ (ends, rw same k)
        | inr (w', goes_on) ↦ rw goes_on (
            batch_loop-Answered (or_empty r.user_id) vs [] s w' (h.batches (read_body wire r).0 b)
              k)
      ]
