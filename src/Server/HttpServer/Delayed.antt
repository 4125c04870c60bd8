-- ===== src/Server/HttpServer/Delayed.antt =====
-- `DELETE /api/user/urls` over the database storage, whose deletions wait in a buffer.
use urlshortner.Prelude.{
  ℕ, ◌≤◌, Bool, Str, str, length, Outcome, returned, panicked, Exec, ◌≡◌, refl, true, Option, none,
  some, List, [], ◌∷◌, ◌++◌, arith,
}
use urlshortner.Config.{Config}
use urlshortner.Storage.Errors.{Error}
use urlshortner.Storage.Database.{Sql, Rows, load_url}
use urlshortner.Storage.Database.Buffer.{
  Item, Gob, items_of, all_items, statement, arguments, AsyncBuf, init_buffer, tick,
}
use urlshortner.Storage.Database.Buffer.Delivery.{stream, filled, IsGob}
use urlshortner.Storage.Database.Buffer.Pending.{pending, delete_urls-pending, tick-pending}
use urlshortner.Storage.Database.Loader.{sql_beside, buffered_loader}
use urlshortner.Shortener.{MyShortener}
use urlshortner.Server.Http.{Request, Response, new_response, status}
use urlshortner.Server.HttpServer.Handlers.{Wire, ct_json, read_body}
use urlshortner.Server.HttpServer.Handlers.Lookup.{make_long, delete_batch}
use urlshortner.Server.HttpServer.Deletion.{delete_batch-result}

module _ (gob : Gob) {S : Type 0} (sql : Sql S)
    (exec : Str → List Str → Exec S ((ℕ × Option Error) × Option Error)) (cfg : Config) where
  -- The service over the database, with the buffer in its state.
  abbrev pub over_buffer : MyShortener (AsyncBuf gob × S)
  over_buffer = record { storage = buffered_loader gob sql exec; config = cfg }

  -- A query does not look at the buffer.
  load_url-beside :
      (id : Str) (x : S) (b : AsyncBuf gob)
      → load_url (sql_beside gob sql) id (b, x)
        ≡ ((load_url sql id x).0, (b, (load_url sql id x).1))
  unfolding load_url
  load_url-beside id x b = answered (sql.select_url id x) refl
    where
      answered :
          (o : Outcome (Rows (Str × Bool) × Option Error) × S)
          → sql.select_url id x ≡ o
          → load_url (sql_beside gob sql) id (b, x)
            ≡ ((load_url sql id x).0, (b, (load_url sql id x).1))
      answered (panicked, x') e = rw e refl
      answered (returned q, x') e = rw e refl

  module _ (wire : Wire) where
    -- What a GET does with what the query gave, whatever waits in the buffer.
    abbrev Agree : Request → S → AsyncBuf gob → AsyncBuf gob → Response → Type 0
    Agree get x b b' w =
        (let got = make_long wire over_buffer get ((b', x), w) in
          let before = make_long wire over_buffer get ((b, x), w) in
          (got.0 ≡ before.0) × (got.1.1 ≡ before.1.1) × (got.1.0.1 ≡ before.1.0.1))

    loaded-Agree :
        (get : Request) (c : ℕ) (id : Str) (x x' : S) (b b' : AsyncBuf gob) (w : Response)
        (o : Outcome (Str × Option Error))
        → get.path ≡ c ∷ id
        → load_url (sql_beside gob sql) id (b, x) ≡ (o, (b, x'))
        → load_url (sql_beside gob sql) id (b', x) ≡ (o, (b', x'))
        → Agree get x b b' w
    unfolding make_long
    loaded-Agree get c id x x' b b' w panicked at_path e e' = rw (at_path, e, e') (refl, refl, refl)
    loaded-Agree get c id x x' b b' w (returned (url, none)) at_path e e' =
        (ground arith, ground arith, ground arith)
    loaded-Agree get c id x x' b b' w (returned (url, some err)) at_path e e' =
        (ground arith, ground arith, ground arith)

    path-Agree :
        (get : Request) (path : Str) (x : S) (b b' : AsyncBuf gob) (w : Response)
        → get.path ≡ path
        → Agree get x b b' w
    unfolding make_long
    path-Agree get [] x b b' w at_path = rw at_path (refl, refl, refl)
    path-Agree get (c ∷ id) x b b' w at_path =
        loaded-Agree get c id x (load_url sql id x).1 b b' w (load_url sql id x).0 at_path
          (load_url-beside id x b) (load_url-beside id x b')

    -- With a `gob` that decodes what it has encoded: a DELETE with a JSON body that decodes, from a
    -- user, finds some deletions waiting and room for its own in the 4096 bytes of the buffer. It is
    -- accepted with 202 and reaches the buffer only, behind the others. Until the next tick every
    -- GET is answered as before it. At the tick, when no user and no id is empty, one UPDATE with
    -- the items of all of them is run, and when the database carries it out the buffer is empty.
    pub deletion_delayed :
        (del get : Request) (user_id body : Str) (ids : List Str) (ds : List (List Item)) (n : ℕ)
        (x x' : S)
        → IsGob gob
        → del.user_id ≡ some user_id
        → del.get_header (str "Content-Type") ≡ ct_json
        → read_body wire del ≡ (body, none)
        → wire.decode_ids body ≡ (ids, none)
        → length (stream gob gob.new_encoder (ds ++ items_of user_id ids ∷ [])) ≤ 4096
        → filled (all_items (ds ++ items_of user_id ids ∷ [])) ≡ true
        → (let items = all_items (ds ++ items_of user_id ids ∷ []) in
            exec (statement items) (arguments items) x ≡ (returned ((n, none), none), x'))
        → (let deleted = delete_batch wire over_buffer del ((pending gob ds, x), new_response) in
            let before = make_long wire over_buffer get ((pending gob ds, x), new_response) in
            let got = make_long wire over_buffer get (deleted.1.0, new_response) in
            (deleted.0 ≡ returned tt)
            × (status deleted.1.1 ≡ 202)
            × (deleted.1.0 ≡ (pending gob (ds ++ items_of user_id ids ∷ []), x))
            × (got.0 ≡ before.0)
            × (got.1.1 ≡ before.1.1)
            × (tick gob exec deleted.1.0 ≡ (returned tt, (init_buffer gob, x'))))
    deletion_delayed del get user_id body ids ds n x x' g named typed read decoded fits full done =
        let after = pending gob (ds ++ items_of user_id ids ∷ []) in
        let (out, response, same) =
          path-Agree get get.path x (pending gob ds) after new_response refl in
        rw
          (delete_batch-result wire over_buffer del user_id body ids (pending gob ds, x) (after, x)
            new_response named typed read decoded
            (delete_urls-pending gob exec user_id ids ds x g fits))
          (
            refl,
            refl,
            refl,
            out,
            response,
            tick-pending gob exec ds (items_of user_id ids) n x x' g (full, done),
          )
