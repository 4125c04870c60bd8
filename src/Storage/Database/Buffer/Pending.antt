-- ===== src/Storage/Database/Buffer/Pending.antt =====
-- The buffer of internal/storage/database/database.go as the list of the messages that wait in it.
use urlshortner.Prelude.{
  ℕ, ◌+◌, ◌≤◌, ◌<◌, Str, length, length-append, returned, Exec, ◌≡◌, ◌∙◌, refl, Option, none, List,
  [], ◌∷◌, ◌++◌, arith, true,
}
use mathlib.Core.List.{append_assoc, append-nil}
use urlshortner.Storage.Errors.{Error}
use urlshortner.Storage.Database.Buffer.{
  Item, Gob, items_of, all_items, statement, arguments, AsyncBuf, init_buffer, tick, delete_urls,
}
use urlshortner.Storage.Database.Buffer.Delivery.{
  stream, encoder_after, filled, IsGob, filled_each-all_items, delete_urls-buffered, tick-written,
}

module _ (gob : Gob) where
  -- The buffer in which these messages wait, with its encoder.
  abbrev pub pending : List (List Item) → AsyncBuf gob
  pending ds = record {
    enc = encoder_after gob gob.new_encoder ds;
    writer = record { buffered = stream gob gob.new_encoder ds; err = none };
  }

  encoder_after-append :
      (enc : gob.Encoder) (ds : List (List Item)) (d : List Item)
      → encoder_after gob enc (ds ++ d ∷ []) ≡ (gob.encode (encoder_after gob enc ds) d).1
  unfolding encoder_after
  encoder_after-append enc [] d = refl
  encoder_after-append enc (c ∷ ds) d = encoder_after-append (gob.encode enc c).1 ds d

  pub stream-append :
      (enc : gob.Encoder) (ds : List (List Item)) (d : List Item)
      → stream gob enc (ds ++ d ∷ [])
        ≡ stream gob enc ds ++ (gob.encode (encoder_after gob enc ds) d).0.0
  unfolding stream encoder_after
  stream-append enc [] d = append-nil (gob.encode enc d).0.0
  stream-append enc (c ∷ ds) d =
      rw (stream-append (gob.encode enc c).1 ds d)
        (rw (append_assoc (gob.encode enc c).0.0 (stream gob (gob.encode enc c).1 ds) _) refl)

  some_stream :
      (ds : List (List Item)) (d : List Item)
      → IsGob gob
      → 0 < length (stream gob gob.new_encoder (ds ++ d ∷ []))
  some_stream ds d g =
      let last = (gob.encode (encoder_after gob gob.new_encoder ds) d).0.0 in
      rw (stream-append gob.new_encoder ds d) (
        omega (
          arith,
          g.some_byte (encoder_after gob gob.new_encoder ds) d,
          length-append (stream gob gob.new_encoder ds) last,
        ))

  module _ {S : Type 0} (exec : Str → List Str → Exec S ((ℕ × Option Error) × Option Error)) where
    -- A deletion adds its message, as long as there is room.
    pub delete_urls-pending :
        (user_id : Str) (ids : List Str) (ds : List (List Item)) (x : S)
        → IsGob gob
        → length (stream gob gob.new_encoder (ds ++ items_of user_id ids ∷ [])) ≤ 4096
        → delete_urls gob exec user_id ids (pending ds, x)
          ≡ (returned none, (pending (ds ++ items_of user_id ids ∷ []), x))
    delete_urls-pending user_id ids ds x g fits =
        let d = items_of user_id ids in
        let enc = encoder_after gob gob.new_encoder ds in
        let t = stream gob gob.new_encoder ds in
        let size : length t + length (gob.encode enc d).0.0 ≤ 4096 =
          rw (← length-append t (gob.encode enc d).0.0, ← stream-append gob.new_encoder ds d)
            fits in
        rw (stream-append gob.new_encoder ds d, encoder_after-append gob.new_encoder ds d)
          (delete_urls-buffered gob exec user_id ids enc t x (g.encodes enc d) size)

    -- The next tick runs one UPDATE with the items of all messages.
    pub tick-pending :
        (ds : List (List Item)) (d : List Item) (n : ℕ) (x x' : S)
        → IsGob gob
        → (let items = all_items (ds ++ d ∷ []) in
            (filled items ≡ true)
            × (exec (statement items) (arguments items) x ≡ (returned ((n, none), none), x')))
        → tick gob exec (pending (ds ++ d ∷ []), x) ≡ (returned tt, (init_buffer gob, x'))
    tick-pending ds d n x x' g (full, done) =
        tick-written gob exec _ (ds ++ d ∷ []) _ n x x'
          (g.decodes (ds ++ d ∷ []) (filled_each-all_items (ds ++ d ∷ []) ∙ full))
          (some_stream ds d g) done
