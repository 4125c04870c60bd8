-- ===== src/Storage/Database/Buffer/Refusal.antt =====
-- What becomes of the deletions after the buffer could not be written
-- (internal/storage/database/database.go).
use urlshortner.Prelude.{
  ℕ, Str, str, All, ◌≤◌, ◌<◌, length, Outcome, returned, Exec, pure, ◌>>=◌, ◌≡◌, ◌≢◌, refl, Option,
  none, some, List, [], ◌∷◌, arith, Option-cases, inl, inr,
}
use mathlib.Core.List.{append-nil}
use urlshortner.GoStd.Bufio
use urlshortner.Storage.Errors.{Error, wrapped}
use urlshortner.Storage.Database.Buffer.{
  Item, Gob, items_of, all_items, statement, arguments, AsyncBuf, init_buffer, write, flush, tick,
  delete_urls,
}
use urlshortner.Storage.Database.Buffer.Delivery.{
  stream, filled, filled_each, IsGob, delete_urls-buffered,
}

-- What happens to the buffer: a request with its user and ids, or a tick.
pub data Event : Type 0 where
  delete : Str → List Str → Event
  ticked : Event

parts :
    {A B C : Type 0} (o : A × (B × C)) {a : A} {c : C} → o.0 ≡ a → o.1.1 ≡ c → o ≡ (a, (o.1.0, c))
parts o p q = λ i. (p i, (o.1.0, q i))

module _ (gob : Gob) {S : Type 0}
    (exec : Str → List Str → Exec S ((ℕ × Option Error) × Option Error)) where
  -- The replies to the requests among the events.
  unfoldable pub run : List Event → Exec (AsyncBuf gob × S) (List (Option Error))
  run [] = pure []
  run (delete user_id ids ∷ es) = do
    err ← delete_urls gob exec user_id ids
    errs ← run es
    pure (err ∷ errs)
  run (ticked ∷ es) = do done ← tick gob exec; run es

  delete_urls-refused :
      (user_id : Str) (ids : List Str) (b : AsyncBuf gob) (x : S) (e : Error)
      → b.writer.err ≡ some e
      → (let asked = delete_urls gob exec user_id ids (b, x) in
          ((cause : Error) × (asked.0 ≡ returned (some cause)))
          × (asked.1.1 ≡ x)
          × (asked.1.0.writer.err ≡ some e))
  unfolding delete_urls Bufio.write
  delete_urls-refused user_id ids b x e stuck =
      elim (Option-cases (gob.encode b.enc (items_of user_id ids)).0.1) [
        | inl ok ↦
            ((wrapped (str "failed to write to buf: ") e, ground arith), ground arith, ground arith)
        | inr (c, bad) ↦ (
          (
            wrapped (str "failed to represent struct slice as bytes: ")
                (wrapped (str "enconig failed: ") c),
            ground arith,
          ),
          ground arith,
          ground arith,
        )
      ]

  tick-refused :
      (b : AsyncBuf gob) (x : S) (e : Error)
      → b.writer.err ≡ some e
      → (let after = tick gob exec (b, x) in
          (after.0 ≡ returned tt) × (after.1.1 ≡ x) × (after.1.0.writer.err ≡ some e))
  unfolding tick flush Bufio.flush
  tick-refused b x e stuck = (ground arith, ground arith, ground arith)

  -- The requests among the events are all refused, and nothing reaches the database.
  abbrev pub Refused : Outcome (List (Option Error)) × (AsyncBuf gob × S) → S → Type 0
  Refused o x =
      (errs : List (Option Error)) × (o.0 ≡ returned errs)
      × All (λ err. err ≢ none) errs
      × (o.1.1 ≡ x)

  pub run-Refused :
      (es : List Event) (b : AsyncBuf gob) (x : S) (e : Error)
      → b.writer.err ≡ some e
      → Refused (run es (b, x)) x
  unfolding run
  run-Refused [] b x e stuck = ([], refl, tt, refl)
  run-Refused (delete user_id ids ∷ es) b x e stuck =
      let ((cause, asked), same, stuck') = delete_urls-refused user_id ids b x e stuck in
      let b' = (delete_urls gob exec user_id ids (b, x)).1.0 in
      let (errs, ran, refused, kept) = run-Refused es b' x e stuck' in
      rw (parts (delete_urls gob exec user_id ids (b, x)) asked same)
        (rw (parts (run es (b', x)) ran kept) (some cause ∷ errs, refl, (λ q. cc, refused), refl))
  run-Refused (ticked ∷ es) b x e stuck =
      let (done, same, stuck') = tick-refused b x e stuck in
      let b' = (tick gob exec (b, x)).1.0 in
      let (errs, ran, refused, kept) = run-Refused es b' x e stuck' in
      rw (parts (tick gob exec (b, x)) done same) (errs, ran, refused, kept)

  decode_one : IsGob gob → gob.decode (gob.encode gob.new_encoder []).0.0 ≡ ([] ∷ [], none)
  unfolding stream filled_each filled
  decode_one g = rw (← append-nil (gob.encode gob.new_encoder []).0.0) (g.decodes ([] ∷ []) refl)

  tick-failed :
      (enc : gob.Encoder) (ds : List (List Item)) (t : Str) (rows : ℕ × Option Error) (e : Error)
      (x x' : S)
      → gob.decode t ≡ (ds, none)
      → 0 < length t
      → exec (statement (all_items ds)) (arguments (all_items ds)) x ≡ (returned (rows, some e), x')
      → tick gob exec (record { enc = enc; writer = record { buffered = t; err = none } }, x) ≡ (
        returned tt,
        (
          record {
            enc = gob.new_encoder;
            writer = record {
              buffered = t;
              err = some (wrapped (str "failed to update buffered urls in database: ") e);
            };
          },
          x',
        ),
      )
  unfolding tick flush Bufio.flush write
  tick-failed enc ds t rows e x x' read some_text fails = ground arith

  -- After a request to delete nothing, the next tick has the database run an UPDATE with an empty
  -- list of values. When the database refuses that, as PostgreSQL does, no request to delete is
  -- accepted any more, from any user, and no tick deletes anything, until the program ends.
  pub empty_deletion :
      (user_id : Str) (es : List Event) (x : S) (rows : ℕ × Option Error) (e : Error)
      → IsGob gob
      → length (gob.encode gob.new_encoder []).0.0 ≤ 4096
      → exec (statement []) [] x ≡ (returned (rows, some e), x)
      → (let asked = delete_urls gob exec user_id [] (init_buffer gob, x) in
          (asked.0 ≡ returned none) × Refused (run (ticked ∷ es) asked.1) x)
  unfolding init_buffer run items_of all_items arguments
  empty_deletion user_id es x rows e g fits refuses =
      let p = (gob.encode gob.new_encoder []).0.0 in
      let enc = (gob.encode gob.new_encoder []).1 in
      let sent : gob.decode p ≡ ([] ∷ [], none) = decode_one g in
      rw
        (delete_urls-buffered gob exec user_id [] gob.new_encoder [] x
          (g.encodes gob.new_encoder []) (omega arith))
        (
          refl,
          rw (tick-failed enc ([] ∷ []) p rows e x x sent (g.some_byte gob.new_encoder []) refuses)
              (run-Refused es _ x _ refl),
        )
