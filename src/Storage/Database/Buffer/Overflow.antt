-- ===== src/Storage/Database/Buffer/Overflow.antt =====
-- What becomes of a deletion that does not fit in what is left of the buffer
-- (internal/storage/database/database.go).
use urlshortner.Prelude.{
  take, ℕ, ◌+◌, ◌-◌, ◌<◌, Str, str, length, length-append, ltb, leb, true, false, returned, Exec,
  ◌≡◌, refl, Option, none, some, List, [], ◌∷◌, ◌++◌, arith,
}
use urlshortner.GoStd.Bufio
use urlshortner.Storage.Errors.{Error, wrapped}
use urlshortner.Storage.Database.Buffer.{Item, Gob, items_of, write, delete_urls}
use urlshortner.Storage.Database.Buffer.Delivery.{stream, encoder_after, IsGob}
use urlshortner.Storage.Database.Buffer.Pending.{pending, stream-append}
use urlshortner.Storage.Database.Buffer.Refusal.{Event, run, Refused, run-Refused}

not_leb : (a b : ℕ) → b < a → leb a b ≡ false
not_leb a b h = ground arith

module _ {S : Type 0} (below : Str → Exec S (Option Error)) where
  -- A writer fills up its buffer and hands it on, here to no avail.
  write-cut :
      (p t : Str) (s : S) (e : Error)
      → 0 < length t
      → length t < 4096
      → 4096 < length t + length p
      → (let kept = t ++ take (4096 - length t) p in
          below kept s ≡ (returned (some e), s)
          → Bufio.write below p (record { buffered = t; err = none }, s)
            ≡ (returned (some e), (record { buffered = kept; err = some e }, s)))
  unfolding Bufio.write Bufio.flush
  write-cut p t s e waits room long fails =
      let full = not_leb (length p) (4096 - length t) (omega arith) in
      let some_wait = not_leb (length t) 0 waits in
      let handed : ltb 0 (length (t ++ take (4096 - length t) p)) ≡ true =
        ground (arith, length-append t (take (4096 - length t) p)) in
      rw (full, some_wait, handed, fails) refl

module _ (gob : Gob) where
  -- A stream that ends inside a message ends in an error that is not `io.EOF`.
  pub record IsCutShort : Type 0 where
    pub cut_short :
        (ds : List (List Item)) (d : List Item) (n : ℕ)
        → (let p = (gob.encode (encoder_after gob gob.new_encoder ds) d).0.0 in
            0 < n
            → n < length p
            → (ms : List (List Item)) × (e : Error) × (gob.decode
                  (stream gob gob.new_encoder ds ++ take n p)
                ≡ (ms, some e)))

  module _ {S : Type 0} (exec : Str → List Str → Exec S ((ℕ × Option Error) × Option Error)) where
    -- The part that fits is handed on with what waits, and cannot be decoded.
    delete_urls-cut :
        (user_id : Str) (ids : List Str) (enc : gob.Encoder) (t : Str) (x : S)
        (ms : List (List Item)) (e : Error)
        → (let p = (gob.encode enc (items_of user_id ids)).0.0 in
            let room = 4096 - length t in
            ((gob.encode enc (items_of user_id ids)).0.1 ≡ none)
            → 0 < length t
            → length t < 4096
            → 4096 < length t + length p
            → gob.decode (t ++ take room p) ≡ (ms, some e)
            → delete_urls gob exec user_id ids
                (record { enc = enc; writer = record { buffered = t; err = none } }, x)
              ≡ (
                returned (
                    some (
                      wrapped
                        (str "failed to write to buf: ")
                        (wrapped (str "failed to decode struct ") e))),
                (
                  record {
                    enc = (gob.encode enc (items_of user_id ids)).1;
                    writer = record {
                      buffered = t ++ take room p;
                      err = some (wrapped (str "failed to decode struct ") e);
                    };
                  },
                  x,
                ),
              ))
    unfolding delete_urls write
    delete_urls-cut user_id ids enc t x ms e ok waits room long cut =
        let p = (gob.encode enc (items_of user_id ids)).0.0 in
        let failed = wrapped (str "failed to decode struct ") e in
        let refused : write gob exec (t ++ take (4096 - length t) p) x
            ≡ (returned (some failed), x) =
          rw cut refl in
        rw ok (rw (write-cut (write gob exec) p t x failed waits room long refused) refl)

    -- A deletion that finds others waiting and does not fit behind them in the 4096 bytes of the
    -- buffer has the part that fits handed to `Write` with them. With a `gob` that gives an error for
    -- a message that is cut short, the deletion is refused, none of those that wait, which were
    -- accepted, reaches the database, and from then on, until the program ends, every request to
    -- delete is refused and no tick deletes anything.
    pub overflowing_deletion :
        (user_id : Str) (ids : List Str) (ds : List (List Item)) (es : List Event) (x : S)
        → IsGob gob
        → IsCutShort
        → 0 < length (stream gob gob.new_encoder ds)
        → length (stream gob gob.new_encoder ds) < 4096
        → 4096 < length (stream gob gob.new_encoder (ds ++ items_of user_id ids ∷ []))
        → (let asked = delete_urls gob exec user_id ids (pending gob ds, x) in
            ((cause : Error) × (asked.0 ≡ returned (some cause)))
            × (asked.1.1 ≡ x)
            × Refused gob exec (run gob exec es asked.1) x)
    overflowing_deletion user_id ids ds es x g cuts waits room long =
        let enc = encoder_after gob gob.new_encoder ds in
        let t = stream gob gob.new_encoder ds in
        let d = items_of user_id ids in
        let p = (gob.encode enc d).0.0 in
        let size : 4096 < length t + length p =
          rw (← length-append t p, ← stream-append gob gob.new_encoder ds d) long in
        let (ms, e, cut) = cuts.cut_short ds d (4096 - length t) (omega arith) (omega arith) in
        rw (delete_urls-cut user_id ids enc t x ms e (g.encodes enc d) waits room size cut)
          ((_, refl), refl, run-Refused gob exec es _ x _ refl)
