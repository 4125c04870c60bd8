-- ===== src/Storage/Database/Buffer/Overlap.antt =====
-- `DeleteURLs` of internal/storage/database/database.go takes the mutex twice: `itsToBytes` encodes
-- into the `bytes.Buffer` `ew` and returns a slice of its memory, and the slice is written to the
-- buffer of the deletions later. The two steps are apart here, over the memory.
use urlshortner.Prelude.{
  take, drop, ℕ, ◌+◌, ◌≤◌, Str, str, length, length-append, nat_eq, leb, Outcome, returned,
  panicked, Exec, ◌≡◌, ◌∙◌, ap, sym, refl, Option, none, some, List, [], ◌∷◌, ◌++◌, arith,
  if◌then◌else◌, Bool-cases, inl, inr,
}
use mathlib.Core.List.{append_assoc}
use urlshortner.GoStd.Bufio
use urlshortner.Storage.Errors.{Error, wrapped}
use urlshortner.Storage.Database.Buffer.{Item, Gob, write}

-- The arrays that `ew` has had, by number, and the one that it has. `Reset` keeps the array.
pub record Memory : Type 0 where
  pub arrays : ℕ → Str
  pub current : ℕ

pub record Slice : Type 0 where
  pub array : ℕ
  pub size : ℕ

abbrev put : ℕ → Str → (ℕ → Str) → ℕ → Str
put n s f m = if nat_eq n m then s else f m

-- `p` in the emptied buffer: from the start of its array, or, when that is too short, in a new one
-- with `spare` bytes behind.
unfoldable pub in_memory : Str → Str → Memory → Slice × Memory
in_memory spare p m =
    if leb (length p) (length (m.arrays m.current))
    then (
      record { array = m.current; size = length p },
      record m { arrays = put m.current (p ++ drop (length p) (m.arrays m.current)) m.arrays },
    )
    else (
      record { array = m.current + 1; size = length p },
      record { arrays = put (m.current + 1) (p ++ spare) m.arrays; current = m.current + 1 },
    )

unfoldable pub bytes_of : Slice → Memory → Str
bytes_of sl m = take sl.size (m.arrays sl.array)

module _ (gob : Gob) (spare : Str) where
  in_array :
      (Str × Option Error) × gob.Encoder → Memory → (Slice × Option Error) × (gob.Encoder × Memory)
  in_array ((p, some e), enc) m =
      ((record { array = 0; size = 0 }, some (wrapped (str "enconig failed: ") e)), (enc, m))
  in_array ((p, none), enc) m = let (sl, m') = in_memory spare p m in ((sl, none), (enc, m'))

  -- `itsToBytes`, under the mutex.
  unfoldable pub its_to_bytes :
      List Item → gob.Encoder × Memory → (Slice × Option Error) × (gob.Encoder × Memory)
  unfolding in_array
  its_to_bytes d (enc, m) = in_array (gob.encode enc d) m

  -- The rest of `DeleteURLs`, under the mutex again.
  module _ {S : Type 0} (exec : Str → List Str → Exec S ((ℕ × Option Error) × Option Error)) where
    put_off :
        Outcome (Option Error) × (Bufio.Writer × S) → Outcome (Option Error) × (Bufio.Writer × S)
    put_off (panicked, wx) = (panicked, wx)
    put_off (returned (some e), wx) =
        (returned (some (wrapped (str "failed to write to buf: ") e)), wx)
    put_off (returned none, wx) = (returned none, wx)

    unfoldable pub write_slice : Slice → Memory → Exec (Bufio.Writer × S) (Option Error)
    unfolding put_off
    write_slice sl m wx = put_off (Bufio.write (write gob exec) (bytes_of sl m) wx)

take-append : (s t : Str) → take (length s) (s ++ t) ≡ s
take-append [] t = refl
take-append (b ∷ s) t = ap (λ r. b ∷ r) (take-append s t)

bytes_of-in_memory :
    (spare p : Str) (m : Memory) → (let (sl, m') = in_memory spare p m in bytes_of sl m' ≡ p)
unfolding in_memory bytes_of
bytes_of-in_memory spare p m = elim (Bool-cases (leb (length p) (length (m.arrays m.current)))) [
  | inl fits ↦ rw fits (ground (arith, take-append p (drop (length p) (m.arrays m.current))))
  | inr grows ↦ rw grows (ground (arith, take-append p spare))
]

-- The first of two texts of one length starts the array that it was put in, with room for it.
in_memory-room :
    (spare p : Str) (m : Memory)
    → (let (sl, m') = in_memory spare p m in
        (sl.array ≡ m'.current) × (sl.size ≡ length p) × (length p ≤ length (m'.arrays m'.current)))
unfolding in_memory
in_memory-room spare p m = elim (Bool-cases (leb (length p) (length (m.arrays m.current)))) [
  | inl fits ↦
      rw fits (refl, refl, ground (arith, length-append p (drop (length p) (m.arrays m.current))))
  | inr grows ↦ rw grows (refl, refl, ground (arith, length-append p spare))
]

-- Another text of that length is then found in its place.
in_memory-overwrites :
    (spare p : Str) (m : Memory) (sl : Slice)
    → sl.array ≡ m.current
    → sl.size ≡ length p
    → length p ≤ length (m.arrays m.current)
    → bytes_of sl (in_memory spare p m).1 ≡ p
unfolding in_memory bytes_of
in_memory-overwrites spare p m sl here wide room =
    elim (Bool-cases (leb (length p) (length (m.arrays m.current)))) [
      | inl fits ↦
          rw (fits, here, wide)
            (ground (arith, take-append p (drop (length p) (m.arrays m.current))))
      | inr grows ↦ absurd (ground arith)
    ]

overwritten :
    (spare p q : Str) (m : Memory)
    → length q ≡ length p
    → (let (sl, m') = in_memory spare p m in bytes_of sl (in_memory spare q m').1 ≡ q)
overwritten spare p q m same =
    let (here, wide, room) = in_memory-room spare p m in
    in_memory-overwrites spare q (in_memory spare p m).1 (in_memory spare p m).0 here
      (wide ∙ sym same) (omega (arith, room))

module _ (gob : Gob) (spare : Str) {S : Type 0}
    (exec : Str → List Str → Exec S ((ℕ × Option Error) × Option Error)) where
  its_to_bytes-ok :
      (d : List Item) (enc : gob.Encoder) (m : Memory)
      → (gob.encode enc d).0.1 ≡ none
      → its_to_bytes gob spare d (enc, m) ≡ (
        ((in_memory spare (gob.encode enc d).0.0 m).0, none),
        ((gob.encode enc d).1, (in_memory spare (gob.encode enc d).0.0 m).1),
      )
  unfolding its_to_bytes
  its_to_bytes-ok d enc m ok = ground arith

  write_slice-fits :
      (sl : Slice) (m : Memory) (t : Str) (x : S) (p : Str)
      → bytes_of sl m ≡ p
      → length t + length p ≤ 4096
      → write_slice gob spare exec sl m (record { buffered = t; err = none }, x)
        ≡ (returned none, (record { buffered = t ++ p; err = none }, x))
  unfolding write_slice Bufio.write
  write_slice-fits sl m t x p at fits = ground arith

  -- Two requests that overlap, the second one encoded before the first one is put off: when their
  -- messages are of one length and fit in the buffer, both are accepted, and the buffer gets the
  -- second message twice. The first one is lost. Without the overlap it gets both, in their order.
  pub overlapping_deletions :
      (d d' : List Item) (enc : gob.Encoder) (m : Memory) (t : Str) (x : S)
      → (gob.encode enc d).0.1 ≡ none
      → (gob.encode (gob.encode enc d).1 d').0.1 ≡ none
      → length (gob.encode (gob.encode enc d).1 d').0.0 ≡ length (gob.encode enc d).0.0
      → length t + length (gob.encode enc d).0.0 + length (gob.encode enc d).0.0 ≤ 4096
      → (let p = (gob.encode enc d).0.0 in
          let p' = (gob.encode (gob.encode enc d).1 d').0.0 in
          let w : Bufio.Writer = record { buffered = t; err = none } in
          let first = its_to_bytes gob spare d (enc, m) in
          let second = its_to_bytes gob spare d' first.1 in
          let overlapped = write_slice gob spare exec first.0.0 second.1.1 (w, x) in
          let then_second = write_slice gob spare exec second.0.0 second.1.1 overlapped.1 in
          let in_turn = write_slice gob spare exec first.0.0 first.1.1 (w, x) in
          let next = write_slice gob spare exec second.0.0 second.1.1 in_turn.1 in
          (overlapped.0 ≡ returned none)
          × (then_second ≡ (returned none, (record { buffered = t ++ p' ++ p'; err = none }, x)))
          × (in_turn.0 ≡ returned none)
          × (next ≡ (returned none, (record { buffered = t ++ p ++ p'; err = none }, x))))
  overlapping_deletions d d' enc m t x ok ok' same fits =
      let p = (gob.encode enc d).0.0 in
      let enc' = (gob.encode enc d).1 in
      let p' = (gob.encode enc' d').0.0 in
      let m1 = (in_memory spare p m).1 in
      let m2 = (in_memory spare p' m1).1 in
      let sl = (in_memory spare p m).0 in
      let sl' = (in_memory spare p' m1).0 in
      let sizes = length-append t p in
      let sizes' = length-append t p' in
      let lost = write_slice-fits sl m2 t x p' (overwritten spare p p' m same) (omega arith) in
      let kept = write_slice-fits sl m1 t x p (bytes_of-in_memory spare p m) (omega arith) in
      let last = bytes_of-in_memory spare p' m1 in
      rw (its_to_bytes-ok d enc m ok, its_to_bytes-ok d' enc' m1 ok', lost, kept)
        (
          refl,
          write_slice-fits sl' m2 (t ++ p') x p' last (omega (arith, sizes'))
              ∙ rw (append_assoc t p' p') refl,
          refl,
          write_slice-fits sl' m2 (t ++ p) x p' last (omega (arith, sizes))
              ∙ rw (append_assoc t p p') refl,
        )
