-- ===== src/Storage/Database/Buffer/Delivery.antt =====
-- What becomes of the deletions that are buffered (internal/storage/database/database.go), as long
-- as they fit in the buffer.
use urlshortner.Prelude.{
  ℕ, ◌+◌, ◌≤◌, ◌<◌, Str, length, length-append, Bool, not, ◌&&◌, ◌==◌, returned, Exec, pure, ◌>>=◌,
  ◌≡◌, refl, Option, none, List, [], ◌∷◌, ◌++◌, arith, true, map, ap, ◌∙◌,
}
use mathlib.Core.List.{append_assoc, append-nil}
use urlshortner.GoStd.Bufio
use urlshortner.Storage.Errors.{Error}
use urlshortner.Storage.Database.Buffer.{
  Item, Gob, items_of, all_items, statement, arguments, AsyncBuf, init_buffer, write, flush, tick,
  delete_urls,
}

-- A request to delete: its user and the ids.
abbrev pub Request : Type 0
Request = Str × List Str

unfoldable pub messages : List Request → List (List Item)
messages [] = []
messages ((user_id, ids) ∷ rs) = items_of user_id ids ∷ messages rs

item : Str → Str → Item
item user_id id = record { id = id; user_id = user_id }

-- What the requests ask to delete: every id with its user, in their order.
unfoldable pub requested : List Request → List Item
unfolding item
requested [] = []
requested ((user_id, ids) ∷ rs) = map (item user_id) ids ++ requested rs

items_of-map : (user_id : Str) (ids : List Str) → items_of user_id ids ≡ map (item user_id) ids
unfolding items_of item
items_of-map user_id [] = refl
items_of-map user_id (id ∷ ids) = ap (λ vs. item user_id id ∷ vs) (items_of-map user_id ids)

all_items-requested : (rs : List Request) → all_items (messages rs) ≡ requested rs
unfolding all_items messages requested
all_items-requested [] = refl
all_items-requested ((user_id, ids) ∷ rs) =
    rw (items_of-map user_id ids, all_items-requested rs) refl

-- Every field has a byte. `encoding/gob` leaves an empty field out, and `Write` decodes every message
-- into the one variable `d`.
unfoldable pub filled : List Item → Bool
filled [] = true
filled (v ∷ vs) = not (v.id == []) && not (v.user_id == []) && filled vs

unfoldable pub filled_each : List (List Item) → Bool
filled_each [] = true
filled_each (d ∷ ds) = filled d && filled_each ds

filled-append : (vs ws : List Item) → filled (vs ++ ws) ≡ (filled vs && filled ws)
unfolding filled
filled-append [] ws = refl
filled-append (v ∷ vs) ws = ground (arith, filled-append vs ws)

pub filled_each-all_items : (ds : List (List Item)) → filled_each ds ≡ filled (all_items ds)
unfolding filled_each all_items filled
filled_each-all_items [] = refl
filled_each-all_items (d ∷ ds) =
    rw (filled-append d (all_items ds)) (ap (λ b. filled d && b) (filled_each-all_items ds))

module _ (gob : Gob) where
  -- What an encoder writes for some messages, and what it is then.
  unfoldable pub stream : gob.Encoder → List (List Item) → Str
  stream enc [] = []
  stream enc (d ∷ ds) = (gob.encode enc d).0.0 ++ stream (gob.encode enc d).1 ds

  unfoldable pub encoder_after : gob.Encoder → List (List Item) → gob.Encoder
  encoder_after enc [] = enc
  encoder_after enc (d ∷ ds) = encoder_after (gob.encode enc d).1 ds

  -- Lists of items can be encoded, a message has a byte at least, and a decoder gives back what one
  -- encoder has written from its start, when no field is empty.
  pub record IsGob : Type 0 where
    pub encodes : (enc : gob.Encoder) (d : List Item) → (gob.encode enc d).0.1 ≡ none
    pub some_byte : (enc : gob.Encoder) (d : List Item) → 0 < length (gob.encode enc d).0.0
    pub decodes :
        (ds : List (List Item))
        → filled_each ds ≡ true
        → gob.decode (stream gob.new_encoder ds) ≡ (ds, none)

  module _ {S : Type 0} (exec : Str → List Str → Exec S ((ℕ × Option Error) × Option Error)) where
    -- The requests one after the other, with their replies.
    unfoldable pub delete_all : List Request → Exec (AsyncBuf gob × S) (List (Option Error))
    delete_all [] = pure []
    delete_all ((user_id, ids) ∷ rs) = do
      err ← delete_urls gob exec user_id ids
      errs ← delete_all rs
      pure (err ∷ errs)

    pub delete_urls-buffered :
        (user_id : Str) (ids : List Str) (enc : gob.Encoder) (t : Str) (x : S)
        → (gob.encode enc (items_of user_id ids)).0.1 ≡ none
        → length t + length (gob.encode enc (items_of user_id ids)).0.0 ≤ 4096
        → delete_urls gob exec user_id ids
            (record { enc = enc; writer = record { buffered = t; err = none } }, x)
          ≡ (
            returned none,
            (
              record {
                enc = (gob.encode enc (items_of user_id ids)).1;
                writer = record {
                  buffered = t ++ (gob.encode enc (items_of user_id ids)).0.0;
                  err = none;
                };
              },
              x,
            ),
          )
    unfolding delete_urls Bufio.write
    delete_urls-buffered user_id ids enc t x ok fits = ground arith

    abbrev pub accepted : List Request → List (Option Error)
    accepted [] = []
    accepted (r ∷ rs) = none ∷ accepted rs

    delete_all-buffered :
        (rs : List Request) (enc : gob.Encoder) (t : Str) (x : S)
        → IsGob
        → length t + length (stream enc (messages rs)) ≤ 4096
        → delete_all rs (record { enc = enc; writer = record { buffered = t; err = none } }, x) ≡ (
          returned (accepted rs),
          (
            record {
              enc = encoder_after enc (messages rs);
              writer = record { buffered = t ++ stream enc (messages rs); err = none };
            },
            x,
          ),
        )
    unfolding delete_all messages stream encoder_after
    delete_all-buffered [] enc t x g fits = rw (append-nil t) refl
    delete_all-buffered ((user_id, ids) ∷ rs) enc t x g fits =
        let d = items_of user_id ids in
        let p = (gob.encode enc d).0.0 in
        let enc' = (gob.encode enc d).1 in
        let rest = stream enc' (messages rs) in
        let sizes = length-append p rest in
        let sizes' = length-append t p in
        rw (delete_urls-buffered user_id ids enc t x (g.encodes enc d) (omega (arith, sizes))) (
          rw (delete_all-buffered rs enc' (t ++ p) x g (omega (arith, sizes, sizes')))
            (rw (append_assoc t p rest) refl))

    -- A tick runs the UPDATE of what the buffer holds.
    pub tick-written :
        (enc : gob.Encoder) (ds : List (List Item)) (t : Str) (n : ℕ) (x x' : S)
        → gob.decode t ≡ (ds, none)
        → 0 < length t
        → exec (statement (all_items ds)) (arguments (all_items ds)) x
          ≡ (returned ((n, none), none), x')
        → tick gob exec (record { enc = enc; writer = record { buffered = t; err = none } }, x)
          ≡ (returned tt, (init_buffer gob, x'))
    unfolding tick flush Bufio.flush write init_buffer
    tick-written enc ds t n x x' read some_text done = ground arith

    some_stream :
        (r : Request) (rs : List Request)
        → IsGob
        → 0 < length (stream gob.new_encoder (messages (r ∷ rs)))
    unfolding messages stream
    some_stream (user_id, ids) rs g =
        let d = items_of user_id ids in
        let p = (gob.encode gob.new_encoder d).0.0 in
        omega (
          arith,
          g.some_byte gob.new_encoder d,
          length-append p (stream (gob.encode gob.new_encoder d).1 (messages rs)),
        )

    -- Requests to delete that together fit in the 4096 bytes of the buffer are all accepted, with no
    -- call of the database; the next tick runs one UPDATE with every item of every request, in their
    -- order, and when the database carries it out the buffer is as at the start. This with a `gob`
    -- that decodes what it has encoded, and when no user and no id is empty.
    pub deletions_delivered :
        (r : Request) (rs : List Request) (n : ℕ) (x x' : S)
        → IsGob
        → filled (requested (r ∷ rs)) ≡ true
        → length (stream gob.new_encoder (messages (r ∷ rs))) ≤ 4096
        → (let items = requested (r ∷ rs) in
            exec (statement items) (arguments items) x ≡ (returned ((n, none), none), x'))
        → (let asked = delete_all (r ∷ rs) (init_buffer gob, x) in
            (asked.0 ≡ returned (accepted (r ∷ rs)))
            × (asked.1.1 ≡ x)
            × (tick gob exec asked.1 ≡ (returned tt, (init_buffer gob, x'))))
    unfolding init_buffer
    deletions_delivered r rs n x x' g full fits done =
        let ds = messages (r ∷ rs) in
        let items = all_items-requested (r ∷ rs) in
        let read = g.decodes ds (filled_each-all_items ds ∙ ap filled items ∙ full) in
        let done' : exec (statement (all_items ds)) (arguments (all_items ds)) x
            ≡ (returned ((n, none), none), x') =
          rw items done in
        rw (delete_all-buffered (r ∷ rs) gob.new_encoder [] x g (omega arith)) (
          refl,
          refl,
          tick-written _ ds (stream gob.new_encoder ds) n x x' read (some_stream r rs g) done',
        )
