-- ===== src/Storage/Database/Buffer.antt =====
-- internal/storage/database/database.go: the deletions. `DeleteURLs` encodes its items by
-- `encoding/gob` into a buffer, and `Flush`, which the ticker of `initBuffer` calls, hands the
-- buffer to `Write`, which decodes it again and runs one UPDATE. The mutex makes each of the three a
-- single step here.
pub mod Delivery
pub mod Pending
pub mod Refusal
pub mod Overflow
pub mod Overlap
use urlshortner.Prelude.{
  ℕ, suc, ◌+◌, Str, str, length, ltb, Outcome, returned, panicked, Exec, Option, none, some, List,
  [], ◌∷◌, ◌++◌, if◌then◌else◌,
}
use urlshortner.GoStd.Bufio
use urlshortner.GoStd.Decimal
use urlshortner.Storage.Errors.{Error, wrapped}

pub record Item : Type 0 where
  pub id : Str
  pub user_id : Str

-- `encoding/gob`: an encoder remembers which types it has described. `decode` reads a stream to its
-- end: the messages up to the first error, and that error unless it is `io.EOF`. An encoding that
-- fails writes nothing.
pub record Gob : Type 1 where
  pub Encoder : Type 0
  pub new_encoder : Encoder
  pub encode : Encoder → List Item → (Str × Option Error) × Encoder
  pub decode : Str → List (List Item) × Option Error

-- The items of `DeleteURLs`.
unfoldable pub items_of : Str → List Str → List Item
items_of user_id [] = []
items_of user_id (id ∷ ids) = record { id = id; user_id = user_id } ∷ items_of user_id ids

-- `res = append(res, d...)` for each message.
unfoldable pub all_items : List (List Item) → List Item
all_items [] = []
all_items (d ∷ ds) = d ++ all_items ds

-- `valueStrings`, joined by commas; `c` numbers the next placeholder.
placeholder : ℕ → Str
placeholder c = str "($" ++ Decimal.print c ++ str ", $" ++ Decimal.print (c + 1) ++ str ", TRUE)"

joined : ℕ → List Item → Str
unfolding placeholder
joined c [] = []
joined c (v ∷ []) = placeholder c
joined c (v ∷ w ∷ vs) = placeholder c ++ str "," ++ joined (c + 2) (w ∷ vs)

-- The statement of `Write`, and its arguments.
unfoldable pub statement : List Item → Str
unfolding joined
statement vs =
    str "UPDATE urls SET deleted = tmp.deleted from (values "
    ++ joined 1 vs
    ++ str ") as tmp (id, user_id, deleted) "
    ++ str "WHERE urls.user_id = tmp.user_id AND urls.id = tmp.id AND urls.deleted = false"

unfoldable pub arguments : List Item → List Str
arguments [] = []
arguments (v ∷ vs) = v.id ∷ v.user_id ∷ arguments vs

-- `db.buffer`, but for its ticker and its mutex.
pub record AsyncBuf (gob : Gob) : Type 0 where
  pub enc : gob.Encoder
  pub writer : Bufio.Writer

module _ (gob : Gob) where
  -- `initBuffer`.
  unfoldable pub init_buffer : AsyncBuf gob
  init_buffer = record { enc = gob.new_encoder; writer = Bufio.new_writer }

  -- `exec` is `db.Exec`: the rows affected, with the error of asking for them, and its own error.
  module _ {S : Type 0} (exec : Str → List Str → Exec S ((ℕ × Option Error) × Option Error)) where
    updated : Outcome ((ℕ × Option Error) × Option Error) × S → Outcome (Option Error) × S
    updated (panicked, x) = (panicked, x)
    updated (returned (rows, some e), x) =
        (returned (some (wrapped (str "failed to update buffered urls in database: ") e)), x)
    updated (returned ((n, some e), none), x) =
        (returned (some (wrapped (str "failed to get affected rows: ") e)), x)
    updated (returned ((n, none), none), x) = (returned none, x)

    decoded : List (List Item) × Option Error → Exec S (Option Error)
    unfolding updated
    decoded (ds, some e) x = (returned (some (wrapped (str "failed to decode struct ") e)), x)
    decoded (ds, none) x =
        let res = all_items ds in updated (exec (statement res) (arguments res) x)

    -- `Write`: all of `p` is written, or an error is returned.
    unfoldable pub write : Str → Exec S (Option Error)
    unfolding decoded
    write p = decoded (gob.decode p)

    with_encoder :
        gob.Encoder
        → Outcome (Option Error) × (Bufio.Writer × S)
        → Outcome (Option Error) × (AsyncBuf gob × S)
    with_encoder enc (out, (w, x)) = (out, (record { enc = enc; writer = w }, x))

    -- `Flush`: the encoder is a new one afterwards.
    unfoldable pub flush : Exec (AsyncBuf gob × S) (Option Error)
    unfolding with_encoder
    flush (b, x) = with_encoder gob.new_encoder (Bufio.flush write (b.writer, x))

    -- The goroutine of `initBuffer`, at a tick.
    unfoldable pub tick : Exec (AsyncBuf gob × S) (Unit {0})
    tick (b, x) =
        if ltb 0 (length b.writer.buffered)
        then (let (out, bx) = flush (b, x) in
            (elim out [ panicked ↦ panicked | returned err ↦ returned tt ], bx))
        else (returned tt, (b, x))

    buffered :
        Outcome (Option Error) × (AsyncBuf gob × S) → Outcome (Option Error) × (AsyncBuf gob × S)
    buffered (panicked, bx) = (panicked, bx)
    buffered (returned (some e), bx) =
        (returned (some (wrapped (str "failed to write to buf: ") e)), bx)
    buffered (returned none, bx) = (returned none, bx)

    encoded :
        (Str × Option Error) × gob.Encoder
        → Bufio.Writer × S
        → Outcome (Option Error) × (AsyncBuf gob × S)
    unfolding with_encoder buffered
    encoded ((p, some e), enc) (w, x) = (
      returned (
          some (
            wrapped (str "failed to represent struct slice as bytes: ")
              (wrapped (str "enconig failed: ") e))),
      (record { enc = enc; writer = w }, x),
    )
    encoded ((p, none), enc) (w, x) = buffered (with_encoder enc (Bufio.write write p (w, x)))

    -- `DeleteURLs`, with `itsToBytes`.
    unfoldable pub delete_urls : Str → List Str → Exec (AsyncBuf gob × S) (Option Error)
    unfolding encoded
    delete_urls user_id ids (b, x) = encoded (gob.encode b.enc (items_of user_id ids)) (b.writer, x)
