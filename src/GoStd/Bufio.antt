-- ===== src/GoStd/Bufio.antt =====
-- `bufio.Writer`, of the default size, over a writer that takes the whole of what it is given or
-- fails and takes nothing.
use urlshortner.Prelude.{
  ℕ, ◌-◌, Str, length, take, drop, leb, ltb, Outcome, returned, Exec, Option, none, some, [], ◌++◌,
  if◌then◌else◌,
}
use urlshortner.Storage.Errors.{Error}

-- What waits, and the error of an earlier write: no later write gets past it.
pub record Writer : Type 0 where
  pub buffered : Str
  pub err : Option Error

abbrev pub new_writer : Writer
new_writer = record { buffered = []; err = none }

abbrev pub buffer_size : ℕ
buffer_size = 4096

-- The state of the writer stands beside that of the writer below.
module _ {S : Type 0} (below : Str → Exec S (Option Error)) where
  -- After the writer below was given `buffered`; a panic there goes on.
  sent : Str → Outcome (Option Error) × S → Outcome (Option Error) × (Writer × S)
  sent kept (Outcome.panicked, s) = (Outcome.panicked, (record { buffered = kept; err = none }, s))
  sent kept (returned none, s) = (returned none, (new_writer, s))
  sent kept (returned (some e), s) =
      (returned (some e), (record { buffered = kept; err = some e }, s))

  unfoldable pub flush : Exec (Writer × S) (Option Error)
  unfolding sent
  flush (w, s) = elim w.err [
    | some e ↦ (returned (some e), (w, s))
    | none ↦
        if ltb 0 (length w.buffered)
        then sent w.buffered (below w.buffered s)
        else (returned none, (w, s))
  ]

  -- A text that is longer than the empty buffer goes straight through.
  unfoldable pub write_empty : Str → Exec (Writer × S) (Option Error)
  unfolding sent
  write_empty p (w, s) =
      if leb (length p) buffer_size
      then (returned none, (record { buffered = p; err = none }, s))
      else sent [] (below p s)

  -- What is left of the text once the full buffer was flushed.
  after_flush : Str → Outcome (Option Error) × (Writer × S) → Outcome (Option Error) × (Writer × S)
  unfolding write_empty
  after_flush rest (Outcome.panicked, ws) = (Outcome.panicked, ws)
  after_flush rest (returned (some e), ws) = (returned (some e), ws)
  after_flush rest (returned none, ws) = write_empty rest ws

  unfoldable pub write : Str → Exec (Writer × S) (Option Error)
  unfolding after_flush
  write p (w, s) = elim w.err [
    | some e ↦ (returned (some e), (w, s))
    | none ↦
        let room = buffer_size - length w.buffered in
        if leb (length p) room
        then (returned none, (record { buffered = w.buffered ++ p; err = none }, s))
        else if leb (length w.buffered) 0
        then write_empty p (w, s)
        else after_flush (drop room p)
            (flush (record { buffered = w.buffered ++ take room p; err = none }, s))
  ]
