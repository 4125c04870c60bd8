-- ===== src/Tests/Deletions.antt =====
-- The deletions of the database storage, on concrete inputs. The database counts its UPDATEs, and
-- refuses one without values.
use urlshortner.Prelude.{
  ℕ, suc, ◌≤◌, Str, str, ◌==◌, length, Exec, returned, ◌≡◌, refl, true, Option, none, some, List,
  [], ◌∷◌, ◌++◌, arith,
}
use urlshortner.GoStd.Bufio
use urlshortner.GoStd.Decimal
use urlshortner.Storage.Errors.{Error, message}
use urlshortner.Storage.Database.Buffer.{
  Item, items_of, statement, arguments, init_buffer, tick, delete_urls,
}
use urlshortner.Storage.Database.Buffer.Delivery.{
  Request, messages, requested, stream, filled, delete_all, accepted, deletions_delivered,
}
use urlshortner.Storage.Database.Buffer.Refusal.{
  Event, delete, ticked, run, Refused, empty_deletion,
}
use urlshortner.Storage.Database.Buffer.Overlap.{
  Memory, its_to_bytes, write_slice, overlapping_deletions,
}
use urlshortner.Tests.Gobs.{coding, coding-IsGob}

abbrev pub exec : Str → List Str → Exec ℕ ((ℕ × Option Error) × Option Error)
exec stmt [] n = (returned ((0, none), some (message (str "syntax error at or near \")\""))), n)
exec stmt (arg ∷ args) n = (returned ((1, none), none), suc n)

statement_test :
    statement (items_of (str "u") (str "a" ∷ str "b" ∷ []))
    ≡ str
        "UPDATE urls SET deleted = tmp.deleted from (values ($1, $2, TRUE),($3, $4, TRUE)) as tmp (id, user_id, deleted) WHERE urls.user_id = tmp.user_id AND urls.id = tmp.id AND urls.deleted = false"
unfolding statement items_of Decimal.print
statement_test = refl

abbrev first : Request
first = (str "u1", str "a" ∷ str "b" ∷ [])

abbrev second : Request
second = (str "u2", str "c" ∷ [])

small_test : length (stream coding tt (messages (first ∷ second ∷ []))) ≤ 4096
unfolding stream messages items_of
small_test = omega arith

filled_test : filled (requested (first ∷ second ∷ [])) ≡ true
unfolding filled requested ◌==◌
filled_test = refl

done_test :
    (let items = requested (first ∷ second ∷ []) in
      exec (statement items) (arguments items) 0 ≡ (returned ((1, none), none), 1))
unfolding requested arguments
done_test = refl

deletions_delivered_example :
    (let asked = delete_all coding exec (first ∷ second ∷ []) (init_buffer coding, 0) in
      (asked.0 ≡ returned (accepted coding exec (first ∷ second ∷ [])))
      × (asked.1.1 ≡ 0)
      × (tick coding exec asked.1 ≡ (returned tt, (init_buffer coding, 1))))
deletions_delivered_example =
    deletions_delivered coding exec first (second ∷ []) 1 0 1 coding-IsGob filled_test small_test
      done_test

abbrev later : List Event
later = delete (str "u1") (str "a" ∷ []) ∷ ticked ∷ []

refused_test :
    exec (statement []) [] 0
    ≡ (returned ((0, none), some (message (str "syntax error at or near \")\""))), 0)
refused_test = refl

empty_deletion_example :
    (let asked = delete_urls coding exec (str "u1") [] (init_buffer coding, 0) in
      (asked.0 ≡ returned none) × Refused coding exec (run coding exec (ticked ∷ later) asked.1) 0)
empty_deletion_example =
    empty_deletion coding exec (str "u1") later 0 (0, none)
      (message (str "syntax error at or near \")\"")) coding-IsGob (omega arith) refused_test

abbrev empty_memory : Memory
empty_memory = record { arrays = λ n. []; current = 0 }

abbrev item_a : List Item
item_a = record { id = str "a"; user_id = str "u1" } ∷ []

abbrev item_b : List Item
item_b = record { id = str "b"; user_id = str "u1" } ∷ []

overlapping_deletions_example :
    (let p = (coding.encode tt item_a).0.0 in
      let p' = (coding.encode tt item_b).0.0 in
      let w : Bufio.Writer = record { buffered = []; err = none } in
      let first = its_to_bytes coding [] item_a (tt, empty_memory) in
      let second = its_to_bytes coding [] item_b first.1 in
      let overlapped = write_slice coding [] exec first.0.0 second.1.1 (w, 0) in
      let then_second = write_slice coding [] exec second.0.0 second.1.1 overlapped.1 in
      let in_turn = write_slice coding [] exec first.0.0 first.1.1 (w, 0) in
      let next = write_slice coding [] exec second.0.0 second.1.1 in_turn.1 in
      (overlapped.0 ≡ returned none)
      × (then_second ≡ (returned none, (record { buffered = [] ++ p' ++ p'; err = none }, 0)))
      × (in_turn.0 ≡ returned none)
      × (next ≡ (returned none, (record { buffered = [] ++ p ++ p'; err = none }, 0))))
overlapping_deletions_example =
    overlapping_deletions coding [] exec item_a item_b tt empty_memory [] 0 refl refl refl
      (omega arith)
