-- ===== src/Tests/Overflows.antt =====
-- Deletions over the database storage that wait, and one that does not fit.
use urlshortner.Prelude.{
  ℕ, zero, suc, ◌+◌, ◌≤◌, ◌<◌, Str, str, ◌==◌, length, length-append, ◌≡◌, refl, true, returned,
  none, some, List, [], ◌∷◌, ◌++◌, arith, if◌then◌else◌,
}
use urlshortner.Storage.Errors.{Error}
use urlshortner.Storage.Database.Buffer.{
  Item, items_of, all_items, statement, arguments, init_buffer, tick, delete_urls,
}
use urlshortner.Storage.Database.Buffer.Delivery.{stream, filled}
use urlshortner.Storage.Database.Buffer.Pending.{pending}
use urlshortner.Storage.Database.Buffer.Refusal.{Event, delete, ticked, run, Refused}
use urlshortner.Storage.Database.Buffer.Overflow.{overflowing_deletion}
use urlshortner.Server.Http.{Request, new_response, status}
use urlshortner.Server.HttpServer.Handlers.{ct_json, read_body}
use urlshortner.Server.HttpServer.Handlers.Lookup.{make_long, delete_batch}
use urlshortner.Server.HttpServer.Delayed.{over_buffer, deletion_delayed}
use urlshortner.Tests.Gobs.{shifted, coding, coding-IsGob, coding-IsCutShort}
use urlshortner.Tests.Deletions.{exec}
use urlshortner.Tests.Database.{one_url}
use urlshortner.Tests.Fixtures.{url_id, cfg, wire, request}

-- One deletion waits.
abbrev waiting : List (List Item)
waiting = items_of (str "u2") (str "c" ∷ []) ∷ []

abbrev del : Request
del = record (request (str "/api/user/urls") (str "u1") url_id) {
  get_header = λ name. if name == str "Content-Type" then ct_json else [];
}

abbrev get : Request
get = request (b'/' ∷ url_id) (str "u3") []

typed_test : del.get_header (str "Content-Type") ≡ ct_json
unfolding ◌==◌
typed_test = refl

read_test : read_body wire del ≡ (url_id, none)
unfolding read_body ◌==◌
read_test = refl

abbrev after : List (List Item)
after = waiting ++ items_of (str "u1") (url_id ∷ []) ∷ []

fits_test : length (stream coding tt after) ≤ 4096
unfolding stream items_of
fits_test = omega arith

full_test : filled (all_items after) ≡ true
unfolding filled all_items items_of ◌==◌
full_test = refl

done_test :
    exec (statement (all_items after)) (arguments (all_items after)) 0
    ≡ (returned ((1, none), none), 1)
unfolding all_items items_of arguments
done_test = refl

deletion_delayed_example :
    (let m = over_buffer coding one_url exec cfg in
      let deleted = delete_batch wire m del ((pending coding waiting, 0), new_response) in
      let before = make_long wire m get ((pending coding waiting, 0), new_response) in
      let got = make_long wire m get (deleted.1.0, new_response) in
      (deleted.0 ≡ returned tt)
      × (status deleted.1.1 ≡ 202)
      × (deleted.1.0 ≡ (pending coding after, 0))
      × (got.0 ≡ before.0)
      × (got.1.1 ≡ before.1.1)
      × (tick coding exec deleted.1.0 ≡ (returned tt, (init_buffer coding, 1))))
deletion_delayed_example =
    deletion_delayed coding one_url exec cfg wire del get (str "u1") url_id (url_id ∷ []) waiting 1
      0 1 coding-IsGob refl typed_test read_test refl fits_test full_test done_test

-- An id of this length.
abbrev long_id : ℕ → Str
long_id zero = []
long_id (suc n) = b'x' ∷ long_id n

length-long_id : (n : ℕ) → length (long_id n) ≡ n
length-long_id zero = refl
length-long_id (suc n) = omega (arith, length-long_id n)

length-shifted : (s t : Str) → length (shifted s t) ≡ length s + length t
length-shifted [] t = omega arith
length-shifted (b ∷ s) t = omega (arith, length-shifted s t)

-- An id makes the stream at least as long as it is.
long_stream :
    (id : Str)
    → 4096 < length id
    → 4096 < length (stream coding tt (waiting ++ items_of (str "u1") (id ∷ []) ∷ []))
unfolding stream items_of
long_stream id long = omega (
  arith,
  length-shifted id (2 ∷ shifted (str "u1") (3 ∷ [])),
  length-append (shifted id (2 ∷ shifted (str "u1") (3 ∷ []))) [],
)

waiting_test : (0 < length (stream coding tt waiting)) × (length (stream coding tt waiting) < 4096)
unfolding stream items_of
waiting_test = (omega arith, omega arith)

abbrev later : List Event
later = delete (str "u3") (str "d" ∷ []) ∷ ticked ∷ []

overflowing_deletion_example :
    (let asked =
        delete_urls coding exec (str "u1") (long_id 5000 ∷ []) (pending coding waiting, 0) in
      ((cause : Error) × (asked.0 ≡ returned (some cause)))
      × (asked.1.1 ≡ 0)
      × Refused coding exec (run coding exec later asked.1) 0)
overflowing_deletion_example =
    overflowing_deletion coding exec (str "u1") (long_id 5000 ∷ []) waiting later 0 coding-IsGob
      coding-IsCutShort waiting_test.0 waiting_test.1
      (long_stream (long_id 5000) (omega (arith, length-long_id 5000)))
