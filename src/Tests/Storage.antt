-- ===== src/Tests/Storage.antt =====
-- The in-memory storage on concrete inputs.
use urlshortner.Prelude.{
  str, load, store, contains, length, ◌↔◌, returned, ◌≡◌, ◌≤◌, ◌*◌, ◌==◌, refl, true, none, some,
  List, [], ◌∷◌,
}
use urlshortner.Storage.Errors.{err_conflict}
use mathlib.Core.List.{Memᴰ}
use urlshortner.Storage.Interface.{append_pair, Pair, Pairs}
use urlshortner.Storage.Inmemory.{
  ims_storer, store_url, load_urls_by_user, delete_urls, visit_delete, delete_item, is_live_of,
  remove_id,
}
use urlshortner.Storage.Inmemory.Table.{Command, load_cmd, store_cmd, delete_cmd, entry}
use urlshortner.Storage.Inmemory.Refinement.{calls, replies, calls-replies}
use urlshortner.Storage.Inmemory.Interleaving.{
  Threads, start, Steps, here, then_step, visit, hand_over, handle, IsDone, interleavings_agree,
}
use urlshortner.Storage.Inmemory.Interleaving.Ending.{deletion_ends, steps_taken}
use urlshortner.Storage.Inmemory.Users.{IsOf, load_urls_by_user_lem}
use urlshortner.Tests.Fixtures.{url, url_id, owned, storage, storage-IsWf}

-- Look the URL up, store it again, delete it, look it up again.
abbrev commands : List Command
commands =
    load_cmd url_id
    ∷ store_cmd url_id url (str "u2")
    ∷ delete_cmd (str "u1") (str "x" ∷ url_id ∷ [])
    ∷ load_cmd url_id
    ∷ []

calls-replies_example : (calls commands storage).0 ≡ returned (replies (entry storage) commands)
calls-replies_example = calls-replies commands storage (entry storage) storage-IsWf (λ id. refl)

-- A deletion of the one URL, step by step.
abbrev last_threads : Threads
last_threads = record {
  todo = [];
  sending = none;
  receiving = none;
  ids = (delete_item url_id owned (url_id ∷ [], storage.entries)).0;
  entries = (delete_item url_id owned (url_id ∷ [], storage.entries)).1;
}

deletion : Steps (str "u1") (start (url_id ∷ []) storage.entries) last_threads
unfolding load is_live_of ◌==◌
deletion = then_step (then_step (then_step here (visit refl refl)) hand_over) handle

last_threads-IsDone : IsDone last_threads
last_threads-IsDone = record { visited = refl; sent = refl; dealt = refl }

interleavings_agree_example :
    delete_urls (str "u1") (url_id ∷ []) storage
    ≡ (returned none, record storage { entries = last_threads.entries })
interleavings_agree_example =
    interleavings_agree (str "u1") (url_id ∷ []) storage last_threads storage-IsWf deletion
      last_threads-IsDone

deletion_ends_example :
    (steps_taken deletion ≤ 3 * length storage.entries)
    × ((u : Threads) × Steps (str "u1") last_threads u × IsDone u)
deletion_ends_example =
    deletion_ends (str "u1") (url_id ∷ []) storage last_threads deletion storage-IsWf

deleted_test : delete_urls (str "u1") (url_id ∷ []) storage ≡ (
  returned none,
  record storage { entries = (url_id, ims_storer (record owned { deleted = true })) ∷ [] },
)
unfolding delete_urls visit_delete delete_item remove_id contains ◌==◌ is_live_of store
deleted_test = refl

other_owner_test : delete_urls (str "u2") (url_id ∷ []) storage ≡ (returned none, storage)
unfolding delete_urls visit_delete is_live_of ◌==◌
other_owner_test = refl

taken_test : store_url url_id url (str "u2") storage ≡ (returned (some err_conflict), storage)
unfolding store_url load ◌==◌
taken_test = refl

load_urls_by_user_lem_example :
    (b : Pairs) × (load_urls_by_user (append_pair (λ id. b'/' ∷ id)) (str "u1") [] storage
      ≡ (returned (b, none), storage))
    × ((p : Pair) → Memᴰ p b ↔ IsOf (λ id. b'/' ∷ id) (str "u1") storage.entries p)
load_urls_by_user_lem_example =
    load_urls_by_user_lem (λ id. b'/' ∷ id) (str "u1") storage storage-IsWf
