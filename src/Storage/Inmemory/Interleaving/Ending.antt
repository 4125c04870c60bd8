-- ===== src/Storage/Inmemory/Interleaving/Ending.antt =====
-- How the two goroutines of `DeleteURLs` (internal/storage/inmemory/inmemory.go) end.
use urlshortner.Prelude.{
  ℕ, zero, suc, ◌+◌, ◌*◌, ◌<◌, ◌≤◌, Str, SyncMap, load, length, contains, eq_refl, ◌≡◌, refl,
  Option, none, some, List, [], ◌∷◌, ◌⊎◌, inl, inr, Bool-cases, arith,
}
use urlshortner.Storage.Inmemory.{Storer, Value, ims_storer, file_storer, Ims, is_live_of}
use urlshortner.Storage.Inmemory.Invariant.{IsWf}
use urlshortner.Storage.Inmemory.Interleaving.{
  Threads, start, Step, skip, visit, hand_over, handle, Steps, here, then_step, IsDone, IsAhead,
  Step-IsAhead, Steps-finish, start-IsAhead,
}

-- Three steps for each entry, less what has been done for the items under way.
abbrev waiting : ℕ → Option (Str × Storer) → ℕ
waiting n none = 0
waiting n (some item) = n

abbrev steps_left : Threads → ℕ
steps_left t = 3 * length t.todo + waiting 2 t.sending + waiting 1 t.receiving

Step-steps_left : {user_id : Str} {t u : Threads} → Step user_id t u → steps_left u < steps_left t
Step-steps_left (skip e l) = omega arith
Step-steps_left (visit e l) = omega arith
Step-steps_left hand_over = omega arith
Step-steps_left (handle {sending}) = omega arith

abbrev pub steps_taken : {user_id : Str} {t u : Threads} → Steps user_id t u → ℕ
steps_taken here = 0
steps_taken (then_step before last) = suc (steps_taken before)

steps_bounded :
    {user_id : Str} {t u : Threads} (run : Steps user_id t u)
    → steps_taken run + steps_left u ≤ steps_left t
steps_bounded here = omega arith
steps_bounded (then_step before last) = omega (arith, steps_bounded before, Step-steps_left last)

head_value :
    {id : Str} {r : Storer} {todo m : SyncMap Value} {ids : List Str}
    → IsAhead (record {
      todo = (id, ims_storer r) ∷ todo;
      sending = none;
      receiving = none;
      ids = ids;
      entries = m;
    })
    → load id m ≡ some (ims_storer r)
unfolding load contains
head_value {id} {r} a = ground (arith, a.agrees id, eq_refl id)

-- A run that has not ended has a next step.
progress :
    (user_id : Str) (todo : SyncMap Value) (sending receiving : Option (Str × Storer))
    (ids : List Str) (m : SyncMap Value)
    → let t : Threads = record {
      todo = todo;
      sending = sending;
      receiving = receiving;
      ids = ids;
      entries = m;
    } in
      IsAhead t → IsDone t ⊎ ((u : Threads) × Step user_id t u)
progress user_id todo sending (some (id, r)) ids m a = inr (_, handle)
progress user_id todo (some item) none ids m a = inr (_, hand_over)
progress user_id [] none none ids m a = inl (record { visited = refl; sent = refl; dealt = refl })
progress user_id ((id, file_storer r) ∷ todo) none none ids m a = absurd a.own.0
progress user_id ((id, ims_storer r) ∷ todo) none none ids m a =
    elim (Bool-cases (is_live_of user_id r)) [
      | inl live ↦ inr (_, visit (head_value a) live)
      | inr skipped ↦ inr (_, skip (head_value a) skipped)
    ]

run_on :
    (fuel : ℕ) (user_id : Str) {t u : Threads}
    → IsAhead u
    → Steps user_id t u
    → steps_left u < fuel
    → (v : Threads) × Steps user_id t v × IsDone v
run_on zero user_id a run h = absurd (omega arith)
run_on (suc fuel) user_id {t} {u} a run h =
    elim (progress user_id u.todo u.sending u.receiving u.ids u.entries a) [
      | inl done ↦ (u, run, done)
      | inr (v, last) ↦
          run_on fuel user_id {t = t} {u = v} (Step-IsAhead last a) (then_step run last)
            (omega (arith, Step-steps_left last))
    ]

-- No deadlock and no endless run, over a well-formed storage: whatever the goroutines have done so
-- far, they have taken at most three steps for each entry of the map, and they can go on to the
-- end.
pub deletion_ends :
    (user_id : Str) (ids : List Str) (s : Ims) (t : Threads)
    (run : Steps user_id (start ids s.entries) t)
    → IsWf s
    → (steps_taken run ≤ 3 * length s.entries) × ((u : Threads) × Steps user_id t u × IsDone u)
deletion_ends user_id ids s t run w = (
  omega (arith, steps_bounded run),
  run_on (suc (steps_left t)) user_id (Steps-finish (start-IsAhead ids s w) run).0 here
      (omega arith),
)
