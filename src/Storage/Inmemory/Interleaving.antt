-- ===== src/Storage/Inmemory/Interleaving.antt =====
-- `DeleteURLs` as it runs: one goroutine ranges over the map and sends the items that it finds,
-- another receives them and writes to the same map. The channel has no buffer. The context is never
-- cancelled, since the receiver returns no error.
pub mod Ending
use urlshortner.Prelude.{
  ℕ, ◌+◌, ◌*◌, ◌<◌, Str, SyncMap, load, keys, length, contains, HasDistinctKeys, ◌==◌, eq_iff,
  eq_refl, Outcome, returned, ◌≡◌, ◌∙◌, sym, refl, All, true, false, Option, none, some, List, [],
  ◌∷◌, ◌⊎◌, inl, inr, Bool-cases, arith,
}
use urlshortner.Storage.Inmemory.{
  Storer, Value, ims_storer, file_storer, Ims, is_live_of, delete_item, visit_delete, delete_urls,
}
use urlshortner.Storage.Inmemory.Invariant.{IsOwn, IsWf}
use urlshortner.Storage.Inmemory.Delete.{delete_item-load}

pub record Threads : Type 0 where
  -- The entries that `Range` has not visited, as they were at the start.
  pub todo : SyncMap Value
  -- The item that the first goroutine waits to send.
  pub sending : Option (Str × Storer)
  -- The item that the second one has received and not yet dealt with.
  pub receiving : Option (Str × Storer)
  pub ids : List Str
  pub entries : SyncMap Value

abbrev pub start : List Str → SyncMap Value → Threads
start ids m = record { todo = m; sending = none; receiving = none; ids = ids; entries = m }

-- One step of either goroutine. A visit reads the value that the map has at that moment.
pub data Step (user_id : Str) : Threads → Threads → Type 0 where
  skip :
      {id : Str} {v : Value} {todo m : SyncMap Value} {receiving : Option (Str × Storer)}
      {ids : List Str} {r : Storer}
      → load id m ≡ some (ims_storer r)
      → is_live_of user_id r ≡ false
      → Step user_id
          (record {
            todo = (id, v) ∷ todo;
            sending = none;
            receiving = receiving;
            ids = ids;
            entries = m;
          })
          (record { todo = todo; sending = none; receiving = receiving; ids = ids; entries = m })
  visit :
      {id : Str} {v : Value} {todo m : SyncMap Value} {receiving : Option (Str × Storer)}
      {ids : List Str} {r : Storer}
      → load id m ≡ some (ims_storer r)
      → is_live_of user_id r ≡ true
      → Step user_id
          (record {
            todo = (id, v) ∷ todo;
            sending = none;
            receiving = receiving;
            ids = ids;
            entries = m;
          })
          (record {
            todo = todo;
            sending = some (id, r);
            receiving = receiving;
            ids = ids;
            entries = m;
          })
  hand_over :
      {todo m : SyncMap Value} {item : Str × Storer} {ids : List Str}
      → Step user_id
          (record { todo = todo; sending = some item; receiving = none; ids = ids; entries = m })
          (record { todo = todo; sending = none; receiving = some item; ids = ids; entries = m })
  handle :
      {todo m : SyncMap Value} {sending : Option (Str × Storer)} {ids : List Str} {id : Str}
      {r : Storer}
      → Step user_id
          (record {
            todo = todo;
            sending = sending;
            receiving = some (id, r);
            ids = ids;
            entries = m;
          })
          (record {
            todo = todo;
            sending = sending;
            receiving = none;
            ids = (delete_item id r (ids, m)).0;
            entries = (delete_item id r (ids, m)).1;
          })

pub data Steps (user_id : Str) (t : Threads) : Threads → Type 0 where
  here : Steps user_id t t
  then_step : {u v : Threads} → Steps user_id t u → Step user_id u v → Steps user_id t v

-- The first goroutine has closed the channel, and the second has left its loop.
pub record IsDone (t : Threads) : Type 0 where
  pub visited : t.todo ≡ []
  pub sent : t.sending ≡ none
  pub dealt : t.receiving ≡ none

abbrev deal : Option (Str × Storer) → List Str × SyncMap Value → List Str × SyncMap Value
deal none st = st
deal (some (id, r)) st = delete_item id r st

-- Where the run ends if the goroutines take turns from here on.
abbrev finish : Str → Threads → Outcome (List Str × SyncMap Value)
finish user_id t =
    visit_delete user_id t.todo (deal t.sending (deal t.receiving (t.ids, t.entries)))

abbrev IsFree : Option (Str × Storer) → SyncMap Value → Type 0
IsFree none todo = Unit
IsFree (some (id, r)) todo = contains id (keys todo) ≡ false

-- What is still to be visited is as it was, and the items under way are past it.
record IsAhead (t : Threads) : Type 0 where
  agrees : (j : Str) → contains j (keys t.todo) ≡ true → load j t.entries ≡ load j t.todo
  distinct : HasDistinctKeys t.todo
  own : All IsOwn t.todo
  sent_free : IsFree t.sending t.todo
  held_free : IsFree t.receiving t.todo

-- The first entry still to be visited is in the map as it was.
head_agrees :
    {id : Str} {v : Value} {todo m : SyncMap Value} {sending receiving : Option (Str × Storer)}
    {ids : List Str} {r : Storer}
    → IsAhead (record {
      todo = (id, v) ∷ todo;
      sending = sending;
      receiving = receiving;
      ids = ids;
      entries = m;
    })
    → load id m ≡ some (ims_storer r)
    → v ≡ ims_storer r
unfolding load contains
head_agrees {id} {v} {todo} a e = ground (arith, a.agrees id, eq_refl id)

IsFree-tail :
    (o : Option (Str × Storer)) (id : Str) (v : Value) (todo : SyncMap Value)
    → IsFree o ((id, v) ∷ todo)
    → IsFree o todo
unfolding contains
IsFree-tail none id v todo h = tt
IsFree-tail (some (j, r)) id v todo h = ground arith

agrees-tail :
    (id : Str) (v : Value) (todo m : SyncMap Value)
    → HasDistinctKeys ((id, v) ∷ todo)
    → ((j : Str) → contains j (keys ((id, v) ∷ todo)) ≡ true → load j m ≡ load j ((id, v) ∷ todo))
    → (j : Str) → contains j (keys todo) ≡ true
    → load j m ≡ load j todo
unfolding load contains
agrees-tail id v todo m d h j c = ground (arith, h j, eq_iff id j, eq_iff j id)

Step-IsAhead : {user_id : Str} {t u : Threads} → Step user_id t u → IsAhead t → IsAhead u
Step-IsAhead (skip {id} {v} {todo} {m} {receiving} e l) a = record {
  agrees = agrees-tail id v todo m a.distinct a.agrees;
  distinct = a.distinct.1;
  own = a.own.1;
  sent_free = tt;
  held_free = IsFree-tail receiving id v todo a.held_free;
}
Step-IsAhead (visit {id} {v} {todo} {m} {receiving} e l) a = record {
  agrees = agrees-tail id v todo m a.distinct a.agrees;
  distinct = a.distinct.1;
  own = a.own.1;
  sent_free = a.distinct.0;
  held_free = IsFree-tail receiving id v todo a.held_free;
}
Step-IsAhead hand_over a = record {
  agrees = a.agrees;
  distinct = a.distinct;
  own = a.own;
  sent_free = tt;
  held_free = a.sent_free;
}
Step-IsAhead (handle {todo} {m} {sending} {ids} {id} {r}) a = record {
  agrees =
      λ j c. ground (arith, delete_item-load id j r ids m, eq_iff id j, a.agrees j, a.held_free);
  distinct = a.distinct;
  own = a.own;
  sent_free = a.sent_free;
  held_free = tt;
}

-- No step changes where the run ends.
Step-finish :
    {user_id : Str} {t u : Threads}
    → Step user_id t u
    → IsAhead t
    → finish user_id u ≡ finish user_id t
unfolding visit_delete
Step-finish (skip e l) a = rw (head_agrees a e) (rw l refl)
Step-finish (visit e l) a = rw (head_agrees a e) (rw l refl)
Step-finish hand_over a = refl
Step-finish handle a = refl

Steps-finish :
    {user_id : Str} {t u : Threads}
    → IsAhead t
    → Steps user_id t u
    → IsAhead u × (finish user_id u ≡ finish user_id t)
Steps-finish a here = (a, refl)
Steps-finish a (then_step before last) =
    let (ahead, same) = Steps-finish a before in
    (Step-IsAhead last ahead, Step-finish last ahead ∙ same)

start-IsAhead : (ids : List Str) (s : Ims) → IsWf s → IsAhead (start ids s.entries)
start-IsAhead ids s w = record {
  agrees = λ j c. refl;
  distinct = w.distinct;
  own = w.own;
  sent_free = tt;
  held_free = tt;
}

finish_of_done :
    (user_id : Str) (t : Threads) → IsDone t → finish user_id t ≡ returned (t.ids, t.entries)
unfolding visit_delete
finish_of_done user_id t done = ground arith

-- Whatever the interleaving of the two goroutines over a well-formed storage, a run that has ended
-- leaves the map that the sequential walk leaves.
pub interleavings_agree :
    (user_id : Str) (ids : List Str) (s : Ims) (t : Threads)
    → IsWf s
    → Steps user_id (start ids s.entries) t
    → IsDone t
    → delete_urls user_id ids s ≡ (returned none, record s { entries = t.entries })
unfolding delete_urls
interleavings_agree user_id ids s t w run done =
    let (ahead, same) = Steps-finish (start-IsAhead ids s w) run in
    rw (sym same ∙ finish_of_done user_id t done, delete_urls) refl
