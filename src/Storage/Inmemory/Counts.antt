-- ===== src/Storage/Inmemory/Counts.antt =====
-- The two counts, and whose a session is.
use urlshortner.Prelude.{
  ℕ, suc, ◌+◌, Str, SyncMap, load, store, load-store, keys, length, contains, All, ◌==◌, eq_iff,
  eq_refl, returned, ◌≡◌, ◌∙◌, ap, refl, true, false, ◌||◌, none, some, List, [], ◌∷◌, inl, inr,
  Bool-cases, Option-cases, arith, if◌then◌else◌,
}
use urlshortner.Storage.Inmemory.{
  Storer, Value, ims_storer, file_storer, Ims, is_live_of, visit_users, count_users, count_entries,
  count_urls, load_user, store_session, delete_urls, store_url, visit_delete, delete_item,
}
use urlshortner.Storage.Inmemory.Invariant.{IsOwn, IsWf, visit_delete-keeps}

-- No string stands twice.
abbrev pub HasNoRepeats : List Str → Type 0
HasNoRepeats [] = Unit
HasNoRepeats (u ∷ us) = (contains u us ≡ false) × HasNoRepeats us

-- The user that each entry was stored by, one after the other.
abbrev pub owners : SyncMap Value → List Str
owners [] = []
owners ((id, ims_storer r) ∷ m) = r.user_id ∷ owners m
owners ((id, file_storer r) ∷ m) = owners m

visit_users_lem :
    (m : SyncMap Value) (users : List Str)
    → All IsOwn m
    → HasNoRepeats users
    → (us : List Str) × (visit_users m users ≡ returned us)
      × HasNoRepeats us
      × ((u : Str) → contains u us ≡ (contains u users || contains u (owners m)))
unfolding visit_users contains
visit_users_lem [] users o d = (users, refl, d, λ u. ground arith)
visit_users_lem ((id, file_storer r) ∷ m) users o d = absurd o.0
visit_users_lem ((id, ims_storer r) ∷ m) users o d = elim (Bool-cases (contains r.user_id users)) [
  | inl known ↦
      let (us, e, d', h) = visit_users_lem m users o.1 d in
      rw known (us, e, d', λ u. ground (arith, h u, eq_iff u r.user_id))
  | inr new ↦
      let (us, e, d', h) = visit_users_lem m (r.user_id ∷ users) o.1 (new, d) in
      rw new (us, e, d', λ u. ground (arith, h u))
]

-- `CountUsers` on a well-formed storage is the number of distinct users that have stored a URL, a
-- deleted one included; nothing changes.
pub count_users_lem :
    (s : Ims)
    → IsWf s
    → (us : List Str) × (count_users s ≡ (returned (length us, none), s))
      × HasNoRepeats us
      × ((u : Str) → contains u us ≡ contains u (owners s.entries))
unfolding count_users contains
count_users_lem s w =
    let (us, e, d, h) = visit_users_lem s.entries [] w.own tt in
    (us, rw (e, count_users) refl, d, h)

count_entries_lem : (m : SyncMap Value) (n : ℕ) → count_entries m n ≡ n + length m
unfolding count_entries
count_entries_lem [] n = omega arith
count_entries_lem (e ∷ m) n = omega (arith, count_entries_lem m (suc n))

pub count_urls-result : (s : Ims) → count_urls s ≡ (returned (length s.entries, none), s)
unfolding count_urls
count_urls-result s = rw count_entries_lem (ground arith)

length-store_free :
    (k : Str) (v : Value) (m : SyncMap Value)
    → load k m ≡ none
    → length (store k v m) ≡ suc (length m)
unfolding load store
length-store_free k v [] h = refl
length-store_free k v ((j, w) ∷ m) h = ground (arith, length-store_free k v m)

length-store_taken :
    (k : Str) (v w : Value) (m : SyncMap Value)
    → load k m ≡ some w
    → length (store k v m) ≡ length m
unfolding load store
length-store_taken k v w [] h = cc
length-store_taken k v w ((j, x) ∷ m) h = ground (arith, length-store_taken k v w m)

keys-store_taken :
    (k : Str) (v : Value) (m : SyncMap Value)
    → contains k (keys m) ≡ true
    → keys (store k v m) ≡ keys m
unfolding store contains
keys-store_taken k v [] h = cc
keys-store_taken k v ((j, x) ∷ m) h = ground (arith, eq_iff j k, eq_iff k j, keys-store_taken k v m)

keys-delete_item :
    (id : Str) (r : Storer) (ids : List Str) (m : SyncMap Value)
    → contains id (keys m) ≡ true
    → keys (delete_item id r (ids, m)).1 ≡ keys m
unfolding delete_item
keys-delete_item id r ids m h = ground (
  arith,
  keys-store_taken id (ims_storer (record { url = r.url; user_id = r.user_id; deleted = true })) m
      h,
)

-- The walk writes to keys that are there already.
keys-visit_delete :
    (user_id : Str) (todo : SyncMap Value) (ids : List Str) (m : SyncMap Value) (ids' : List Str)
    (m' : SyncMap Value)
    → ((j : Str) → contains j (keys todo) ≡ true → contains j (keys m) ≡ true)
    → visit_delete user_id todo (ids, m) ≡ returned (ids', m')
    → keys m' ≡ keys m
unfolding visit_delete contains
keys-visit_delete user_id [] ids m ids' m' h e = ground arith
keys-visit_delete user_id ((id, file_storer r) ∷ todo) ids m ids' m' h e = cc
keys-visit_delete user_id ((id, ims_storer r) ∷ todo) ids m ids' m' h e =
    elim (Bool-cases (is_live_of user_id r)) [
      | inl live ↦
          let (ids₁, m₁) = delete_item id r (ids, m) in
          let kept = keys-delete_item id r ids m (h id (rw (eq_refl id) refl)) in
          let inside : (j : Str) → contains j (keys todo) ≡ true → contains j (keys m₁) ≡ true =
            λ j c. rw kept (h j (ground arith)) in
          keys-visit_delete user_id todo ids₁ m₁ ids' m' inside (rw live at e) ∙ kept
      | inr other ↦
          keys-visit_delete user_id todo ids m ids' m' (λ j c. h j (ground arith)) (rw other at e)
    ]

keys-delete_urls :
    (user_id : Str) (ids : List Str) (s : Ims)
    → IsWf s
    → keys (delete_urls user_id ids s).1.entries ≡ keys s.entries
unfolding delete_urls
keys-delete_urls user_id ids s w =
    let (ids', m', ended, d, o) =
      visit_delete-keeps user_id s.entries ids s.entries w.own w.distinct w.own in
    rw (ended, delete_urls)
      (keys-visit_delete user_id s.entries ids s.entries ids' m' (λ j c. c) ended)

length-keys : (m : SyncMap Value) → length (keys m) ≡ length m
length-keys [] = refl
length-keys (e ∷ m) = ap suc (length-keys m)

-- On a well-formed storage `CountURLs` does not fail. It grows by one with each URL stored under a
-- free id, stays when the id is taken, and stays when URLs are deleted: a deleted URL is still
-- counted.
pub count_urls_lem :
    (s : Ims)
    → IsWf s
    → (n : ℕ) × (count_urls s ≡ (returned (n, none), s))
      × ((id url user_id : Str)
          → (count_urls (store_url id url user_id s).1).0
            ≡ returned ((elim (load id s.entries) [ none ↦ n + 1 | some v ↦ n ]), none))
      × ((user_id : Str) (ids : List Str)
          → (count_urls (delete_urls user_id ids s).1).0 ≡ returned (n, none))
unfolding count_urls store_url
count_urls_lem s w = (
  length s.entries,
  rw count_entries_lem (ground arith),
  λ id url user_id. elim (Option-cases (load id s.entries)) [
    | inl free ↦
        let stored =
          length-store_free id
            (ims_storer (record { url = url; user_id = user_id; deleted = false })) s.entries
            free in
        rw (free, store_url) (rw (count_entries_lem, stored) (ground arith))
    | inr (v, taken) ↦ rw (taken, store_url) (rw count_entries_lem (ground arith))
  ],
  λ user_id ids.
      let same = ap length (keys-delete_urls user_id ids s w) in
      rw count_entries_lem (
        ground
          (arith, same, length-keys (delete_urls user_id ids s).1.entries, length-keys s.entries)),
)

-- After `StoreSession` the token stands for its user, whatever it stood for before, and every other
-- token for whom it stood for; `LoadUser` never fails.
pub load_user-store_session :
    (id session t : Str) (s : Ims)
    → load_user t (store_session id session s).1 ≡ (
      (if session == t then returned (id, none) else (load_user t s).0),
      (store_session id session s).1,
    )
unfolding load_user store_session
load_user-store_session id session t s = ground (arith, load-store session t id s.sessions)
