-- ===== src/Storage/Inmemory/Invariant.antt =====
-- The invariant of the in-memory storage (internal/storage/inmemory/inmemory.go): `data` is a map, and
-- every value in it has the type that the methods assert.
use urlshortner.Prelude.{
  Str, SyncMap, HasDistinctKeys, store-HasDistinctKeys, All, All-store, returned, inl, inr,
  Bool-cases, Option-cases, false, load, contains, ◌≡◌, refl, none, List, [], ◌∷◌,
}
use urlshortner.Storage.Inmemory.{
  Storer, Value, ims_storer, file_storer, Ims, store_url, is_live_of, store_session, visit_delete,
  delete_item, delete_urls, visit_urls,
}

-- The value is `inmemory`'s own.
abbrev pub IsOwn : Str × Value → Type 0
IsOwn (id, ims_storer r) = Unit
IsOwn (id, file_storer r) = ⊥

pub record IsWf (s : Ims) : Type 0 where
  pub distinct : HasDistinctKeys s.entries
  pub own : All IsOwn s.entries

-- `StoreURL` leaves a well-formed storage well-formed.
pub store_url-IsWf : (id url user_id : Str) (s : Ims) → IsWf s → IsWf (store_url id url user_id s).1
unfolding store_url
store_url-IsWf id url user_id s w =
    let fresh : Storer = record { url = url; user_id = user_id; deleted = false } in
    elim (Option-cases (load id s.entries)) [
      | inl free ↦
          rw (free, store_url)
            (record {
              distinct = store-HasDistinctKeys id (ims_storer fresh) s.entries w.distinct;
              own = All-store IsOwn id (ims_storer fresh) s.entries w.own tt;
            })
      | inr (v, taken) ↦ rw (taken, store_url) w
    ]

pub store_session-IsWf : (id session : Str) (s : Ims) → IsWf s → IsWf (store_session id session s).1
unfolding store_session
store_session-IsWf id session s w = record { distinct = w.distinct; own = w.own }

-- One item of `DeleteURLs` keeps the two parts of the invariant.
delete_item-keeps :
    (id : Str) (r : Storer) (ids : List Str) (m : SyncMap Value)
    → HasDistinctKeys m
    → All IsOwn m
    → HasDistinctKeys (delete_item id r (ids, m)).1 × All IsOwn (delete_item id r (ids, m)).1
unfolding delete_item
delete_item-keeps id r ids m d o = elim (Bool-cases (contains id ids)) [
  | inl hit ↦ rw hit (store-HasDistinctKeys id _ m d, All-store IsOwn id _ m o tt)
  | inr miss ↦ rw miss (d, o)
]

-- Over values of the right type the walk ends, and what it leaves is well formed.
pub visit_delete-keeps :
    (user_id : Str) (todo : SyncMap Value) (ids : List Str) (m : SyncMap Value)
    → All IsOwn todo
    → HasDistinctKeys m
    → All IsOwn m
    → (ids' : List Str) × (m' : SyncMap Value) × (visit_delete user_id todo (ids, m)
        ≡ returned (ids', m'))
      × HasDistinctKeys m'
      × All IsOwn m'
unfolding visit_delete
visit_delete-keeps user_id [] ids m t d o = (ids, m, refl, d, o)
visit_delete-keeps user_id ((id, file_storer r) ∷ todo) ids m t d o = absurd t.0
visit_delete-keeps user_id ((id, ims_storer r) ∷ todo) ids m t d o =
    elim (Bool-cases (is_live_of user_id r)) [
      | inl live ↦
          let (ids', m') = delete_item id r (ids, m) in
          let (d', o') = delete_item-keeps id r ids m d o in
          rw live (visit_delete-keeps user_id todo ids' m' t.1 d' o')
      | inr other ↦ rw other (visit_delete-keeps user_id todo ids m t.1 d o)
    ]

-- `DeleteURLs` returns on a well-formed storage, with no error and no panic, and leaves a
-- well-formed storage that has the same sessions and the same file.
pub delete_urls_total :
    (user_id : Str) (ids : List Str) (s : Ims)
    → IsWf s
    → (m' : SyncMap Value) × (delete_urls user_id ids s
        ≡ (returned none, record s { entries = m' }))
      × IsWf (record s { entries = m' })
unfolding delete_urls
delete_urls_total user_id ids s w =
    let (ids', m', ended, d, o) =
      visit_delete-keeps user_id s.entries ids s.entries w.own w.distinct w.own in
    (m', rw (ended, delete_urls), record { distinct = d; own = o })

pub visit_urls_total :
    {B : Type 0} (add : Str → Str → B → B) (user_id : Str) (m : SyncMap Value) (acc : B)
    → All IsOwn m
    → (b : B) × (visit_urls add user_id m acc ≡ returned b)
unfolding visit_urls
visit_urls_total add user_id [] acc o = (acc, refl)
visit_urls_total add user_id ((id, file_storer r) ∷ m) acc o = absurd o.0
visit_urls_total add user_id ((id, ims_storer r) ∷ m) acc o = visit_urls_total add user_id m _ o.1
