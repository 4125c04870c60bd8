-- ===== src/Storage/Inmemory/Lookup.antt =====
-- Loading and storing one URL, seen through the table.
use urlshortner.Prelude.{
  Str, load, load-store, All-load, ◌==◌, eq_iff, returned, ◌≡◌, refl, some, Option-cases, inl, inr,
  arith, false, if◌then◌else◌,
}
use urlshortner.Storage.Inmemory.{Storer, Value, ims_storer, file_storer, Ims, load_url, store_url}
use urlshortner.Storage.Inmemory.Invariant.{IsOwn, IsWf}
use urlshortner.Storage.Inmemory.Table.{entry, answer, store_error, store_in}

-- Under the invariant a value that is found is the record of the table.
pub load-entry :
    (s : Ims) (id : Str) (v : Value)
    → IsWf s
    → load id s.entries ≡ some v
    → (r : Storer) × (v ≡ ims_storer r)
load-entry s id (ims_storer r) w e = (r, refl)
load-entry s id (file_storer r) w e = absurd (All-load IsOwn id (file_storer r) s.entries w.own e)

pub load_url-entry :
    (id : Str) (s : Ims) → IsWf s → load_url id s ≡ (returned (answer id (entry s id)), s)
unfolding load_url
load_url-entry id s w = elim (Option-cases (load id s.entries)) [
  | inl free ↦ rw (free, load_url) refl
  | inr (v, found) ↦
      let (r, own) = load-entry s id v w found in
      let e : load id s.entries ≡ some (ims_storer r) = rw (← own) found in
      rw (e, load_url) (ground arith)
]

pub store_url-result :
    (id url user_id : Str) (s : Ims)
    → IsWf s
    → (store_url id url user_id s).0 ≡ returned (store_error (entry s id))
unfolding store_url
store_url-result id url user_id s w = elim (Option-cases (load id s.entries)) [
  | inl free ↦ rw (free, store_url) refl
  | inr (v, found) ↦
      let (r, own) = load-entry s id v w found in
      let e : load id s.entries ≡ some (ims_storer r) = rw (← own) found in rw (e, store_url) refl
]

pub entry-store_url :
    (id url user_id j : Str) (s : Ims)
    → IsWf s
    → entry (store_url id url user_id s).1 j ≡ (
        if id == j
        then store_in (record { url = url; user_id = user_id; deleted = false }) (entry s j)
        else entry s j)
unfolding store_url
entry-store_url id url user_id j s w = elim (Option-cases (load id s.entries)) [
  | inl free ↦ rw (free, store_url) (rw load-store (ground (arith, eq_iff id j)))
  | inr (v, found) ↦
      let (r, own) = load-entry s id v w found in
      let e : load id s.entries ≡ some (ims_storer r) = rw (← own) found in
      rw (e, store_url) (ground (arith, eq_iff id j))
]
