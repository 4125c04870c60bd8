-- ===== src/Storage/Inmemory/Reload.antt =====
-- What comes back from the storage file.
use urlshortner.Prelude.{
  Str, SyncMap, load, ◌==◌, Outcome, returned, panicked, ◌≡◌, refl, Option, none, some, List, [],
  ◌∷◌, inl, inr, Bool-cases, Option-cases, arith,
}
use urlshortner.Storage.Errors.{Error}
use urlshortner.Storage.Filestorage
use urlshortner.Storage.Filestorage.{
  FileStorage, Disk, Writer, open_file, read_file, new_writer, write_byte, write_text, buffer_size,
  or_empty,
}
use urlshortner.Storage.Inmemory.{
  Value, file_storer, Ims, load_url, visit_urls, load_urls_by_user, as_values, new, loaded,
  delete_urls, visit_delete, count_users, visit_users,
}
use urlshortner.Storage.Interface.{append_pair}

-- The type of the values that `ReadFile` stores.
load-as_values :
    (id : Str) (m : SyncMap Filestorage.Storer) (v : Value)
    → load id (as_values m) ≡ some v
    → (r : Filestorage.Storer) × (v ≡ file_storer r)
unfolding load as_values
load-as_values id [] v e = cc
load-as_values id ((j, r) ∷ m) v e = elim (Bool-cases (j == id)) [
  | inl hit ↦ (r, ground arith)
  | inr miss ↦ load-as_values id m v (rw miss at e)
]

visit_urls-as_values :
    {B : Type 0} (add : Str → Str → B → B) (user_id id : Str) (m : SyncMap Filestorage.Storer)
    (acc : B) (v : Value)
    → load id (as_values m) ≡ some v
    → visit_urls add user_id (as_values m) acc ≡ panicked
unfolding load as_values visit_urls
visit_urls-as_values add user_id id [] acc v e = cc
visit_urls-as_values add user_id id (first ∷ m) acc v e = refl

visit_delete-as_values :
    (user_id id : Str) (m : SyncMap Filestorage.Storer) (st : List Str × SyncMap Value) (v : Value)
    → load id (as_values m) ≡ some v
    → visit_delete user_id (as_values m) st ≡ panicked
unfolding load as_values visit_delete
visit_delete-as_values user_id id [] st v e = cc
visit_delete-as_values user_id id (first ∷ m) st v e = refl

visit_users-as_values :
    (id : Str) (m : SyncMap Filestorage.Storer) (users : List Str) (v : Value)
    → load id (as_values m) ≡ some v
    → visit_users (as_values m) users ≡ panicked
unfolding load as_values visit_users
visit_users-as_values id [] users v e = cc
visit_users-as_values id (first ∷ m) users v e = refl

module _ (read_all : Str → List (List Str) × Option Error) where
  loaded-entries :
      (f : Option FileStorage) (x : Outcome (SyncMap Filestorage.Storer × Option Error) × Disk)
      (s : Ims) (d' : Disk)
      → loaded read_all f x ≡ (returned (s, none), d')
      → (m : SyncMap Filestorage.Storer) × (s.entries ≡ as_values m)
  unfolding loaded
  loaded-entries f (panicked, d) s d' e = absurd (cc e)
  loaded-entries f (returned (m, some c), d) s d' e = absurd (cc e)
  loaded-entries f (returned (m, none), d) s d' e = (m, ground arith)

  new-entries :
      (path : Str) (d : Disk) (s : Ims) (d' : Disk)
      → new read_all path d ≡ (returned (s, none), d')
      → (m : SyncMap Filestorage.Storer) × (s.entries ≡ as_values m)
  unfolding new as_values
  new-entries path d s d' e = elim (Option-cases (Filestorage.new path)) [
    | inl missing ↦ ([], ground arith)
    | inr (f, managed) ↦
        loaded-entries (some f) (read_file read_all f d) s d' (rw (managed, new) at e)
  ]

  -- A storage that `New` has filled from its file cannot be used: loading any URL that the file
  -- holds panics, and so does listing or deleting the URLs of any user, or counting the users, when
  -- the file holds anything at all. The values from the file are of `filestorage`'s type.
  pub reloaded_panics :
      (path : Str) (d : Disk) (s : Ims) (d' : Disk) (id : Str) (v : Value)
      → new read_all path d ≡ (returned (s, none), d')
      → load id s.entries ≡ some v
      → (load_url id s ≡ (panicked, s))
        × ((make_url : Str → Str) (user_id : Str)
            → load_urls_by_user (append_pair make_url) user_id [] s ≡ (panicked, s))
        × ((user_id : Str) (ids : List Str) → delete_urls user_id ids s ≡ (panicked, s))
        × (count_users s ≡ (panicked, s))
  unfolding load_url load_urls_by_user delete_urls count_users
  reloaded_panics path d s d' id v made held =
      let (m, same) = new-entries path d s d' made in
      let (r, foreign) = load-as_values id m v (rw same at held) in
      let filled = rw same at held in
      (
        ground arith,
        λ make_url user_id.
            ground
              (arith, same, visit_urls-as_values (append_pair make_url) user_id id m [] v filled),
        λ user_id ids.
            ground (arith, same, visit_delete-as_values user_id id m (ids, s.entries) v filled),
        ground (arith, same, visit_users-as_values id m [] v filled),
      )
