-- ===== src/Storage/Inmemory.antt =====
-- internal/storage/inmemory/inmemory.go: the in-memory storage `ims` and its methods.
-- A `sync.Map` holds values of any type, and a type assertion that fails panics: `Value` has a
-- constructor for each of the two types `storer` that reach the map `data`.
-- A method that ranges over `data` in one goroutine and receives the items in another is written
-- here as one walk.
pub mod Invariant
pub mod Table
pub mod Lookup
pub mod Delete
pub mod Refinement
pub mod Interleaving
pub mod Users
pub mod Counts
pub mod Files
pub mod Reload
pub mod Loader
use urlshortner.Prelude.{
  ℕ, suc, Str, str, SyncMap, load, store, keys, length, contains, ◌==◌, Outcome, returned, panicked,
  Exec, Bool, true, false, not, ◌&&◌, Option, none, some, List, [], ◌∷◌, ◌++◌, if◌then◌else◌,
}
use urlshortner.GoStd.ParseBool.{format_bool}
use urlshortner.Storage.Errors.{Error, message, wrapped, err_conflict, err_url_gone}
use urlshortner.Storage.Filestorage
use urlshortner.Storage.Filestorage.{
  FileStorage, Disk, Writer, open_file, read_file, new_writer, write_text,
}

-- `inmemory.storer`.
pub record Storer : Type 0 where
  pub url : Str
  pub user_id : Str
  pub deleted : Bool

pub data Value : Type 0 where
  ims_storer : Storer → Value
  file_storer : Filestorage.Storer → Value

pub record Ims : Type 0 where
  pub entries : SyncMap Value
  pub sessions : SyncMap Str
  pub file_manager : Option FileStorage

-- What `LoadURL` does with the value that it found.
url_of : Value → Ims → Outcome (Str × Option Error) × Ims
url_of (file_storer r) s = (panicked, s)
url_of (ims_storer r) s =
    if r.deleted then (returned ([], some err_url_gone), s) else (returned (r.url, none), s)

unfoldable pub load_url : Str → Exec Ims (Str × Option Error)
unfolding url_of
load_url id s = elim (load id s.entries) [
  | none ↦ (returned ([], some (message (str "cannot find url by id " ++ id))), s)
  | some v ↦ url_of v s
]

-- `LoadOrStore`: the value is written only if the key is free.
unfoldable pub store_url : Str → Str → Str → Exec Ims (Option Error)
store_url id url user_id s = elim (load id s.entries) [
  | some v ↦ (returned (some err_conflict), s)
  | none ↦
      let fresh : Storer = record { url = url; user_id = user_id; deleted = false } in
      (returned none, record s { entries = store id (ims_storer fresh) s.entries })
]

-- The test of `findURLsByUser`.
unfoldable pub is_live_of : Str → Storer → Bool
is_live_of user_id r = (r.user_id == user_id) && not r.deleted

-- The walk of `LoadUrlsByUser`; `acc` is what the closure `add` has gathered.
unfoldable pub visit_urls : {B : Type 0} → (Str → Str → B → B) → Str → SyncMap Value → B → Outcome B
visit_urls add user_id [] acc = returned acc
visit_urls add user_id ((id, file_storer r) ∷ m) acc = panicked
visit_urls add user_id ((id, ims_storer r) ∷ m) acc =
    visit_urls add user_id m (if is_live_of user_id r then add id r.url acc else acc)

abbrev no_error : {B S : Type 0} → Outcome B → S → Outcome (B × Option Error) × S
no_error (returned b) s = (returned (b, none), s)
no_error panicked s = (panicked, s)

unfoldable pub load_urls_by_user :
    {B : Type 0} → (Str → Str → B → B) → Str → B → Exec Ims (B × Option Error)
load_urls_by_user add user_id acc s = no_error (visit_urls add user_id s.entries acc) s

-- An unknown session is no error: the user is then "".
unfoldable pub load_user : Str → Exec Ims (Str × Option Error)
load_user session s = elim (load session s.sessions) [
  | none ↦ (returned ([], none), s)
  | some user_id ↦ (returned (user_id, none), s)
]

unfoldable pub store_session : Str → Str → Exec Ims (Option Error)
store_session id session s = (returned none, record s { sessions = store session id s.sessions })

-- The set `users`, in the order in which the walk adds to it.
unfoldable pub visit_users : SyncMap Value → List Str → Outcome (List Str)
visit_users [] users = returned users
visit_users ((id, file_storer r) ∷ m) users = panicked
visit_users ((id, ims_storer r) ∷ m) users =
    visit_users m (if contains r.user_id users then users else r.user_id ∷ users)

abbrev counted : {S : Type 0} → Outcome (List Str) → S → Outcome (ℕ × Option Error) × S
counted (returned users) s = (returned (length users, none), s)
counted panicked s = (panicked, s)

unfoldable pub count_users : Exec Ims (ℕ × Option Error)
count_users s = counted (visit_users s.entries []) s

-- The walk counts every entry, the deleted ones too.
unfoldable pub count_entries : SyncMap Value → ℕ → ℕ
count_entries [] n = n
count_entries (e ∷ m) n = count_entries m (suc n)

unfoldable pub count_urls : Exec Ims (ℕ × Option Error)
count_urls s = (returned (count_entries s.entries 0, none), s)

-- `append(ids[:i], ids[i+1:]...)` at the first `i` with `ids[i] == id`.
unfoldable pub remove_id : Str → List Str → List Str
remove_id id [] = []
remove_id id (v ∷ ids) = if id == v then ids else v ∷ remove_id id ids

-- What the receiving goroutine does with one item: the entry is written with `deleted` set, and the
-- id leaves the slice.
unfoldable pub delete_item : Str → Storer → List Str × SyncMap Value → List Str × SyncMap Value
delete_item id r (ids, m) =
    if contains id ids
    then (
      remove_id id ids,
      store id (ims_storer (record { url = r.url; user_id = r.user_id; deleted = true })) m,
    )
    else (ids, m)

-- The walk of `DeleteURLs` over the entries that are still to be visited.
unfoldable pub visit_delete :
    Str → SyncMap Value → List Str × SyncMap Value → Outcome (List Str × SyncMap Value)
visit_delete user_id [] st = returned st
visit_delete user_id ((id, file_storer r) ∷ todo) st = panicked
visit_delete user_id ((id, ims_storer r) ∷ todo) st =
    visit_delete user_id todo (if is_live_of user_id r then delete_item id r st else st)

abbrev entries_after : Outcome (List Str × SyncMap Value) → Exec Ims (Option Error)
entries_after (returned st) s = (returned none, record s { entries = st.1 })
entries_after panicked s = (panicked, s)

unfoldable pub delete_urls : Str → List Str → Exec Ims (Option Error)
delete_urls user_id ids s = entries_after (visit_delete user_id s.entries (ids, s.entries)) s

-- The record that `Flush` writes for an entry.
unfoldable pub record_of : Str → Storer → List Str
record_of id r = id ∷ r.url ∷ r.user_id ∷ format_bool r.deleted ∷ []

-- `encoding/csv` writes a record as the text `encode_record`.
module _ (encode_record : List Str → Str) where
  -- The closure `f` of `Flush`, over the entries: the first error ends the walk. `append` is the
  -- file's.
  unfoldable pub write_entries :
      (Str → Str → Str × Option Error) → SyncMap Value → Exec Writer (Option Error)
  write_entries append [] w = (returned none, w)
  write_entries append ((id, file_storer r) ∷ m) w = (panicked, w)
  write_entries append ((id, ims_storer r) ∷ m) w =
      let w' = write_text append (encode_record (record_of id r)) w in
      elim w'.err [ some e ↦ (returned (some e), w') | none ↦ write_entries append m w' ]

  -- `Flush` ends with the writer dropped: what its buffer holds is lost.
  flushed :
      Str → Outcome (Option Error) × Writer → Ims × Disk → Outcome (Option Error) × (Ims × Disk)
  flushed path (err, w) (s, d) = (err, (s, record d { files = store path w.written d.files }))

  unfoldable pub flush : Exec (Ims × Disk) (Option Error)
  unfolding flushed
  flush (s, d) = elim s.file_manager [
    | none ↦ (returned none, (s, d))
    | some f ↦
        let opened = open_file f.file_path d in
        elim opened.0 [
          | panicked ↦ (panicked, (s, opened.1))
          | returned (text, some e) ↦ (returned (some e), (s, opened.1))
          | returned (text, none) ↦
              flushed f.file_path (write_entries (d.append f.file_path) s.entries (new_writer text))
                (s, opened.1)
        ]
  ]

-- The map that `ReadFile` filled, taken over as it is: its values keep their type.
unfoldable pub as_values : SyncMap Filestorage.Storer → SyncMap Value
as_values [] = []
as_values ((id, r) ∷ m) = (id, file_storer r) ∷ as_values m

-- `encoding/csv` reads the records of a whole text by `read_all`.
module _ (read_all : Str → List (List Str) × Option Error) where
  loaded :
      Option FileStorage
      → Outcome (SyncMap Filestorage.Storer × Option Error) × Disk
      → Outcome (Ims × Option Error) × Disk
  loaded f (panicked, d) = (panicked, d)
  loaded f (returned (m, some e), d) =
      let cause = wrapped (str "failed to read from storage: ") e in
      (returned (record { entries = []; sessions = []; file_manager = f }, some cause), d)
  loaded f (returned (m, none), d) =
      (returned (record { entries = as_values m; sessions = []; file_manager = f }, none), d)

  -- `New`, over the path that the configuration gives; `filestorage.New` makes no file manager
  -- for the empty path.
  unfoldable pub new : Str → Exec Disk (Ims × Option Error)
  unfolding loaded
  new storage_path d = elim (Filestorage.new storage_path) [
    | none ↦ (returned (record { entries = []; sessions = []; file_manager = none }, none), d)
    | some f ↦ loaded (some f) (read_file read_all f d)
  ]
