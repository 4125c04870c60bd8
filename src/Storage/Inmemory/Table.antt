-- ===== src/Storage/Inmemory/Table.antt =====
-- What the storage promises, with no order and no representation: a table from ids to records, and
-- the three operations on URLs over it.
use urlshortner.Prelude.{
  Str, str, load, contains, ◌==◌, false, true, [], Option, none, some, List, ◌&&◌, ◌++◌,
  if◌then◌else◌,
}
use urlshortner.Storage.Errors.{Error, message, err_conflict, err_url_gone}
use urlshortner.Storage.Inmemory.{Storer, Value, ims_storer, file_storer, Ims, is_live_of}

abbrev pub Table : Type 0
Table = Str → Option Storer

abbrev pub record_of_value : Option Value → Option Storer
record_of_value none = none
record_of_value (some (ims_storer r)) = some r
record_of_value (some (file_storer r)) = none

-- The record under an id.
abbrev pub entry : Ims → Str → Option Storer
entry s id = record_of_value (load id s.entries)

-- The answer for a record: its URL, unless it is missing or deleted.
abbrev pub answer : Str → Option Storer → Str × Option Error
answer id none = ([], some (message (str "cannot find url by id " ++ id)))
answer id (some r) = if r.deleted then ([], some err_url_gone) else (r.url, none)

-- A free id takes the record; a taken one keeps its own.
abbrev pub store_error : Option Storer → Option Error
store_error none = none
store_error (some r) = some err_conflict

abbrev pub store_in : Storer → Option Storer → Option Storer
store_in fresh none = some fresh
store_in fresh (some r) = some r

-- A record of the user with a listed id is marked; any other stays.
abbrev pub delete_in : Str → List Str → Str → Option Storer → Option Storer
delete_in user_id ids id none = none
delete_in user_id ids id (some r) =
    if is_live_of user_id r && contains id ids then some (record r { deleted = true }) else some r

pub data Command : Type 0 where
  load_cmd : Str → Command
  store_cmd : Str → Str → Str → Command
  delete_cmd : Str → List Str → Command

pub data Reply : Type 0 where
  found : Str × Option Error → Reply
  done : Option Error → Reply

-- One command over the table: its reply, and the next table.
abbrev pub reply : Table → Command → Reply
reply t (load_cmd id) = found (answer id (t id))
reply t (store_cmd id url user_id) = done (store_error (t id))
reply t (delete_cmd user_id ids) = done none

abbrev pub next : Table → Command → Table
next t (load_cmd id) j = t j
next t (store_cmd id url user_id) j =
    if id == j
    then store_in (record { url = url; user_id = user_id; deleted = false }) (t j)
    else t j
next t (delete_cmd user_id ids) j = delete_in user_id ids j (t j)
