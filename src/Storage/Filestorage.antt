-- ===== src/Storage/Filestorage.antt =====
-- internal/storage/inmemory/filestorage: the file behind the in-memory storage.
-- `encoding/csv` writes a record as the text `encode_record` and reads a whole text by `read_all`;
-- both are parameters. The buffering of its writer is `bufio.Writer`'s, with 4096 bytes.
use urlshortner.Prelude.{
  ℕ, Str, str, SyncMap, load, store, length, ltb, ◌==◌, Outcome, returned, panicked, Exec, Bool,
  Option, none, some, List, [], ◌∷◌, ◌++◌, if◌then◌else◌,
}
use urlshortner.Storage.Errors.{Error, message}
use urlshortner.GoStd.ParseBool.{parse_bool}

-- The files by path, what opening one fails with, and what appending a text to a file of some content
-- makes of it, which may fail part of the way.
pub record Disk : Type 0 where
  pub files : SyncMap Str
  pub open_error : Str → Option Error
  pub append : Str → Str → Str → Str × Option Error

pub record FileStorage : Type 0 where
  pub file_path : Str

-- `filestorage.storer`: a type of its own, beside `inmemory.storer`.
pub record Storer : Type 0 where
  pub url : Str
  pub user_id : Str
  pub deleted : Bool

unfoldable pub new : Str → Option FileStorage
new p = if p == [] then none else some (record { file_path = p })

abbrev pub or_empty : Option Str → Str
or_empty none = []
or_empty (some text) = text

-- `os.OpenFile` with `O_CREATE`: a file that is not there is made, with no content. The result is
-- the content.
unfoldable pub open_file : Str → Exec Disk (Str × Option Error)
open_file path d = elim (d.open_error path) [
  | some e ↦ (returned ([], some e), d)
  | none ↦
      let text = or_empty (load path d.files) in
      (returned (text, none), record d { files = store path text d.files })
]

-- The loop of `ReadFile` over the records: `v[3]` and `v[0]` panic on a record that is too short.
unfoldable pub read_records :
    List (List Str) → SyncMap Storer → Outcome (SyncMap Storer × Option Error)
read_records [] s = returned (s, none)
read_records ((id ∷ url ∷ user ∷ flag ∷ more) ∷ rest) s = elim (parse_bool flag) [
  | none ↦ returned (s, some (message (str "strconv.ParseBool: parsing: invalid syntax")))
  | some deleted ↦
      read_records rest (store id (record { url = url; user_id = user; deleted = deleted }) s)
]
read_records (v ∷ rest) s = panicked

abbrev parsed_file : (List (List Str) × Option Error) → Exec Disk (SyncMap Storer × Option Error)
parsed_file (records, some e) d = (returned ([], some e), d)
parsed_file (records, none) d = (read_records records [], d)

-- `ReadFile`.
unfoldable pub read_file :
    (Str → List (List Str) × Option Error) → FileStorage → Exec Disk (SyncMap Storer × Option Error)
read_file read_all f d =
    let opened = open_file f.file_path d in
    elim opened.0 [
      | panicked ↦ (panicked, opened.1)
      | returned (text, some e) ↦ (returned ([], some e), opened.1)
      | returned (text, none) ↦ parsed_file (read_all text) opened.1
    ]

-- `csv.Writer` over a file that is open for appending: what is in the file, and what waits in the
-- buffer of its `bufio.Writer`, which keeps the first error of a write to the file.
pub record Writer : Type 0 where
  pub written : Str
  pub buffered : Str
  pub err : Option Error

abbrev pub buffer_size : ℕ
buffer_size = 4096

-- `NewWriter`.
abbrev pub new_writer : Str → Writer
new_writer content = record { written = content; buffered = []; err = none }

-- One byte through the buffer: a full buffer goes to the file first, and after an error nothing goes
-- anywhere. `bufio` writes a text that is
-- longer than an empty buffer straight to the file; here it goes byte by byte, which can only leave
-- more of it in the buffer.
-- `append` is the file's.
module _ (append : Str → Str → Str × Option Error) where
  -- `Flush` of the full buffer, and the byte behind it.
  after_flush : ℕ → Writer → Str × Option Error → Writer
  after_flush b w (text, none) = record { written = text; buffered = b ∷ []; err = none }
  after_flush b w (text, some e) = record w { written = text; err = some e }

  unfoldable pub write_byte : ℕ → Writer → Writer
  unfolding after_flush
  write_byte b w = elim w.err [
    | some e ↦ w
    | none ↦
        if ltb (length w.buffered) buffer_size
        then record w { buffered = w.buffered ++ b ∷ [] }
        else after_flush b w (append w.written w.buffered)
  ]

  unfoldable pub write_text : Str → Writer → Writer
  write_text [] w = w
  write_text (b ∷ s) w = write_text s (write_byte b w)
