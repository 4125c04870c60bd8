-- ===== src/Tests/Files.antt =====
-- The file behind the in-memory storage, on concrete inputs.
use urlshortner.Prelude.{
  Str, str, load, store, length, returned, panicked, ◌≡◌, ◌⊎◌, ◌≤◌, ◌<◌, ◌==◌, refl, false, none,
  some, List, [], ◌∷◌, ◌++◌,
}
use urlshortner.GoStd.ParseBool.{parse_bool}
use urlshortner.Storage.Interface.{append_pair}
use urlshortner.Storage.Filestorage
use urlshortner.Storage.Filestorage.{Disk, open_file, read_file, read_records}
use urlshortner.Storage.Inmemory.{
  Ims, file_storer, flush, new, as_values, load_url, load_urls_by_user, delete_urls, count_users,
}
use urlshortner.Storage.Inmemory.Files.{content, all_records, flush_incomplete}
use urlshortner.Storage.Inmemory.Reload.{reloaded_panics}
use urlshortner.Tests.Fixtures.{url, url_id, storage, storage-IsWf, disk, join_fields, one_record}

flush_incomplete_example :
    (kept : Str) × (lost : Str) × ((flush join_fields (storage, disk)).0 ≡ returned none)
    × (load (str "db.csv") (flush join_fields (storage, disk)).1.1.files ≡ some kept)
    × (kept ++ lost ≡ content (str "db.csv") disk ++ all_records join_fields storage.entries)
    × (length lost ≤ 4096)
    × ((length (all_records join_fields storage.entries) ≡ 0) ⊎ 0 < length lost)
    × (4096 < length (all_records join_fields storage.entries) ⊎ kept ≡ content (str "db.csv") disk)
flush_incomplete_example =
    flush_incomplete join_fields storage disk (record { file_path = str "db.csv" }) storage-IsWf
      refl refl (λ text more. refl)

-- A storage that was filled from a file with one record.
abbrev from_file : Ims
from_file = record {
  entries = (url_id, file_storer (record { url = url; user_id = str "u1"; deleted = false })) ∷ [];
  sessions = [];
  file_manager = some (record { file_path = str "db.csv" });
}

abbrev opened_disk : Disk
opened_disk = record disk { files = (str "db.csv", []) ∷ [] }

new_test : new one_record (str "db.csv") disk ≡ (returned (from_file, none), opened_disk)
unfolding new open_file read_file read_records Filestorage.new load store ◌==◌ as_values parse_bool
new_test = refl

found_test :
    load url_id from_file.entries
    ≡ some (file_storer (record { url = url; user_id = str "u1"; deleted = false }))
unfolding load ◌==◌
found_test = refl

reloaded_panics_example :
    (load_url url_id from_file ≡ (panicked, from_file))
    × ((make_url : Str → Str) (user_id : Str)
        → load_urls_by_user (append_pair make_url) user_id [] from_file ≡ (panicked, from_file))
    × ((user_id : Str) (ids : List Str) → delete_urls user_id ids from_file ≡ (panicked, from_file))
    × (count_users from_file ≡ (panicked, from_file))
reloaded_panics_example =
    reloaded_panics one_record (str "db.csv") disk from_file opened_disk url_id
      (file_storer (record { url = url; user_id = str "u1"; deleted = false })) new_test found_test
