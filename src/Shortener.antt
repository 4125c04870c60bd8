-- ===== src/Shortener.antt =====
-- internal/shortener: the service between the servers and the storage.
pub mod Ids
pub mod Finding
use urlshortner.Prelude.{ℕ, Str, str, Exec, Option, List, ◌++◌}
use urlshortner.GoStd.Base64
use urlshortner.Config.{Config}
use urlshortner.Storage.Errors.{Error}
use urlshortner.Storage.Filestorage.{Disk}
use urlshortner.Storage.Inmemory.{Ims}
use urlshortner.Storage.Inmemory.Loader.{ims_loader}
use urlshortner.Storage.Interface
use urlshortner.Storage.Interface.{StorerLoader, Pairs}

pub record MyShortener (S : Type 0) : Type 0 where
  pub storage : StorerLoader S
  pub config : Config

-- The service over the in-memory storage; `encoding/csv` writes a record by `encode_record`.
abbrev pub in_memory : (List Str → Str) → Config → MyShortener (Ims × Disk)
in_memory encode_record cfg = record { storage = ims_loader encode_record; config = cfg }

unfoldable pub make_url : Config → Str → Str
make_url c id = c.base_url ++ str "/" ++ id

-- The id, and the short URL.
unfoldable pub shorten_url : Config → Str → Str × Str
shorten_url c url = let id = Base64.encode url in (id, make_url c id)

module _ {S : Type 0} (m : MyShortener S) where
  abbrev pub store_url : Str → Str → Str → Exec S (Option Error)
  store_url id url user_id = m.storage.store_url id url user_id

  abbrev pub find_url : Str → Exec S (Str × Option Error)
  find_url key = m.storage.load_url key

  abbrev pub flush_storage : Exec S (Option Error)
  flush_storage = m.storage.flush

  abbrev pub load_by_user : Str → Exec S (Pairs × Option Error)
  load_by_user user_id = Interface.load_by_user m.storage (make_url m.config) user_id

  abbrev pub delete_urls : Str → List Str → Exec S (Option Error)
  delete_urls user_id ids = m.storage.delete_urls user_id ids

  abbrev pub count_urls : Exec S (ℕ × Option Error)
  count_urls = m.storage.count_urls

  abbrev pub count_users : Exec S (ℕ × Option Error)
  count_users = m.storage.count_users
