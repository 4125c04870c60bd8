-- ===== src/Storage/Opening.antt =====
-- internal/storage/storage.go: `New` picks the implementation.
use urlshortner.Prelude.{
  Str, str, ◌==◌, Outcome, returned, panicked, Exec, Option, none, some, ◌⊎◌, inl, inr, List, [],
  if◌then◌else◌,
}
use urlshortner.Config.{Config}
use urlshortner.Storage.Errors.{Error, wrapped}
use urlshortner.Storage.Filestorage.{Disk}
use urlshortner.Storage.Inmemory
use urlshortner.Storage.Inmemory.{Ims}
use urlshortner.Storage.Database.Buffer.{Gob, AsyncBuf}
use urlshortner.Storage.Database.Setup
use urlshortner.Storage.Database.Setup.{Driver}

-- `Storage`: one of the two implementations.
pub data Opened (gob : Gob) : Type 0 where
  in_memory : Ims → Opened gob
  in_database : AsyncBuf gob → Opened gob

module _ (read_all : Str → List (List Str) × Option Error) (gob : Gob) {S : Type 0}
    (driver : Driver S) where
  ims_opened :
      Outcome (Ims × Option Error) × Disk
      → S
      → Outcome (Option (Opened gob) × Option Error) × (Disk × S)
  ims_opened (panicked, d) x = (panicked, (d, x))
  ims_opened (returned (i, some e), d) x =
      (returned (none, some (wrapped (str "cannot create inmemory storage: ") e)), (d, x))
  ims_opened (returned (i, none), d) x = (returned (some (in_memory i), none), (d, x))

  database_opened :
      Disk
      → Outcome (Error ⊎ AsyncBuf gob) × S
      → Outcome (Option (Opened gob) × Option Error) × (Disk × S)
  database_opened d (panicked, x) = (panicked, (d, x))
  database_opened d (returned (inl e), x) =
      (returned (none, some (wrapped (str "cannot create database storage: ") e)), (d, x))
  database_opened d (returned (inr b), x) = (returned (some (in_database b), none), (d, x))

  unfoldable pub new : Config → Exec (Disk × S) (Option (Opened gob) × Option Error)
  unfolding ims_opened database_opened
  new c (d, x) =
      if c.db_dsn == []
      then ims_opened (Inmemory.new read_all c.storage_path d) x
      else database_opened d (Setup.new gob driver c.db_dsn x)
