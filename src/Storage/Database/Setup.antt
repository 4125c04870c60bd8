-- ===== src/Storage/Database/Setup.antt =====
-- internal/storage/database/database.go: `New`, with `initDB`, `prepareStatements` and `initBuffer`.
use urlshortner.Prelude.{Str, str, Exec, pure, ◌>>=◌, Option, none, some, ◌⊎◌, inl, inr}
use urlshortner.Storage.Errors.{Error, wrapped}
use urlshortner.Storage.Database.Buffer.{Gob, AsyncBuf, init_buffer}

-- `database/sql`: what opens a database and sets it up.
pub record Driver (S : Type 0) : Type 0 where
  pub open_dsn : Str → Exec S (Option Error)
  -- "CREATE TABLE IF NOT EXISTS users …" and "CREATE TABLE IF NOT EXISTS urls …"
  pub create_users : Exec S (Option Error)
  pub create_urls : Exec S (Option Error)
  -- "INSERT INTO urls …" and "INSERT INTO users …"
  pub prepare_store_url : Exec S (Option Error)
  pub prepare_store_session : Exec S (Option Error)

-- The next call, unless there was an error.
unless_error : {S : Type 0} → Exec S (Option Error) → Option Error → Exec S (Option Error)
unless_error next (some e) = pure (some e)
unless_error next none = next

module _ {S : Type 0} (driver : Driver S) where
  unfoldable pub init_db : Exec S (Option Error)
  unfolding unless_error
  init_db = driver.create_users >>= unless_error driver.create_urls

  unfoldable pub prepare_statements : Exec S (Option Error)
  unfolding unless_error
  prepare_statements = driver.prepare_store_url >>= unless_error driver.prepare_store_session

module _ (gob : Gob) {S : Type 0} (driver : Driver S) where
  prepared : Option Error → Exec S (Error ⊎ AsyncBuf gob)
  prepared (some e) =
      pure (inl (wrapped (str "failed to prepare statements for database storage: ") e))
  prepared none = pure (inr (init_buffer gob))

  initialised : Option Error → Exec S (Error ⊎ AsyncBuf gob)
  unfolding prepared
  initialised (some e) = pure (inl (wrapped (str "cannot init database: ") e))
  initialised none = prepare_statements driver >>= prepared

  connected : Option Error → Exec S (Error ⊎ AsyncBuf gob)
  unfolding initialised
  connected (some e) = pure (inl (wrapped (str "cannot connect to database: ") e))
  connected none = init_db driver >>= initialised

  -- `New`: the error, or the buffer of the database that is set up.
  unfoldable pub new : Str → Exec S (Error ⊎ AsyncBuf gob)
  unfolding connected
  new dsn = driver.open_dsn dsn >>= connected
