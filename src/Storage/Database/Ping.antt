-- ===== src/Storage/Database/Ping.antt =====
-- internal/storage/database/database.go: `Pingdb`. Closing the connection and the database is left to
-- `database/sql`.
use urlshortner.Prelude.{Str, Option, none, some}
use urlshortner.Storage.Errors.{Error}

-- `database/sql` with a server, at the moment of the call, by the DSN. The limit of one second is part
-- of both pings.
pub record Pinger : Type 0 where
  pub open_dsn : Str → Option Error
  pub conn : Str → Option Error
  pub ping_conn : Str → Option Error
  pub ping_db : Str → Option Error

or_else : Option Error → Option Error → Option Error
or_else (some e) next = some e
or_else none next = next

unfoldable pub pingdb : Pinger → Str → Option Error
unfolding or_else
pingdb sql dsn =
    or_else (sql.open_dsn dsn)
      (or_else (sql.conn dsn) (or_else (sql.ping_conn dsn) (sql.ping_db dsn)))
