-- ===== src/Storage/Database/Loader.antt =====
-- The whole of the database storage: the queries and the buffer of the deletions, over one database.
use urlshortner.Prelude.{ℕ, Str, Exec, Option, List}
use urlshortner.Storage.Errors.{Error}
use urlshortner.Storage.Interface.{StorerLoader}
use urlshortner.Storage.Database.{Sql, database_loader}
use urlshortner.Storage.Database.Buffer.{Gob, AsyncBuf, delete_urls, flush}

module _ (gob : Gob) {S : Type 0} where
  -- A call of the database leaves the buffer alone.
  abbrev beside : {A : Type 0} → Exec S A → Exec (AsyncBuf gob × S) A
  beside m (b, x) = ((m x).0, (b, (m x).1))

  abbrev pub sql_beside : Sql S → Sql (AsyncBuf gob × S)
  sql_beside sql = record {
    select_url = λ id. beside (sql.select_url id);
    select_urls_of = λ user_id. beside (sql.select_urls_of user_id);
    select_user = λ token. beside (sql.select_user token);
    select_count_users = beside sql.select_count_users;
    select_count_urls = beside sql.select_count_urls;
    begin = beside sql.begin;
    insert_url = λ id url user_id. beside (sql.insert_url id url user_id);
    insert_user = λ id token. beside (sql.insert_user id token);
    rows_affected = beside sql.rows_affected;
    commit = beside sql.commit;
    rollback = beside sql.rollback;
  }

  abbrev pub buffered_loader :
      Sql S
      → (Str → List Str → Exec S ((ℕ × Option Error) × Option Error))
      → StorerLoader (AsyncBuf gob × S)
  buffered_loader sql exec =
      database_loader (sql_beside sql) (delete_urls gob exec) (flush gob exec)
