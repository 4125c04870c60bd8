-- ===== src/Storage/Database.antt =====
-- internal/storage/database/database.go: the methods of the database storage that query and insert.
-- `database/sql` with the server behind it is a parameter, `Sql`: a field for each statement. The
-- time limits of the calls are part of it.
pub mod Buffer
pub mod Setup
pub mod Loader
pub mod Tables
pub mod Ping
pub mod Users
use urlshortner.Prelude.{
  ℕ, Str, str, Exec, pure, ◌>>=◌, ◌>>◌, Bool, Option, none, some, List, [], ◌∷◌, nat_eq,
  if◌then◌else◌,
}
use urlshortner.Storage.Errors.{Error, wrapped, err_conflict, err_url_gone}
use urlshortner.Storage.Interface.{StorerLoader}

-- What a query gives: the error of `rows.Err()` before the first row, and the rows, each with what
-- its `Scan` returns.
pub record Rows (R : Type 0) : Type 0 where
  pub err : Option Error
  pub rows : List (R × Option Error)

pub record Sql (S : Type 0) : Type 0 where
  -- "SELECT url, deleted FROM urls WHERE id = $1"
  pub select_url : Str → Exec S (Rows (Str × Bool) × Option Error)
  -- "SELECT id, url FROM urls WHERE user_id = $1"
  pub select_urls_of : Str → Exec S (Rows (Str × Str) × Option Error)
  -- "SELECT id FROM users WHERE token = $1"
  pub select_user : Str → Exec S (Rows Str × Option Error)
  -- "SELECT COUNT(id) FROM users" and "SELECT COUNT(id) FROM urls"
  pub select_count_users : Exec S (Rows ℕ × Option Error)
  pub select_count_urls : Exec S (Rows ℕ × Option Error)
  -- The transaction of an insertion. `insert_url` leaves a URL that is there as it is.
  pub begin : Exec S (Option Error)
  pub insert_url : Str → Str → Str → Exec S (Option Error)
  pub insert_user : Str → Str → Exec S (Option Error)
  pub rows_affected : Exec S (ℕ × Option Error)
  pub commit : Exec S (Option Error)
  pub rollback : Exec S (Unit {0})

-- `LoadURL` over the answer of its query. No row is no error: the URL is then "".
url_in : Rows (Str × Bool) × Option Error → Str × Option Error
url_in (q, some e) = ([], some e)
url_in (q, none) = elim q.err [
  | some e ↦ ([], some e)
  | none ↦ elim q.rows [
    | [] ↦ ([], none)
    | row ∷ more ↦ elim row.1 [
      | some e ↦ ([], some e)
      | none ↦ if row.0.1 then ([], some err_url_gone) else (row.0.0, none)
    ]
  ]
]

-- The loop of `LoadUrlsByUser`.
visit_rows :
    {B : Type 0} → (Str → Str → B → B) → List ((Str × Str) × Option Error) → B → B × Option Error
visit_rows add [] acc = (acc, none)
visit_rows add ((row, some e) ∷ more) acc = (acc, some e)
visit_rows add (((id, url), none) ∷ more) acc = visit_rows add more (add id url acc)

urls_in :
    {B : Type 0} → (Str → Str → B → B) → B → Rows (Str × Str) × Option Error → B × Option Error
unfolding visit_rows
urls_in add acc (q, some e) = (acc, some e)
urls_in add acc (q, none) = elim q.err [ some e ↦ (acc, some e) | none ↦ visit_rows add q.rows acc ]

-- `LoadUser` over the answer of its query.
user_in : Rows Str × Option Error → Str × Option Error
user_in (q, some e) = ([], some e)
user_in (q, none) = elim q.err [
  | some e ↦ ([], some e)
  | none ↦ elim q.rows [
    | [] ↦ ([], none)
    | row ∷ more ↦ elim row.1 [ some e ↦ ([], some e) | none ↦ (row.0, none) ]
  ]
]

-- The two counts over the answer of their query.
count_in : Rows ℕ × Option Error → ℕ × Option Error
count_in (q, some e) = (0, some e)
count_in (q, none) = elim q.err [
  | some e ↦ (0, some e)
  | none ↦ elim q.rows [
    | [] ↦ (0, none)
    | row ∷ more ↦ elim row.1 [ some e ↦ (0, some e) | none ↦ (row.0, none) ]
  ]
]

module _ {S : Type 0} (sql : Sql S) where
  unfoldable pub load_url : Str → Exec S (Str × Option Error)
  unfolding url_in
  load_url id = do answer ← sql.select_url id; pure (url_in answer)

  unfoldable pub load_urls_by_user :
      {B : Type 0} → (Str → Str → B → B) → Str → B → Exec S (B × Option Error)
  unfolding urls_in
  load_urls_by_user add user_id acc = do
    answer ← sql.select_urls_of user_id
    pure (urls_in add acc answer)

  unfoldable pub load_user : Str → Exec S (Str × Option Error)
  unfolding user_in
  load_user session = do answer ← sql.select_user session; pure (user_in answer)

  unfoldable pub count_users : Exec S (ℕ × Option Error)
  unfolding count_in
  count_users = do answer ← sql.select_count_users; pure (count_in answer)

  unfoldable pub count_urls : Exec S (ℕ × Option Error)
  unfolding count_in
  count_urls = do answer ← sql.select_count_urls; pure (count_in answer)

  -- After an insertion: the rows are counted, and the transaction is committed.
  url_counted : ℕ × Option Error → Exec S (Option Error)
  url_counted (rows, some e) = pure (some (wrapped (str "error when finding rows affected ") e))
  url_counted (rows, none) = if nat_eq rows 0 then pure (some err_conflict) else sql.commit

  user_counted : ℕ × Option Error → Exec S (Option Error)
  user_counted (rows, some e) = pure (some (wrapped (str "error when finding rows affected ") e))
  user_counted (rows, none) = sql.commit

  inserted : (ℕ × Option Error → Exec S (Option Error)) → Option Error → Exec S (Option Error)
  inserted counted (some e) =
      pure (some (wrapped (str "error when inserting row into users table ") e))
  inserted counted none = sql.rows_affected >>= counted

  -- The body between `Begin` and the deferred `Rollback`.
  in_transaction : Exec S (Option Error) → Option Error → Exec S (Option Error)
  in_transaction body (some e) = pure (some e)
  in_transaction body none = do err ← body; sql.rollback; pure err

  unfoldable pub store_url : Str → Str → Str → Exec S (Option Error)
  unfolding in_transaction inserted url_counted
  store_url id url user_id =
      sql.begin >>= in_transaction (sql.insert_url id url user_id >>= inserted url_counted)

  unfoldable pub store_session : Str → Str → Exec S (Option Error)
  unfolding in_transaction inserted user_counted
  store_session id session =
      sql.begin >>= in_transaction (sql.insert_user id session >>= inserted user_counted)

  -- The methods as a `storerLoader`; the buffer of the deletions is left to the caller.
  abbrev pub database_loader :
      (Str → List Str → Exec S (Option Error)) → Exec S (Option Error) → StorerLoader S
  database_loader delete_urls flush = record {
    load_url = load_url;
    load_urls_by_user = load_urls_by_user;
    store_url = store_url;
    load_user = load_user;
    store_session = store_session;
    count_users = count_users;
    count_urls = count_urls;
    flush = flush;
    delete_urls = delete_urls;
  }
