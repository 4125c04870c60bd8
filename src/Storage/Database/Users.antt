-- ===== src/Storage/Database/Users.antt =====
-- What internal/storage/database/database.go relies on of PostgreSQL for the table `users` that `initDB`
-- creates, and the sessions of the two implementations of the storage side by side.
use urlshortner.Prelude.{
  ℕ, ◌≤◌, Str, length, load, ◌==◌, Bool, false, returned, ◌≡◌, Option, none, some, [], ◌∷◌,
  if◌then◌else◌,
}
use urlshortner.Storage.Errors.{Error}
use urlshortner.Storage.Inmemory
use urlshortner.Storage.Inmemory.{Ims}
use urlshortner.Storage.Database
use urlshortner.Storage.Database.{Rows, Sql}

-- The answer to a query for a token that one row has at most.
abbrev pub held : Option Str → Rows Str
held none = record { err = none; rows = [] }
held (some id) = record { err = none; rows = (id, none) ∷ [] }

-- `id VARCHAR(100) PRIMARY KEY` and `token VARCHAR(256)`, over a table in which the tokens differ: the
-- user of each token, as it was committed and in the transaction.
pub record IsUsers {S : Type 0} (sql : Sql S) : Type 0 where
  pub user_of : S → Str → Option Str
  pub work : S → Str → Option Str
  pub knows : S → Str → Bool
  pub work_knows : S → Str → Bool
  pub begins :
      (x : S)
      → (x' : S) × (sql.begin x ≡ (returned none, x'))
        × (work x' ≡ user_of x)
        × (work_knows x' ≡ knows x)
  pub inserts :
      (id token : Str) (x : S)
      → length id ≤ 100
      → length token ≤ 256
      → work_knows x id ≡ false
      → work x token ≡ none
      → (x' : S) × (sql.insert_user id token x ≡ (returned none, x'))
        × ((t : Str) → work x' t ≡ (if token == t then some id else work x t))
  pub counts : (x : S) → (n : ℕ) × (sql.rows_affected x ≡ (returned (n, none), x))
  pub commits : (x : S) → (x' : S) × (sql.commit x ≡ (returned none, x')) × (user_of x' ≡ work x)
  pub rolls_back :
      (x : S) → (x' : S) × (sql.rollback x ≡ (returned tt, x')) × (user_of x' ≡ user_of x)
  pub selects :
      (token : Str) (x : S)
      → (x' : S) × (sql.select_user token x ≡ (returned (held (user_of x token), none), x'))

-- The answer of `LoadUser`: "" and no error where the token is not known.
abbrev user_answer : Option Str → Str × Option Error
user_answer none = ([], none)
user_answer (some id) = (id, none)

module _ {S : Type 0} (sql : Sql S) (p : IsUsers sql) where
  -- The same user for every token.
  abbrev pub HasSessions : Ims → S → Type 0
  HasSessions s x = (token : Str) → p.user_of x token ≡ load token s.sessions
