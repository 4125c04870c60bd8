-- ===== src/Storage/Database/Tables.antt =====
-- What internal/storage/database/database.go relies on of PostgreSQL, for the table `urls` that
-- `initDB` creates, and the methods over it.
pub mod Agreement
pub mod Deletions
use urlshortner.Prelude.{
  ℕ, ◌≤◌, ◌<◌, All, Str, str, ◌==◌, nat_eq, length, Bool, true, false, Exec, returned, ◌≡◌, ◌≢◌,
  ◌∙◌, ap, sym, refl, Option, none, some, List, [], ◌∷◌, arith, if◌then◌else◌,
}
use urlshortner.GoStd.Base64.Laws.{IsUrlSafe}
use urlshortner.Storage.Errors.{Error, wrapped, err_conflict, err_url_gone, is_conflict}
use urlshortner.Storage.Inmemory.{Storer}
use urlshortner.Storage.Inmemory.Table.{Table}
use urlshortner.Storage.Database.{Rows, Sql, load_url, store_url}

-- A text that the database takes for what it is: ASCII without NUL, of which every byte is one
-- character. PostgreSQL refuses a NUL and what is not UTF-8, and it counts characters.
abbrev pub IsText : Str → Type 0
IsText = All (λ b. (0 < b) × (b < 128))

pub urlsafe-IsText : (s : Str) → All IsUrlSafe s → IsText s
urlsafe-IsText [] h = tt
urlsafe-IsText (c ∷ s) (safe, h) = (ground arith, urlsafe-IsText s h)

-- The answer to a query for an id.
abbrev pub selected : Option Storer → Rows (Str × Bool)
selected none = record { err = none; rows = [] }
selected (some r) = record { err = none; rows = ((r.url, r.deleted), none) ∷ [] }

abbrev pub fresh : Str → Str → Storer
fresh url user_id = record { url = url; user_id = user_id; deleted = false }

-- `id VARCHAR(100) PRIMARY KEY`, `url VARCHAR(100) UNIQUE` and `user_id VARCHAR(38) REFERENCES
-- users (id)`. A transaction works on the table as it was at its start, and a query reads what was
-- committed; rolling back after a commit does nothing. `ON CONFLICT (url) DO NOTHING`: a URL that is
-- there affects no row. A text that is too long is an error of the driver's. All this for texts that
-- the database takes; of others nothing is said.
pub record IsTable {S : Type 0} (sql : Sql S) : Type 0 where
  pub row : S → Table
  pub work : S → Table
  pub affected : S → ℕ
  pub knows : S → Str → Bool
  pub begins :
      (x : S)
      → (x' : S) × (sql.begin x ≡ (returned none, x'))
        × (row x' ≡ row x)
        × (work x' ≡ row x)
        × (knows x' ≡ knows x)
  pub conflicts :
      (id url user_id : Str) (x : S) (j : Str) (r : Storer)
      → IsText id
      → IsText url
      → IsText user_id
      → length id ≤ 100
      → length url ≤ 100
      → length user_id ≤ 38
      → work x j ≡ some r
      → r.url ≡ url
      → (x' : S) × (sql.insert_url id url user_id x ≡ (returned none, x'))
        × (row x' ≡ row x)
        × (affected x' ≡ 0)
  pub inserts :
      (id url user_id : Str) (x : S)
      → IsText id
      → IsText url
      → IsText user_id
      → length id ≤ 100
      → length url ≤ 100
      → length user_id ≤ 38
      → knows x user_id ≡ true
      → work x id ≡ none
      → ((j : Str) (r : Storer) → work x j ≡ some r → r.url ≢ url)
      → (x' : S) × (sql.insert_url id url user_id x ≡ (returned none, x'))
        × (row x' ≡ row x)
        × (affected x' ≡ 1)
        × ((j : Str) → work x' j ≡ (if id == j then some (fresh url user_id) else work x j))
  pub too_long :
      (id url user_id : Str) (x : S)
      → IsText id
      → 100 < length id
      → (e : Error) × (x' : S) × (sql.insert_url id url user_id x ≡ (returned (some e), x'))
        × (row x' ≡ row x)
        × (is_conflict (some e) ≡ false)
  pub counts : (x : S) → sql.rows_affected x ≡ (returned (affected x, none), x)
  pub commits : (x : S) → (x' : S) × (sql.commit x ≡ (returned none, x')) × (row x' ≡ work x)
  pub rolls_back : (x : S) → (x' : S) × (sql.rollback x ≡ (returned tt, x')) × (row x' ≡ row x)
  pub selects :
      (id : Str) (x : S)
      → IsText id
      → (x' : S) × (sql.select_url id x ≡ (returned (selected (row x id), none), x'))
        × (row x' ≡ row x)

-- The answer of `LoadURL` for a row.
abbrev pub row_answer : Option Storer → Str × Option Error
row_answer none = ([], none)
row_answer (some r) = if r.deleted then ([], some err_url_gone) else (r.url, none)

module _ {S : Type 0} (sql : Sql S) (p : IsTable sql) where
  selected-load :
      (o : Option Storer) (id : Str) (x x' : S)
      → sql.select_url id x ≡ (returned (selected o, none), x')
      → load_url sql id x ≡ (returned (row_answer o), x')
  unfolding load_url
  selected-load none id x x' e = rw e refl
  selected-load (some r) id x x' e = rw e refl

  pub load_url-row :
      (id : Str) (x : S) → IsText id → (load_url sql id x).0 ≡ returned (row_answer (p.row x id))
  load_url-row id x plain =
      let (x', e, same) = p.selects id x plain in
      ap (λ o. o.0) (selected-load (p.row x id) id x x' e)

  module _ (id url user_id : Str) (x : S) where
    -- A URL that is there is answered by the conflict, and the table stays.
    pub store_url-there :
        (j : Str) (r : Storer)
        → IsText id
        → IsText url
        → IsText user_id
        → length id ≤ 100
        → length url ≤ 100
        → length user_id ≤ 38
        → p.row x j ≡ some r
        → r.url ≡ url
        → (x' : S) × (store_url sql id url user_id x ≡ (returned (some err_conflict), x'))
          × (p.row x' ≡ p.row x)
    unfolding store_url
    store_url-there j r plain plain_url plain_user short_id short_url short_user there same =
        let (x1, e1, rows1, work1, known1) = p.begins x in
        let (x2, e2, rows2, none2) =
          p.conflicts id url user_id x1 j r plain plain_url plain_user short_id short_url short_user
            (ap (λ t. t j) work1 ∙ there) same in
        let (x3, e3, rows3) = p.rolls_back x2 in
        (x3, rw (e1, e2, p.counts x2, none2, e3) refl, rows3 ∙ rows2 ∙ rows1)

    -- A new URL of a known user is a new row.
    pub store_url-new :
        IsText id
        → IsText url
        → IsText user_id
        → length id ≤ 100
        → length url ≤ 100
        → length user_id ≤ 38
        → p.knows x user_id ≡ true
        → p.row x id ≡ none
        → ((j : Str) (r : Storer) → p.row x j ≡ some r → r.url ≢ url)
        → (x' : S) × (store_url sql id url user_id x ≡ (returned none, x'))
          × ((j : Str) → p.row x' j ≡ (if id == j then some (fresh url user_id) else p.row x j))
    unfolding store_url
    store_url-new plain plain_url plain_user short_id short_url short_user known free new =
        let (x1, e1, rows1, work1, known1) = p.begins x in
        let (x2, e2, rows2, one, work2) =
          p.inserts id url user_id x1 plain plain_url plain_user short_id short_url short_user
            (ap (λ k. k user_id) known1 ∙ known) (ap (λ t. t id) work1 ∙ free)
            (λ j r there. new j r (ap (λ t. t j) (sym work1) ∙ there)) in
        let (x3, e3, rows3) = p.commits x2 in
        let (x4, e4, rows4) = p.rolls_back x3 in
        (
          x4,
          rw (e1, e2, p.counts x2, one, e3, e4) refl,
          λ j. ap (λ t. t j) (rows4 ∙ rows3) ∙ work2 j ∙ rw work1 refl,
        )

    -- A URL whose id is too long for the table is refused.
    pub store_url-too_long :
        IsText id
        → 100 < length id
        → (e : Error) × (x' : S) × (store_url sql id url user_id x ≡ (returned (some e), x'))
          × (p.row x' ≡ p.row x)
          × (is_conflict (some e) ≡ false)
    unfolding store_url is_conflict
    store_url-too_long plain long =
        let (x1, e1, rows1, work1, known1) = p.begins x in
        let (e, x2, e2, rows2, other) = p.too_long id url user_id x1 plain long in
        let (x3, e3, rows3) = p.rolls_back x2 in
        (
          wrapped (str "error when inserting row into users table ") e,
          x3,
          rw (e1, e2, e3) refl,
          rows3 ∙ rows2 ∙ rows1,
          other,
        )
