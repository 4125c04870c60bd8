-- ===== src/Tests/Postgres.antt =====
-- A table of URLs in memory, in the place of PostgreSQL's.
use urlshortner.Prelude.{
  ℕ, Str, str, SyncMap, load, store, load-store, load-eq-none, keys, contains, ltb, length, ◌==◌,
  eq_iff, Bool, true, false, not, ◌&&◌, ◌||◌, Exec, pure, returned, ◌≡◌, ◌≢◌, ◌∙◌, ap, refl, Option,
  none, some, Option-cases, Bool-cases, inl, inr, List, [], ◌∷◌, arith, if◌then◌else◌,
}
use urlshortner.Storage.Errors.{Error, message, is_conflict}
use urlshortner.Storage.Inmemory.{Storer}
use urlshortner.Storage.Database.{Rows, Sql}
use urlshortner.Storage.Database.Buffer.{Item, arguments}
use urlshortner.Storage.Database.Tables.{IsTable, selected, fresh}
use urlshortner.Storage.Database.Tables.Deletions.{IsUpdate, is_listed, marked}

pub record Db : Type 0 where
  pub rows : SyncMap Storer
  pub work : SyncMap Storer
  pub affected : ℕ
  pub users : List Str

abbrev has_url : Str → Option Storer → Bool
has_url url none = false
has_url url (some r) = r.url == url

abbrev url_under : Str → SyncMap Storer → List Str → Bool
url_under url m [] = false
url_under url m (k ∷ ks) = has_url url (load k m) || url_under url m ks

abbrev insert : Str → Str → Str → Exec Db (Option Error)
insert id url user_id x =
    if ltb 100 (length id)
    then (returned (some (message (str "value too long for type character varying(100)"))), x)
    else if url_under url x.work (keys x.work)
    then (returned none, record x { affected = 0 })
    else (returned none, record x { work = store id (fresh url user_id) x.work; affected = 1 })

abbrev nothing : {R : Type 0} → Exec Db (Rows R × Option Error)
nothing = pure (record { err = none; rows = [] }, none)

abbrev pub postgres : Sql Db
postgres = record {
  select_url = λ id x. (returned (selected (load id x.rows), none), x);
  select_urls_of = λ user_id. nothing;
  select_user = λ token. nothing;
  select_count_users = nothing;
  select_count_urls = nothing;
  begin = λ x. (returned none, record x { work = x.rows });
  insert_url = insert;
  insert_user = λ id token. pure none;
  rows_affected = λ x. (returned (x.affected, none), x);
  commit = λ x. (returned none, record x { rows = x.work });
  rollback = pure tt;
}

url_under-true :
    (url j : Str) (r : Storer) (m : SyncMap Storer) (ks : List Str)
    → load j m ≡ some r
    → r.url ≡ url
    → contains j ks ≡ true
    → url_under url m ks ≡ true
unfolding contains
url_under-true url j r m [] there same listed = cc
url_under-true url j r m (k ∷ ks) there same listed =
    ground (arith, eq_iff j k, eq_iff k j, eq_iff r.url url, url_under-true url j r m ks there same)

url_under-false :
    (url : Str) (m : SyncMap Storer) (ks : List Str)
    → ((j : Str) (r : Storer) → load j m ≡ some r → r.url ≢ url)
    → url_under url m ks ≡ false
url_under-false url m [] new = refl
url_under-false url m (k ∷ ks) new = elim (Option-cases (load k m)) [
  | inl free ↦ rw free (url_under-false url m ks new)
  | inr (r, held) ↦
      let other : (r.url == url) ≡ false = ground (arith, eq_iff r.url url, new k r held) in
      rw (held, other) (url_under-false url m ks new)
]

listed :
    (j : Str) (r : Storer) (m : SyncMap Storer) → load j m ≡ some r → contains j (keys m) ≡ true
listed j r m there = elim (Bool-cases (contains j (keys m))) [
  | inl there_it_is ↦ there_it_is
  | inr missing ↦ absurd (ground (arith, load-eq-none j m missing))
]

pub postgres-IsTable : IsTable postgres
unfolding is_conflict
postgres-IsTable = record {
  row = λ x id. load id x.rows;
  work = λ x id. load id x.work;
  affected = λ x. x.affected;
  knows = λ x user_id. contains user_id x.users;
  begins = λ x. (record x { work = x.rows }, refl, refl, refl, refl);
  conflicts =
      λ id url user_id x j r plain plain_url plain_user short_id short_url short_user there same.
        let short : ltb 100 (length id) ≡ false = ground arith in
        (
          record x { affected = 0 },
          rw
              (
                short,
                url_under-true url j r x.work (keys x.work) there same (listed j r x.work there),
              )
              refl,
          refl,
          refl,
        );
  inserts =
      λ id url user_id x plain plain_url plain_user short_id short_url short_user known free new.
        let short : ltb 100 (length id) ≡ false = ground arith in
        (
          record x { work = store id (fresh url user_id) x.work; affected = 1 },
          rw (short, url_under-false url x.work (keys x.work) new) refl,
          refl,
          refl,
          λ j. load-store id j (fresh url user_id) x.work,
        );
  too_long = λ id url user_id x plain long.
      let too_long : ltb 100 (length id) ≡ true = ground arith in
      (
        message (str "value too long for type character varying(100)"),
        x,
        rw too_long refl,
        refl,
        refl,
      );
  counts = λ x. refl;
  commits = λ x. (record x { rows = x.work }, refl, refl);
  rolls_back = λ x. (x, refl, refl);
  selects = λ id x plain. (x, refl, refl);
}

pub row-load : (x : Db) (id : Str) → postgres-IsTable.row x id ≡ load id x.rows
unfolding postgres-IsTable
row-load x id = refl

pub knows-contains :
    (x : Db) (user_id : Str) → postgres-IsTable.knows x user_id ≡ contains user_id x.users
unfolding postgres-IsTable
knows-contains x user_id = refl

abbrev paired : List Str → List Item
paired [] = []
paired (id ∷ []) = []
paired (id ∷ user_id ∷ args) = record { id = id; user_id = user_id } ∷ paired args

paired-arguments : (vs : List Item) → paired (arguments vs) ≡ vs
unfolding arguments
paired-arguments [] = refl
paired-arguments (v ∷ vs) = ap (λ r. v ∷ r) (paired-arguments vs)

abbrev mark : List Item → Str → Storer → Storer
mark vs id r = if not r.deleted && is_listed id r.user_id vs then record r { deleted = true } else r

abbrev mark_all : List Item → SyncMap Storer → SyncMap Storer
mark_all vs [] = []
mark_all vs ((id, r) ∷ m) = (id, mark vs id r) ∷ mark_all vs m

mark-marked : (vs : List Item) (id : Str) (r : Storer) → some (mark vs id r) ≡ marked vs id (some r)
mark-marked vs id r = ground arith

load-mark_all :
    (vs : List Item) (j : Str) (m : SyncMap Storer)
    → load j (mark_all vs m) ≡ marked vs j (load j m)
unfolding load
load-mark_all vs j [] = refl
load-mark_all vs j ((id, r) ∷ m) = elim (Bool-cases (id == j)) [
  | inl here ↦ rw here (ap (λ k. some (mark vs k r)) ((eq_iff id j).0 here) ∙ mark-marked vs j r)
  | inr elsewhere ↦ rw elsewhere (load-mark_all vs j m)
]

-- The UPDATE of the deletions, by its arguments.
abbrev pub update : Str → List Str → Exec Db ((ℕ × Option Error) × Option Error)
update stmt args x = (returned ((0, none), none), record x { rows = mark_all (paired args) x.rows })

pub update-IsUpdate : IsUpdate postgres postgres-IsTable update
unfolding postgres-IsTable
update-IsUpdate = record {
  updates = λ v vs x plain few. (
    0,
    record x { rows = mark_all (paired (arguments (v ∷ vs))) x.rows },
    refl,
    λ id. rw (paired-arguments (v ∷ vs)) (load-mark_all (v ∷ vs) id x.rows),
  );
}
