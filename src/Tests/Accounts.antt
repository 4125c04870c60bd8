-- ===== src/Tests/Accounts.antt =====
-- A table of users in memory, in the place of PostgreSQL's, and the sessions in it.
use urlshortner.Prelude.{
  Str, str, SyncMap, load, store, load-store, contains, Exec, pure, returned, refl, Option, none,
  some, List, [], ◌∷◌, if◌then◌else◌,
}
use urlshortner.Storage.Errors.{Error, message}
use urlshortner.Storage.Inmemory
use urlshortner.Storage.Inmemory.{Ims}
use urlshortner.Storage.Database
use urlshortner.Storage.Database.{Rows, Sql}
use urlshortner.Storage.Database.Users.{held, IsUsers}

-- The users by their tokens.
record Accounts : Type 0 where
  users : SyncMap Str
  work : SyncMap Str

abbrev ids : SyncMap Str → List Str
ids [] = []
ids ((token, id) ∷ m) = id ∷ ids m

abbrev insert : Str → Str → Exec Accounts (Option Error)
insert id token x =
    if contains id (ids x.work)
    then (returned (some (message (str "duplicate key value violates unique constraint"))), x)
    else (returned none, record x { work = store token id x.work })

abbrev nothing : {R : Type 0} → Exec Accounts (Rows R × Option Error)
nothing = pure (record { err = none; rows = [] }, none)

abbrev accounts : Sql Accounts
accounts = record {
  select_url = λ id. nothing;
  select_urls_of = λ user_id. nothing;
  select_user = λ token x. (returned (held (load token x.users), none), x);
  select_count_users = nothing;
  select_count_urls = nothing;
  begin = λ x. (returned none, record x { work = x.users });
  insert_url = λ id url user_id. pure none;
  insert_user = insert;
  rows_affected = pure (1, none);
  commit = λ x. (returned none, record x { users = x.work });
  rollback = pure tt;
}

accounts-IsUsers : IsUsers accounts
accounts-IsUsers = record {
  user_of = λ x token. load token x.users;
  work = λ x token. load token x.work;
  knows = λ x id. contains id (ids x.users);
  work_knows = λ x id. contains id (ids x.work);
  begins = λ x. (record x { work = x.users }, refl, refl, refl);
  inserts = λ id token x short_id short_token new free. (
    record x { work = store token id x.work },
    rw (new, accounts) refl,
    λ t. load-store token t id x.work,
  );
  counts = λ x. (1, refl);
  commits = λ x. (record x { users = x.work }, refl, refl);
  rolls_back = λ x. (x, refl, refl);
  selects = λ token x. (x, refl);
}

-- The session of `storage`.
abbrev db : Accounts
db = record { users = (str "5e55", str "u1") ∷ []; work = [] }
