-- ===== src/Tests/Database.antt =====
-- The database storage over a server that holds one URL in memory.
use urlshortner.Prelude.{
  str, ◌==◌, pure, returned, panicked, ◌≡◌, refl, false, none, [], ◌∷◌, if◌then◌else◌,
}
use urlshortner.Storage.Database.{Sql, Rows, load_url}
use urlshortner.Server.Http.{Request, new_response, status}
use urlshortner.Server.HttpServer.Handlers.Lookup.{make_long}
use urlshortner.Server.GrpcServer.Handlers.{get_long}
use urlshortner.Server.Missing.{over_database, missing_id}
use urlshortner.Tests.Fixtures.{url, url_id, cfg, wire, request}

abbrev no_rows : {R : Type 0} → Rows R
no_rows = record { err = none; rows = [] }

abbrev pub one_url : {S : Type 0} → Sql S
one_url = record {
  select_url = λ id. pure (
    if id == url_id then record { err = none; rows = ((url, false), none) ∷ [] } else no_rows,
    none,
  );
  select_urls_of = λ user_id. pure (no_rows, none);
  select_user = λ token. pure (no_rows, none);
  select_count_users = pure (no_rows, none);
  select_count_urls = pure (no_rows, none);
  begin = pure none;
  insert_url = λ id long user_id. pure none;
  insert_user = λ id token. pure none;
  rows_affected = pure (1, none);
  commit = pure none;
  rollback = pure tt;
}

found_url_test : load_url one_url url_id tt ≡ (returned (url, none), tt)
unfolding load_url ◌==◌
found_url_test = refl

abbrev get_missing : Request
get_missing = request (str "/me") (str "u1") []

no_row_test : one_url.select_url (str "me") tt ≡ (returned (no_rows, none), tt)
unfolding ◌==◌
no_row_test = refl

missing_id_example :
    (let m = over_database one_url (λ user_id ids. pure none) (pure none) cfg in
      let got = make_long wire m get_missing (tt, new_response) in
      (got.0 ≡ returned tt) × (status got.1.1 ≡ 404) × (get_long m (str "me") tt ≡ (panicked, tt)))
missing_id_example =
    missing_id one_url (λ user_id ids. pure none) (pure none) cfg wire get_missing (str "me") tt tt
      no_row_test refl
