-- ===== src/Tests/Tables.antt =====
-- The database storage over a table of URLs.
use urlshortner.Prelude.{
  ◌≤◌, Str, str, All, load, contains, length, ◌==◌, pure, returned, ◌≡◌, ◌∙◌, refl, true, none, [],
  ◌∷◌, arith,
}
use urlshortner.GoStd.Base64
use urlshortner.Storage.Inmemory
use urlshortner.Storage.Inmemory.{ims_storer}
use urlshortner.Storage.Inmemory.Table.{entry}
use urlshortner.Storage.Database
use urlshortner.Storage.Database.Tables.{IsText}
use urlshortner.Storage.Database.Tables.Agreement.{IsMirrored, LoadsAgree, storages_agree}
use urlshortner.Storage.Database.Buffer.{items_of, arguments, init_buffer, tick, delete_urls}
use urlshortner.Storage.Database.Buffer.Delivery.{stream, filled}
use urlshortner.Storage.Database.Tables.Deletions.{deletions_agree}
use urlshortner.Tests.Gobs.{coding, coding-IsGob}
use urlshortner.Shortener.{shorten_url}
use urlshortner.Server.Http.{Request, new_response, status}
use urlshortner.Server.HttpServer.Handlers.{read_body}
use urlshortner.Server.HttpServer.Handlers.Shorten.{make_short}
use urlshortner.Server.HttpServer.Lengths.{long_url_refused}
use urlshortner.Server.Missing.{over_database}
use urlshortner.Tests.Postgres.{
  Db, postgres, postgres-IsTable, update, update-IsUpdate, row-load, knows-contains,
}
use urlshortner.Tests.Fixtures.{
  url_id, owned, storage, storage-IsWf, storage-IsShortened, cfg, wire, request,
}

-- The records of `storage`, and two users.
abbrev db : Db
db = record {
  rows = (url_id, owned) ∷ [];
  work = [];
  affected = 0;
  users = str "u1" ∷ str "u2" ∷ [];
}

storage-IsMirrored : IsMirrored postgres postgres-IsTable storage db
unfolding load
storage-IsMirrored id = row-load db id ∙ ground arith

abbrev new_url : Str
new_url = str "http://ya.ru/"

new_url-IsText : IsText new_url
new_url-IsText = grind arith

short_id_test : length (shorten_url cfg new_url).0 ≤ 100
unfolding shorten_url Base64.encode Base64.encode_digit
short_id_test = omega arith

known_test : postgres-IsTable.knows db (str "u2") ≡ true
unfolding contains ◌==◌
known_test = knows-contains db (str "u2")

storages_agree_example :
    (let id = (shorten_url cfg new_url).0 in
      let in_memory = Inmemory.store_url id new_url (str "u2") storage in
      let in_database = Database.store_url postgres id new_url (str "u2") db in
      (in_database.0 ≡ in_memory.0)
      × IsMirrored postgres postgres-IsTable in_memory.1 in_database.1
      × ((j : Str)
          → IsText j
          → LoadsAgree
              (entry in_memory.1 j)
              (Database.load_url postgres j in_database.1).0
              (Inmemory.load_url j in_memory.1).0))
storages_agree_example =
    storages_agree postgres postgres-IsTable cfg new_url (str "u2") storage db new_url-IsText
      (grind arith) storage-IsWf storage-IsShortened storage-IsMirrored short_id_test (omega arith)
      (omega arith) known_test

-- 78 bytes.
abbrev long_url : Str
long_url = str "http://example.com/a/rather/long/path/of/a/page/that/somebody/wants/to/shorten"

abbrev post : Request
post = request (str "/") (str "u2") long_url

read_test : read_body wire post ≡ (long_url, none)
unfolding read_body ◌==◌
read_test = refl

long_url_refused_example :
    (let posted =
        make_short wire
          (over_database postgres (λ user_id ids. pure none) (pure none) cfg)
          post
          (db, new_response) in
      (posted.0 ≡ returned tt)
      × (status posted.1.1 ≡ 500)
      × (postgres-IsTable.row posted.1.0 ≡ postgres-IsTable.row db))
long_url_refused_example =
    long_url_refused postgres (λ user_id ids. pure none) (pure none) cfg wire postgres-IsTable post
      (str "u2") long_url db refl read_test (omega arith)

full_test : filled (items_of (str "u1") (url_id ∷ str "b" ∷ [])) ≡ true
unfolding filled items_of ◌==◌
full_test = refl

fits_test :
    length (stream coding coding.new_encoder (items_of (str "u1") (url_id ∷ str "b" ∷ []) ∷ []))
    ≤ 4096
unfolding stream items_of
fits_test = omega arith

few_test : length (arguments (items_of (str "u1") (url_id ∷ str "b" ∷ []))) ≤ 65535
unfolding arguments items_of
few_test = omega arith

ids-IsText : All IsText (url_id ∷ str "b" ∷ [])
ids-IsText = grind arith

deletions_agree_example :
    (let in_memory = Inmemory.delete_urls (str "u1") (url_id ∷ str "b" ∷ []) storage in
      let asked =
        delete_urls coding update (str "u1") (url_id ∷ str "b" ∷ []) (init_buffer coding, db) in
      let ticked = tick coding update asked.1 in
      (asked.0 ≡ returned none)
      × (in_memory.0 ≡ returned none)
      × (ticked.0 ≡ returned tt)
      × IsMirrored postgres postgres-IsTable in_memory.1 ticked.1.1)
deletions_agree_example =
    deletions_agree coding postgres postgres-IsTable update update-IsUpdate (str "u1") url_id
      (str "b" ∷ []) storage db coding-IsGob storage-IsWf storage-IsMirrored (grind arith)
      ids-IsText full_test fits_test few_test
