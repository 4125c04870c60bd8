-- ===== src/Server/HttpServer/Lengths.antt =====
-- `POST /` over the database storage, whose table has room for ids of 100 bytes.
use urlshortner.Prelude.{
  ◌<◌, Str, length, Exec, returned, ◌≡◌, refl, Option, none, some, List, arith,
}
use urlshortner.Config.{Config}
use urlshortner.Storage.Errors.{Error}
use urlshortner.Storage.Database.{Sql}
use urlshortner.Storage.Database.Tables.{IsTable, urlsafe-IsText, store_url-too_long}
use urlshortner.Shortener.{shorten_url}
use urlshortner.Shortener.Ids.{shorten_url_lem}
use urlshortner.Server.Http.{Request, new_response, status}
use urlshortner.Server.HttpServer.Handlers.{Wire, read_body}
use urlshortner.Server.HttpServer.Handlers.Shorten.{make_short}
use urlshortner.Server.HttpServer.RoundTrip.{make_short-result}
use urlshortner.Server.Missing.{over_database}

module _ {S : Type 0} (sql : Sql S) (delete_urls : Str → List Str → Exec S (Option Error))
    (flush : Exec S (Option Error)) (cfg : Config) (wire : Wire) where
  long_id : (url : Str) → 75 < length url → 100 < length (shorten_url cfg url).0
  long_id url long = let (form, safe, size, longer) = shorten_url_lem cfg url in omega (arith, size)

  -- Over PostgreSQL as it is documented, a POST of a URL of more than 75 bytes, by any user, is
  -- answered by 500, and no row has changed: its id has more bytes than the table allows.
  pub long_url_refused :
      (p : IsTable sql) (post : Request) (user_id url : Str) (x : S)
      → post.user_id ≡ some user_id
      → read_body wire post ≡ (url, none)
      → 75 < length url
      → (let posted =
            make_short wire (over_database sql delete_urls flush cfg) post (x, new_response) in
          (posted.0 ≡ returned tt) × (status posted.1.1 ≡ 500) × (p.row posted.1.0 ≡ p.row x))
  long_url_refused p post user_id url x named read long =
      let m = over_database sql delete_urls flush cfg in
      let (e, x', stored, rows, other) =
        store_url-too_long sql p (shorten_url cfg url).0 url user_id x
          (urlsafe-IsText (shorten_url cfg url).0 (shorten_url_lem cfg url).1) (long_id url long) in
      rw (make_short-result wire m post user_id url x x' (some e) new_response named read stored)
        (refl, rw other refl, rows)
