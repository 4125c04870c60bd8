-- ===== src/Server/Missing.antt =====
-- What the two servers do with an id that the database does not have.
use urlshortner.Prelude.{
  Str, ◌==◌, Exec, returned, panicked, ◌≡◌, refl, Option, none, List, [], ◌∷◌,
}
use urlshortner.Config.{Config}
use urlshortner.Storage.Errors.{Error}
use urlshortner.Storage.Database.{Sql, load_url, database_loader}
use urlshortner.Shortener.{MyShortener}
use urlshortner.Server.Http.{Request, new_response, status}
use urlshortner.Server.HttpServer.Handlers.{Wire}
use urlshortner.Server.HttpServer.Handlers.Lookup.{make_long}
use urlshortner.Server.HttpServer.RoundTrip.{make_long-result}
use urlshortner.Server.GrpcServer.Handlers.{get_long}

module _ {S : Type 0} (sql : Sql S) (delete_urls : Str → List Str → Exec S (Option Error))
    (flush : Exec S (Option Error)) (cfg : Config) where
  abbrev pub over_database : MyShortener S
  over_database = record { storage = database_loader sql delete_urls flush; config = cfg }

  load_url-missing :
      (id : Str) (x x' : S)
      → sql.select_url id x ≡ (returned (record { err = none; rows = [] }, none), x')
      → load_url sql id x ≡ (returned ([], none), x')
  unfolding load_url
  load_url-missing id x x' missing = rw missing refl

  get_long-missing :
      (id : Str) (x x' : S)
      → load_url sql id x ≡ (returned ([], none), x')
      → get_long over_database id x ≡ (panicked, x')
  unfolding get_long ◌==◌
  get_long-missing id x x' loaded = rw loaded refl

  -- When the query for an id gives no row and no error, the HTTP server answers the GET with 404,
  -- and the call `GetLong` of the gRPC server panics.
  pub missing_id :
      (wire : Wire) (get : Request) (id : Str) (x x' : S)
      → sql.select_url id x ≡ (returned (record { err = none; rows = [] }, none), x')
      → get.path ≡ b'/' ∷ id
      → (let got = make_long wire over_database get (x, new_response) in
          (got.0 ≡ returned tt)
          × (status got.1.1 ≡ 404)
          × (get_long over_database id x ≡ (panicked, x')))
  unfolding ◌==◌
  missing_id wire get id x x' missing at_path =
      let loaded = load_url-missing id x x' missing in
      rw (make_long-result wire over_database get id x x' ([], none) new_response at_path loaded)
        (refl, refl, get_long-missing id x x' loaded)
