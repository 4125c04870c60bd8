-- ===== src/Server/GrpcServer/Calls.antt =====
-- What the calls of the gRPC server answer, over the in-memory storage.
use urlshortner.Prelude.{
  Str, str, ◌==◌, Outcome, returned, panicked, ◌≡◌, Option, none, some, List, [], ◌++◌, arith,
  if◌then◌else◌,
}
use urlshortner.Config.{Config}
use urlshortner.Storage.Errors.{error_text, is_url_gone, err_url_gone}
use urlshortner.Storage.Filestorage.{Disk}
use urlshortner.Storage.Inmemory
use urlshortner.Storage.Inmemory.{Storer, Ims}
use urlshortner.Storage.Inmemory.Invariant.{IsWf}
use urlshortner.Storage.Inmemory.Table.{entry, answer}
use urlshortner.Storage.Inmemory.Lookup.{load_url-entry}
use urlshortner.Shortener.{in_memory}
use urlshortner.Server.GrpcServer.{internal, unavailable, Reply, failure}
use urlshortner.Server.GrpcServer.Handlers.{GetLongResponse, get_long}

-- The answer of `GetLong`, by the record under the id.
abbrev pub long_reply : Str → Option Storer → Outcome (Reply GetLongResponse)
long_reply id none =
    let text = str "cannot find url by id " ++ id in
    returned (record { url = []; error = text }, failure internal text)
long_reply id (some r) =
    if r.deleted
    then returned (
      record { url = []; error = error_text err_url_gone },
      failure unavailable (str "URL deleted: " ++ error_text err_url_gone),
    )
    else if r.url == []
    then panicked
    else returned (record { url = r.url; error = [] }, none)

module _ (encode_record : List Str → Str) (cfg : Config) where
  get_long-found :
      (id : Str) (s : Ims) (d : Disk) (o : Option Storer)
      → Inmemory.load_url id s ≡ (returned (answer id o), s)
      → get_long (in_memory encode_record cfg) id (s, d) ≡ (long_reply id o, (s, d))
  unfolding get_long is_url_gone error_text
  get_long-found id s d none loaded = ground arith
  get_long-found id s d (some r) loaded = ground arith

  -- On a well-formed storage `GetLong` answers by the record under the id alone: the URL of a live
  -- record, the code `Unavailable` for a deleted one, and `Internal` (never `NotFound`) when there
  -- is none. A live record of the empty URL makes it panic.
  pub get_long_lem :
      (id : Str) (s : Ims) (d : Disk)
      → IsWf s
      → get_long (in_memory encode_record cfg) id (s, d) ≡ (long_reply id (entry s id), (s, d))
  get_long_lem id s d w = get_long-found id s d (entry s id) (load_url-entry id s w)
