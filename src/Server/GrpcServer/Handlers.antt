-- ===== src/Server/GrpcServer/Handlers.antt =====
-- The handlers of `grpcserver.go` on URLs. A handler returns a pointer to its message also beside an
-- error, so the message is kept.
use urlshortner.Prelude.{
  Str, str, ◌==◌, Exec, panic, pure, ◌>>=◌, Option, none, some, List, [], ◌∷◌, ◌++◌, if◌then◌else◌,
}
use urlshortner.Storage.Errors.{Error, error_text, is_conflict, is_url_gone}
use urlshortner.Storage.Interface.{Pairs}
use urlshortner.Shortener
use urlshortner.Shortener.{MyShortener, shorten_url}
use urlshortner.Server.GrpcServer.{
  already_exists, internal, not_found, unavailable, Reply, failure, Context, get_user_id,
}

pub record ShortenResponse : Type 0 where
  pub id : Str
  pub error : Str

-- `URLwId`.
pub record UrlwId : Type 0 where
  pub url : Str
  pub id : Str

pub record ShortenBatchResponse : Type 0 where
  pub batch : List UrlwId
  pub error : Str

pub record GetLongResponse : Type 0 where
  pub url : Str
  pub error : Str

pub record GetLongByUserResponse : Type 0 where
  pub urls : List Str
  pub error : Str

pub record DeleteBatchResponse : Type 0 where
  pub error : Str

module _ {S : Type 0} (m : MyShortener S) where
  shorten_stored : Str → Str → Option Error → Exec S (Reply ShortenResponse)
  shorten_stored url id none = pure (record { id = id; error = [] }, none)
  shorten_stored url id (some e) =
      if is_conflict (some e)
      then pure (
        record { id = []; error = error_text e },
        failure already_exists (str "url " ++ url ++ str " is already shortened. id: " ++ id),
      )
      else pure (
        record { id = []; error = [] },
        failure internal (str "failed to store URL: " ++ error_text e),
      )

  shorten_for : Str → Str × Option Str → Exec S (Reply ShortenResponse)
  unfolding shorten_stored
  shorten_for url (user_id, some text) =
      pure (record { id = []; error = text }, failure internal text)
  shorten_for url (user_id, none) =
      let id = (shorten_url m.config url).0 in
      Shortener.store_url m id url user_id >>= shorten_stored url id

  unfoldable pub shorten : Context → Str → Exec S (Reply ShortenResponse)
  unfolding shorten_for
  shorten ctx url = shorten_for url (get_user_id ctx)

  -- The loop of `ShortenBatch`; an error ends it, and the message then has no data.
  unfoldable pub batch_loop : Str → List UrlwId → List UrlwId → Exec S (Reply ShortenBatchResponse)
  batch_loop user_id [] done = pure (record { batch = done; error = [] }, none)
  batch_loop user_id (v ∷ vs) done =
      let (id, url) = shorten_url m.config v.url in
      let rest = batch_loop user_id vs (done ++ record { url = url; id = v.id } ∷ []) in
      Shortener.store_url m id v.url user_id >>= λ err. elim err [
        | some e ↦ pure (
          record { batch = []; error = error_text e },
          failure internal (str "failed to store URL: " ++ error_text e),
        )
        | none ↦ rest
      ]

  batch_for : List UrlwId → Str × Option Str → Exec S (Reply ShortenBatchResponse)
  unfolding batch_loop
  batch_for items (user_id, some text) =
      pure (record { batch = []; error = text }, failure internal text)
  batch_for items (user_id, none) = batch_loop user_id items []

  unfoldable pub shorten_batch : Context → List UrlwId → Exec S (Reply ShortenBatchResponse)
  unfolding batch_for
  shorten_batch ctx items = batch_for items (get_user_id ctx)

  -- With no error and an empty URL the third case calls `Error` on a nil error, which panics.
  long_found : Str × Option Error → Exec S (Reply GetLongResponse)
  long_found (redirect, some e) =
      let res : GetLongResponse = record { url = []; error = error_text e } in
      if is_url_gone (some e)
      then pure (res, failure unavailable (str "URL deleted: " ++ error_text e))
      else pure (res, failure internal (error_text e))
  long_found (redirect, none) =
      if redirect == [] then panic else pure (record { url = redirect; error = [] }, none)

  unfoldable pub get_long : Str → Exec S (Reply GetLongResponse)
  unfolding long_found
  get_long id = Shortener.find_url m id >>= long_found

  abbrev short_urls : Pairs → List Str
  short_urls [] = []
  short_urls (v ∷ vs) = v.short_url ∷ short_urls vs

  by_user_found : Str → Pairs × Option Error → Exec S (Reply GetLongByUserResponse)
  by_user_found user_id (pairs, some e) = pure (
    record { urls = []; error = error_text e },
    failure internal (str "failed to load URLs by user: " ++ error_text e),
  )
  by_user_found user_id ([], none) = pure (
    record { urls = []; error = [] },
    failure not_found (str "no URLs found by user: " ++ user_id),
  )
  by_user_found user_id (p ∷ ps, none) =
      pure (record { urls = short_urls (p ∷ ps); error = [] }, none)

  by_user_for : Str × Option Str → Exec S (Reply GetLongByUserResponse)
  unfolding by_user_found
  by_user_for (user_id, some text) =
      pure (record { urls = []; error = text }, failure internal text)
  by_user_for (user_id, none) = Shortener.load_by_user m user_id >>= by_user_found user_id

  unfoldable pub get_long_by_user : Context → Exec S (Reply GetLongByUserResponse)
  unfolding by_user_for
  get_long_by_user ctx = by_user_for (get_user_id ctx)

  deleted : Option Error → Exec S (Reply DeleteBatchResponse)
  deleted (some e) = pure (record { error = error_text e }, failure internal (error_text e))
  deleted none = pure (record { error = [] }, none)

  delete_for : List Str → Str × Option Str → Exec S (Reply DeleteBatchResponse)
  unfolding deleted
  delete_for ids (user_id, some text) = pure (record { error = text }, failure internal text)
  delete_for ids (user_id, none) = Shortener.delete_urls m user_id ids >>= deleted

  unfoldable pub delete_batch : Context → List Str → Exec S (Reply DeleteBatchResponse)
  unfolding delete_for
  delete_batch ctx ids = delete_for ids (get_user_id ctx)
