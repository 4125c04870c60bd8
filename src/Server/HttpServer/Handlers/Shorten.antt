-- ===== src/Server/HttpServer/Handlers/Shorten.antt =====
-- `makeShort`, `makeShortJSON` and `shortenBatchJSON`.
use urlshortner.Prelude.{
  Str, str, ◌==◌, Exec, pure, panic, ◌>>=◌, ◌>>◌, not, Option, none, some, List, [], ◌∷◌, ◌++◌,
  if◌then◌else◌,
}
use urlshortner.Storage.Errors.{Error, error_text, is_conflict}
use urlshortner.Shortener
use urlshortner.Shortener.{MyShortener, shorten_url}
use urlshortner.Server.Http.{
  Response, Handler, on_store, respond, http_error, write_header, write_body,
}
use urlshortner.Server.HttpServer.Handlers.{
  Wire, Urlwid, Urlwidres, ct_json, set_content_type, or_empty, read_body,
}

module _ (wire : Wire) {S : Type 0} (m : MyShortener S) where
  open wire use {decode_urlreq, decode_batch, encode_urlres, encode_batch}

  -- The answer of `makeShort`, over what `StoreURL` returned.
  short_answer : Str → Option Error → Exec (S × Response) (Unit {0})
  short_answer url none = do respond (write_header 201); respond (write_body url)
  short_answer url (some e) =
      if is_conflict (some e)
      then (do respond (write_header 409); respond (write_body url))
      else respond (http_error (error_text e) 500)

  short_for : Str → Str × Option Error → Exec (S × Response) (Unit {0})
  unfolding short_answer
  short_for user_id (body, some e) = respond (http_error (error_text e) 500)
  short_for user_id (body, none) = do
    let (id, url) = shorten_url m.config body
    err ← on_store (Shortener.store_url m id body user_id)
    short_answer url err

  -- A context without a user panics in `.(string)`.
  unfoldable pub make_short : Handler S
  unfolding short_for
  make_short r = elim r.user_id [
    | none ↦ panic
    | some user_id ↦ short_for user_id (read_body wire r)
  ]

  json_answer : Str → Option Error → Exec (S × Response) (Unit {0})
  json_answer url none = do
    respond set_content_type
    respond (write_header 201)
    respond (write_body (encode_urlres url))
  json_answer url (some e) =
      if is_conflict (some e)
      then (do
        respond set_content_type
        respond (write_header 409)
        respond (write_body (encode_urlres url)))
      else respond (http_error (error_text e) 500)

  json_for : Str → Str × Option Error → Exec (S × Response) (Unit {0})
  unfolding json_answer
  json_for user_id (url, some e) =
      respond (http_error (str "failed to decode message: " ++ error_text e) 400)
  json_for user_id (url, none) = do
    let (id, short) = shorten_url m.config url
    err ← on_store (Shortener.store_url m id url user_id)
    json_answer short err

  -- A body that cannot be read is answered, and then decoded all the same.
  read_failed : Option Error → Exec (S × Response) (Unit {0})
  read_failed none = pure tt
  read_failed (some e) = respond (http_error (error_text e) 500)

  unfoldable pub make_short_json : Handler S
  unfolding json_for read_failed
  make_short_json r =
      if not (r.get_header (str "Content-Type") == ct_json)
      then respond (http_error (str "unsupported content type") 400)
      else (do
        let body = read_body wire r
        read_failed body.1
        json_for (or_empty r.user_id) (decode_urlreq body.0))

  -- The loop of `shortenBatchJSON`; the first error ends it, a conflict too.
  batch_rest : List Urlwidres → Exec (S × Response) (Unit {0})
  batch_rest res = do
    respond set_content_type
    respond (write_header 201)
    respond (write_body (encode_batch res))

  unfoldable pub batch_loop : Str → List Urlwid → List Urlwidres → Exec (S × Response) (Unit {0})
  unfolding batch_rest
  batch_loop user_id [] res = batch_rest res
  batch_loop user_id (v ∷ vs) res =
      let (id, url) = shorten_url m.config v.original_url in
      let rest =
        batch_loop user_id vs
          (res ++ record { correlation_id = v.correlation_id; short_url = url } ∷ []) in
      on_store (Shortener.store_url m id v.original_url user_id) >>= λ err. elim err [
        | some e ↦ respond (http_error (error_text e) 500)
        | none ↦ rest
      ]

  batch_for : Str → List Urlwid × Option Error → Exec (S × Response) (Unit {0})
  unfolding batch_loop
  batch_for user_id (message, some e) =
      respond (http_error (str "failed to decode message: " ++ error_text e) 400)
  batch_for user_id (message, none) = batch_loop user_id message []

  unfoldable pub shorten_batch_json : Handler S
  unfolding batch_for read_failed
  shorten_batch_json r =
      if not (r.get_header (str "Content-Type") == ct_json)
      then respond (http_error (str "unsupported content type") 400)
      else (do
        let body = read_body wire r
        read_failed body.1
        batch_for (or_empty r.user_id) (decode_batch body.0))
