-- ===== src/Server/HttpServer/Handlers/Lookup.antt =====
-- `makeLong`, `makeLongByUser` and `deleteBatch`.
use urlshortner.Prelude.{
  Str, str, ◌==◌, Exec, panic, ◌>>=◌, ◌>>◌, not, Option, none, some, List, [], ◌∷◌, ◌++◌,
  if◌then◌else◌,
}
use urlshortner.Storage.Errors.{Error, error_text, is_url_gone}
use urlshortner.Storage.Interface.{Pairs}
use urlshortner.Shortener
use urlshortner.Shortener.{MyShortener, shorten_url}
use urlshortner.Server.Http.{
  Response, Handler, on_store, respond, http_error, set_header, write_header, write_body,
}
use urlshortner.Server.HttpServer.Handlers.{Wire, ct_json, set_content_type, or_empty, read_body}

module _ (wire : Wire) {S : Type 0} (m : MyShortener S) where
  open wire use {decode_ids, encode_pairs, location, redirect_text}

  -- `http.Redirect` for a GET, with no content type set before.
  redirect : Str → Str → Exec (S × Response) (Unit {0})
  redirect path url = do
    respond (set_header (str "Location") (location path url))
    respond (set_header (str "Content-Type") (str "text/html; charset=utf-8"))
    respond (write_header 307)
    respond (write_body (redirect_text (location path url)))

  long_answer : Str → Str → Str × Option Error → Exec (S × Response) (Unit {0})
  unfolding redirect
  long_answer path id (url, some e) =
      if is_url_gone (some e)
      then respond (http_error (error_text e) 410)
      else respond (http_error (error_text e) 404)
  long_answer path id (url, none) =
      if url == []
      then respond (http_error (str "id " ++ id ++ str " not found") 404)
      else redirect path url

  -- `r.URL.Path[1:]` panics on an empty path.
  unfoldable pub make_long : Handler S
  unfolding long_answer
  make_long r = elim r.path [
    | [] ↦ panic
    | slash ∷ id ↦ on_store (Shortener.find_url m id) >>= λ found. long_answer r.path id found
  ]

  by_user_answer : Pairs × Option Error → Exec (S × Response) (Unit {0})
  by_user_answer (res, some e) =
      respond (http_error (str "failed to load data: " ++ error_text e) 500)
  by_user_answer ([], none) = respond (write_header 204)
  by_user_answer (p ∷ ps, none) = do
    respond set_content_type
    respond (write_body (encode_pairs (p ∷ ps)))

  unfoldable pub make_long_by_user : Handler S
  unfolding by_user_answer
  make_long_by_user r = elim r.user_id [
    | none ↦ panic
    | some user_id ↦ on_store (Shortener.load_by_user m user_id) >>= by_user_answer
  ]

  delete_answer : Option Error → Exec (S × Response) (Unit {0})
  delete_answer (some e) = respond (http_error (str "deletion failed: " ++ error_text e) 400)
  delete_answer none = respond (write_header 202)

  delete_for : Str → List Str × Option Error → Exec (S × Response) (Unit {0})
  unfolding delete_answer
  delete_for user_id (ids, some e) =
      respond (http_error (str "failed to decode message: " ++ error_text e) 400)
  delete_for user_id (ids, none) = on_store (Shortener.delete_urls m user_id ids) >>= delete_answer

  delete_body : Str → Str × Option Error → Exec (S × Response) (Unit {0})
  unfolding delete_for
  delete_body user_id (body, some e) = respond (http_error (error_text e) 500)
  delete_body user_id (body, none) = delete_for user_id (decode_ids body)

  unfoldable pub delete_batch : Handler S
  unfolding delete_body
  delete_batch r =
      if not (r.get_header (str "Content-Type") == ct_json)
      then respond (http_error (str "unsupported content type") 400)
      else delete_body (or_empty r.user_id) (read_body wire r)
