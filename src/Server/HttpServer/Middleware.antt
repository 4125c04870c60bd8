-- ===== src/Server/HttpServer/Middleware.antt =====
-- internal/server/httpserver/middleware: the session of a request, and compressed responses.
use urlshortner.Prelude.{
  nat_eq, Outcome, Str, str, ◌==◌, contains, Exec, pure, ◌>>=◌, ◌>>◌, Option, none, some, [],
  if◌then◌else◌,
}
use urlshortner.Storage.Errors.{Error, error_text}
use urlshortner.Storage.Interface.{StorerLoader}
use urlshortner.Server.Auth.{Gcm, open_session, load_user}
use urlshortner.Server.Http.{
  Cookie, no_cookie, bad_cookie, cookie, Response, Handler, on_store, respond, http_error,
  set_header, set_cookie, write_header, status,
}

-- The closure `errHandler`: it answers, and the caller goes on.
abbrev err_handler : {S : Type 0} → Option Error → Exec (S × Response) (Unit {0})
err_handler none = pure tt
err_handler (some e) = respond (http_error (error_text e) 500)

-- What the cookie gives, after its error was answered.
abbrev pub cookie_token : Cookie → Str
cookie_token no_cookie = []
cookie_token (bad_cookie e) = []
cookie_token (cookie value) = value

abbrev pub cookie_error : Cookie → Option Error
cookie_error (bad_cookie e) = some e
cookie_error _ = none

-- The user and the token of the request's session.
abbrev Session : Type 0
Session = Str × Str

module _ (gcm : Gcm) {S : Type 0} (st : StorerLoader S) (uuid : Outcome Str)
    (random : Str × Option Error) where
  known : Str → Str × Option Error → Exec (S × Response) Session
  known token (usr_id, err) = do err_handler err; pure (usr_id, token)

  opened : Str × Str × Option Error → Exec (S × Response) Session
  opened (usr_id, token, err) = do err_handler err; pure (usr_id, token)

  unfoldable pub session_of : Str → Exec (S × Response) Session
  unfolding known opened
  session_of token =
      if token == []
      then (do found ← on_store (open_session gcm st uuid random); opened found)
      else (do found ← on_store (load_user gcm st token); known token found)

  -- `AuthMW`: the next handler runs in every case, also after an error was answered.
  unfoldable pub auth_mw : Handler S → Handler S
  auth_mw next r = do
    err_handler (cookie_error r.cookie)
    session ← session_of (cookie_token r.cookie)
    respond (set_cookie (str "userID") session.1)
    next (record r { user_id = some session.0 })

-- `writer.Close()`, deferred: the compressed body goes out, with the status 200 if none was sent.
-- `net/http` takes no body behind the status 204. The middleware is the outermost, so the body before
-- was empty; after a panic nothing more of the response counts.
unfoldable pub finish : (Str → Str) → Response → Response
finish gzip w =
    let w' = write_header 200 w in
    record w' { body = if nat_eq (status w') 204 then [] else gzip w'.body }

-- `GzipMW` puts a compressing writer between the handler and the client; `gzip` compresses a text.
-- `gzip.NewWriterLevel` fails for no valid level.
unfoldable pub gzip_mw : {S : Type 0} → (Str → Str) → Handler S → Handler S
unfolding finish
gzip_mw gzip next r =
    if contains (str "gzip") (r.header_values (str "Accept-Encoding"))
    then (do
      respond (set_header (str "Content-Encoding") (str "gzip"))
      next r
      respond (finish gzip))
    else next r
