-- ===== src/Server/HttpServer/EndToEnd/Responses.antt =====
-- The responses that leave the server, through the session's cookie and the compression.
use urlshortner.Prelude.{
  Str, str, ◌==◌, load, store, SyncMap, ◌≡◌, ◌≢◌, refl, Bool, true, false, Option, none, some, [],
  ◌∷◌, if◌then◌else◌,
}
use urlshortner.Storage.Errors.{Error, err_url_gone, is_conflict, is_url_gone}
use urlshortner.Storage.Inmemory.{Storer}
use urlshortner.Storage.Inmemory.Table.{store_error}
use urlshortner.Server.Http.{Response, status}
use urlshortner.Server.HttpServer.Handlers.{Wire}
use urlshortner.Server.HttpServer.Middleware.{finish}
use urlshortner.Server.HttpServer.RoundTrip.{short_response, long_response}
use urlshortner.Server.HttpServer.EndToEnd.Layers.{started, ended}

-- The headers that were sent with the status line.
abbrev pub sent_header : Response → SyncMap Str
sent_header w = elim w.sent [ none ↦ [] | some line ↦ line.1 ]

pub short_response-ended :
    (gzip : Str → Str) (zipped : Bool) (token short : Str) (o : Option Storer)
    → (let w = ended gzip zipped (short_response short (store_error o) (started zipped token)) in
        (status w ≡ (elim o [ none ↦ 201 | some r ↦ 409 ]))
        × (w.body ≡ (if zipped then gzip short else short)))
unfolding is_conflict finish
short_response-ended gzip true token short none = (refl, refl)
short_response-ended gzip true token short (some r) = (refl, refl)
short_response-ended gzip false token short none = (refl, refl)
short_response-ended gzip false token short (some r) = (refl, refl)

pub long_response-ended :
    (wire : Wire) (gzip : Str → Str) (zipped : Bool) (token path id url : Str) (gone : Bool)
    → url ≢ []
    → (let found : Str × Option Error = if gone then ([], some err_url_gone) else (url, none) in
        let w = ended gzip zipped (long_response wire path id found (started zipped token)) in
        (status w ≡ (if gone then 410 else 307))
        × (load (str "Location") (sent_header w)
            ≡ (if gone then none else some (wire.location path url))))
unfolding is_url_gone finish load store ◌==◌
long_response-ended wire gzip zipped token path id [] gone some_url = absurd (some_url refl)
long_response-ended wire gzip true token path id (b ∷ url) true some_url = (refl, refl)
long_response-ended wire gzip true token path id (b ∷ url) false some_url = (refl, refl)
long_response-ended wire gzip false token path id (b ∷ url) true some_url = (refl, refl)
long_response-ended wire gzip false token path id (b ∷ url) false some_url = (refl, refl)
