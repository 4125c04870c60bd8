-- ===== src/Tests/Journeys.antt =====
-- A URL on its way through the whole HTTP server, and back.
use urlshortner.GoStd.Hex
use urlshortner.Prelude.{
  contains, Str, str, ◌==◌, load, ◌≡◌, ◌≢◌, ap, sym, refl, true, false, none, some, returned, [],
  ◌∷◌, if◌then◌else◌, arith,
}
use urlshortner.Storage.Inmemory.Table.{entry}
use urlshortner.Shortener.{shorten_url}
use urlshortner.Shortener.Finding.{is_deleted}
use urlshortner.Server.Http.{Request, Handler, new_response, status, cookie, set_cookie, write_body}
use urlshortner.Server.HttpServer.Handlers.{read_body}
use urlshortner.Server.HttpServer.Answers.Requests.{serve_all}
use urlshortner.Server.HttpServer.EndToEnd.{posted_and_got, posted_then_got}
use urlshortner.Server.HttpServer.EndToEnd.Layers.{is_zipped}
use urlshortner.Server.HttpServer.EndToEnd.Responses.{sent_header}
use urlshortner.Server.HttpServer.EndToEnd.Targets.{IsRedirect, target, is_absolute}
use urlshortner.Server.HttpServer.EndToEnd.Turns.{IsReadable, turn, answers}
use urlshortner.Server.HttpServer.EndToEnd.Visits.{session_stays}
use urlshortner.Server.HttpServer.Middleware.{auth_mw}
use urlshortner.Server.Auth.{seal_token, unseal_token}
use urlshortner.Server.Auth.Sessions.{unseal_token-seal_token, token-ne-nil}
use urlshortner.Storage.Filestorage.{Disk}
use urlshortner.Storage.Inmemory.{Ims}
use urlshortner.Storage.Inmemory.Loader.{ims_loader}
use urlshortner.Tests.Fixtures.{
  url, url_id, url_id_test, url-IsBytes, storage, storage-IsWf, storage-IsShortened, disk, cfg,
  join_fields, tagging, tagging-IsCipher, wire, request,
}
use urlshortner.Tests.Requests.{drawn, turns-drawn, wire-IsBytewise, turns, turns-IsRequest}
use urlshortner.Tests.Routers.{listing, listing-IsChi}

-- The client takes a compressed answer.
abbrev post : Request
post = record (request (str "/") [] url) {
  method = str "POST";
  header_values = λ name. if name == str "Accept-Encoding" then str "gzip" ∷ [] else [];
}

abbrev get : Request
get = request (b'/' ∷ url_id) [] []

post-IsReadable : IsReadable (str "POST") (str "/") post
post-IsReadable = record { of_method = refl; to_path = refl; plain_path = refl; readable = refl }

get-IsReadable : IsReadable (str "GET") (b'/' ∷ (shorten_url cfg url).0) get
unfolding shorten_url
get-IsReadable = record {
  of_method = refl;
  to_path = ap (λ id. b'/' ∷ id) (sym url_id_test);
  plain_path = refl;
  readable = refl;
}

post_body : read_body wire post ≡ (url, none)
unfolding read_body ◌==◌
post_body = refl

some_url : url ≢ []
some_url e = grind arith

no_ping : (str "ping" == (shorten_url cfg url).0) ≡ false
unfolding shorten_url ◌==◌
no_ping = rw url_id_test refl

-- A compression, in the place of `compress/gzip`'s.
abbrev doubled : Str → Str
doubled [] = []
doubled (b ∷ s) = b ∷ b ∷ doubled s

-- The URL is one that the client is sent to as it is.
absolute_test : is_absolute url ≡ true
unfolding is_absolute
absolute_test = refl

wire-IsRedirect : IsRedirect wire
wire-IsRedirect = record { leaves = λ path u absolute. rw absolute refl }

posted_and_got_example :
    (let (id, short) = shorten_url cfg url in
      let (out, (x, w)) =
        answers listing wire join_fields cfg tagging doubled
          (turn post (str "u7") (str "r1"))
          ((storage, disk), new_response) in
      let (out', (x', w')) =
        answers listing wire join_fields cfg tagging doubled
          (turn get (str "u8") (str "r2"))
          (x, new_response) in
      let gone = is_deleted (entry storage id) in
      (out ≡ returned tt)
      × (status w ≡ (elim (entry storage id) [ none ↦ 201 | some r ↦ 409 ]))
      × (w.body ≡ (if is_zipped post then doubled short else short))
      × (out' ≡ returned tt)
      × (status w' ≡ (if gone then 410 else 307))
      × (load (str "Location") (sent_header w')
          ≡ (if gone then none else some (target wire get.path url))))
posted_and_got_example =
    posted_and_got listing wire join_fields cfg tagging doubled post get (str "u7") (str "u8")
      (str "r1") (str "r2") url storage disk listing-IsChi wire-IsRedirect url-IsBytes some_url
      no_ping storage-IsWf storage-IsShortened post-IsReadable post_body get-IsReadable

posted_then_got_example :
    (let id = (shorten_url cfg url).0 in
      let (out, (x, w)) =
        answers listing wire join_fields cfg tagging doubled
          (turn post (str "u7") (str "r1"))
          ((storage, disk), new_response) in
      let (outs, x') = serve_all listing wire join_fields cfg tagging doubled turns x in
      let (out', (x'', w')) =
        answers listing wire join_fields cfg tagging doubled
          (turn get (str "u8") (str "r2"))
          (x', new_response) in
      let gone = is_deleted (entry x'.0 id) in
      (is_deleted (entry storage id) ≡ true → gone ≡ true)
      × (out' ≡ returned tt)
      × (status w' ≡ (if gone then 410 else 307))
      × (load (str "Location") (sent_header w')
          ≡ (if gone then none else some (target wire get.path url))))
posted_then_got_example =
    posted_then_got listing wire join_fields cfg tagging doubled post get turns (str "u7")
      (str "u8") (str "r1") (str "r2") url storage disk listing-IsChi wire-IsRedirect
      wire-IsBytewise url-IsBytes some_url no_ping storage-IsWf storage-IsShortened post-IsReadable
      post_body turns-IsRequest get-IsReadable

-- The token of the session that the storage has.
abbrev token : Str
token = (seal_token tagging (str "5e55")).0

token_test : (unseal_token tagging token).0 ≡ str "5e55"
token_test =
    ap (λ o. o.0) (unseal_token-seal_token tagging (str "5e55") tagging-IsCipher (grind arith))

undrawn_test : drawn (unseal_token tagging token).0 ≡ false
unfolding contains ◌==◌ Hex.encode
undrawn_test = rw token_test refl

known_test : load (unseal_token tagging token).0 storage.sessions ≡ some (str "u1")
unfolding load ◌==◌
known_test = rw token_test refl

-- A handler that answers with its user.
abbrev whoami : Handler (Ims × Disk)
whoami r (x, w) = (returned tt, (x, write_body (elim r.user_id [ none ↦ [] | some u ↦ u ]) w))

abbrev visit : Request
visit = record (request (str "/") [] []) { cookie = cookie token }

session_stays_example :
    (let (outs, x) = serve_all listing wire join_fields cfg tagging doubled turns (storage, disk) in
      auth_mw tagging
        (ims_loader join_fields)
        (returned (str "u10"))
        (str "r3", none)
        whoami
        visit
        (x, new_response)
      ≡ whoami
          (record visit { user_id = some (str "u1") })
          (x, set_cookie (str "userID") token new_response))
session_stays_example =
    session_stays listing wire join_fields cfg tagging doubled turns drawn storage disk token
      (str "u1") (returned (str "u10")) (str "r3", none) whoami visit new_response listing-IsChi
      wire-IsBytewise turns-IsRequest turns-drawn undrawn_test storage-IsWf storage-IsShortened
      (token-ne-nil tagging (str "5e55") tagging-IsCipher) known_test refl
