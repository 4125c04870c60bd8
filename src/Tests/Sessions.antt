-- ===== src/Tests/Sessions.antt =====
-- Sessions on concrete inputs.
use urlshortner.Prelude.{
  Exec, Str, str, IsBytes, load, store, ◌==◌, returned, ◌≡◌, ◌≢◌, refl, false, none, some, [], ◌∷◌,
  arith,
}
use urlshortner.GoStd.Hex
use urlshortner.Storage.Filestorage.{Disk}
use urlshortner.Storage.Inmemory.{Ims}
use urlshortner.Storage.Inmemory.Loader.{ims_loader}
use urlshortner.Server.Auth.{Gcm, seal_token, unseal_token}
use urlshortner.Server.Http.{cookie, Request, Handler, new_response, set_cookie, http_error}
use urlshortner.Server.HttpServer.Middleware.{auth_mw}
use urlshortner.Server.HttpServer.Sessions.{behind_auth, session_continues, forged_request}
use urlshortner.Server.GrpcServer.{Reply, Context, auth_interceptor}
use urlshortner.Server.GrpcServer.Handlers.{ShortenResponse, shorten}
use urlshortner.Server.GrpcServer.Identity.{auth_interceptor-user_id, auth_interceptor-token_lost}
use urlshortner.Shortener.{in_memory}
use urlshortner.Tests.Fixtures.{
  url, storage, disk, cfg, join_fields, tagging, tagging-IsCipher, request,
}

abbrev random_bytes : Str
random_bytes = 1 ∷ 2 ∷ 3 ∷ []

random_bytes-IsBytes : IsBytes random_bytes
random_bytes-IsBytes = grind arith

-- A handler that answers with its user.
abbrev whoami : Handler (Ims × Disk)
whoami r (x, w) = (returned tt, (x, http_error (elim r.user_id [ none ↦ [] | some u ↦ u ]) 418 w))

abbrev token : Str
token = (seal_token tagging (Hex.encode random_bytes)).0

abbrev stranger : Request
stranger = request (str "/") [] []

abbrev with_cookie : Str → Request
with_cookie t = record stranger { cookie = cookie t }

abbrev stored : Ims
stored = record storage { sessions = store (Hex.encode random_bytes) (str "u9") storage.sessions }

session_continues_example :
    (behind_auth tagging join_fields
        (str "u9")
        random_bytes
        whoami
        stranger
        ((storage, disk), new_response)
      ≡ whoami
          (record stranger { user_id = some (str "u9") })
          ((stored, disk), set_cookie (str "userID") token new_response))
    × (auth_mw tagging
          (ims_loader join_fields)
          (returned (str "u10"))
          ([], none)
          whoami
          (with_cookie token)
          ((stored, disk), new_response)
        ≡ whoami
            (record (with_cookie token) { user_id = some (str "u9") })
            ((stored, disk), set_cookie (str "userID") token new_response))
session_continues_example =
    session_continues tagging join_fields (str "u9") random_bytes whoami whoami stranger
      (with_cookie token) storage stored disk disk new_response new_response (returned (str "u10"))
      ([], none) tagging-IsCipher random_bytes-IsBytes refl refl refl

-- A text that is no hexadecimal number does not unseal.
forged_test : (unseal_token tagging (str "me")).1 ≢ none
unfolding unseal_token Hex.decode
forged_test e = cc

no_empty_session : load [] storage.sessions ≡ none
unfolding load ◌==◌
no_empty_session = refl

given_test : (str "me" == []) ≡ false
unfolding ◌==◌
given_test = refl

forged_request_example :
    auth_mw tagging
      (ims_loader join_fields)
      (returned (str "u9"))
      (random_bytes, none)
      whoami
      (with_cookie (str "me"))
      ((storage, disk), new_response)
    ≡ whoami
        (record (with_cookie (str "me")) { user_id = some [] })
        ((storage, disk), set_cookie (str "userID") (str "me") new_response)
forged_request_example =
    forged_request tagging join_fields (returned (str "u9")) (random_bytes, none) whoami
      (with_cookie (str "me")) (str "me") storage disk new_response refl given_test forged_test
      no_empty_session

-- The call `Shorten` of the URL, in the model.
abbrev shorten_call : Context → Exec (Ims × Disk) (Reply ShortenResponse)
shorten_call ctx = shorten (in_memory join_fields cfg) ctx url

abbrev empty_message : ShortenResponse
empty_message = record { id = []; error = [] }

auth_interceptor-user_id_example :
    auth_interceptor tagging
      (ims_loader join_fields)
      (returned (str "u9"))
      (random_bytes, none)
      empty_message
      shorten_call
      (record { authorization = token ∷ []; user_id = str "u1" ∷ [] })
      (stored, disk)
    ≡ auth_interceptor tagging
        (ims_loader join_fields)
        (returned (str "u9"))
        (random_bytes, none)
        empty_message
        shorten_call
        (record { authorization = token ∷ []; user_id = [] })
        (stored, disk)
auth_interceptor-user_id_example =
    auth_interceptor-user_id empty_message shorten_call join_fields (returned (str "u9")) tagging
      (random_bytes, none) (token ∷ []) (str "u1" ∷ []) [] (stored, disk)

-- A cipher that seals with other bytes.
abbrev no_cipher : Gcm
no_cipher = record { seal = λ k n t. t; open_sealed = λ k n t. none }

auth_interceptor-token_lost_example :
    auth_interceptor tagging
      (ims_loader join_fields)
      (returned (str "u9"))
      (random_bytes, none)
      empty_message
      shorten_call
      (record { authorization = []; user_id = [] })
      (storage, disk)
    ≡ auth_interceptor no_cipher
        (ims_loader join_fields)
        (returned (str "u9"))
        (random_bytes, none)
        empty_message
        shorten_call
        (record { authorization = []; user_id = [] })
        (storage, disk)
auth_interceptor-token_lost_example =
    auth_interceptor-token_lost empty_message shorten_call join_fields (returned (str "u9")) tagging
      no_cipher random_bytes [] storage disk
