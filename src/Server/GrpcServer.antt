-- ===== src/Server/GrpcServer.antt =====
-- internal/server/grpcserver/grpcserver.go: the gRPC server. The messages are those of
-- protoshortener/shortener.proto.
pub mod Running
pub mod Handlers
pub mod Stats
pub mod Calls
pub mod Subnet
pub mod Identity
pub mod RoundTrip
use urlshortner.Prelude.{
  Outcome, Str, str, ◌==◌, length, Exec, panic, pure, ◌>>=◌, Option, none, some, List, [], ◌∷◌,
  ◌++◌, if◌then◌else◌,
}
use urlshortner.Storage.Errors.{Error}
use urlshortner.Storage.Interface.{StorerLoader}
use urlshortner.Server.Auth.{Gcm, open_session, load_user}

-- The codes of `google.golang.org/grpc/codes` that the handlers use.
pub data Code : Type 0 where
  ok already_exists internal not_found unauthenticated unavailable : Code

-- `status.Error`, and nil as `none`.
pub record Status : Type 0 where
  pub code : Code
  pub text : Str

-- A handler returns its message and its error, or panics.
abbrev pub Reply : Type 0 → Type 0
Reply A = A × Option Status

abbrev pub failure : Code → Str → Option Status
failure code text = some (record { code = code; text = text })

pub record Context : Type 0 where
  -- The values of `authorization` in the metadata, which every call from the network has.
  pub authorization : List Str
  -- The values of `user_id`.
  pub user_id : List Str

-- `getUserID`.
unfoldable pub get_user_id : Context → Str × Option Str
get_user_id ctx = elim ctx.user_id [
  | [] ↦ ([], some (str "user ID is not defined"))
  | user_id ∷ more ↦ elim more [
    | [] ↦ if user_id == [] then ([], some (str "user ID is not defined")) else (user_id, none)
    | v ∷ vs ↦ ([], some (str "user ID is not defined"))
  ]
]

module _ (gcm : Gcm) {S : Type 0} (st : StorerLoader S) (uuid : Outcome Str)
    (random : Str × Option Error) where
  abbrev token_of : Context → Str
  token_of ctx = elim ctx.authorization [ [] ↦ [] | token ∷ more ↦ token ]

  -- The handler of the call, in the context that names the user, over an empty message.
  module _ {A : Type 0} (nil : A) (handler : Context → Exec S (Reply A)) where
    known : Context → Str × Option Error → Exec S (Reply A)
    known ctx (user_id, some e) =
        pure (nil, failure unauthenticated (str "failed to load user by token"))
    known ctx (user_id, none) = handler (record ctx { user_id = user_id ∷ [] })

    -- The token of a new session is dropped.
    opened : Context → Str × Str × Option Error → Exec S (Reply A)
    opened ctx (user_id, token, some e) =
        pure (nil, failure unauthenticated (str "failed to open new session"))
    opened ctx (user_id, token, none) = handler (record ctx { user_id = user_id ∷ [] })

    unfoldable pub auth_interceptor : Context → Exec S (Reply A)
    unfolding known opened
    auth_interceptor ctx =
        if token_of ctx == []
        then open_session gcm st uuid random >>= opened ctx
        else load_user gcm st (token_of ctx) >>= known ctx
