-- ===== src/Server/Auth.antt =====
-- internal/server/auth/auth.go: sessions, and the sealed tokens that a client holds.
-- AES in the mode GCM comes from `crypto/cipher`: `seal` and `open` take the key, the nonce and the
-- text. Each call reads its user id from `uuid`, whose `New` panics when `crypto/rand` fails, and its
-- 16 bytes from `crypto/rand`.
pub mod Sessions
use urlshortner.Prelude.{
  ℕ, suc, ◌-◌, Str, str, length, drop, ◌==◌, Outcome, Exec, returned, pure, ◌>>=◌, Option, none,
  some, List, [], ◌∷◌, ◌++◌, if◌then◌else◌,
}
use urlshortner.GoStd.Hex
use urlshortner.Storage.Errors.{Error, message, error_text}
use urlshortner.Storage.Interface.{StorerLoader}

abbrev pub key : Str
key = str "9cc1ee455a3363ffc504f40006f70d0c8276648a5d3eb3f9524e94d1b7a83aef"

pub record Gcm : Type 0 where
  pub seal : Str → Str → Str → Str
  -- `none` is a text that was not sealed under this key and nonce.
  pub open_sealed : Str → Str → Str → Option Str

-- `aesgcm.NonceSize()`.
abbrev pub nonce_size : ℕ
nonce_size = 12

abbrev pub nonce : Str → Str
nonce k = drop (length k - nonce_size) k

-- What the standard library puts in its errors is not modelled.
abbrev invalid : Error
invalid = message (str "invalid")

module _ (gcm : Gcm) where
  unfoldable pub seal_token : Str → Str × Option Error
  seal_token usr_id = elim (Hex.decode key) [
    | none ↦ ([], some invalid)
    | some k ↦ (Hex.encode (gcm.seal k (nonce k) usr_id), none)
  ]

  unfoldable pub unseal_token : Str → Str × Option Error
  unseal_token token = elim (Hex.decode token) [
    | none ↦ ([], some invalid)
    | some hex_id ↦ elim (Hex.decode key) [
      | none ↦ ([], some invalid)
      | some k ↦ elim (gcm.open_sealed k (nonce k) hex_id) [
        | none ↦ ([], some invalid)
        | some dst ↦ (dst, none)
      ]
    ]
  ]

  -- The bytes of `crypto/rand`, or its error.
  unfoldable pub generate_random : Str × Option Error → Str × Option Error
  generate_random (b, some e) = ([], some e)
  generate_random (b, none) = (Hex.encode b, none)

  module _ {S : Type 0} (st : StorerLoader S) where
    session_stored : Str → Str → Option Error → Exec S (Str × Str × Option Error)
    session_stored usr_id token (some e) = pure ([], [], some e)
    session_stored usr_id token none = pure (usr_id, token, none)

    token_sealed : Str → Str → Str × Option Error → Exec S (Str × Str × Option Error)
    unfolding session_stored
    token_sealed usr_id open_token (token, some e) = pure ([], [], some e)
    token_sealed usr_id open_token (token, none) = do
      err ← st.store_session usr_id open_token
      session_stored usr_id token err

    token_generated : Str → Str × Option Error → Exec S (Str × Str × Option Error)
    unfolding token_sealed
    token_generated usr_id (open_token, some e) = pure (
      [],
      [],
      some (
          message
            (str "failed to create token for user ID: " ++ usr_id ++ str " \n" ++ error_text e)),
    )
    token_generated usr_id (open_token, none) =
        token_sealed usr_id open_token (seal_token open_token)

    new_uuid : Outcome Str → Exec S Str
    new_uuid uuid x = (uuid, x)

    -- A new user id, and the token of a new session.
    unfoldable pub open_session :
        Outcome Str → Str × Option Error → Exec S (Str × Str × Option Error)
    unfolding new_uuid token_generated
    open_session uuid random = do
      usr_id ← new_uuid uuid
      token_generated usr_id (generate_random random)

    user_loaded : Str × Option Error → Exec S (Str × Option Error)
    user_loaded (user_id, some e) = pure ([], some e)
    user_loaded (user_id, none) = pure (user_id, none)

    -- A token that does not unseal is logged, and the empty session is looked up.
    unfoldable pub load_user : Str → Exec S (Str × Option Error)
    unfolding user_loaded
    load_user token = do found ← st.load_user (unseal_token token).0; user_loaded found
