-- ===== src/Server/GrpcServer/Identity.antt =====
-- Who a call of the gRPC server is made for.
use urlshortner.Prelude.{
  Outcome, panicked, Str, str, load, ◌==◌, eq_refl, returned, Exec, ◌≡◌, ◌≢◌, refl, false, Option,
  none, List, [], ◌∷◌, arith,
}
use urlshortner.Config.{Config}
use urlshortner.Storage.Errors.{Error}
use urlshortner.Storage.Filestorage.{Disk}
use urlshortner.Storage.Inmemory.{Ims}
use urlshortner.Storage.Inmemory.Loader.{ims_loader}
use urlshortner.Shortener.{in_memory}
use urlshortner.Server.Auth.{Gcm, open_session, unseal_token}
use urlshortner.Server.Auth.Sessions.{open_session-result, forged_token}
use urlshortner.Server.GrpcServer.{internal, Reply, failure, Context, get_user_id, auth_interceptor}
use urlshortner.Server.GrpcServer.Handlers.{shorten}

module _ {A : Type 0} (nil : A) (handler : Context → Exec (Ims × Disk) (Reply A))
    (encode_record : List Str → Str) (uuid : Outcome Str) where
  -- What a client puts under `user_id` in its metadata has no effect: the user is the session's.
  pub auth_interceptor-user_id :
      (gcm : Gcm) (random : Str × Option Error) (tokens claimed claimed' : List Str)
      (x : Ims × Disk)
      → auth_interceptor gcm
          (ims_loader encode_record)
          uuid
          random
          nil
          handler
          (record { authorization = tokens; user_id = claimed })
          x
        ≡ auth_interceptor gcm
            (ims_loader encode_record)
            uuid
            random
            nil
            handler
            (record { authorization = tokens; user_id = claimed' })
            x
  unfolding auth_interceptor
  auth_interceptor-user_id gcm random tokens claimed claimed' x = refl

  same_opening :
      (out : Outcome Str) (gcm gcm' : Gcm) (bytes : Str) (claimed : List Str) (s : Ims) (d : Disk)
      → auth_interceptor gcm
          (ims_loader encode_record)
          out
          (bytes, none)
          nil
          handler
          (record { authorization = []; user_id = claimed })
          (s, d)
        ≡ auth_interceptor gcm'
            (ims_loader encode_record)
            out
            (bytes, none)
            nil
            handler
            (record { authorization = []; user_id = claimed })
            (s, d)
  unfolding auth_interceptor open_session
  same_opening panicked gcm gcm' bytes claimed s d = ground (arith, eq_refl [])
  same_opening (returned u) gcm gcm' bytes claimed s d = ground (
    arith,
    eq_refl [],
    open_session-result gcm encode_record u bytes s d,
    open_session-result gcm' encode_record u bytes s d,
  )

  -- A call without a token opens a session whose token nobody learns: the reply and the state are
  -- the same whatever cipher seals the token.
  pub auth_interceptor-token_lost :
      (gcm gcm' : Gcm) (bytes : Str) (claimed : List Str) (s : Ims) (d : Disk)
      → auth_interceptor gcm
          (ims_loader encode_record)
          uuid
          (bytes, none)
          nil
          handler
          (record { authorization = []; user_id = claimed })
          (s, d)
        ≡ auth_interceptor gcm'
            (ims_loader encode_record)
            uuid
            (bytes, none)
            nil
            handler
            (record { authorization = []; user_id = claimed })
            (s, d)
  auth_interceptor-token_lost gcm gcm' bytes claimed s d =
      same_opening uuid gcm gcm' bytes claimed s d

-- A token that does not unseal is let through by the interceptor, for the user "" as long as no
-- session is stored under ""; `Shorten` then refuses the call with the code `Internal`, and stores
-- nothing.
pub forged_shorten :
    (gcm : Gcm) (encode_record : List Str → Str) (cfg : Config) (uuid : Outcome Str)
    (random : Str × Option Error) (token url : Str) (more claimed : List Str) (s : Ims) (d : Disk)
    → (token == []) ≡ false
    → (unseal_token gcm token).1 ≢ none
    → load [] s.sessions ≡ none
    → auth_interceptor gcm
        (ims_loader encode_record)
        uuid
        random
        (record { id = []; error = [] })
        (λ ctx. shorten (in_memory encode_record cfg) ctx url)
        (record { authorization = token ∷ more; user_id = claimed })
        (s, d)
      ≡ (
        returned (
          record { id = []; error = str "user ID is not defined" },
          failure internal (str "user ID is not defined"),
        ),
        (s, d),
      )
unfolding auth_interceptor shorten get_user_id
forged_shorten gcm encode_record cfg uuid random token url more claimed s d given bad empty =
    ground (arith, eq_refl [], forged_token gcm encode_record token s d bad empty)
