-- ===== src/Server/HttpServer/EndToEnd/Layers.antt =====
-- A handler of the HTTP server behind its two middlewares, for a request whose session is found or
-- opened without an error.
use urlshortner.Prelude.{
  Str, str, contains, ◌==◌, load, store, returned, ◌≡◌, refl, ◌∙◌, Bool, true, false, Bool-cases,
  inl, inr, none, some, List, [], arith, if◌then◌else◌,
}
use urlshortner.GoStd.Hex
use urlshortner.Storage.Filestorage.{Disk}
use urlshortner.Storage.Inmemory.{Ims}
use urlshortner.Storage.Inmemory.Loader.{ims_loader}
use urlshortner.Server.Auth.{Gcm, seal_token, unseal_token}
use urlshortner.Server.Auth.Sessions.{open_session-result, load_user-result}
use urlshortner.Server.Http.{Request, Response, Handler, new_response, set_header, set_cookie}
use urlshortner.Server.HttpServer.Middleware.{
  session_of, auth_mw, gzip_mw, finish, cookie_token, cookie_error,
}

-- Whether the client takes a compressed answer.
abbrev pub is_zipped : Request → Bool
is_zipped r = contains (str "gzip") (r.header_values (str "Accept-Encoding"))

-- The response that the handler starts from, and the one that leaves the server.
abbrev fresh : Bool → Response
fresh true = set_header (str "Content-Encoding") (str "gzip") new_response
fresh false = new_response

abbrev pub started : Bool → Str → Response
started zipped token = set_cookie (str "userID") token (fresh zipped)

abbrev pub ended : (Str → Str) → Bool → Response → Response
ended gzip zipped w = if zipped then finish gzip w else w

-- The compression around a handler that returns.
gzip_mw-result :
    {S : Type 0} (gzip : Str → Str) (next : Handler S) (r : Request) (x x' : S) (w : Response)
    (zipped : Bool)
    → is_zipped r ≡ zipped
    → next r (x, fresh zipped) ≡ (returned tt, (x', w))
    → gzip_mw gzip next r (x, new_response) ≡ (returned tt, (x', ended gzip zipped w))
unfolding gzip_mw
gzip_mw-result gzip next r x x' w true h ran = rw h (rw ran refl)
gzip_mw-result gzip next r x x' w false h ran = rw h ran

module _ (gcm : Gcm) (encode_record : List Str → Str) (uuid bytes : Str) where
  session_of-quiet :
      (token : Str) (s : Ims) (d : Disk) (w : Response)
      → (user_id : Str) × (token' : Str) × (s' : Ims) × (session_of gcm
            (ims_loader encode_record)
            (returned uuid)
            (bytes, none)
            token
            ((s, d), w)
          ≡ (returned (user_id, token'), ((s', d), w)))
        × (s'.entries ≡ s.entries)
  unfolding session_of
  session_of-quiet token s d w = elim (Bool-cases (token == [])) [
    | inl absent ↦ (
      uuid,
      (seal_token gcm (Hex.encode bytes)).0,
      record s { sessions = store (Hex.encode bytes) uuid s.sessions },
      ground (arith, absent, open_session-result gcm encode_record uuid bytes s d),
      refl,
    )
    | inr given ↦
        let user_id : Str = elim (load (unseal_token gcm token).0 s.sessions) [
          | none ↦ []
          | some u ↦ u
        ] in
        (
          user_id,
          token,
          s,
          ground (arith, given, load_user-result gcm encode_record token s d),
          refl,
        )
  ]

  auth_mw-quiet :
      (next : Handler (Ims × Disk)) (r : Request) (s : Ims) (d : Disk) (w : Response)
      → cookie_error r.cookie ≡ none
      → (user_id : Str) × (token : Str) × (s' : Ims) × (s'.entries ≡ s.entries)
        × (auth_mw gcm (ims_loader encode_record) (returned uuid) (bytes, none) next r ((s, d), w)
            ≡ next
                (record r { user_id = some user_id })
                ((s', d), set_cookie (str "userID") token w))
  unfolding auth_mw
  auth_mw-quiet next r s d w quiet =
      let (user_id, token, s', found, same) = session_of-quiet (cookie_token r.cookie) s d w in
      (user_id, token, s', same, rw (quiet, found) refl)

  -- The handler runs for some user, over the same URLs, and what it returns is what comes back.
  pub layers :
      (next : Handler (Ims × Disk)) (gzip : Str → Str) (r : Request) (s : Ims) (d : Disk)
      → cookie_error r.cookie ≡ none
      → (user_id : Str) × (token : Str) × (s' : Ims) × (s'.entries ≡ s.entries)
        × ((x : Ims × Disk) (w : Response)
            → next (record r { user_id = some user_id }) ((s', d), started (is_zipped r) token)
              ≡ (returned tt, (x, w))
            → gzip_mw gzip
                (auth_mw gcm (ims_loader encode_record) (returned uuid) (bytes, none) next)
                r
                ((s, d), new_response)
              ≡ (returned tt, (x, ended gzip (is_zipped r) w)))
  layers next gzip r s d quiet =
      let zipped = is_zipped r in
      let (user_id, token, s', same, runs) = auth_mw-quiet next r s d (fresh zipped) quiet in
      (
        user_id,
        token,
        s',
        same,
        λ x w ran.
            gzip_mw-result gzip
              (auth_mw gcm (ims_loader encode_record) (returned uuid) (bytes, none) next) r (s, d) x
              w zipped refl (runs ∙ ran),
      )
