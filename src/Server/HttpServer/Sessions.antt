-- ===== src/Server/HttpServer/Sessions.antt =====
-- The sessions of the HTTP server, over the in-memory storage.
use urlshortner.Prelude.{
  ◌⊎◌, Str, IsBytes, str, load, store, load-store, ◌==◌, eq_refl, Outcome, returned, panicked, ◌≡◌,
  ◌≢◌, ◌∙◌, refl, true, false, Option, none, some, List, [], Bool-cases, inl, inr, arith,
}
use urlshortner.GoStd.Hex
use urlshortner.Storage.Errors.{Error, error_text}
use urlshortner.Storage.Filestorage.{Disk}
use urlshortner.Storage.Inmemory.{Ims}
use urlshortner.Storage.Inmemory.Loader.{ims_loader}
use urlshortner.Server.Auth.{
  Gcm, seal_token, unseal_token, open_session, load_user, generate_random,
}
use urlshortner.Server.Auth.Sessions.{
  IsCipher, open_session-result, load_user-result, unseal_token-seal_token, forged_token,
  token-ne-nil,
}
use urlshortner.Server.Http.{no_cookie, cookie, Request, Response, Handler, set_cookie, http_error}
use urlshortner.Server.HttpServer.Middleware.{session_of, auth_mw, cookie_token, cookie_error}

module _ (gcm : Gcm) (encode_record : List Str → Str) (uuid : Outcome Str)
    (random : Str × Option Error) where
  -- A request with a cookie runs the handler for the user that the token stands for.
  pub later_request :
      (next : Handler (Ims × Disk)) (r : Request) (token user_id : Str) (s : Ims) (d : Disk)
      (w : Response)
      → r.cookie ≡ cookie token
      → (token == []) ≡ false
      → load_user gcm (ims_loader encode_record) token (s, d) ≡ (returned (user_id, none), (s, d))
      → auth_mw gcm (ims_loader encode_record) uuid random next r ((s, d), w)
        ≡ next (record r { user_id = some user_id }) ((s, d), set_cookie (str "userID") token w)
  unfolding auth_mw session_of
  later_request next r token user_id s d w has some_text known = ground arith

module _ (gcm : Gcm) (encode_record : List Str → Str) (uuid bytes : Str) where
  -- `AuthMW` around a handler, with what the request's turn draws from `uuid` and `crypto/rand`.
  abbrev pub behind_auth : Handler (Ims × Disk) → Handler (Ims × Disk)
  behind_auth = auth_mw gcm (ims_loader encode_record) (returned uuid) (bytes, none)

  -- A request without a cookie opens a session: the handler runs for the new user, and the response
  -- has the cookie with the token.
  first_request :
      (next : Handler (Ims × Disk)) (r : Request) (s : Ims) (d : Disk) (w : Response)
      → r.cookie ≡ no_cookie
      → behind_auth next r ((s, d), w)
        ≡ next
            (record r { user_id = some uuid })
            (
              (record s { sessions = store (Hex.encode bytes) uuid s.sessions }, d),
              set_cookie (str "userID") (seal_token gcm (Hex.encode bytes)).0 w,
            )
  unfolding auth_mw session_of
  first_request next r s d w fresh =
      ground (arith, eq_refl [], open_session-result gcm encode_record uuid bytes s d)

  -- With a cipher whose opening undoes its sealing, a first request, without a cookie, is served
  -- as the new user, and its response sets a cookie. From then on, as long as the sessions stay, a
  -- request with that cookie is served as the same user, whatever new ids its turn could draw, and
  -- changes nothing but its own response.
  pub session_continues :
      (next next' : Handler (Ims × Disk)) (r r' : Request) (s s' : Ims) (d d' : Disk)
      (w w' : Response) (uuid' : Outcome Str) (random' : Str × Option Error)
      → IsCipher gcm
      → IsBytes bytes
      → r.cookie ≡ no_cookie
      → r'.cookie ≡ cookie (seal_token gcm (Hex.encode bytes)).0
      → s'.sessions ≡ store (Hex.encode bytes) uuid s.sessions
      → (let token = (seal_token gcm (Hex.encode bytes)).0 in
          (behind_auth next r ((s, d), w)
            ≡ next
                (record r { user_id = some uuid })
                (
                  (record s { sessions = store (Hex.encode bytes) uuid s.sessions }, d),
                  set_cookie (str "userID") token w,
                ))
          × (auth_mw gcm (ims_loader encode_record) uuid' random' next' r' ((s', d'), w')
              ≡ next'
                  (record r' { user_id = some uuid })
                  ((s', d'), set_cookie (str "userID") token w')))
  session_continues next next' r r' s s' d d' w w' uuid' random' c h fresh has kept = (
    first_request next r s d w fresh,
    later_request gcm encode_record uuid' random' next' r' (seal_token gcm (Hex.encode bytes)).0
        uuid s' d' w' has (token-ne-nil gcm (Hex.encode bytes) c)
        (load_user-result gcm encode_record (seal_token gcm (Hex.encode bytes)).0 s' d'
          ∙ rw
              (
                unseal_token-seal_token gcm (Hex.encode bytes) c (Hex.encode-IsBytes bytes h),
                kept,
                load-store,
              )
              (rw (eq_refl (Hex.encode bytes)) refl)),
  )

-- What `errHandler` leaves.
abbrev answered : Option Error → Response → Response
answered none w = w
answered (some e) w = http_error (error_text e) 500 w

-- A user id is drawn, or none is needed.
abbrev pub CanOpen : Outcome Str → Str → Type 0
CanOpen uuid token = ((u : Str) × (uuid ≡ returned u)) ⊎ ((token == []) ≡ false)

-- The session of a request is found, and no URL has changed by then.
abbrev Served : Str → Outcome (Str × Str) × ((Ims × Disk) × Response) → Ims → Type 0
Served drawn o s =
    (user_id : Str) × (token : Str) × (s' : Ims) × (d' : Disk) × (w' : Response) × (o
      ≡ (returned (user_id, token), ((s', d'), w')))
    × (s'.entries ≡ s.entries)
    × ((key : Str) → (drawn == key) ≡ false → load key s'.sessions ≡ load key s.sessions)

module _ (gcm : Gcm) (encode_record : List Str → Str) where
  no_random :
      (uuid b : Str) (e : Error) (x : Ims × Disk)
      → (cause : Error) × (open_session gcm (ims_loader encode_record) (returned uuid) (b, some e) x
          ≡ (returned ([], [], some cause), x))
  unfolding open_session generate_random
  no_random uuid b e x = (_, refl)

  opening_total :
      (uuid b : Str) (err : Option Error) (token : Str) (s : Ims) (d : Disk) (w : Response)
      → (token == []) ≡ true
      → Served
          (Hex.encode b)
          (session_of gcm (ims_loader encode_record) (returned uuid) (b, err) token ((s, d), w))
          s
  unfolding session_of
  opening_total uuid b none token s d w given = (
    uuid,
    (seal_token gcm (Hex.encode b)).0,
    record s { sessions = store (Hex.encode b) uuid s.sessions },
    d,
    w,
    ground (arith, given, open_session-result gcm encode_record uuid b s d),
    refl,
    λ key differs. rw load-store (rw differs refl),
  )
  opening_total uuid b (some e) token s d w given =
      let (cause, failed) = no_random uuid b e (s, d) in
      (
        [],
        [],
        s,
        d,
        http_error (error_text cause) 500 w,
        ground (arith, given, failed),
        refl,
        λ key differs. refl,
      )

  session_of_total :
      (uuid : Outcome Str) (random : Str × Option Error) (token : Str) (s : Ims) (d : Disk)
      (w : Response)
      → CanOpen uuid token
      → Served
          (Hex.encode random.0)
          (session_of gcm (ims_loader encode_record) uuid random token ((s, d), w))
          s
  unfolding session_of
  session_of_total uuid random token s d w can = elim (Bool-cases (token == [])) [
    | inl none_given ↦ elim can [
      | inl (u, e) ↦ rw e (opening_total u random.0 random.1 token s d w none_given)
      | inr given ↦ absurd (ground arith)
    ]
    | inr given ↦
        let user_id : Str = elim (load (unseal_token gcm token).0 s.sessions) [
          | none ↦ []
          | some u ↦ u
        ] in
        (
          user_id,
          token,
          s,
          d,
          w,
          ground (arith, given, load_user-result gcm encode_record token s d),
          refl,
          λ key differs. refl,
        )
  ]

module _ (gcm : Gcm) (encode_record : List Str → Str) (uuid : Outcome Str)
    (random : Str × Option Error) where
  -- A cookie that does not unseal is not refused: the handler runs for the user "", as long as no
  -- session is stored under "", and the client is handed its own cookie back.
  pub forged_request :
      (next : Handler (Ims × Disk)) (r : Request) (token : Str) (s : Ims) (d : Disk) (w : Response)
      → r.cookie ≡ cookie token
      → (token == []) ≡ false
      → (unseal_token gcm token).1 ≢ none
      → load [] s.sessions ≡ none
      → auth_mw gcm (ims_loader encode_record) uuid random next r ((s, d), w)
        ≡ next (record r { user_id = some [] }) ((s, d), set_cookie (str "userID") token w)
  forged_request next r token s d w has some_text bad empty =
      later_request gcm encode_record uuid random next r token [] s d w has some_text
        (forged_token gcm encode_record token s d bad empty)

  -- Whatever the cookie, and also when no session can be opened, the handler runs, once and for some
  -- user, and no URL has changed by then; but a request without a token needs a new user id.
  pub auth_mw_serves :
      (next : Handler (Ims × Disk)) (r : Request) (s : Ims) (d : Disk) (w : Response)
      → CanOpen uuid (cookie_token r.cookie)
      → (user_id : Str) × (s' : Ims) × (d' : Disk) × (w' : Response) × (auth_mw gcm
            (ims_loader encode_record)
            uuid
            random
            next
            r
            ((s, d), w)
          ≡ next (record r { user_id = some user_id }) ((s', d'), w'))
        × (s'.entries ≡ s.entries)
        × ((key : Str)
            → (Hex.encode random.0 == key) ≡ false
            → load key s'.sessions ≡ load key s.sessions)
  unfolding auth_mw
  auth_mw_serves next r s d w can =
      let w₁ = answered (cookie_error r.cookie) w in
      let (user_id, token, s', d', w', ran, same, others) =
        session_of_total gcm encode_record uuid random (cookie_token r.cookie) s d w₁ can in
      (user_id, s', d', set_cookie (str "userID") token w', ground (arith, ran), same, others)

  -- A request without a token, when `uuid.New` panics: the handler does not run, and the storage stays.
  pub auth_mw-panicked :
      (next : Handler (Ims × Disk)) (r : Request) (s : Ims) (d : Disk) (w : Response)
      → uuid ≡ panicked
      → (cookie_token r.cookie == []) ≡ true
      → (w' : Response) × (auth_mw gcm (ims_loader encode_record) uuid random next r ((s, d), w)
          ≡ (panicked, ((s, d), w')))
  unfolding auth_mw session_of open_session
  auth_mw-panicked next r s d w fails given =
      (answered (cookie_error r.cookie) w, rw fails (ground arith))
