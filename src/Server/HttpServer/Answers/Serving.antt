-- ===== src/Server/HttpServer/Answers/Serving.antt =====
-- The routes of the HTTP server behind their middlewares.
use urlshortner.Prelude.{
  load, ◌==◌, eq_sound, true, false, ◌∙◌, Str, str, All, contains, Bool-cases, inl, inr, Outcome,
  returned, panicked, continue, ◌⊎◌, [], ◌≡◌, refl, Option, some, List,
}
use urlshortner.GoStd.Hex
use urlshortner.Config.{Config}
use urlshortner.Storage.Errors.{Error}
use urlshortner.Storage.Filestorage.{Disk}
use urlshortner.Storage.Inmemory.{Ims}
use urlshortner.Storage.Inmemory.Loader.{ims_loader}
use urlshortner.Shortener.{in_memory}
use urlshortner.Server.Auth.{Gcm}
use urlshortner.Server.Http.{Request, Response, Handler, set_header, respond}
use urlshortner.Server.HttpServer.Handlers.{Wire, read_body}
use urlshortner.Server.HttpServer.Handlers.Shorten.{make_short, make_short_json, shorten_batch_json}
use urlshortner.Server.HttpServer.Handlers.Lookup.{make_long, make_long_by_user, delete_batch}
use urlshortner.Server.HttpServer.Handlers.Stats.{ping_storage, stats}
use urlshortner.Server.HttpServer.Middleware.{auth_mw, gzip_mw, finish, cookie_token}
use urlshortner.Server.HttpServer.Sessions.{CanOpen, auth_mw_serves, auth_mw-panicked}
use urlshortner.Server.HttpServer.Routes.{handlers}
use urlshortner.Server.Router.Matching.{served}
use urlshortner.Server.HttpServer.Answers.{
  Past, IsKept, Answered, AnsweredIf, Delivers, IsBytewise, IsRequest,
}
use urlshortner.Server.HttpServer.Answers.Storing.{
  make_short-Answered, make_short_json-Answered, shorten_batch_json-Answered,
}
use urlshortner.Server.HttpServer.Answers.Reading.{
  make_long-Ends, make_long_by_user-Ends, ping_storage-Ends, stats-Ends, delete_batch-Answered,
}

-- A session under a key that was drawn changes nothing of the invariant.
pub entries-IsKept :
    {since : Past} (s s' : Ims)
    → s'.entries ≡ s.entries
    → ((key : Str) → since.drawn key ≡ false → load key s'.sessions ≡ load key s.sessions)
    → IsKept since s
    → IsKept since s'
entries-IsKept {since} s s' same others k = record {
  wf = record { distinct = rw same k.wf.distinct; own = rw same k.wf.own };
  shortened = record { ids = λ id r found. k.shortened.ids id r (rw same at found) };
  stays = λ id. rw same (k.stays id);
  sessions = λ key undrawn. others key undrawn ∙ k.sessions key undrawn;
}

undrawn_apart :
    (since : Past) (key other : Str)
    → since.drawn key ≡ true
    → since.drawn other ≡ false
    → (key == other) ≡ false
undrawn_apart since key other draws undrawn = elim (Bool-cases (key == other)) [
  | inr differ ↦ differ
  | inl same ↦ let e = eq_sound key other same in cc
]

Outcome-cases : (uuid : Outcome Str) → Delivers uuid ⊎ (uuid ≡ panicked)
Outcome-cases panicked = inr refl
Outcome-cases (returned u) = inl (u, refl)

kept :
    {since : Past} (s : Ims) {out : Outcome (Unit {0})} {s' : Ims}
    → IsKept since s
    → (out ≡ returned tt) × (s' ≡ s)
    → (out ≡ returned tt) × IsKept since s'
kept s k (ends, same) = (ends, rw same k)

-- What is written behind a handler changes nothing of the storage.
finished :
    {since : Past} (uuid : Outcome Str) (f : Response → Response)
    (o : Outcome (Unit {0}) × ((Ims × Disk) × Response))
    → AnsweredIf uuid since o
    → AnsweredIf uuid since (continue o.0 (λ done. respond f) o.1)
finished uuid f (panicked, x) (ends, k) = (ends, k)
finished uuid f (returned tt, x) (ends, k) = (λ d. refl, k)

module _ (wire : Wire) (since : Past) (uuid : Outcome Str) where
  -- The handler answers every request, whatever the storage and what was written before, if
  -- `uuid.New` delivers, and keeps the invariant in any case.
  abbrev pub Serves : Handler (Ims × Disk) → Type 0
  Serves next =
      (r : Request) (s : Ims) (d : Disk) (w : Response)
      → IsRequest wire r
      → IsKept since s
      → AnsweredIf uuid since (next r ((s, d), w))

  -- It answers when the request has a user.
  abbrev ServesUser : Handler (Ims × Disk) → Type 0
  ServesUser next =
      (r : Request) (user_id : Str) (s : Ims) (d : Disk) (w : Response)
      → r.user_id ≡ some user_id
      → IsRequest wire r
      → IsKept since s
      → Answered since (next r ((s, d), w))

  gzip_mw-Serves :
      (gzip : Str → Str) (next : Handler (Ims × Disk)) → Serves next → Serves (gzip_mw gzip next)
  unfolding gzip_mw
  gzip_mw-Serves gzip next serves r s d w h k =
      elim (Bool-cases (contains (str "gzip") (r.header_values (str "Accept-Encoding")))) [
        | inr plain ↦ rw plain (serves r s d w h k)
        | inl zipped ↦
            let w' = set_header (str "Content-Encoding") (str "gzip") w in
            rw zipped (finished uuid (finish gzip) (next r ((s, d), w')) (serves r s d w' h k))
      ]

  named-IsRequest :
      (r : Request) (user_id : Str)
      → IsRequest wire r
      → IsRequest wire (record r { user_id = some user_id })
  unfolding read_body
  named-IsRequest r user_id h = record { some_path = h.some_path; body = h.body }

  module _ (encode_record : List Str → Str) (cfg : Config) (gcm : Gcm) (gzip : Str → Str) where
    auth_mw-Serves :
        (random : Str × Option Error) (next : Handler (Ims × Disk))
        → since.drawn (Hex.encode random.0) ≡ true
        → ServesUser next
        → Serves (auth_mw gcm (ims_loader encode_record) uuid random next)
    auth_mw-Serves random next draws serves r s d w h k =
        let served = (λ (can : CanOpen uuid (cookie_token r.cookie)).
          let (user_id, s', d', w', ran, same, others) =
            auth_mw_serves gcm encode_record uuid random next r s d w can in
          let (ends, k') =
            serves (record r { user_id = some user_id }) user_id s' d' w' refl
              (named-IsRequest r user_id h)
              (entries-IsKept s s' same
                (λ key undrawn.
                  others key (undrawn_apart since (Hex.encode random.0) key draws undrawn))
                k) in
          let done : AnsweredIf uuid since
              (auth_mw gcm (ims_loader encode_record) uuid random next r ((s, d), w)) =
            rw ran (λ delivers. ends, k') in
          done) in
        elim (Bool-cases (cookie_token r.cookie == [])) [
          | inr given ↦ served (inr given)
          | inl none_given ↦ elim (Outcome-cases uuid) [
            | inl delivers ↦ served (inl delivers)
            | inr fails ↦
                let (w', ran) =
                  auth_mw-panicked gcm encode_record uuid random next r s d w fails none_given in
                rw ran (λ (u, e). cc, k)
          ]
        ]

    -- Behind the two middlewares.
    behind :
        (random : Str × Option Error) (next : Handler (Ims × Disk))
        → since.drawn (Hex.encode random.0) ≡ true
        → ServesUser next
        → Serves (gzip_mw gzip (auth_mw gcm (ims_loader encode_record) uuid random next))
    behind random next draws serves =
        gzip_mw-Serves gzip _ (auth_mw-Serves random next draws serves)

    -- Every route of the table answers.
    pub routes_serve :
        (random : Str × Option Error)
        → since.drawn (Hex.encode random.0) ≡ true
        → IsBytewise wire
        → All
            (λ route. Serves (served route))
            (handlers wire
              (in_memory encode_record cfg)
              gcm
              (ims_loader encode_record)
              uuid
              random
              gzip)
    unfolding handlers served
    routes_serve random draws bytes =
        let m = in_memory encode_record cfg in
        let post = behind random (make_short wire m) draws (λ r u s d w named h k.
          make_short-Answered wire encode_record cfg s d w r u named h.body k) in
        let get = behind random (make_long wire m) draws (λ r u s d w named h k.
          kept s k (make_long-Ends wire encode_record cfg s d w r h.some_path k.wf)) in
        let post_json = behind random (make_short_json wire m) draws (λ r u s d w named h k.
          make_short_json-Answered wire encode_record cfg s d w r bytes h.body k) in
        let post_batch = behind random (shorten_batch_json wire m) draws (λ r u s d w named h k.
          shorten_batch_json-Answered wire encode_record cfg d r s w bytes h.body k) in
        let get_urls = behind random (make_long_by_user wire m) draws (λ r u s d w named h k.
          kept s k (make_long_by_user-Ends wire encode_record cfg s d w r u named k.wf)) in
        let deletion =
          behind random (delete_batch wire m) draws
            (λ r u s d w named h k. delete_batch-Answered wire encode_record cfg s d w r k) in
        let ping =
          behind random (ping_storage wire m) draws
            (λ r u s d w named h k. kept s k (ping_storage-Ends wire encode_record cfg s d w r)) in
        let statistics = gzip_mw-Serves gzip (stats wire m) (λ r s d w h k.
          let (ends, k') = kept s k (stats-Ends wire encode_record cfg s d w r k.wf) in
          (λ delivers. ends, k')) in
        (post, (get, (post_json, (post_batch, (get_urls, (deletion, (ping, (statistics, tt))))))))
