-- ===== src/Server/HttpServer/Batch.antt =====
-- `POST /api/shorten/batch`, over the in-memory storage.
use urlshortner.Prelude.{
  Str, str, contains, ◌==◌, eq_iff, eq_refl, returned, ◌≡◌, ◌∙◌, ap, refl, Bool, true, false, not,
  ◌&&◌, Option, none, some, List, [], ◌∷◌, ◌++◌, Option-cases, Bool-cases, inl, inr, arith,
  if◌then◌else◌,
}
use mathlib.Core.List.{append_assoc, append-nil}
use urlshortner.Config.{Config}
use urlshortner.Storage.Errors.{error_text, err_conflict}
use urlshortner.Storage.Filestorage.{Disk}
use urlshortner.Storage.Inmemory
use urlshortner.Storage.Inmemory.{Storer, Ims}
use urlshortner.Storage.Inmemory.Invariant.{IsWf, store_url-IsWf}
use urlshortner.Storage.Inmemory.Table.{entry, store_error}
use urlshortner.Storage.Inmemory.Lookup.{store_url-result, entry-store_url}
use urlshortner.Shortener.{in_memory, shorten_url}
use urlshortner.Server.Http.{Request, Response, new_response, http_error, write_header, write_body}
use urlshortner.Server.HttpServer.Handlers.{
  Wire, Urlwid, Urlwidres, ct_json, set_content_type, read_body,
}
use urlshortner.Server.HttpServer.Handlers.Shorten.{batch_loop, shorten_batch_json}

abbrev is_free : Option Storer → Bool
is_free none = true
is_free (some r) = false

-- None of the ids is taken, and none comes twice.
unfoldable pub all_new : List Str → Ims → Bool
all_new [] s = true
all_new (id ∷ ids) s = is_free (entry s id) && (not (contains id ids) && all_new ids s)

is_free-store_url :
    (id url user_id j : Str) (s : Ims)
    → IsWf s
    → is_free (entry (Inmemory.store_url id url user_id s).1 j)
      ≡ (not (id == j) && is_free (entry s j))
is_free-store_url id url user_id j s w =
    rw (entry-store_url id url user_id j s w) (elim (Bool-cases (id == j)) [
      | inl hit ↦ rw hit (elim (Option-cases (entry s j)) [
        | inl free ↦ rw free refl
        | inr (r, held) ↦ rw held refl
      ])
      | inr miss ↦ rw miss refl
    ])

all_new-store_url :
    (ids : List Str) (id url user_id : Str) (s : Ims)
    → IsWf s
    → all_new ids (Inmemory.store_url id url user_id s).1 ≡ (not (contains id ids) && all_new ids s)
unfolding all_new contains
all_new-store_url [] id url user_id s w = refl
all_new-store_url (j ∷ ids) id url user_id s w = ground (
  arith,
  is_free-store_url id url user_id j s w,
  all_new-store_url ids id url user_id s w,
  eq_iff id j,
  eq_iff j id,
)

module _ (wire : Wire) (encode_record : List Str → Str) (cfg : Config) where
  -- The ids of the message's URLs, and the short URL for each of them, under its correlation id.
  unfoldable pub ids_of : List Urlwid → List Str
  ids_of [] = []
  ids_of (v ∷ vs) = (shorten_url cfg v.original_url).0 ∷ ids_of vs

  unfoldable pub results_of : List Urlwid → List Urlwidres
  results_of [] = []
  results_of (v ∷ vs) =
      record { correlation_id = v.correlation_id; short_url = (shorten_url cfg v.original_url).1 }
      ∷ results_of vs

  abbrev pub batch_response : List Urlwidres → Response → Response
  batch_response res w = write_body (wire.encode_batch res) (write_header 201 (set_content_type w))

  abbrev pub conflict_response : Response → Response
  conflict_response w = http_error (error_text err_conflict) 500 w

  module _ (user_id : Str) (v : Urlwid) (vs : List Urlwid) (res : List Urlwidres) (s s' : Ims)
      (d : Disk) (w : Response) where
    abbrev id : Str
    id = (shorten_url cfg v.original_url).0

    loop_taken :
        Inmemory.store_url id v.original_url user_id s ≡ (returned (some err_conflict), s')
        → batch_loop wire (in_memory encode_record cfg) user_id (v ∷ vs) res ((s, d), w)
          ≡ (returned tt, ((s', d), conflict_response w))
    unfolding batch_loop
    loop_taken stored = ground arith

    loop_new :
        Inmemory.store_url id v.original_url user_id s ≡ (returned none, s')
        → batch_loop wire (in_memory encode_record cfg) user_id (v ∷ vs) res ((s, d), w)
          ≡ batch_loop wire
              (in_memory encode_record cfg)
              user_id
              vs
              (res
                ++ record {
                  correlation_id = v.correlation_id;
                  short_url = (shorten_url cfg v.original_url).1;
                }
                  ∷ [])
              ((s', d), w)
    unfolding batch_loop
    loop_new stored = ground arith

  batch_loop-result :
      (user_id : Str) (vs : List Urlwid) (res : List Urlwidres) (s : Ims) (d : Disk) (w : Response)
      → IsWf s
      → (s' : Ims) × (batch_loop wire (in_memory encode_record cfg) user_id vs res ((s, d), w) ≡ (
        returned tt,
        (
          (s', d),
          if all_new (ids_of vs) s
              then batch_response (res ++ results_of vs) w
              else conflict_response w,
        ),
      ))
  unfolding all_new ids_of results_of batch_loop
  batch_loop-result user_id [] res s d w wf = (s, rw (append-nil res) refl)
  batch_loop-result user_id (v ∷ vs) res s d w wf =
      let id = (shorten_url cfg v.original_url).0 in
      let s' = (Inmemory.store_url id v.original_url user_id s).1 in
      let stored : Inmemory.store_url id v.original_url user_id s
          ≡ (returned (store_error (entry s id)), s') =
        ap (λ o. (o, s')) (store_url-result id v.original_url user_id s wf) in
      elim (Option-cases (entry s id)) [
        | inl free ↦
            let (end, ran) =
              batch_loop-result user_id vs _ s' d w
                (store_url-IsWf id v.original_url user_id s wf) in
            (
              end,
              loop_new user_id v vs res s s' d w (rw free at stored)
                  ∙ ran
                  ∙ rw
                      (
                        free,
                        all_new-store_url (ids_of vs) id v.original_url user_id s wf,
                        append_assoc res _ (results_of vs),
                      )
                      refl,
            )
        | inr (r, held) ↦
            (s', loop_taken user_id v vs res s s' d w (rw held at stored) ∙ rw held refl)
      ]

  -- Over a well-formed storage, a batch with a JSON body that decodes is answered by 201, with the
  -- short URL of every URL in the order of the message and under its correlation id, exactly when
  -- none of the URLs' ids is taken and none comes twice. Else it is answered by 500 with the text
  -- of the conflict.
  pub shorten_batch_lem :
      (r : Request) (user_id body : Str) (vs : List Urlwid) (s : Ims) (d : Disk)
      → IsWf s
      → r.user_id ≡ some user_id
      → r.get_header (str "Content-Type") ≡ ct_json
      → read_body wire r ≡ (body, none)
      → wire.decode_batch body ≡ (vs, none)
      → (let after =
            shorten_batch_json wire (in_memory encode_record cfg) r ((s, d), new_response) in
          (after.0 ≡ returned tt)
          × (after.1.1 ≡ (
              if all_new (ids_of vs) s
              then batch_response (results_of vs) new_response
              else conflict_response new_response)))
  unfolding shorten_batch_json
  shorten_batch_lem r user_id body vs s d w named typed read decoded =
      let (end, ran) = batch_loop-result user_id vs [] s d new_response w in
      let started : shorten_batch_json wire (in_memory encode_record cfg) r ((s, d), new_response)
          ≡ batch_loop wire (in_memory encode_record cfg) user_id vs [] ((s, d), new_response) =
        ground (arith, eq_refl ct_json) in
      rw (started, ran) (refl, refl)
