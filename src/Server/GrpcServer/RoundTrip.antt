-- ===== src/Server/GrpcServer/RoundTrip.antt =====
-- Shortening a URL and getting it back by the calls of the gRPC server, over the in-memory storage.
use urlshortner.Prelude.{
  Str, str, IsBytes, eq_refl, returned, ◌≡◌, ◌∙◌, ap, refl, false, Option, none, some, List, [],
  ◌++◌, Option-cases, inl, inr, arith,
}
use urlshortner.GoStd.Base64
use urlshortner.GoStd.Base64.Laws.{encode_injective}
use urlshortner.Config.{Config}
use urlshortner.Storage.Errors.{error_text, is_conflict, err_conflict}
use urlshortner.Storage.Filestorage.{Disk}
use urlshortner.Storage.Inmemory
use urlshortner.Storage.Inmemory.{Storer, Ims}
use urlshortner.Storage.Inmemory.Invariant.{IsWf, store_url-IsWf}
use urlshortner.Storage.Inmemory.Table.{entry, store_error, store_in}
use urlshortner.Storage.Inmemory.Lookup.{store_url-result, entry-store_url}
use urlshortner.Shortener
use urlshortner.Shortener.{MyShortener, in_memory, shorten_url}
use urlshortner.Shortener.Finding.{IsShortened}
use urlshortner.Server.GrpcServer.{already_exists, Reply, failure, Context, get_user_id}
use urlshortner.Server.GrpcServer.Handlers.{ShortenResponse, shorten, get_long}
use urlshortner.Server.GrpcServer.Calls.{long_reply, get_long_lem}

-- The reply of `Shorten` for a user, by the record under the id.
abbrev pub shorten_reply : Str → Str → Option Storer → Reply ShortenResponse
shorten_reply url id none = (record { id = id; error = [] }, none)
shorten_reply url id (some r) = (
  record { id = []; error = error_text err_conflict },
  failure already_exists (str "url " ++ url ++ str " is already shortened. id: " ++ id),
)

-- The record that `GetLong` answers by: the one that was there, or else the new one.
abbrev pub record_after : Str → Str → Option Storer → Storer
record_after url user_id none = record { url = url; user_id = user_id; deleted = false }
record_after url user_id (some r) = record { url = url; user_id = r.user_id; deleted = r.deleted }

shorten-result :
    {S : Type 0} (m : MyShortener S) (ctx : Context) (url user_id : Str) (o : Option Storer)
    (x x' : S)
    → get_user_id ctx ≡ (user_id, none)
    → Shortener.store_url m (shorten_url m.config url).0 url user_id x
      ≡ (returned (store_error o), x')
    → shorten m ctx url x ≡ (returned (shorten_reply url (shorten_url m.config url).0 o), x')
unfolding shorten is_conflict error_text
shorten-result m ctx url user_id none x x' named stored = ground arith
shorten-result m ctx url user_id (some r) x x' named stored = ground arith

-- With `IsShortened` the record under the id has the URL.
store_in-record :
    (s : Ims) (url user_id : Str)
    → IsBytes url
    → IsShortened s
    → store_in
        (record { url = url; user_id = user_id; deleted = false })
        (entry s (Base64.encode url))
      ≡ some (record_after url user_id (entry s (Base64.encode url)))
store_in-record s url user_id h k = elim (Option-cases (entry s (Base64.encode url))) [
  | inl free ↦ rw free refl
  | inr (r, held) ↦
      let (keyed, bytes) = k.ids (Base64.encode url) r held in
      let same = encode_injective url r.url h bytes keyed in rw held (ground arith)
]

module _ (encode_record : List Str → Str) (cfg : Config) where
  -- Over a well-formed storage whose records all stand under the ids of their URLs, `Shorten` for
  -- a user gives the id of the URL if it is new, and the code `AlreadyExists` if it is there.
  -- `GetLong` of that id then gives the very URL, unless the record had been deleted before; of
  -- the empty URL it panics.
  pub shorten_then_get_long :
      (ctx : Context) (url user_id : Str) (s : Ims) (d : Disk)
      → IsBytes url
      → IsWf s
      → IsShortened s
      → get_user_id ctx ≡ (user_id, none)
      → (let m = in_memory encode_record cfg in
          let id = (shorten_url cfg url).0 in
          let stored = shorten m ctx url (s, d) in
          (stored.0 ≡ returned (shorten_reply url id (entry s id)))
          × ((get_long m id stored.1).0
              ≡ long_reply id (some (record_after url user_id (entry s id)))))
  unfolding shorten_url
  shorten_then_get_long ctx url user_id s d h w k named =
      let id = Base64.encode url in
      let s' = (Inmemory.store_url id url user_id s).1 in
      let w' = store_url-IsWf id url user_id s w in
      let kept : entry s' id ≡ some (record_after url user_id (entry s id)) =
        (rw (eq_refl id) at (entry-store_url id url user_id id s w))
        ∙ store_in-record s url user_id h k in
      let ran =
        shorten-result (in_memory encode_record cfg) ctx url user_id (entry s id) (s, d) (s', d)
          named (ap (λ o. (o, (s', d))) (store_url-result id url user_id s w)) in
      rw ran
        (refl, ap (λ o. o.0) (get_long_lem encode_record cfg id s' d w') ∙ ap (long_reply id) kept)
