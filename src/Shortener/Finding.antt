-- ===== src/Shortener/Finding.antt =====
-- Shortening a URL and finding it again, over the in-memory storage.
use urlshortner.Prelude.{
  Str, IsBytes, ◌==◌, eq_iff, eq_refl, returned, ◌≡◌, ◌∙◌, ap, sym, refl, false, Bool, Option, none,
  some, List, [], Option-cases, Bool-cases, inl, inr, arith, if◌then◌else◌,
}
use urlshortner.GoStd.Base64
use urlshortner.GoStd.Base64.Laws.{encode_injective}
use urlshortner.Config.{Config}
use urlshortner.Storage.Errors.{err_url_gone}
use urlshortner.Storage.Inmemory.{Storer, Ims, load_url, store_url, delete_urls}
use urlshortner.Storage.Inmemory.Invariant.{IsWf, store_url-IsWf}
use urlshortner.Storage.Inmemory.Table.{entry, answer, store_error, store_in, delete_in}
use urlshortner.Storage.Inmemory.Lookup.{load_url-entry, store_url-result, entry-store_url}
use urlshortner.Storage.Inmemory.Delete.{entry-delete_urls}
use urlshortner.Shortener.{shorten_url}

-- Every record stands under the id of its URL, as it does when all of them come from `ShortenURL`.
pub record IsShortened (s : Ims) : Type 0 where
  pub ids :
      (id : Str) (r : Storer) → entry s id ≡ some r → (id ≡ Base64.encode r.url) × IsBytes r.url

abbrev pub is_deleted : Option Storer → Bool
is_deleted none = false
is_deleted (some r) = r.deleted

module _ (c : Config) (url user_id : Str) (s : Ims) where
  -- The record that stands under the id of the URL afterwards has that URL.
  store_in-url :
      IsBytes url
      → IsShortened s
      → (fresh : Storer) → fresh.url ≡ url
      → fresh.deleted ≡ false
      → answer (Base64.encode url) (store_in fresh (entry s (Base64.encode url))) ≡ (
          if is_deleted (entry s (Base64.encode url)) then ([], some err_url_gone) else (url, none))
  store_in-url h k fresh e live = elim (Option-cases (entry s (Base64.encode url))) [
    | inl free ↦ rw free (ground arith)
    | inr (r, held) ↦
        let (keyed, bytes) = k.ids (Base64.encode url) r held in
        let same = encode_injective url r.url h bytes keyed in rw held (ground arith)
  ]

  -- Over a well-formed storage whose records all stand under the ids of their URLs, a URL that is
  -- stored under the id of `ShortenURL` is found under it, also when the storage already had the
  -- id and answers with the conflict, unless it had been deleted: then it stays deleted. The
  -- conflict is answered exactly when the id was there.
  pub find_shortened :
      IsBytes url
      → IsWf s
      → IsShortened s
      → (let id = (shorten_url c url).0 in
          ((store_url id url user_id s).0 ≡ returned (store_error (entry s id)))
          × ((load_url id (store_url id url user_id s).1).0
              ≡ returned
                  (if is_deleted (entry s id) then ([], some err_url_gone) else (url, none))))
  unfolding shorten_url
  find_shortened h w k =
      let id = Base64.encode url in
      let w' = store_url-IsWf id url user_id s w in
      let stored = rw (eq_refl id) at (entry-store_url id url user_id id s w) in
      (
        store_url-result id url user_id s w,
        rw (load_url-entry id (store_url id url user_id s).1 w') (
            ap (λ r. returned (answer id r)) (stored) ∙ ap returned (store_in-url h k _ refl refl)),
      )

  store_in-ids :
      (id : Str) (r : Storer) (fresh : Storer) (old : Option Storer)
      → fresh.url ≡ url
      → IsBytes url
      → id ≡ Base64.encode url
      → ((q : Storer) → old ≡ some q → (id ≡ Base64.encode q.url) × IsBytes q.url)
      → store_in fresh old ≡ some r
      → (id ≡ Base64.encode r.url) × IsBytes r.url
  store_in-ids id r fresh none e h i k found =
      let same : r.url ≡ url = ground arith in rw same (i, h)
  store_in-ids id r fresh (some q) e h i k found = k r found

  -- On a well-formed storage whose records all stand under the ids of their URLs, storing a URL
  -- under its own id keeps it so.
  pub store_url-IsShortened :
      IsBytes url
      → IsWf s
      → IsShortened s
      → IsShortened (store_url (shorten_url c url).0 url user_id s).1
  unfolding shorten_url
  store_url-IsShortened h w k = record {
    ids = λ j r found.
        let id = Base64.encode url in
        let after = sym (entry-store_url id url user_id j s w) ∙ found in
        elim (Bool-cases (id == j)) [
          | inl here ↦
              let same : j ≡ id = sym ((eq_iff id j).0 here) in
              store_in-ids j r _ (entry s j) refl h same (λ q e. k.ids j q e) (rw here at after)
          | inr elsewhere ↦ k.ids j r (rw elsewhere at after)
        ];
  }

-- On a well-formed storage whose records all stand under the ids of their URLs, deleting URLs
-- keeps it so.
pub delete_urls-IsShortened :
    (user_id : Str) (ids : List Str) (s : Ims)
    → IsWf s
    → IsShortened s
    → IsShortened (delete_urls user_id ids s).1
delete_urls-IsShortened user_id ids s w k = record {
  ids = λ j r found.
      delete_in-ids j r (entry s j) (λ q e. k.ids j q e)
        (sym (entry-delete_urls user_id j ids s w) ∙ found);
}
  where
    delete_in-ids :
        (j : Str) (r : Storer) (old : Option Storer)
        → ((q : Storer) → old ≡ some q → (j ≡ Base64.encode q.url) × IsBytes q.url)
        → delete_in user_id ids j old ≡ some r
        → (j ≡ Base64.encode r.url) × IsBytes r.url
    delete_in-ids j r none h e = cc
    delete_in-ids j r (some q) h e = let same : r.url ≡ q.url = ground arith in rw same (h q refl)
