-- ===== src/Storage/Database/Tables/Agreement.antt =====
-- The two implementations of the storage side by side: internal/storage/database/database.go and
-- internal/storage/inmemory/inmemory.go.
use urlshortner.Prelude.{
  ◌≤◌, Str, IsBytes, length, ◌==◌, true, returned, ◌≡◌, ◌∙◌, ap, sym, refl, Outcome, Option, none,
  some, [], Option-cases, Bool-cases, eq_iff, inl, inr, if◌then◌else◌, ◌∷◌, arith,
}
use urlshortner.GoStd.Base64
use urlshortner.GoStd.Base64.Laws.{encode_injective}
use urlshortner.Config.{Config}
use urlshortner.Storage.Errors.{Error}
use urlshortner.Storage.Inmemory
use urlshortner.Storage.Inmemory.{Storer, Ims}
use urlshortner.Storage.Inmemory.Invariant.{IsWf, store_url-IsWf}
use urlshortner.Storage.Inmemory.Table.{entry, answer, store_error, store_in}
use urlshortner.Storage.Inmemory.Lookup.{load_url-entry, store_url-result, entry-store_url}
use urlshortner.Storage.Database
use urlshortner.Storage.Database.{Sql}
use urlshortner.Storage.Database.Tables.{
  IsTable, IsText, urlsafe-IsText, fresh, row_answer, load_url-row, store_url-there, store_url-new,
}
use urlshortner.Shortener.{shorten_url}
use urlshortner.Shortener.Ids.{shorten_url_lem}
use urlshortner.Shortener.Finding.{IsShortened}

IsText-IsBytes : (s : Str) → IsText s → IsBytes s
IsText-IsBytes [] h = tt
IsText-IsBytes (b ∷ s) ((low, high), h) = (omega arith, IsText-IsBytes s h)

clash : {r : Storer} → none ≡ some r → ⊥
clash e = cc

-- The answers of the two sides for an id, by the record under it.
abbrev pub LoadsAgree :
    Option Storer → Outcome (Str × Option Error) → Outcome (Str × Option Error) → Type 0
LoadsAgree none in_database in_memory = in_database ≡ returned ([], none)
LoadsAgree (some r) in_database in_memory = in_database ≡ in_memory

loaded :
    (o : Option Storer) (j : Str) (in_database in_memory : Outcome (Str × Option Error))
    → in_database ≡ returned (row_answer o)
    → in_memory ≡ returned (answer j o)
    → LoadsAgree o in_database in_memory
loaded none j in_database in_memory e e' = e
loaded (some r) j in_database in_memory e e' = e ∙ sym e'

module _ {S : Type 0} (sql : Sql S) (p : IsTable sql) where
  -- The same record, or none, under every id.
  abbrev pub IsMirrored : Ims → S → Type 0
  IsMirrored s x = (id : Str) → p.row x id ≡ entry s id

  module _ (cfg : Config) (url user_id : Str) (s : Ims) (x : S) where
    abbrev id : Str
    id = (shorten_url cfg url).0

    abbrev stored : Ims
    stored = (Inmemory.store_url id url user_id s).1

    -- One step of `StoreURL` on both sides.
    abbrev Stored : Type 0
    Stored =
        (x' : S) × (Database.store_url sql id url user_id x
          ≡ (returned (store_error (entry s id)), x'))
        × IsMirrored stored x'

    entry-stored :
        IsWf s
        → (j : Str)
        → entry stored j ≡ (if id == j then store_in (fresh url user_id) (entry s j) else entry s j)
    entry-stored w j = entry-store_url id url user_id j s w

    kept-entry : (r : Storer) (j : Str) → IsWf s → entry s id ≡ some r → entry stored j ≡ entry s j
    kept-entry r j w taken = elim (Bool-cases (id == j)) [
      | inl here ↦
          let at_id : entry s j ≡ some r = ap (entry s) (sym ((eq_iff id j).0 here)) ∙ taken in
          entry-stored w j ∙ rw (here, at_id) refl
      | inr elsewhere ↦ entry-stored w j ∙ rw elsewhere refl
    ]

    new-entry :
        (j : Str)
        → IsWf s
        → IsMirrored s x
        → entry s id ≡ none
        → (if id == j then some (fresh url user_id) else p.row x j) ≡ entry stored j
    new-entry j w same free = elim (Bool-cases (id == j)) [
      | inl here ↦
          let at_id : entry s j ≡ none = ap (entry s) (sym ((eq_iff id j).0 here)) ∙ free in
          rw here (sym (entry-stored w j ∙ rw (here, at_id) refl))
      | inr elsewhere ↦ rw elsewhere (same j ∙ sym (entry-stored w j ∙ rw elsewhere refl))
    ]

    taken-Stored :
        (r : Storer)
        → IsText url
        → IsText user_id
        → IsWf s
        → IsShortened s
        → IsMirrored s x
        → length id ≤ 100
        → length url ≤ 100
        → length user_id ≤ 38
        → entry s id ≡ some r
        → Stored
    unfolding shorten_url
    taken-Stored r plain plain_user w k same short_id short_url short_user taken =
        let plain_id = urlsafe-IsText id (shorten_url_lem cfg url).1 in
        let (keyed, bytes) = k.ids id r taken in
        let one : r.url ≡ url =
          sym (encode_injective url r.url (IsText-IsBytes url plain) bytes keyed) in
        let (x', e, rows) =
          store_url-there sql p id url user_id x id r plain_id plain plain_user short_id short_url
            short_user (same id ∙ taken) one in
        (
          x',
          e ∙ ap (λ o. (returned (store_error o), x')) (sym taken),
          λ j. ap (λ t. t j) rows ∙ same j ∙ sym (kept-entry r j w taken),
        )

    new-Stored :
        IsText url
        → IsText user_id
        → IsWf s
        → IsShortened s
        → IsMirrored s x
        → length id ≤ 100
        → length url ≤ 100
        → length user_id ≤ 38
        → p.knows x user_id ≡ true
        → entry s id ≡ none
        → Stored
    unfolding shorten_url
    new-Stored plain plain_user w k same short_id short_url short_user known free =
        let plain_id = urlsafe-IsText id (shorten_url_lem cfg url).1 in
        let (x', e, rows) =
          store_url-new sql p id url user_id x plain_id plain plain_user short_id short_url
            short_user known (same id ∙ free)
            (λ j r there one.
              let keyed = (k.ids j r (sym (same j) ∙ there)).0 in
              let at_id : j ≡ Base64.encode url = keyed ∙ ap Base64.encode one in
              let held : entry s (Base64.encode url) ≡ some r =
                ap (entry s) (sym at_id) ∙ sym (same j) ∙ there in
              clash (sym free ∙ held)) in
        (
          x',
          e ∙ ap (λ o. (returned (store_error o), x')) (sym free),
          λ j. rows j ∙ new-entry j w same free,
        )

    -- Over PostgreSQL as it is documented, two well-formed storages with the same records, in which
    -- every record stands under the id of its URL, stay together: `StoreURL` of a URL under its own
    -- id, for a user that the database has, is answered alike by both, and leaves the same records in
    -- both, as long as the URL and the user are ASCII texts without NUL, the id and the URL have 100
    -- bytes at most and the user 38. `LoadURL` of any id of such a text that has a record is then
    -- answered alike; for an id without one the database gives "" and no error.
    pub storages_agree :
        IsText url
        → IsText user_id
        → IsWf s
        → IsShortened s
        → IsMirrored s x
        → length id ≤ 100
        → length url ≤ 100
        → length user_id ≤ 38
        → p.knows x user_id ≡ true
        → (let in_memory = Inmemory.store_url id url user_id s in
            let in_database = Database.store_url sql id url user_id x in
            (in_database.0 ≡ in_memory.0)
            × IsMirrored in_memory.1 in_database.1
            × ((j : Str)
                → IsText j
                → LoadsAgree
                    (entry in_memory.1 j)
                    (Database.load_url sql j in_database.1).0
                    (Inmemory.load_url j in_memory.1).0))
    storages_agree plain plain_user w k same short_id short_url short_user known =
        let (x', e, agree) : Stored = elim (Option-cases (entry s id)) [
          | inl free ↦ new-Stored plain plain_user w k same short_id short_url short_user known free
          | inr (r, taken) ↦
              taken-Stored r plain plain_user w k same short_id short_url short_user taken
        ] in
        let w' = store_url-IsWf id url user_id s w in
        rw e (
          sym (store_url-result id url user_id s w),
          agree,
          λ j plain_j.
              loaded (entry stored j) j _ _
                (load_url-row sql p j x' plain_j ∙ ap (λ o. returned (row_answer o)) (agree j))
                (ap (λ o. o.0) (load_url-entry j stored w')),
        )
