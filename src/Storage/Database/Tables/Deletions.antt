-- ===== src/Storage/Database/Tables/Deletions.antt =====
-- The deletions of the two implementations of the storage side by side.
use urlshortner.Prelude.{
  ℕ, ◌≤◌, All, Str, length, ◌==◌, eq_iff, contains, Bool, true, false, not, ◌&&◌, ◌||◌, Exec,
  Outcome, returned, ◌≡◌, ◌∙◌, ap, sym, refl, Option, none, some, List, [], ◌∷◌, arith,
  if◌then◌else◌,
}
use mathlib.Core.List.{append-nil}
use urlshortner.Storage.Errors.{Error}
use urlshortner.Storage.Inmemory
use urlshortner.Storage.Inmemory.{Storer, Ims, is_live_of}
use urlshortner.Storage.Inmemory.Invariant.{IsWf, delete_urls_total}
use urlshortner.Storage.Inmemory.Table.{entry, delete_in}
use urlshortner.Storage.Inmemory.Delete.{entry-delete_urls}
use urlshortner.Storage.Database.{Sql}
use urlshortner.Storage.Database.Buffer.{
  Item, Gob, AsyncBuf, items_of, all_items, statement, arguments, init_buffer, tick, delete_urls,
}
use urlshortner.Storage.Database.Buffer.Delivery.{stream, encoder_after, filled, IsGob}
use urlshortner.Storage.Database.Buffer.Pending.{delete_urls-pending, tick-pending}
use urlshortner.Storage.Database.Tables.{IsTable, IsText}
use urlshortner.Storage.Database.Tables.Agreement.{IsMirrored}

-- The user and the id stand among the values.
abbrev pub is_listed : Str → Str → List Item → Bool
is_listed id user_id [] = false
is_listed id user_id (v ∷ vs) = (v.id == id && v.user_id == user_id) || is_listed id user_id vs

-- A row after the UPDATE.
abbrev pub marked : List Item → Str → Option Storer → Option Storer
marked vs id none = none
marked vs id (some r) =
    if not r.deleted && is_listed id r.user_id vs
    then some (record r { deleted = true })
    else some r

-- Every id and every user is a text that the database takes.
abbrev pub ArePlain : List Item → Type 0
ArePlain = All (λ (v : Item). IsText v.id × IsText v.user_id)

items_of-ArePlain :
    (user_id : Str) (ids : List Str)
    → IsText user_id
    → All IsText ids
    → ArePlain (items_of user_id ids)
unfolding items_of
items_of-ArePlain user_id [] plain_user plain = tt
items_of-ArePlain user_id (id ∷ ids) plain_user (plain, rest) =
    ((plain, plain_user), items_of-ArePlain user_id ids plain_user rest)

-- What `Write` relies on, for texts that the database takes: with some values, and not more than the 65535 parameters that a statement
-- may have, the UPDATE marks every row with its id and its user among them.
pub record IsUpdate {S : Type 0} (sql : Sql S) (p : IsTable sql)
    (exec : Str → List Str → Exec S ((ℕ × Option Error) × Option Error)) : Type 0 where
  pub updates :
      (v : Item) (vs : List Item) (x : S)
      → ArePlain (v ∷ vs)
      → length (arguments (v ∷ vs)) ≤ 65535
      → (n : ℕ) × (x' : S) × (exec (statement (v ∷ vs)) (arguments (v ∷ vs)) x
          ≡ (returned ((n, none), none), x'))
        × ((id : Str) → p.row x' id ≡ marked (v ∷ vs) id (p.row x id))

is_listed-items_of :
    (id owner user_id : Str) (ids : List Str)
    → is_listed id owner (items_of user_id ids) ≡ (owner == user_id && contains id ids)
unfolding items_of contains
is_listed-items_of id owner user_id [] = ground arith
is_listed-items_of id owner user_id (j ∷ ids) = ground (
  arith,
  eq_iff j id,
  eq_iff id j,
  eq_iff user_id owner,
  eq_iff owner user_id,
  is_listed-items_of id owner user_id ids,
)

-- On the items of one request the UPDATE does what the memory does.
marked-items_of :
    (user_id id : Str) (ids : List Str) (o : Option Storer)
    → marked (items_of user_id ids) id o ≡ delete_in user_id ids id o
unfolding is_live_of
marked-items_of user_id id ids none = refl
marked-items_of user_id id ids (some r) =
    ground (arith, is_listed-items_of id r.user_id user_id ids)

module _ (gob : Gob) {S : Type 0} (sql : Sql S) (p : IsTable sql)
    (exec : Str → List Str → Exec S ((ℕ × Option Error) × Option Error))
    (u : IsUpdate sql p exec) where
  -- Two storages with the same records, with no deletion waiting: when the user deletes some ids, none
  -- of them empty, that are like the user ASCII texts without NUL, and their message fits in the 4096 bytes of the buffer and their values in one
  -- statement, then both accept, and after the next tick both have the same records again. This over
  -- PostgreSQL as it is documented, and with a `gob` that decodes what it has encoded.
  pub deletions_agree :
      (user_id id : Str) (ids : List Str) (s : Ims) (x : S)
      → IsGob gob
      → IsWf s
      → IsMirrored sql p s x
      → IsText user_id
      → All IsText (id ∷ ids)
      → filled (items_of user_id (id ∷ ids)) ≡ true
      → length (stream gob gob.new_encoder (items_of user_id (id ∷ ids) ∷ [])) ≤ 4096
      → length (arguments (items_of user_id (id ∷ ids))) ≤ 65535
      → (let in_memory = Inmemory.delete_urls user_id (id ∷ ids) s in
          let asked = delete_urls gob exec user_id (id ∷ ids) (init_buffer gob, x) in
          let ticked = tick gob exec asked.1 in
          (asked.0 ≡ returned none)
          × (in_memory.0 ≡ returned none)
          × (ticked.0 ≡ returned tt)
          × IsMirrored sql p in_memory.1 ticked.1.1)
  unfolding init_buffer stream encoder_after all_items items_of
  deletions_agree user_id id ids s x g w same plain_user plain full fits few =
      let d = items_of user_id (id ∷ ids) in
      let (n, x', ran, rows) =
        u.updates (record { id = id; user_id = user_id }) (items_of user_id ids) x
          (items_of-ArePlain user_id (id ∷ ids) plain_user plain) few in
      let (m, deleted, wf) = delete_urls_total user_id (id ∷ ids) s w in
      let none_more : all_items (d ∷ []) ≡ d = append-nil d in
      let delivered = tick-pending gob exec [] d n x x' g (
        ap filled none_more ∙ full,
        ap (λ vs. exec (statement vs) (arguments vs) x) none_more ∙ ran,
      ) in
      rw (delete_urls-pending gob exec user_id (id ∷ ids) [] x g fits) (
        refl,
        ap (λ o. o.0) deleted,
        ap (λ o. o.0) delivered,
        λ j.
            ap (λ (o : Outcome (Unit {0}) × (AsyncBuf gob × S)). p.row o.1.1 j) delivered
            ∙ rows j
            ∙ ap (marked d j) (same j)
            ∙ marked-items_of user_id j (id ∷ ids) (entry s j)
            ∙ sym (entry-delete_urls user_id j (id ∷ ids) s w),
      )
