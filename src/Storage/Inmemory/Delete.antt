-- ===== src/Storage/Inmemory/Delete.antt =====
-- `DeleteURLs` (internal/storage/inmemory/inmemory.go), seen through the table.
use urlshortner.Prelude.{
  Str, SyncMap, load, contains, HasDistinctKeys, load-store, load-eq-none, ◌==◌, eq_iff, returned,
  ◌≡◌, ◌∙◌, ap, refl, true, false, ◌&&◌, Option, none, some, List, [], ◌∷◌, arith, Bool-cases, inl,
  inr, if◌then◌else◌,
}
use urlshortner.Storage.Inmemory.{
  Storer, Value, ims_storer, file_storer, Ims, is_live_of, remove_id, delete_item, visit_delete,
  delete_urls,
}
use urlshortner.Storage.Inmemory.Invariant.{IsWf, visit_delete-keeps}
use urlshortner.Storage.Inmemory.Table.{record_of_value, entry, delete_in}

-- Removing one id leaves the others.
contains-remove_id :
    (id j : Str) (ids : List Str)
    → (id == j) ≡ false
    → contains j (remove_id id ids) ≡ contains j ids
unfolding contains remove_id
contains-remove_id id j [] h = refl
contains-remove_id id j (v ∷ ids) h =
    ground (arith, eq_iff id v, eq_iff j v, eq_iff id j, contains-remove_id id j ids h)

-- The record that an entry, as the walk finds it, has afterwards under the id `j`: `seen` is what the
-- walk still has to visit under `j`, `now` what the map has.
abbrev marked : Str → List Str → Str → Option Value → Option Value → Option Value
marked user_id ids j (some (ims_storer r)) now =
    if is_live_of user_id r && contains j ids
    then some (ims_storer (record { url = r.url; user_id = r.user_id; deleted = true }))
    else now
marked user_id ids j _ now = now

-- One item writes its own id, and leaves the other ids in the slice.
pub delete_item-load :
    (id j : Str) (r : Storer) (ids : List Str) (m : SyncMap Value)
    → load j (delete_item id r (ids, m)).1 ≡ (
        if contains id ids && (id == j)
        then some (ims_storer (record { url = r.url; user_id = r.user_id; deleted = true }))
        else load j m)
unfolding delete_item
delete_item-load id j r ids m = elim (Bool-cases (contains id ids)) [
  | inl hit ↦ rw hit (load-store id j _ m)
  | inr miss ↦ rw miss refl
]

delete_item-contains :
    (id j : Str) (r : Storer) (ids : List Str) (m : SyncMap Value)
    → (id == j) ≡ false
    → contains j (delete_item id r (ids, m)).0 ≡ contains j ids
unfolding delete_item
delete_item-contains id j r ids m ne = elim (Bool-cases (contains id ids)) [
  | inl hit ↦ rw hit (contains-remove_id id j ids ne)
  | inr miss ↦ rw miss refl
]

-- Two walks that differ in ids other than `j` mark `j` alike.
marked-cong :
    (user_id j : Str) (ids ids' : List Str) (seen now now' : Option Value)
    → contains j ids' ≡ contains j ids
    → now' ≡ now
    → marked user_id ids' j seen now' ≡ marked user_id ids j seen now
marked-cong user_id j ids ids' none now now' c e = e
marked-cong user_id j ids ids' (some (ims_storer r)) now now' c e = rw (c, e)
marked-cong user_id j ids ids' (some (file_storer r)) now now' c e = e

visit_delete-load :
    (user_id j : Str) (todo : SyncMap Value) (ids : List Str) (m : SyncMap Value) (ids' : List Str)
    (m' : SyncMap Value)
    → HasDistinctKeys todo
    → visit_delete user_id todo (ids, m) ≡ returned (ids', m')
    → load j m' ≡ marked user_id ids j (load j todo) (load j m)
unfolding visit_delete load
visit_delete-load user_id j [] ids m ids' m' d e = ground arith
visit_delete-load user_id j ((id, file_storer r) ∷ todo) ids m ids' m' d e = cc
visit_delete-load user_id j ((id, ims_storer r) ∷ todo) ids m ids' m' d e =
    elim (Bool-cases (is_live_of user_id r)) [
      | inl live ↦
          let (ids₁, m₁) = delete_item id r (ids, m) in
          let rest = visit_delete-load user_id j todo ids₁ m₁ ids' m' d.1 (rw live at e) in
          elim (Bool-cases (id == j)) [
            | inl same ↦
                ground (
                  arith,
                  rest,
                  load-eq-none id todo d.0,
                  eq_iff id j,
                  delete_item-load id j r ids m,
                )
            | inr other ↦
                let kept = delete_item-contains id j r ids m other in
                let same_value : load j m₁ ≡ load j m =
                  delete_item-load id j r ids m ∙ ground arith in
                rw other (
                  rest
                  ∙ marked-cong user_id j ids ids₁ (load j todo) (load j m) (load j m₁) kept
                      same_value)
          ]
      | inr skipped ↦
          let rest = visit_delete-load user_id j todo ids m ids' m' d.1 (rw skipped at e) in
          ground (arith, rest, load-eq-none id todo d.0, eq_iff id j)
    ]

record_of_value-marked :
    (user_id j : Str) (ids : List Str) (v : Option Value)
    → record_of_value (marked user_id ids j v v) ≡ delete_in user_id ids j (record_of_value v)
record_of_value-marked user_id j ids none = refl
record_of_value-marked user_id j ids (some (file_storer r)) = refl
record_of_value-marked user_id j ids (some (ims_storer r)) = ground arith

-- After `DeleteURLs` the record under every id is the one that the table has.
pub entry-delete_urls :
    (user_id j : Str) (ids : List Str) (s : Ims)
    → IsWf s
    → entry (delete_urls user_id ids s).1 j ≡ delete_in user_id ids j (entry s j)
unfolding delete_urls
entry-delete_urls user_id j ids s w =
    let (ids', m', ended, d, o) =
      visit_delete-keeps user_id s.entries ids s.entries w.own w.distinct w.own in
    let at_j = visit_delete-load user_id j s.entries ids s.entries ids' m' w.distinct ended in
    rw (ended, delete_urls)
      (ap record_of_value at_j ∙ record_of_value-marked user_id j ids (load j s.entries))
