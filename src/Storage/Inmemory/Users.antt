-- ===== src/Storage/Inmemory/Users.antt =====
-- What `LoadUrlsByUser` gathers for one user.
use mathlib.Core.List.{Memᴰ}
use urlshortner.Prelude.{
  Str, SyncMap, load, load-eq-none, keys, contains, HasDistinctKeys, ◌==◌, eq_iff, eq_refl,
  eq_sound, returned, ◌≡◌, ◌↔◌, refl, ap, ◌∙◌, true, false, none, some, [], ◌∷◌, ◌++◌, ◌⊎◌, inl,
  inr, Bool-cases, arith,
}
use urlshortner.Storage.Interface.{Pair, Pairs, append_pair}
use urlshortner.Storage.Inmemory.{
  Storer, Value, ims_storer, file_storer, Ims, is_live_of, visit_urls, load_urls_by_user,
}
use urlshortner.Storage.Inmemory.Invariant.{IsWf, visit_urls_total}
use urlshortner.Storage.Inmemory.Table.{record_of_value}

-- The pair stands for a live record of the user.
abbrev pub IsOf : (Str → Str) → Str → SyncMap Value → Pair → Type 0
IsOf make_url user_id m p =
    (id : Str) × (r : Storer) × (record_of_value (load id m) ≡ some r)
    × (r.user_id ≡ user_id)
    × (r.deleted ≡ false)
    × (p ≡ record { short_url = make_url id; original_url = r.url })

is_live_of_lem :
    (user_id : Str) (r : Storer)
    → (is_live_of user_id r ≡ true) ↔ ((r.user_id ≡ user_id) × (r.deleted ≡ false))
unfolding is_live_of
is_live_of_lem user_id r = ground (arith, eq_iff r.user_id user_id)

Mem-snoc : (p q : Pair) (ps : Pairs) → Memᴰ p (ps ++ q ∷ []) → Memᴰ p ps ⊎ (p ≡ q)
Mem-snoc p q [] (Memᴰ.head e) = inr e
Mem-snoc p q [] (Memᴰ.tail m) = elim m [ ]
Mem-snoc p q (x ∷ ps) (Memᴰ.head e) = inl (Memᴰ.head e)
Mem-snoc p q (x ∷ ps) (Memᴰ.tail m) = elim (Mem-snoc p q ps m) [
  | inl old ↦ inl (Memᴰ.tail old)
  | inr e ↦ inr e
]

Mem-old : (p q : Pair) (ps : Pairs) → Memᴰ p ps → Memᴰ p (ps ++ q ∷ [])
Mem-old p q [] m = elim m [ ]
Mem-old p q (x ∷ ps) (Memᴰ.head e) = Memᴰ.head e
Mem-old p q (x ∷ ps) (Memᴰ.tail m) = Memᴰ.tail (Mem-old p q ps m)

Mem-last : (q : Pair) (ps : Pairs) → Memᴰ q (ps ++ q ∷ [])
Mem-last q [] = Memᴰ.head refl
Mem-last q (x ∷ ps) = Memᴰ.tail (Mem-last q ps)

-- A key that is found in the rest is not the first one.
load-rest :
    (id j : Str) (v : Value) (m : SyncMap Value) (r : Storer)
    → contains id (keys m) ≡ false
    → record_of_value (load j m) ≡ some r
    → load j ((id, v) ∷ m) ≡ load j m
unfolding load
load-rest id j v m r d e = ground (arith, load-eq-none id m d, eq_iff id j)

IsOf-rest :
    (make_url : Str → Str) (user_id id : Str) (v : Value) (m : SyncMap Value) (p : Pair)
    → contains id (keys m) ≡ false
    → IsOf make_url user_id m p
    → IsOf make_url user_id ((id, v) ∷ m) p
IsOf-rest make_url user_id id v m p d (j, r, e, mine, live, same) =
    (j, r, ap record_of_value (load-rest id j v m r d e) ∙ e, mine, live, same)

-- A live record of the user is the first one, or one of the rest.
IsOf-cons :
    (make_url : Str → Str) (user_id id : Str) (r : Storer) (m : SyncMap Value) (p : Pair)
    → IsOf make_url user_id ((id, ims_storer r) ∷ m) p
    → IsOf make_url user_id m p
      ⊎ ((is_live_of user_id r ≡ true)
          × (p ≡ record { short_url = make_url id; original_url = r.url }))
unfolding load
IsOf-cons make_url user_id id r m p (j, q, e, mine, live, same) = elim (Bool-cases (id == j)) [
  | inl hit ↦
      let first : q ≡ r = ground arith in
      let here : id ≡ j = eq_sound id j hit in
      inr ((is_live_of_lem user_id r).1 (ground arith, ground arith), ground arith)
  | inr miss ↦ inl (j, q, rw miss at e, mine, live, same)
]

IsOf-first :
    (make_url : Str → Str) (user_id id : Str) (r : Storer) (m : SyncMap Value) (p : Pair)
    → is_live_of user_id r ≡ true
    → p ≡ record { short_url = make_url id; original_url = r.url }
    → IsOf make_url user_id ((id, ims_storer r) ∷ m) p
unfolding load
IsOf-first make_url user_id id r m p live e =
    let (mine, kept) = (is_live_of_lem user_id r).0 live in
    (id, r, rw (eq_refl id) refl, mine, kept, e)

module _ (make_url : Str → Str) (user_id : Str) (p : Pair) where
  kept_live :
      (id : Str) (r : Storer) (m : SyncMap Value) (acc : Pairs)
      → Memᴰ p acc ⊎ IsOf make_url user_id ((id, ims_storer r) ∷ m) p
      → Memᴰ p (append_pair make_url id r.url acc) ⊎ IsOf make_url user_id m p
  unfolding append_pair
  kept_live id r m acc (inl old) = inl (Mem-old p _ acc old)
  kept_live id r m acc (inr of) = elim (IsOf-cons make_url user_id id r m p of) [
    | inl later ↦ inr later
    | inr (live, same) ↦ inl (rw same (Mem-last _ acc))
  ]

  kept_other :
      (id : Str) (r : Storer) (m : SyncMap Value) (acc : Pairs)
      → is_live_of user_id r ≡ false
      → Memᴰ p acc ⊎ IsOf make_url user_id ((id, ims_storer r) ∷ m) p
      → Memᴰ p acc ⊎ IsOf make_url user_id m p
  kept_other id r m acc other (inl old) = inl old
  kept_other id r m acc other (inr of) = elim (IsOf-cons make_url user_id id r m p of) [
    | inl later ↦ inr later
    | inr (live, same) ↦ cc
  ]

  -- Only live records of the user are gathered,
  visit_sound :
      (m : SyncMap Value) (acc b : Pairs)
      → HasDistinctKeys m
      → visit_urls (append_pair make_url) user_id m acc ≡ returned b
      → Memᴰ p b
      → Memᴰ p acc ⊎ IsOf make_url user_id m p
  unfolding visit_urls append_pair
  visit_sound [] acc b d e mem = let same : b ≡ acc = cc in inl (rw same at mem)
  visit_sound ((id, file_storer r) ∷ m) acc b d e mem = cc
  visit_sound ((id, ims_storer r) ∷ m) acc b d e mem = elim (Bool-cases (is_live_of user_id r)) [
    | inl live ↦
        let add = append_pair make_url id r.url acc in
        elim (visit_sound m add b d.1 (rw live at e) mem) [
          | inl gathered ↦ elim (Mem-snoc p _ acc gathered) [
            | inl old ↦ inl old
            | inr new ↦ inr (IsOf-first make_url user_id id r m p live new)
          ]
          | inr later ↦ inr (IsOf-rest make_url user_id id (ims_storer r) m p d.0 later)
        ]
    | inr other ↦ elim (visit_sound m acc b d.1 (rw other at e) mem) [
      | inl old ↦ inl old
      | inr later ↦ inr (IsOf-rest make_url user_id id (ims_storer r) m p d.0 later)
    ]
  ]

  -- and each of them is.
  visit_complete :
      (m : SyncMap Value) (acc b : Pairs)
      → visit_urls (append_pair make_url) user_id m acc ≡ returned b
      → Memᴰ p acc ⊎ IsOf make_url user_id m p
      → Memᴰ p b
  unfolding visit_urls load
  visit_complete [] acc b e (inl old) = let same : b ≡ acc = cc in rw same old
  visit_complete [] acc b e (inr (id, r, found, mine, live, same)) = cc
  visit_complete ((id, file_storer r) ∷ m) acc b e mem = cc
  visit_complete ((id, ims_storer r) ∷ m) acc b e mem = elim (Bool-cases (is_live_of user_id r)) [
    | inl live ↦
        let add = append_pair make_url id r.url acc in
        visit_complete m add b (rw live at e) (kept_live id r m acc mem)
    | inr other ↦ visit_complete m acc b (rw other at e) (kept_other id r m acc other mem)
  ]

visit_none :
    (make_url : Str → Str) (user_id : Str) (p : Pair) (m : SyncMap Value)
    → Memᴰ p [] ⊎ IsOf make_url user_id m p
    → IsOf make_url user_id m p
visit_none make_url user_id p m (inl mem) = elim mem [ ]
visit_none make_url user_id p m (inr of) = of

-- `LoadByUser` on a well-formed storage lists exactly the live records of the user, each under the
-- URL made from its id, and changes nothing.
pub load_urls_by_user_lem :
    (make_url : Str → Str) (user_id : Str) (s : Ims)
    → IsWf s
    → (b : Pairs) × (load_urls_by_user (append_pair make_url) user_id [] s
        ≡ (returned (b, none), s))
      × ((p : Pair) → Memᴰ p b ↔ IsOf make_url user_id s.entries p)
unfolding load_urls_by_user
load_urls_by_user_lem make_url user_id s w =
    let (b, gathered) = visit_urls_total (append_pair make_url) user_id s.entries [] w.own in
    (
      b,
      rw (gathered, load_urls_by_user) refl,
      λ p. (
        λ mem.
            visit_none make_url user_id p s.entries
              (visit_sound make_url user_id p s.entries [] b w.distinct gathered mem),
        λ of. visit_complete make_url user_id p s.entries [] b gathered (inr of),
      ),
    )
