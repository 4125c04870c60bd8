-- ===== src/Prelude/Maps.antt =====
-- `sync.Map` as an association list: its entries in the order in which `Range` visits them. Go
-- leaves that order open, and the lists here are arbitrary.
use mathlib.Core.Path.{◌≡◌, refl}
use mathlib.Core.Bool.{true, false}
use mathlib.Core.Option.{Option, none, some}
use mathlib.Core.List.{List, [], ◌∷◌}
use native.Mathlib.Omega.{arith}
use urlshortner.Prelude.Tests.{if◌then◌else◌}
use urlshortner.Prelude.Lists.{All}
use urlshortner.Prelude.Strs.{Str, ◌==◌, eq_iff, contains}

abbrev pub SyncMap : Type 0 → Type 0
SyncMap V = List (Str × V)

module _ {V : Type 0} where
  unfoldable pub load : Str → SyncMap V → Option V
  load k [] = none
  load k ((j, v) ∷ m) = if j == k then some v else load k m

  -- A new key goes to the end, so the entries before it keep their places.
  unfoldable pub store : Str → V → SyncMap V → SyncMap V
  store k v [] = (k, v) ∷ []
  store k v ((j, w) ∷ m) = if j == k then (k, v) ∷ m else (j, w) ∷ store k v m

  abbrev pub keys : SyncMap V → List Str
  keys [] = []
  keys ((j, v) ∷ m) = j ∷ keys m

  -- No key stands twice.
  abbrev pub HasDistinctKeys : SyncMap V → Type 0
  HasDistinctKeys [] = Unit
  HasDistinctKeys ((j, v) ∷ m) = (contains j (keys m) ≡ false) × HasDistinctKeys m

  pub load-store :
      (k j : Str) (v : V) (m : SyncMap V)
      → load j (store k v m) ≡ (if k == j then some v else load j m)
  unfolding load store
  load-store k j v [] = refl
  load-store k j v ((i, w) ∷ m) =
      ground (arith, eq_iff k j, eq_iff i k, eq_iff i j, load-store k j v m)

  pub contains-keys-store :
      (k j : Str) (v : V) (m : SyncMap V)
      → contains j (keys (store k v m)) ≡ (if k == j then true else contains j (keys m))
  unfolding store contains
  contains-keys-store k j v [] = ground (arith, eq_iff k j, eq_iff j k)
  contains-keys-store k j v ((i, w) ∷ m) =
      ground (arith, eq_iff k j, eq_iff j k, eq_iff i k, eq_iff j i, contains-keys-store k j v m)

  pub store-HasDistinctKeys :
      (k : Str) (v : V) (m : SyncMap V) → HasDistinctKeys m → HasDistinctKeys (store k v m)
  unfolding store contains
  store-HasDistinctKeys k v [] h = (refl, tt)
  store-HasDistinctKeys k v ((i, w) ∷ m) (h, hs) =
      ground
        (arith, eq_iff i k, eq_iff k i, store-HasDistinctKeys k v m hs, contains-keys-store k i v m)

  pub load-eq-none : (k : Str) (m : SyncMap V) → contains k (keys m) ≡ false → load k m ≡ none
  unfolding load contains
  load-eq-none k [] h = refl
  load-eq-none k ((i, w) ∷ m) h = ground (arith, eq_iff i k, eq_iff k i, load-eq-none k m)

  -- What holds of every entry holds of what a load finds.
  pub All-load :
      (P : Str × V → Type 0) (k : Str) (v : V) (m : SyncMap V)
      → All P m
      → load k m ≡ some v
      → P (k, v)
  unfolding load
  All-load P k v [] h e = cc
  All-load P k v ((i, w) ∷ m) (p, h) e = ground (arith, eq_iff i k, All-load P k v m h)

  pub All-store :
      (P : Str × V → Type 0) (k : Str) (v : V) (m : SyncMap V)
      → All P m
      → P (k, v)
      → All P (store k v m)
  unfolding store
  All-store P k v [] h p = (p, tt)
  All-store P k v ((i, w) ∷ m) (q, h) p = ground (arith, All-store P k v m h p)
