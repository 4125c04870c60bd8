-- ===== src/Prelude/Strs.antt =====
-- Go strings as the sequences of bytes that they are.
use Prim.Native.Nat.{ℕ, ◌<◌}
use Prim.Native.Char.{code}
use Prim.Native.String.{String}
use mathlib.Core.Path.{◌≡◌, refl}
use mathlib.Core.Logic.{◌↔◌}
use mathlib.Core.Bool.{Bool, true, false, ◌&&◌, ◌||◌}
use mathlib.Core.List.{List, [], ◌∷◌}
use native.Mathlib.Omega.{arith}
use urlshortner.Prelude.Tests.{nat_eq}
use urlshortner.Prelude.Lists.{All}

abbrev pub Str : Type 0
Str = List ℕ

-- A literal of the source; all of those that the models use are ASCII.
abbrev pub str : String → Str
str String.[] = []
str (String.◌∷◌ c s) = code c ∷ str s

-- The bytes of a Go string are below 256.
abbrev pub IsBytes : Str → Type 0
IsBytes = All (λ b. b < 256)

infix 50 ◌==◌
unfoldable pub ◌==◌ : Str → Str → Bool
[] == [] = true
[] == (b ∷ t) = false
(a ∷ s) == [] = false
(a ∷ s) == (b ∷ t) = nat_eq a b && (s == t)

pub eq_refl : (s : Str) → (s == s) ≡ true
unfolding ◌==◌
eq_refl [] = refl
eq_refl (a ∷ s) = ground (arith, eq_refl s)

pub eq_sound : (s t : Str) → (s == t) ≡ true → s ≡ t
unfolding ◌==◌
eq_sound [] [] h = refl
eq_sound [] (b ∷ t) h = cc
eq_sound (a ∷ s) [] h = cc
eq_sound (a ∷ s) (b ∷ t) h = ground (arith, eq_sound s t)

pub eq_iff : (s t : Str) → ((s == t) ≡ true) ↔ (s ≡ t)
eq_iff s t = (eq_sound s t, λ e. rw e (eq_refl t))

pub differ : (s t : Str) → (s == t) ≡ false → (t == s) ≡ false
differ s t h = ground (arith, eq_iff s t, eq_iff t s)

-- Membership in a list of strings, as a test.
unfoldable pub contains : Str → List Str → Bool
contains a [] = false
contains a (x ∷ xs) = (a == x) || contains a xs
