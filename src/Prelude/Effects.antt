-- ===== src/Prelude/Effects.antt =====
-- Go code that changes state and may panic. What was written before a panic stays written, so the
-- state comes back in both cases.

use mathlib.Core.Path.{◌≡◌}

pub data Outcome (A : Type 0) : Type 0 where
  returned : A → Outcome A
  panicked : Outcome A

abbrev pub Exec : Type 0 → Type 0 → Type 0
Exec S A = S → Outcome A × S

module _ {S A : Type 0} where
  abbrev pub pure : A → Exec S A
  pure a s = (returned a, s)

  abbrev pub panic : Exec S A
  panic s = (panicked, s)

module _ {S A B : Type 0} where
  abbrev pub continue : Outcome A → (A → Exec S B) → Exec S B
  continue (returned a) f s = f a s
  continue panicked f s = (panicked, s)

  infixl 5 ◌>>=◌ ◌>>◌
  abbrev pub ◌>>=◌ : Exec S A → (A → Exec S B) → Exec S B
  ◌>>=◌ m f s = continue (m s).0 f (m s).1

  abbrev pub ◌>>◌ : Exec S A → Exec S B → Exec S B
  ◌>>◌ m n s = continue (m s).0 (λ _. n) (m s).1

  -- A call that returns is followed by the rest, at the value and the state that it left.
  pub bind-returned :
      (m : Exec S A) (f : A → Exec S B) (a : A) (s : S)
      → (m s).0 ≡ returned a
      → (m >>= f) s ≡ f a (m s).1
  bind-returned m f a s e = rw e
