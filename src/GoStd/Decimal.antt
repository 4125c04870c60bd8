-- ===== src/GoStd/Decimal.antt =====
-- A number in decimal, as the verb `%v` of the package `fmt` prints it.
use urlshortner.Prelude.{
  ℕ, zero, suc, ◌+◌, ◌-◌, ◌*◌, ◌/◌, ◌%◌, ◌<◌, Str, ltb, ◌≡◌, ◌∙◌, sym, ap, refl, [], ◌∷◌,
  Bool-cases, inl, inr, arith, if◌then◌else◌,
}

-- The digits of `n` in front of `acc`. A number has no more digits than its successor, which is the
-- fuel that `print` gives.
emit : ℕ → ℕ → Str → Str
emit zero n acc = acc
emit (suc f) n acc =
    let rest = emit f (n / 10) ((b'0' + n % 10) ∷ acc) in
    if ltb n 10 then (b'0' + n) ∷ acc else rest

unfoldable pub print : ℕ → Str
unfolding emit
print n = emit (suc n) n []

-- The number that digits stand for, after those of `v`.
pub read : ℕ → Str → ℕ
read v [] = v
read v (d ∷ ds) = read (10 * v + (d - b'0')) ds

read-emit : (f n : ℕ) (acc : Str) → n < f → read 0 (emit f n acc) ≡ read n acc
unfolding emit read
read-emit zero n acc h = absurd (omega arith)
read-emit (suc f) n acc h = elim (Bool-cases (ltb n 10)) [
  | inl one ↦
      let e : 10 * 0 + (b'0' + n - b'0') ≡ n = omega arith in rw one (ap (λ v. read v acc) e)
  | inr more ↦
      let less : n / 10 < f = ground arith in
      let e : 10 * (n / 10) + (b'0' + n % 10 - b'0') ≡ n = omega arith in
      rw more (read-emit f (n / 10) _ less ∙ ap (λ v. read v acc) e)
]

pub read-print : (n : ℕ) → read 0 (print n) ≡ n
unfolding print read
read-print n = read-emit (suc n) n [] (omega arith)

pub print_injective : (m n : ℕ) → print m ≡ print n → m ≡ n
print_injective m n e = sym (read-print m) ∙ ap (read 0) e ∙ read-print n

print_test : print 2047 ≡ b'2' ∷ b'0' ∷ b'4' ∷ b'7' ∷ []
unfolding print
print_test = refl
