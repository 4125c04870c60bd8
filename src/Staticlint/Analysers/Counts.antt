-- ===== src/Staticlint/Analysers/Counts.antt =====
-- How often a name stands in a list of analyzers of cmd/staticlint/main.go.
use urlshortner.Prelude.{
  ℕ, ◌+◌, ◌≤◌, suc, Str, All, ◌==◌, eq_sound, leb, Bool, true, false, ◌&&◌, Bool-cases, inl, inr,
  ◌≡◌, ◌∙◌, ap, refl, List, [], ◌∷◌, ◌++◌, arith, if◌then◌else◌,
}
use urlshortner.Staticlint.Analysers.{Analyzer, collect}

-- How many of the analyzers have the name.
abbrev pub count : Str → List Analyzer → ℕ
count n [] = 0
count n (a ∷ xs) = if a.name == n then suc (count n xs) else count n xs

pub count-append : (n : Str) (xs ys : List Analyzer) → count n (xs ++ ys) ≡ count n xs + count n ys
count-append n [] ys = omega arith
count-append n (a ∷ xs) ys = ground (arith, count-append n xs ys)

pub count-collect :
    (n : Str) (test : Str → Bool) (suite xs : List Analyzer)
    → count n (collect test suite xs) ≡ count n xs + (if test n then count n suite else 0)
unfolding collect
count-collect n test [] xs = elim (Bool-cases (test n)) [
  | inl kept ↦ rw kept (omega arith)
  | inr dropped ↦ rw dropped (omega arith)
]
count-collect n test (a ∷ suite) xs =
    let rest = count-collect n test suite (if test a.name then xs ++ a ∷ [] else xs) in
    elim (Bool-cases (a.name == n)) [
      | inl same ↦
          let e : test a.name ≡ test n = ap test (eq_sound a.name n same) in
          rest ∙ elim (Bool-cases (test n)) [
            | inl kept ↦ rw (e, kept, same) (omega (arith, appended same))
            | inr dropped ↦ rw (e, dropped) refl
          ]
      | inr other ↦ rest ∙ elim (Bool-cases (test a.name)) [
        | inl kept ↦ rw (kept, other) (rw (appended-other other) refl)
        | inr dropped ↦ rw (dropped, other) refl
      ]
    ]
  where
    appended : (a.name == n) ≡ true → count n (xs ++ a ∷ []) ≡ suc (count n xs)
    appended same = count-append n xs (a ∷ []) ∙ rw same (omega arith)

    appended-other : (a.name == n) ≡ false → count n (xs ++ a ∷ []) ≡ count n xs
    appended-other other = count-append n xs (a ∷ []) ∙ rw other (omega arith)

-- No name stands twice.
abbrev pub IsOnce : List Analyzer → Type 0
IsOnce xs = (n : Str) → count n xs ≤ 1

abbrev pub is_small : Str → Bool
is_small [] = false
is_small (b ∷ s) = leb b'a' b && leb b b'z'

pub count-small :
    (n : Str) (xs : List Analyzer)
    → is_small n ≡ false
    → All (λ (a : Analyzer). is_small a.name ≡ true) xs
    → count n xs ≡ 0
count-small n [] large h = refl
count-small n (a ∷ xs) large (small, h) = elim (Bool-cases (a.name == n)) [
  | inl same ↦ let e = eq_sound a.name n same in cc
  | inr other ↦ rw other (count-small n xs large h)
]
