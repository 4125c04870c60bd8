-- ===== src/Tests/Suites.antt =====
-- The list of the analyzers, over small suites.
use urlshortner.Prelude.{
  ℕ, nat_eq, false, ◌≢◌, Str, str, ◌++◌, ◌==◌, eq_sound, Bool, true, not, ◌&&◌, Bool-cases, inl,
  inr, ◌≡◌, refl, List, [], ◌∷◌, arith,
}
use urlshortner.Staticlint.Analysers.{Analyzer, Suites, osexitcheck, analysers}
use urlshortner.Staticlint.Analysers.Counts.{count, IsOnce}
use urlshortner.Staticlint.Analysers.Fixed.{AreNamed}
use urlshortner.Staticlint.Analysers.Once.{analysers-IsOnce}

abbrev named : Str → Analyzer
named name = record { name = name }

abbrev suites : Suites
suites = record {
  pass = λ p. named (str "p" ++ p);
  staticcheck = named (str "SA1000") ∷ named (str "SA9008") ∷ [];
  simple = named (str "S1000") ∷ named (str "S1028") ∷ [];
  stylecheck = named (str "ST1016") ∷ named (str "ST1000") ∷ [];
  quickfix = named (str "QF1001") ∷ named (str "QF1003") ∷ named (str "QF1002") ∷ [];
  nilerr = named (str "nilerr");
}

abbrev is_absent : Str → List Analyzer → Bool
is_absent n [] = true
is_absent n (a ∷ xs) = not (a.name == n) && is_absent n xs

abbrev is_distinct : List Analyzer → Bool
is_distinct [] = true
is_distinct (a ∷ xs) = is_absent a.name xs && is_distinct xs

count-absent : (n : Str) (xs : List Analyzer) → is_absent n xs ≡ true → count n xs ≡ 0
count-absent n [] h = refl
count-absent n (a ∷ xs) h = ground (arith, count-absent n xs)

distinct-IsOnce : (xs : List Analyzer) → is_distinct xs ≡ true → IsOnce xs
distinct-IsOnce [] h n = omega arith
distinct-IsOnce (a ∷ xs) h n = elim (Bool-cases (a.name == n)) [
  | inl same ↦
      let e = eq_sound a.name n same in
      let absent : is_absent a.name xs ≡ true = ground arith in
      let no_more = rw e at (count-absent a.name xs absent) in rw same (omega (arith, no_more))
  | inr other ↦
      let rest : is_distinct xs ≡ true = ground arith in rw other (distinct-IsOnce xs rest n)
]

abbrev begins_with : ℕ → Str → Bool
begins_with b [] = false
begins_with b (c ∷ s) = nat_eq b c

first_differs : (b : ℕ) (s t : Str) → begins_with b t ≡ false → b ∷ s ≢ t
first_differs b s t h e = absurd (ground (arith, rw (← e) at h))

suites-AreNamed : AreNamed suites
suites-AreNamed = record {
  pass_small = λ p. refl;
  pass_apart = λ p q e. cc;
  pass-osexitcheck = λ p e. first_differs b'p' p osexitcheck.name refl e;
  pass-nilerr = λ p e. first_differs b'p' p (str "nilerr") refl e;
  nilerr_small = refl;
  nilerr-osexitcheck = λ e. first_differs b'n' (str "ilerr") osexitcheck.name refl e;
}

analysers-IsOnce_example : IsOnce (analysers suites)
unfolding ◌==◌
analysers-IsOnce_example =
    analysers-IsOnce suites suites-AreNamed (distinct-IsOnce suites.staticcheck refl)
      (distinct-IsOnce suites.simple refl) (distinct-IsOnce suites.stylecheck refl)
      (distinct-IsOnce suites.quickfix refl)
