-- ===== src/Staticlint/Analysers/Fixed.antt =====
-- The analyzers that cmd/staticlint/main.go registers whatever the suites have: their names.
use urlshortner.Prelude.{
  Str, str, All, ◌==◌, eq_sound, Bool, true, false, ◌&&◌, Bool-cases, inl, inr, not, map, eq_refl,
  sym, ◌≢◌, All-append, ◌≡◌, ◌∙◌, refl, List, [], ◌∷◌, ◌++◌, arith,
}
use urlshortner.Staticlint.Analysers.{Analyzer, Suites, osexitcheck, vet}
use urlshortner.Staticlint.Analysers.Counts.{count, count-append, IsOnce, is_small}

-- The packages of golang.org/x/tools/go/analysis/passes that the vet command runs.
abbrev packages : List Str
packages =
    str "asmdecl"
    ∷ str "assign"
    ∷ str "atomic"
    ∷ str "bools"
    ∷ str "buildtag"
    ∷ str "cgocall"
    ∷ str "composite"
    ∷ str "copylock"
    ∷ str "errorsas"
    ∷ str "framepointer"
    ∷ str "httpresponse"
    ∷ str "ifaceassert"
    ∷ str "loopclosure"
    ∷ str "lostcancel"
    ∷ str "nilfunc"
    ∷ str "printf"
    ∷ str "shift"
    ∷ str "sigchanyzer"
    ∷ str "stdmethods"
    ∷ str "stringintconv"
    ∷ str "structtag"
    ∷ str "tests"
    ∷ str "testinggoroutine"
    ∷ str "unmarshal"
    ∷ str "unreachable"
    ∷ str "unsafeptr"
    ∷ str "unusedresult"
    ∷ []

is_absent : Str → List Str → Bool
is_absent p [] = true
is_absent p (q ∷ qs) = not (q == p) && is_absent p qs

is_distinct : List Str → Bool
unfolding is_absent
is_distinct [] = true
is_distinct (p ∷ ps) = is_absent p ps && is_distinct ps

packages-is_distinct : is_distinct packages ≡ true
unfolding is_distinct ◌==◌
packages-is_distinct = refl

-- How the analyzers of third parties that have no suite are named: in small letters, two packages
-- never alike, and none like another one of the three kinds.
pub record AreNamed (suites : Suites) : Type 0 where
  pub pass_small : (p : Str) → is_small (suites.pass p).name ≡ true
  pub pass_apart : (p q : Str) → (suites.pass p).name ≡ (suites.pass q).name → p ≡ q
  pub pass-osexitcheck : (p : Str) → (suites.pass p).name ≢ osexitcheck.name
  pub pass-nilerr : (p : Str) → (suites.pass p).name ≢ suites.nilerr.name
  pub nilerr_small : is_small suites.nilerr.name ≡ true
  pub nilerr-osexitcheck : suites.nilerr.name ≢ osexitcheck.name

module _ (suites : Suites) where
  open suites use {pass, staticcheck, simple, stylecheck, quickfix, nilerr}

  -- The analyzers that are registered whatever the suites have.
  abbrev pub fixed : List Analyzer
  fixed = vet suites ++ osexitcheck ∷ nilerr ∷ []

  vet-packages : vet suites ≡ map pass packages
  unfolding vet
  vet-packages = refl

  count-absent :
      (p : Str) (qs : List Str)
      → AreNamed suites
      → is_absent p qs ≡ true
      → count (pass p).name (map pass qs) ≡ 0
  unfolding is_absent
  count-absent p [] h absent = refl
  count-absent p (q ∷ qs) h absent =
      let rest = count-absent p qs h (ground arith) in
      elim (Bool-cases ((pass q).name == (pass p).name)) [
        | inl same ↦
            let e = h.pass_apart q p (eq_sound (pass q).name (pass p).name same) in
            let self = eq_refl p in let other : (q == p) ≡ false = ground arith in cc
        | inr other ↦ rw other rest
      ]

  passes-IsOnce : (ps : List Str) → AreNamed suites → is_distinct ps ≡ true → IsOnce (map pass ps)
  unfolding is_distinct
  passes-IsOnce [] h distinct n = omega arith
  passes-IsOnce (p ∷ ps) h distinct n =
      let rest = passes-IsOnce ps h (ground arith) n in
      elim (Bool-cases ((pass p).name == n)) [
        | inl same ↦
            let e = eq_sound (pass p).name n same in
            let no_more = rw e at (count-absent p ps h (ground arith)) in
            rw same (omega (arith, no_more))
        | inr other ↦ rw other rest
      ]

  count-without :
      (n : Str) (ps : List Str) → ((p : Str) → (pass p).name ≢ n) → count n (map pass ps) ≡ 0
  count-without n [] apart = refl
  count-without n (p ∷ ps) apart = elim (Bool-cases ((pass p).name == n)) [
    | inl same ↦ absurd (apart p (eq_sound (pass p).name n same))
    | inr other ↦ rw other (count-without n ps apart)
  ]

  pub fixed-IsOnce : AreNamed suites → IsOnce fixed
  fixed-IsOnce h n =
      let vetted = passes-IsOnce packages h packages-is_distinct n in
      let split = count-append n (map pass packages) (osexitcheck ∷ nilerr ∷ []) in
      rw vet-packages (elim (Bool-cases (osexitcheck.name == n)) [
        | inl own ↦
            let e = eq_sound osexitcheck.name n own in
            let none_before = count-without n packages (λ p s. h.pass-osexitcheck p (s ∙ sym e)) in
            elim (Bool-cases (nilerr.name == n)) [
              | inl both ↦ absurd (h.nilerr-osexitcheck (eq_sound nilerr.name n both ∙ sym e))
              | inr other ↦ rw split (rw (own, other) (omega (arith, none_before)))
            ]
        | inr not_own ↦ elim (Bool-cases (nilerr.name == n)) [
          | inl third ↦
              let e = eq_sound nilerr.name n third in
              let none_before = count-without n packages (λ p s. h.pass-nilerr p (s ∙ sym e)) in
              rw split (rw (not_own, third) (omega (arith, none_before)))
          | inr other ↦ rw split (rw (not_own, other) (omega (arith, vetted)))
        ]
      ])

  passes-small :
      (ps : List Str)
      → AreNamed suites
      → All (λ (a : Analyzer). is_small a.name ≡ true) (map pass ps)
  passes-small [] h = tt
  passes-small (p ∷ ps) h = (h.pass_small p, passes-small ps h)

  pub fixed-small : AreNamed suites → All (λ (a : Analyzer). is_small a.name ≡ true) fixed
  fixed-small h = rw vet-packages (
      All-append (λ (a : Analyzer). is_small a.name ≡ true) (map pass packages)
        (osexitcheck ∷ nilerr ∷ []) (passes-small packages h) (refl, (h.nilerr_small, tt)))
