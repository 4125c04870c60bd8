-- ===== src/Staticlint/Analysers/Once.antt =====
-- How often an analyzer stands in the list of cmd/staticlint/main.go.
use urlshortner.Prelude.{
  ◌+◌, Str, str, ◌==◌, eq_sound, true, false, Bool-cases, inl, inr, ◌≡◌, refl, [], ◌∷◌, arith,
  if◌then◌else◌,
}
use urlshortner.Staticlint.Analysers.{Suites, has_prefix, osexitcheck, is_quickfix, vet, analysers}
use urlshortner.Staticlint.Analysers.Counts.{
  count, count-append, count-collect, IsOnce, is_small, count-small,
}
use urlshortner.Staticlint.Analysers.Fixed.{AreNamed, fixed, fixed-IsOnce, fixed-small}

module _ (suites : Suites) where
  open suites use {staticcheck, simple, stylecheck, quickfix, nilerr}

  count-analysers :
      (n : Str)
      → count n (analysers suites)
        ≡ count n (fixed suites)
          + (if has_prefix (str "SA") n then count n staticcheck else 0)
          + (if n == str "S1028" then count n simple else 0)
          + (if n == str "ST1016" then count n stylecheck else 0)
          + (if is_quickfix n then count n quickfix else 0)
  unfolding analysers
  count-analysers n =
      let both = count-append n (vet suites) (osexitcheck ∷ nilerr ∷ []) in
      let last = count-append n (osexitcheck ∷ []) (nilerr ∷ []) in
      rw (count-append, count-append, count-collect, count-collect, count-collect, count-collect)
        (omega (arith, both, last))

  -- Two checks with different numbers, or a check and an analyzer with a small first letter.
  apart_of_prefix :
      (n : Str)
      → has_prefix (str "SA") n ≡ true
      → ((n == str "S1028") ≡ false)
        × ((n == str "ST1016") ≡ false)
        × (is_quickfix n ≡ false)
        × (is_small n ≡ false)
  unfolding has_prefix ◌==◌
  apart_of_prefix [] h = cc
  apart_of_prefix (b ∷ []) h = absurd (ground arith)
  apart_of_prefix (b ∷ c ∷ n) h =
      let first : b ≡ b'S' = ground arith in
      let second : c ≡ b'A' = ground arith in rw (first, second) (refl, refl, refl, refl)

  small_of_quickfix : (n : Str) → is_quickfix n ≡ true → is_small n ≡ false
  small_of_quickfix n h = elim (Bool-cases (n == str "QF1002")) [
    | inl hit ↦ rw (eq_sound n (str "QF1002") hit) refl
    | inr miss ↦ rw (eq_sound n (str "QF1003") (rw miss at h)) refl
  ]

  -- When the analyzers of different packages, `nilerr` and the program's own have different names,
  -- those of third parties among them begin with small letters, and no suite has a name twice, then
  -- no name is registered twice.
  pub analysers-IsOnce :
      AreNamed suites
      → IsOnce staticcheck
      → IsOnce simple
      → IsOnce stylecheck
      → IsOnce quickfix
      → IsOnce (analysers suites)
  unfolding has_prefix ◌==◌
  analysers-IsOnce named sa s st qf n =
      let small = fixed-small suites named in
      let once = fixed-IsOnce suites named in
      rw count-analysers (elim (Bool-cases (has_prefix (str "SA") n)) [
        | inl hit ↦
            let (no_s, no_st, no_fix, large) = apart_of_prefix n hit in
            rw (hit, no_s, no_st, no_fix, count-small n (fixed suites) large small)
              (omega (arith, sa n))
        | inr no_sa ↦ elim (Bool-cases (n == str "S1028")) [
          | inl hit ↦
              rw (eq_sound n (str "S1028") hit, count-small (str "S1028") (fixed suites) refl small)
                (omega (arith, s (str "S1028")))
          | inr no_s ↦ elim (Bool-cases (n == str "ST1016")) [
            | inl hit ↦
                rw
                  (
                    eq_sound n (str "ST1016") hit,
                    count-small (str "ST1016") (fixed suites) refl small,
                  )
                  (omega (arith, st (str "ST1016")))
            | inr no_st ↦ elim (Bool-cases (is_quickfix n)) [
              | inl hit ↦
                  rw
                    (
                      no_sa,
                      no_s,
                      no_st,
                      hit,
                      count-small n (fixed suites) (small_of_quickfix n hit) small,
                    )
                    (omega (arith, qf n))
              | inr no_fix ↦ rw (no_sa, no_s, no_st, no_fix) (omega (arith, once n))
            ]
          ]
        ]
      ])
