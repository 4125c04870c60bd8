-- ===== src/Staticlint/Analysers.antt =====
-- cmd/staticlint/main.go: the list of the analyzers. Those of third parties are parameters, of which
-- the list reads the names alone.
pub mod Counts
pub mod Fixed
pub mod Once
use urlshortner.Prelude.{
  ℕ, Str, str, ◌==◌, nat_eq, Bool, true, false, ◌&&◌, ◌||◌, List, [], ◌∷◌, ◌++◌, if◌then◌else◌,
}

pub record Analyzer : Type 0 where
  pub name : Str

-- The analyzers of `passes` by their packages, and the suites of `honnef.co/go/tools`.
pub record Suites : Type 0 where
  pub pass : Str → Analyzer
  pub staticcheck : List Analyzer
  pub simple : List Analyzer
  pub stylecheck : List Analyzer
  pub quickfix : List Analyzer
  pub nilerr : Analyzer

-- `strings.HasPrefix`, with the prefix first.
unfoldable pub has_prefix : Str → Str → Bool
has_prefix [] s = true
has_prefix (b ∷ pre) [] = false
has_prefix (b ∷ pre) (c ∷ s) = nat_eq b c && has_prefix pre s

-- `osexitcheck.Analyzer`.
abbrev pub osexitcheck : Analyzer
osexitcheck = record { name = str "osExitCheck" }

-- A loop over a suite: those whose name passes the test are appended.
unfoldable pub collect : (Str → Bool) → List Analyzer → List Analyzer → List Analyzer
collect test [] analysers = analysers
collect test (a ∷ suite) analysers =
    collect test suite (if test a.name then analysers ++ a ∷ [] else analysers)

abbrev pub is_quickfix : Str → Bool
is_quickfix name = name == str "QF1002" || name == str "QF1003"

module _ (suites : Suites) where
  open suites use {pass, staticcheck, simple, stylecheck, quickfix, nilerr}

  -- The list from the vet command.
  unfoldable pub vet : List Analyzer
  vet =
      pass (str "asmdecl")
      ∷ pass (str "assign")
      ∷ pass (str "atomic")
      ∷ pass (str "bools")
      ∷ pass (str "buildtag")
      ∷ pass (str "cgocall")
      ∷ pass (str "composite")
      ∷ pass (str "copylock")
      ∷ pass (str "errorsas")
      ∷ pass (str "framepointer")
      ∷ pass (str "httpresponse")
      ∷ pass (str "ifaceassert")
      ∷ pass (str "loopclosure")
      ∷ pass (str "lostcancel")
      ∷ pass (str "nilfunc")
      ∷ pass (str "printf")
      ∷ pass (str "shift")
      ∷ pass (str "sigchanyzer")
      ∷ pass (str "stdmethods")
      ∷ pass (str "stringintconv")
      ∷ pass (str "structtag")
      ∷ pass (str "tests")
      ∷ pass (str "testinggoroutine")
      ∷ pass (str "unmarshal")
      ∷ pass (str "unreachable")
      ∷ pass (str "unsafeptr")
      ∷ pass (str "unusedresult")
      ∷ []

  -- What `main` hands to `multichecker.Main`.
  unfoldable pub analysers : List Analyzer
  analysers =
      let sa = collect (has_prefix (str "SA")) staticcheck vet in
      let s1028 = collect (λ name. name == str "S1028") simple sa in
      let st1016 = collect (λ name. name == str "ST1016") stylecheck s1028 in
      let fixes = collect is_quickfix quickfix st1016 in (fixes ++ osexitcheck ∷ []) ++ nilerr ∷ []
