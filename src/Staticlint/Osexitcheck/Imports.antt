-- ===== src/Staticlint/Osexitcheck/Imports.antt =====
-- The imports of os that the first loop of cmd/staticlint/osexitcheck/osexitcheck.go finds, by plain
-- recursion.
use urlshortner.Prelude.{
  Str, str, ◌==◌, Bool, true, false, ◌||◌, ◌≡◌, ◌∙◌, refl, none, some, List, [], ◌∷◌, ◌++◌, arith,
  if◌then◌else◌,
}
use urlshortner.Staticlint.Osexitcheck.{
  call_expr, import_spec, func_decl, other, Node, node, Nodes, nil, cons, inspect, inspect_all,
  check_import, inspect_files,
}

unfoldable mutual
  pub imports_os : Node → Bool
  imports_os (node (import_spec path name) p ns) = path == str "\"os\"" || imports_os_all ns
  imports_os (node (call_expr fun) p ns) = imports_os_all ns
  imports_os (node (func_decl name) p ns) = imports_os_all ns
  imports_os (node other p ns) = imports_os_all ns

  pub imports_os_all : Nodes → Bool
  imports_os_all nil = false
  imports_os_all (cons n ns) = imports_os n || imports_os_all ns

unfoldable pub any_file : (Node → Bool) → List Node → Bool
any_file f [] = false
any_file f (file ∷ files) = f file || any_file f files

mutual
  unfolding inspect check_import imports_os

  inspect-check_import :
      (n : Node) (found : Str × Bool) → (inspect check_import n found).1 ≡ (found.1 || imports_os n)
  inspect-check_import (node (call_expr fun) p ns) (pkg_name, seen) =
      ground (arith, inspect_all-check_import ns (pkg_name, seen))
  inspect-check_import (node (import_spec path name) p ns) (pkg_name, seen) =
      ground (arith, inspect_all-check_import ns (pkg_name, seen))
  inspect-check_import (node (func_decl name) p ns) (pkg_name, seen) =
      ground (arith, inspect_all-check_import ns (pkg_name, seen))
  inspect-check_import (node other p ns) (pkg_name, seen) =
      ground (arith, inspect_all-check_import ns (pkg_name, seen))

  inspect_all-check_import :
      (ns : Nodes) (found : Str × Bool)
      → (inspect_all check_import ns found).1 ≡ (found.1 || imports_os_all ns)
  inspect_all-check_import nil found = ground arith
  inspect_all-check_import (cons n ns) found = ground (
    arith,
    inspect-check_import n found,
    inspect_all-check_import ns (inspect check_import n found),
  )

pub files-check_import :
    (files : List Node) (found : Str × Bool)
    → (inspect_files check_import files found).1 ≡ (found.1 || any_file imports_os files)
unfolding inspect_files any_file
files-check_import [] found = ground arith
files-check_import (file ∷ files) found = ground (
  arith,
  inspect-check_import file found,
  files-check_import files (inspect check_import file found),
)

-- The names by which os is imported, where the walk comes by: below a node it goes only as long as
-- no import of os has been `seen`. An import without a name is one by the name os.
unfoldable mutual
  pub names_of : Bool → Node → List Str
  names_of seen (node (import_spec path name) p ns) =
      let below = names_of_all false ns in
      if path == str "\"os\""
      then (elim name [ none ↦ str "os" | some given ↦ given ]) ∷ []
      else if seen
      then []
      else below
  names_of seen (node (call_expr fun) p ns) =
      let below = names_of_all false ns in if seen then [] else below
  names_of seen (node (func_decl name) p ns) =
      let below = names_of_all false ns in if seen then [] else below
  names_of seen (node other p ns) = let below = names_of_all false ns in if seen then [] else below

  pub names_of_all : Bool → Nodes → List Str
  names_of_all seen nil = []
  names_of_all seen (cons n ns) = names_of seen n ++ names_of_all (seen || imports_os n) ns

unfoldable pub names_of_files : Bool → List Node → List Str
names_of_files seen [] = []
names_of_files seen (file ∷ files) =
    names_of seen file ++ names_of_files (seen || imports_os file) files

-- The last of the names, or the given one when there is none.
unfoldable pub last_of : Str → List Str → Str
last_of a [] = a
last_of a (name ∷ names) = last_of name names

last_of-append : (a : Str) (xs ys : List Str) → last_of a (xs ++ ys) ≡ last_of (last_of a xs) ys
unfolding last_of
last_of-append a [] ys = refl
last_of-append a (x ∷ xs) ys = last_of-append x xs ys

mutual
  unfolding inspect check_import names_of last_of

  inspect-names :
      (n : Node) (a : Str) (seen : Bool)
      → (inspect check_import n (a, seen)).0 ≡ last_of a (names_of seen n)
  inspect-names (node (call_expr fun) p ns) a true = refl
  inspect-names (node (call_expr fun) p ns) a false = inspect_all-names ns (a, false)
  inspect-names (node (import_spec path (some name)) p ns) a true = ground arith
  inspect-names (node (import_spec path none) p ns) a true = ground arith
  inspect-names (node (import_spec path (some name)) p ns) a false =
      ground (arith, inspect_all-names ns (a, false))
  inspect-names (node (import_spec path none) p ns) a false =
      ground (arith, inspect_all-names ns (a, false))
  inspect-names (node (func_decl name) p ns) a true = refl
  inspect-names (node (func_decl name) p ns) a false = inspect_all-names ns (a, false)
  inspect-names (node other p ns) a true = refl
  inspect-names (node other p ns) a false = inspect_all-names ns (a, false)

  inspect_all-names :
      (ns : Nodes) (found : Str × Bool)
      → (inspect_all check_import ns found).0 ≡ last_of found.0 (names_of_all found.1 ns)
  inspect_all-names nil found = refl
  inspect_all-names (cons n ns) found =
      let here = inspect-names n found.0 found.1 in
      let seen = inspect-check_import n found in
      inspect_all-names ns (inspect check_import n found) ∙ rw (here, seen, last_of-append) refl

pub files-names :
    (files : List Node) (found : Str × Bool)
    → (inspect_files check_import files found).0 ≡ last_of found.0 (names_of_files found.1 files)
unfolding inspect_files names_of_files last_of
files-names [] found = refl
files-names (file ∷ files) found =
    let here = inspect-names file found.0 found.1 in
    let seen = inspect-check_import file found in
    files-names files (inspect check_import file found) ∙ rw (here, seen, last_of-append) refl
