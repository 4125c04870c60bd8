-- ===== src/Staticlint/Osexitcheck.antt =====
-- cmd/staticlint/osexitcheck/osexitcheck.go: the analyzer that reports calls of os.Exit in main.
-- A file of `go/ast` is a tree of nodes, of which the analyzer tells three kinds apart.
pub mod Imports
pub mod Reports
use urlshortner.Prelude.{
  ℕ, Str, str, ◌==◌, Bool, true, false, not, ◌&&◌, Option, none, some, List, [], ◌∷◌, ◌++◌,
  if◌then◌else◌,
}

-- `fcall.Fun`: a selector with its name, and the name of the identifier that it selects from, if it
-- is one.
pub data Callee : Type 0 where
  selector : Option Str → Str → Callee
  other_callee : Callee

pub data Kind : Type 0 where
  call_expr : Callee → Kind
  -- The path, with its quotes, and the name that the import is given.
  import_spec : Str → Option Str → Kind
  func_decl : Str → Kind
  other : Kind

-- A node with its position and its children, in the order of `ast.Inspect`.
mutual
  pub data Node : Type 0 where
    node : Kind → ℕ → Nodes → Node

  pub data Nodes : Type 0 where
    nil : Nodes
    cons : Node → Nodes → Nodes

-- `ast.Inspect` with a function that may change variables: the children are visited if it says so.
unfoldable mutual
  pub inspect : {V : Type 0} → (Kind → ℕ → Nodes → V → Bool × V) → Node → V → V
  inspect f (node k p ns) v =
      let rest = inspect_all f ns (f k p ns v).1 in if (f k p ns v).0 then rest else (f k p ns v).1

  pub inspect_all : {V : Type 0} → (Kind → ℕ → Nodes → V → Bool × V) → Nodes → V → V
  inspect_all f nil v = v
  inspect_all f (cons n ns) v = inspect_all f ns (inspect f n v)

abbrev is_ident : Str → Option Str → Bool
is_ident pkg_name none = false
is_ident pkg_name (some x) = x == pkg_name

unfoldable pub is_exit : Str → Callee → Bool
is_exit pkg_name (selector x sel) = sel == str "Exit" && is_ident pkg_name x
is_exit pkg_name other_callee = false

-- `checkFunc`, over the positions that are reported.
unfoldable pub check_func : Str → Kind → ℕ → Nodes → List ℕ → Bool × List ℕ
check_func pkg_name (call_expr fun) p ns reports =
    (false, if is_exit pkg_name fun then reports ++ p ∷ [] else reports)
check_func pkg_name (import_spec path name) p ns reports = (true, reports)
check_func pkg_name (func_decl name) p ns reports = (true, reports)
check_func pkg_name other p ns reports = (true, reports)

-- `importer.Name.String()`, or "os".
abbrev pub alias_of : Option Str → Str
alias_of none = str "os"
alias_of (some name) = name

-- The function of the first loop, over `pkgName` and `osImported`.
unfoldable pub check_import : Kind → ℕ → Nodes → Str × Bool → Bool × (Str × Bool)
check_import (import_spec path name) p ns (pkg_name, os_imported) =
    if path == str "\"os\""
    then (false, (alias_of name, true))
    else (not os_imported, (pkg_name, os_imported))
check_import (call_expr fun) p ns (pkg_name, os_imported) =
    (not os_imported, (pkg_name, os_imported))
check_import (func_decl name) p ns (pkg_name, os_imported) =
    (not os_imported, (pkg_name, os_imported))
check_import other p ns (pkg_name, os_imported) = (not os_imported, (pkg_name, os_imported))

-- The function of the second loop.
unfoldable pub check_main : Str → Kind → ℕ → Nodes → List ℕ → Bool × List ℕ
check_main pkg_name (func_decl name) p ns reports =
    if name == str "main"
    then (false, inspect (check_func pkg_name) (node (func_decl name) p ns) reports)
    else (true, reports)
check_main pkg_name (call_expr fun) p ns reports = (true, reports)
check_main pkg_name (import_spec path name) p ns reports = (true, reports)
check_main pkg_name other p ns reports = (true, reports)

-- A loop over the files.
unfoldable pub inspect_files : {V : Type 0} → (Kind → ℕ → Nodes → V → Bool × V) → List Node → V → V
inspect_files f [] v = v
inspect_files f (file ∷ files) v = inspect_files f files (inspect f file v)

-- `run`: the positions that are reported, in their order.
unfoldable pub run : Str → List Node → List ℕ
run pkg files =
    if not (pkg == str "main")
    then []
    else let found = inspect_files check_import files ([], false) in
      if not found.1 then [] else inspect_files (check_main found.0) files []
