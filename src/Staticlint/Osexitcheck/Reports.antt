-- ===== src/Staticlint/Osexitcheck/Reports.antt =====
-- What the analyzer of cmd/staticlint/osexitcheck/osexitcheck.go reports, by plain recursion.
use urlshortner.Prelude.{
  ℕ, Str, str, ◌==◌, Bool, false, ◌&&◌, none, some, ◌≡◌, ◌∙◌, sym, refl, List, [], ◌∷◌, ◌++◌,
  Bool-cases, inl, inr, arith, if◌then◌else◌,
}
use mathlib.Core.List.{append_assoc, append-nil}
use urlshortner.Staticlint.Osexitcheck.{
  call_expr, import_spec, func_decl, other, Node, node, Nodes, nil, cons, inspect, inspect_all,
  Callee, selector, other_callee, is_exit, check_func, check_import, check_main, inspect_files, run,
}
use urlshortner.Staticlint.Osexitcheck.Imports.{
  imports_os, any_file, files-check_import, last_of, names_of_files, files-names,
}

-- The call is one of `<alias>.Exit`.
abbrev exits_by : Str → Callee → Bool
exits_by alias other_callee = false
exits_by alias (selector none name) = false
exits_by alias (selector (some x) name) = (x == alias) && (name == str "Exit")

is_exit-exits_by : (alias : Str) (fun : Callee) → is_exit alias fun ≡ exits_by alias fun
unfolding is_exit
is_exit-exits_by alias other_callee = refl
is_exit-exits_by alias (selector none name) = ground arith
is_exit-exits_by alias (selector (some x) name) = ground arith

-- The calls of `Exit` that stand under no other call.
unfoldable mutual
  pub exits : Str → Node → List ℕ
  exits pkg_name (node (call_expr fun) p ns) = if exits_by pkg_name fun then p ∷ [] else []
  exits pkg_name (node (import_spec path name) p ns) = exits_all pkg_name ns
  exits pkg_name (node (func_decl name) p ns) = exits_all pkg_name ns
  exits pkg_name (node other p ns) = exits_all pkg_name ns

  pub exits_all : Str → Nodes → List ℕ
  exits_all pkg_name nil = []
  exits_all pkg_name (cons n ns) = exits pkg_name n ++ exits_all pkg_name ns

-- Those in the declarations named main, methods included.
unfoldable mutual
  pub main_exits : Str → Node → List ℕ
  main_exits pkg_name (node (func_decl name) p ns) =
      let inner = main_exits_all pkg_name ns in
      if name == str "main" then exits_all pkg_name ns else inner
  main_exits pkg_name (node (call_expr fun) p ns) = main_exits_all pkg_name ns
  main_exits pkg_name (node (import_spec path name) p ns) = main_exits_all pkg_name ns
  main_exits pkg_name (node other p ns) = main_exits_all pkg_name ns

  pub main_exits_all : Str → Nodes → List ℕ
  main_exits_all pkg_name nil = []
  main_exits_all pkg_name (cons n ns) = main_exits pkg_name n ++ main_exits_all pkg_name ns

unfoldable pub over_files : (Node → List ℕ) → List Node → List ℕ
over_files f [] = []
over_files f (file ∷ files) = f file ++ over_files f files

mutual
  unfolding inspect check_func exits

  inspect-check_func :
      (pkg_name : Str) (n : Node) (acc : List ℕ)
      → inspect (check_func pkg_name) n acc ≡ acc ++ exits pkg_name n
  inspect-check_func pkg_name (node (call_expr fun) p ns) acc =
      rw (is_exit-exits_by pkg_name fun) (elim (Bool-cases (exits_by pkg_name fun)) [
        | inl exit ↦ rw exit refl
        | inr no_exit ↦ rw no_exit (sym (append-nil acc))
      ])
  inspect-check_func pkg_name (node (import_spec path name) p ns) acc =
      inspect_all-check_func pkg_name ns acc
  inspect-check_func pkg_name (node (func_decl name) p ns) acc =
      inspect_all-check_func pkg_name ns acc
  inspect-check_func pkg_name (node other p ns) acc = inspect_all-check_func pkg_name ns acc

  inspect_all-check_func :
      (pkg_name : Str) (ns : Nodes) (acc : List ℕ)
      → inspect_all (check_func pkg_name) ns acc ≡ acc ++ exits_all pkg_name ns
  inspect_all-check_func pkg_name nil acc = sym (append-nil acc)
  inspect_all-check_func pkg_name (cons n ns) acc =
      inspect_all-check_func pkg_name ns (inspect (check_func pkg_name) n acc)
      ∙ rw (inspect-check_func pkg_name n acc)
          (append_assoc acc (exits pkg_name n) (exits_all pkg_name ns))

mutual
  unfolding inspect check_main main_exits exits

  inspect-check_main :
      (pkg_name : Str) (n : Node) (acc : List ℕ)
      → inspect (check_main pkg_name) n acc ≡ acc ++ main_exits pkg_name n
  inspect-check_main pkg_name (node (func_decl name) p ns) acc =
      elim (Bool-cases (name == str "main")) [
        | inl main ↦ rw main (inspect-check_func pkg_name (node (func_decl name) p ns) acc)
        | inr no_main ↦ rw no_main (inspect_all-check_main pkg_name ns acc)
      ]
  inspect-check_main pkg_name (node (call_expr fun) p ns) acc =
      inspect_all-check_main pkg_name ns acc
  inspect-check_main pkg_name (node (import_spec path name) p ns) acc =
      inspect_all-check_main pkg_name ns acc
  inspect-check_main pkg_name (node other p ns) acc = inspect_all-check_main pkg_name ns acc

  inspect_all-check_main :
      (pkg_name : Str) (ns : Nodes) (acc : List ℕ)
      → inspect_all (check_main pkg_name) ns acc ≡ acc ++ main_exits_all pkg_name ns
  inspect_all-check_main pkg_name nil acc = sym (append-nil acc)
  inspect_all-check_main pkg_name (cons n ns) acc =
      inspect_all-check_main pkg_name ns (inspect (check_main pkg_name) n acc)
      ∙ rw (inspect-check_main pkg_name n acc)
          (append_assoc acc (main_exits pkg_name n) (main_exits_all pkg_name ns))

files-check_main :
    (pkg_name : Str) (files : List Node) (acc : List ℕ)
    → inspect_files (check_main pkg_name) files acc ≡ acc ++ over_files (main_exits pkg_name) files
unfolding inspect_files over_files
files-check_main pkg_name [] acc = sym (append-nil acc)
files-check_main pkg_name (file ∷ files) acc =
    files-check_main pkg_name files (inspect (check_main pkg_name) file acc)
    ∙ rw (inspect-check_main pkg_name file acc) (append_assoc acc (main_exits pkg_name file) _)

-- The analyzer reports, in a package main of which a file imports os, the calls of `Exit` that
-- stand in a declaration named main and under no other call, each once and in their order. They are
-- those from the one name that it takes os by: the name of the last import of os that its walk comes
-- by, and below a node that walk ends with the first import of os of the package. In any other
-- package it reports nothing.
pub run_lem :
    (pkg : Str) (files : List Node)
    → run pkg files ≡ (
        if pkg == str "main" && any_file imports_os files
        then over_files (main_exits (last_of [] (names_of_files false files))) files
        else [])
unfolding run
run_lem pkg files = ground (
  arith,
  files-check_import files ([], false),
  files-names files ([], false),
  files-check_main (inspect_files check_import files ([], false)).0 files [],
)
