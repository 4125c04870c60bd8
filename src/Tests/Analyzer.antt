-- ===== src/Tests/Analyzer.antt =====
-- The analyzer of calls of os.Exit on small files.
use urlshortner.Prelude.{ℕ, str, ◌==◌, ◌≡◌, refl, false, ◌&&◌, some, [], ◌∷◌, if◌then◌else◌}
use urlshortner.Staticlint.Osexitcheck.{
  selector, other_callee, call_expr, import_spec, func_decl, other, Node, node, Nodes, nil, cons,
  inspect, check_func, check_main, is_exit, check_import, inspect_files, run,
}
use urlshortner.Staticlint.Osexitcheck.Imports.{any_file, imports_os, last_of, names_of_files}
use urlshortner.Staticlint.Osexitcheck.Reports.{over_files, main_exits, run_lem}

abbrev one : Node → Nodes
one n = cons n nil

-- `import os1 "os"`.
abbrev named_import : Node
named_import = node (import_spec (str "\"os\"") (some (str "os1"))) 1 nil

-- `os1.Exit(1)` at a position.
abbrev exit_call : ℕ → Node
exit_call p = node (call_expr (selector (some (str "os1")) (str "Exit"))) p nil

-- A file with the import, `func main` with a call of `Exit`, and one in an argument of another call,
-- and another function with a call of `Exit`.
abbrev file : Node
file = node other 0 (
    cons named_import (
      cons
        (node (func_decl (str "main")) 2
          (cons (exit_call 3) (one (node (call_expr other_callee) 4 (one (exit_call 5))))))
        (one (node (func_decl (str "a")) 6 (one (exit_call 7))))))

-- The call in the argument is missed.
reported_test : run (str "main") (file ∷ []) ≡ 3 ∷ []
unfolding run inspect_files inspect check_import check_main check_func is_exit ◌==◌
reported_test = refl

run_lem_example : run (str "main") (file ∷ []) ≡ (
    if str "main" == str "main" && any_file imports_os (file ∷ [])
    then over_files (main_exits (last_of [] (names_of_files false (file ∷ [])))) (file ∷ [])
    else [])
run_lem_example = run_lem (str "main") (file ∷ [])
