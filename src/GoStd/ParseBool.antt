-- ===== src/GoStd/ParseBool.antt =====
-- `strconv.ParseBool`, and `fmt.Sprintf("%t", …)`.
use urlshortner.Prelude.{
  Str, str, contains, ◌==◌, ◌≡◌, refl, Bool, true, false, Option, none, some, [], ◌∷◌,
  if◌then◌else◌,
}

-- The spellings that `ParseBool` takes for each value; `none` is its error.
unfoldable pub parse_bool : Str → Option Bool
unfolding contains ◌==◌
parse_bool s =
    if contains s (str "1" ∷ str "t" ∷ str "T" ∷ str "true" ∷ str "TRUE" ∷ str "True" ∷ [])
    then some true
    else if contains s (str "0" ∷ str "f" ∷ str "F" ∷ str "false" ∷ str "FALSE" ∷ str "False" ∷ [])
    then some false
    else none

unfoldable pub format_bool : Bool → Str
format_bool true = str "true"
format_bool false = str "false"

pub parse_bool-format_bool : (b : Bool) → parse_bool (format_bool b) ≡ some b
unfolding parse_bool format_bool ◌==◌
parse_bool-format_bool true = refl
parse_bool-format_bool false = refl
