-- ===== src/Config/Flags.antt =====
-- The package `flag`, for a flag set whose flags are all strings: `Parse` under `ContinueOnError`.
use urlshortner.Prelude.{Str, nat_eq, ◌||◌, Option, none, some, List, [], ◌∷◌, if◌then◌else◌}

-- `name=value` is cut at the first `=` behind the first byte.
cut_value : Str → Str × Option Str
cut_value [] = ([], none)
cut_value (b ∷ s) =
    let rest = cut_value s in if nat_eq b b'=' then ([], some s) else (b ∷ rest.0, rest.1)

pub data Arg : Type 0 where
  -- No flag: the parsing ends.
  operand : Arg
  -- `bad flag syntax`.
  malformed : Arg
  flag : Str → Option Str → Arg

named : Str → Arg
unfolding cut_value
named [] = malformed
named (b ∷ s) =
    if nat_eq b b'-' || nat_eq b b'='
    then malformed
    else let cut = cut_value s in flag (b ∷ cut.0) cut.1

-- The first argument: one or two dashes, and a name.
unfoldable pub read_arg : Str → Arg
unfolding named
read_arg [] = operand
read_arg (a ∷ []) = operand
read_arg (a ∷ b ∷ s) =
    if nat_eq a b'-'
    then (if nat_eq b b'-'
        then (elim s [ [] ↦ operand | c ∷ t ↦ named (c ∷ t) ])
        else named (b ∷ s))
    else operand

-- The variables after `Parse`; an error ends the parsing and keeps what was set before.
module _ {B : Type 0} (set : Str → Str → B → Option B) where
  abbrev or_keep : Option B → B → B
  or_keep none b = b
  or_keep (some b') b = b'

  unfoldable pub parse_flags : List Str → B → B
  parse_flags [] b = b
  parse_flags (arg ∷ []) b = elim (read_arg arg) [
    | flag name (some v) ↦ or_keep (set name v b) b
    | _ ↦ b
  ]
  parse_flags (arg ∷ next ∷ rest) b = elim (read_arg arg) [
    | flag name (some v) ↦ elim (set name v b) [ none ↦ b | some b' ↦ parse_flags (next ∷ rest) b' ]
    | flag name none ↦ elim (set name next b) [ none ↦ b | some b' ↦ parse_flags rest b' ]
    | _ ↦ b
  ]
