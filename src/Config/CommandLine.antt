-- ===== src/Config/CommandLine.antt =====
-- A command line that gives each flag with its value in the next argument.
use urlshortner.Prelude.{Str, str, ◌==◌, ◌≡◌, refl, none, some, List, [], ◌∷◌}
use urlshortner.Config.Flags.{read_arg, flag, parse_flags}
use urlshortner.Config.{Bound, unbound, set_flag, bound_args}

-- The flags of the program.
pub data Setting : Type 0 where
  base addr storage dsn subnet ssl file config tls grpc : Setting

name : Setting → Str
name base = str "b"
name addr = str "a"
name storage = str "f"
name dsn = str "d"
name subnet = str "t"
name ssl = str "p"
name file = str "c"
name config = str "config"
name tls = str "s"
name grpc = str "r"

-- The variable that a flag stands for.
abbrev pub assign : Setting → Str → Bound → Bound
assign base v b = record b { base_url = v }
assign addr v b = record b { srv_addr = v }
assign storage v b = record b { storage_path = v }
assign dsn v b = record b { db_dsn = v }
assign subnet v b = record b { trusted_subnet = v }
assign ssl v b = record b { ssl_path = v }
assign file v b = record b { file_path = v }
assign config v b = record b { file_path = v }
assign tls v b = record b { use_tls = v }
assign grpc v b = record b { use_grpc = v }

unfoldable pub assign_all : List (Setting × Str) → Bound → Bound
assign_all [] b = b
assign_all ((f, v) ∷ rest) b = assign_all rest (assign f v b)

-- `-name value` for each setting.
unfoldable pub command_line : List (Setting × Str) → List Str
unfolding name
command_line [] = []
command_line ((f, v) ∷ rest) = (b'-' ∷ name f) ∷ v ∷ command_line rest

read_arg-name : (f : Setting) → read_arg (b'-' ∷ name f) ≡ flag (name f) none
unfolding name read_arg
read_arg-name base = refl
read_arg-name config = refl
read_arg-name _ = refl

set_flag-name : (f : Setting) (v : Str) (b : Bound) → set_flag (name f) v b ≡ some (assign f v b)
unfolding name set_flag ◌==◌
set_flag-name base v b = refl
set_flag-name _ v b = refl

parse_flags-command_line :
    (settings : List (Setting × Str)) (b : Bound)
    → parse_flags set_flag (command_line settings) b ≡ assign_all settings b
unfolding parse_flags command_line assign_all
parse_flags-command_line [] b = refl
parse_flags-command_line ((f, v) ∷ rest) b =
    rw (read_arg-name f, set_flag-name f v b, parse_flags)
      (parse_flags-command_line rest (assign f v b))

-- Every setting of such a command line reaches its variable, a later one in the place of an earlier
-- one, whatever the values are: a value may be empty or look like a flag.
pub bound_args-command_line :
    (settings : List (Setting × Str)) (file_path : Str)
    → bound_args (command_line settings) file_path ≡ assign_all settings (unbound file_path)
unfolding bound_args
bound_args-command_line settings file_path = parse_flags-command_line settings (unbound file_path)
