-- ===== src/Config.antt =====
-- internal/config: the configuration, put together from a JSON file, the environment and the
-- command line (config.go, funcoptions.go).
-- The command line, the environment and the file system of the process are parameters.
mod Fields
mod Sources
pub mod Flags
pub mod Priority
pub mod CommandLine
unfoldable pub use Fields.*
unfoldable pub use Sources.*
use urlshortner.Prelude.{
  Str, str, SyncMap, ◌==◌, Bool, false, true, not, ◌&&◌, Option, none, some, List, [], ◌∷◌,
  if◌then◌else◌,
}

pub record ConfigOptions : Type 0 where
  pub os_args : List Str
  pub env_vars : SyncMap Str
  pub ignore_os_args : Bool
  pub ignore_cfg_file : Bool
  pub file_path : Str

abbrev pub ConfigOption : Type 0
ConfigOption = ConfigOptions → ConfigOptions

unfoldable pub with_os_args : List Str → ConfigOption
with_os_args os_args o = record o { os_args = os_args }

unfoldable pub with_env_vars : SyncMap Str → ConfigOption
with_env_vars env_vars o = record o { env_vars = env_vars }

unfoldable pub ignore_os_args : ConfigOption
ignore_os_args o = record o { ignore_os_args = true }

unfoldable pub with_file : Str → ConfigOption
with_file path o = record o { file_path = path }

-- The process: its arguments, its environment, and its files.
module _ (os_args : List Str) (getenv : Str → Str) (files : Files) where
  default_env : SyncMap Str
  default_env =
      (str "BASE_URL", getenv (str "BASE_URL"))
      ∷ (str "SERVER_ADDRESS", getenv (str "SERVER_ADDRESS"))
      ∷ (str "FILE_STORAGE_PATH", getenv (str "FILE_STORAGE_PATH"))
      ∷ (str "DATABASE_DSN", getenv (str "DATABASE_DSN"))
      ∷ (str "ENABLE_HTTPS", getenv (str "ENABLE_HTTPS"))
      ∷ (str "SSL_PATH", getenv (str "SSL_PATH"))
      ∷ (str "CONFIG", getenv (str "CONFIG"))
      ∷ []

  abbrev apply_options : List ConfigOption → ConfigOptions → ConfigOptions
  apply_options [] o = o
  apply_options (f ∷ fs) o = apply_options fs (f o)

  unfoldable pub set_config_options : List ConfigOption → ConfigOptions
  unfolding default_env
  set_config_options opts =
      let o = apply_options opts (record {
        os_args = os_args;
        env_vars = default_env;
        ignore_os_args = false;
        ignore_cfg_file = false;
        file_path = [];
      }) in
      record o { file_path = replaced (env_value o.env_vars "CONFIG") o.file_path }

  -- The sources of `New` in the order of their priorities: the file, the environment, the command
  -- line. The command line may name the file.
  sources : ConfigOptions → List (Option PConfig)
  sources o =
      let from_line = from_args o.os_args o.file_path in
      let file_path = if o.ignore_os_args then o.file_path else from_line.1 in
      (if not o.ignore_cfg_file && not (file_path == [])
        then some (from_file (parse_file files file_path))
        else none)
      ∷ some (from_env o.env_vars)
      ∷ (if o.ignore_os_args then none else some from_line.0)
      ∷ []

  unfoldable pub new : List ConfigOption → Config
  unfolding sources
  new opts = fill_cfg (sources (set_config_options opts))
