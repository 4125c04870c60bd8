-- ===== src/Tests/Config.antt =====
-- The configuration on concrete inputs.
use urlshortner.Prelude.{Str, str, ◌≡◌, true, false, Option, none, some, List, [], ◌∷◌}
use urlshortner.Config.{Files, FileStruct, PConfig, empty_config, fill_cfg, bound_args, unbound}
use urlshortner.Storage.Errors.{message}
use urlshortner.Config.Priority.{first_given, given, tls_given, fill_cfg_lem}
use urlshortner.Config.CommandLine.{Setting, assign_all, command_line, bound_args-command_line}

-- What the three sources say: the file of the address, the environment of TLS, and the command line
-- of the base.
abbrev from_the_file : Option PConfig
from_the_file =
    some (record { config = record empty_config { srv_addr = str ":80" }; tls_mode_set = false })

abbrev from_the_env : Option PConfig
from_the_env =
    some (record { config = record empty_config { use_tls = true }; tls_mode_set = true })

abbrev from_the_line : Option PConfig
from_the_line =
    some
      (record { config = record empty_config { base_url = str "http://s" }; tls_mode_set = false })

fill_cfg_lem_example :
    (let c = fill_cfg (from_the_file ∷ from_the_env ∷ from_the_line ∷ []) in
      let first = λ (field : PConfig → Str) (default : Str).
        first_given
          (given field from_the_line ∷ given field from_the_env ∷ given field from_the_file ∷ [])
          default in
      (c.srv_addr ≡ first (λ p. p.config.srv_addr) (str "localhost:8080"))
      × (c.base_url ≡ first (λ p. p.config.base_url) (str "http://localhost:8080"))
      × (c.ssl_path ≡ first (λ p. p.config.ssl_path) (str "./etc/ssl"))
      × (c.storage_path ≡ first (λ p. p.config.storage_path) [])
      × (c.db_dsn ≡ first (λ p. p.config.db_dsn) [])
      × (c.trusted_subnet ≡ first (λ p. p.config.trusted_subnet) [])
      × (c.use_tls
          ≡ tls_given from_the_line (tls_given from_the_env (tls_given from_the_file false)))
      × (c.use_grpc ≡ false))
fill_cfg_lem_example = fill_cfg_lem from_the_file from_the_env from_the_line

abbrev empty_file : FileStruct
empty_file = record {
  server_address = [];
  base_url = [];
  file_storage_path = [];
  database_dsn = [];
  trusted_subnet = [];
  enable_https = false;
  ssl_path = [];
  use_grpc = false;
}

-- There is no file.
abbrev pub no_file : Files
no_file = record {
  open_file = λ path. ([], some (message (str "no such file or directory")));
  decode = λ text. (empty_file, none);
}

-- A base that looks like a flag, and the address twice.
abbrev settings : List (Setting × Str)
settings = (Setting.base, str "-a") ∷ (Setting.addr, str ":80") ∷ (Setting.addr, str ":81") ∷ []

bound_args-command_line_example :
    bound_args (command_line settings) [] ≡ assign_all settings (unbound [])
bound_args-command_line_example = bound_args-command_line settings []
