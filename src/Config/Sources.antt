-- ===== src/Config/Sources.antt =====
-- internal/config/config.go: the sources of the configuration: the environment, the command line and
-- the JSON file.
use urlshortner.Prelude.{
  Str, str, SyncMap, load, ◌==◌, String, Option, none, some, List, [], if◌then◌else◌, true, Bool,
}
use urlshortner.Storage.Errors.{Error}
use urlshortner.Config.Flags.{parse_flags}
use urlshortner.Config.Fields.{PConfig, empty_config, newp_config, set_tls_mode, set_grpc_mode}

-- A lookup in a Go map: a key that is not there reads "".
abbrev or_empty : Option Str → Str
or_empty none = []
or_empty (some v) = v

unfoldable pub env_value : SyncMap Str → String → Str
env_value env_vars name = or_empty (load (str name) env_vars)

unfoldable pub from_env : SyncMap Str → PConfig
from_env env_vars =
    let pc : PConfig = record newp_config {
      config = record empty_config {
        base_url = env_value env_vars "BASE_URL";
        srv_addr = env_value env_vars "SERVER_ADDRESS";
        storage_path = env_value env_vars "FILE_STORAGE_PATH";
        db_dsn = env_value env_vars "DATABASE_DSN";
        trusted_subnet = env_value env_vars "TRUSTED_SUBNET";
        ssl_path = env_value env_vars "SSL_PATH";
      };
    } in
    set_grpc_mode (env_value env_vars "USE_GRPC")
      (set_tls_mode (env_value env_vars "ENABLE_HTTPS") pc)

-- The variables that `fromArgs` binds to flags, `filePath` of the caller among them.
pub record Bound : Type 0 where
  pub base_url : Str
  pub srv_addr : Str
  pub storage_path : Str
  pub db_dsn : Str
  pub trusted_subnet : Str
  pub ssl_path : Str
  pub file_path : Str
  pub use_tls : Str
  pub use_grpc : Str

-- `Set` on the flag of that name; `none` for a flag that is not defined.
unfoldable pub set_flag : Str → Str → Bound → Option Bound
set_flag name v b =
    if name == str "b"
    then some (record b { base_url = v })
    else if name == str "a"
    then some (record b { srv_addr = v })
    else if name == str "f"
    then some (record b { storage_path = v })
    else if name == str "d"
    then some (record b { db_dsn = v })
    else if name == str "t"
    then some (record b { trusted_subnet = v })
    else if name == str "p"
    then some (record b { ssl_path = v })
    else if name == str "c"
    then some (record b { file_path = v })
    else if name == str "config"
    then some (record b { file_path = v })
    else if name == str "s"
    then some (record b { use_tls = v })
    else if name == str "r"
    then some (record b { use_grpc = v })
    else none

abbrev pub unbound : Str → Bound
unbound file_path = record {
  base_url = [];
  srv_addr = [];
  storage_path = [];
  db_dsn = [];
  trusted_subnet = [];
  ssl_path = [];
  file_path = file_path;
  use_tls = [];
  use_grpc = [];
}

-- What `Parse` leaves in the variables, also where it stops at an error, which is dropped.
unfoldable pub bound_args : List Str → Str → Bound
bound_args os_args file_path = parse_flags set_flag os_args (unbound file_path)

unfoldable pub from_args : List Str → Str → PConfig × Str
from_args os_args file_path =
    let b = bound_args os_args file_path in
    let pc : PConfig = record newp_config {
      config = record empty_config {
        base_url = b.base_url;
        srv_addr = b.srv_addr;
        storage_path = b.storage_path;
        db_dsn = b.db_dsn;
        trusted_subnet = b.trusted_subnet;
        ssl_path = b.ssl_path;
      };
    } in
    (set_grpc_mode b.use_grpc (set_tls_mode b.use_tls pc), b.file_path)

pub record FileStruct : Type 0 where
  pub server_address : Str
  pub base_url : Str
  pub file_storage_path : Str
  pub database_dsn : Str
  pub trusted_subnet : Str
  pub enable_https : Bool
  pub ssl_path : Str
  pub use_grpc : Bool

-- The file system, by the contents of the files, and `json.Decoder`: the struct that it fills, from its
-- zero value.
pub record Files : Type 0 where
  pub open_file : Str → Str × Option Error
  pub decode : Str → FileStruct × Option Error

module _ (files : Files) where
  decoded : FileStruct × Option Error → Option FileStruct × Option Error
  decoded (parsed, some e) = (none, some e)
  decoded (parsed, none) = (some parsed, none)

  opened : Str × Option Error → Option FileStruct × Option Error
  unfolding decoded
  opened (text, some e) = (none, some e)
  opened (text, none) = decoded (files.decode text)

  unfoldable pub parse_file : Str → Option FileStruct × Option Error
  unfolding opened
  parse_file p = opened (files.open_file p)

-- `fromFile`, from what `parseFile` returns; a file that cannot be read is logged.
unfoldable pub from_file : Option FileStruct × Option Error → PConfig
from_file (parsed, some e) = newp_config
from_file (none, none) = newp_config
from_file (some file, none) = record {
  config = record {
    base_url = file.base_url;
    db_dsn = file.database_dsn;
    srv_addr = file.server_address;
    storage_path = file.file_storage_path;
    use_tls = file.enable_https;
    ssl_path = file.ssl_path;
    trusted_subnet = file.trusted_subnet;
    use_grpc = file.use_grpc;
    grpc_mode_set = true;
  };
  tls_mode_set = true;
}
