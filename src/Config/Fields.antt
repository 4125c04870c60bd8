-- ===== src/Config/Fields.antt =====
-- internal/config/config.go: the configuration and its fields, source over source.
use urlshortner.Prelude.{
  Str, str, ◌==◌, Bool, true, false, Option, none, some, List, [], ◌∷◌, if◌then◌else◌,
}
use urlshortner.GoStd.ParseBool.{parse_bool}

pub record Config : Type 0 where
  pub base_url : Str
  pub srv_addr : Str
  pub storage_path : Str
  pub db_dsn : Str
  pub ssl_path : Str
  pub trusted_subnet : Str
  pub use_tls : Bool
  pub use_grpc : Bool
  pub grpc_mode_set : Bool

abbrev pub empty_config : Config
empty_config = record {
  base_url = [];
  srv_addr = [];
  storage_path = [];
  db_dsn = [];
  ssl_path = [];
  trusted_subnet = [];
  use_tls = false;
  use_grpc = false;
  grpc_mode_set = false;
}

pub record PConfig : Type 0 where
  pub config : Config
  pub open config use *
  pub tls_mode_set : Bool

abbrev pub newp_config : PConfig
newp_config = record { config = empty_config; tls_mode_set = false }

-- `if v != "" { x = v }`.
abbrev pub replaced : Str → Str → Str
replaced [] old = old
replaced (b ∷ s) old = b ∷ s

-- One round of the loop of `fillCfg`; a source that is nil is passed over.
unfoldable pub overlay : Config → Option PConfig → Config
overlay cfg none = cfg
overlay cfg (some p) = record cfg {
  srv_addr = replaced p.srv_addr cfg.srv_addr;
  base_url = replaced p.base_url cfg.base_url;
  storage_path = replaced p.storage_path cfg.storage_path;
  db_dsn = replaced p.db_dsn cfg.db_dsn;
  ssl_path = replaced p.ssl_path cfg.ssl_path;
  trusted_subnet = replaced p.trusted_subnet cfg.trusted_subnet;
  use_tls = if p.tls_mode_set then p.use_tls else cfg.use_tls;
}

unfoldable pub set_defaults : Config → Config
set_defaults c = record c {
  srv_addr = replaced c.srv_addr (str "localhost:8080");
  base_url = replaced c.base_url (str "http://localhost:8080");
  ssl_path = replaced c.ssl_path (str "./etc/ssl");
}

unfoldable pub overlay_all : Config → List (Option PConfig) → Config
overlay_all cfg [] = cfg
overlay_all cfg (p ∷ ps) = overlay_all (overlay cfg p) ps

unfoldable pub fill_cfg : List (Option PConfig) → Config
fill_cfg configs = set_defaults (overlay_all empty_config configs)

-- `setTLSMode` and `setGrpcMode`: a value that is no Boolean is logged and changes nothing.
abbrev tls_mode : Option Bool → PConfig → PConfig
tls_mode none pc = pc
tls_mode (some on) pc = record { config = record pc.config { use_tls = on }; tls_mode_set = true }

unfoldable pub set_tls_mode : Str → PConfig → PConfig
set_tls_mode v pc = if v == [] then pc else tls_mode (parse_bool v) pc

abbrev grpc_mode : Option Bool → PConfig → PConfig
grpc_mode none pc = pc
grpc_mode (some on) pc = record pc {
  config = record pc.config { use_grpc = on; grpc_mode_set = true };
}

unfoldable pub set_grpc_mode : Str → PConfig → PConfig
set_grpc_mode v pc = if v == [] then pc else grpc_mode (parse_bool v) pc
