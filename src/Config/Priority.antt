-- ===== src/Config/Priority.antt =====
-- Which source decides each field of the configuration.
use urlshortner.Prelude.{
  Str, str, SyncMap, load, ◌==◌, not, ◌≡◌, ◌∙◌, ap, refl, Bool, false, Option, none, some, List, [],
  ◌∷◌, arith, if◌then◌else◌,
}
use urlshortner.Config.{
  Config, PConfig, empty_config, replaced, overlay, overlay_all, set_defaults, fill_cfg, new,
  sources, set_config_options, env_value, from_env, from_args, from_file, parse_file, set_tls_mode,
  set_grpc_mode, ConfigOption, Files,
}

-- A field of a source; a source that is nil gives none.
abbrev pub given : (PConfig → Str) → Option PConfig → Str
given field none = []
given field (some p) = field p

-- The first text that is not empty, or the default.
abbrev pub first_given : List Str → Str → Str
first_given [] default = default
first_given (x ∷ xs) default = replaced x (first_given xs default)

-- The field of the last source that gives one, or the default.
unfoldable pub decided : (PConfig → Str) → List (Option PConfig) → Str → Str
decided field [] default = default
decided field (none ∷ ps) default = decided field ps default
decided field (some p ∷ ps) default = decided field ps (replaced (field p) default)

unfoldable pub tls_decided : List (Option PConfig) → Bool → Bool
tls_decided [] default = default
tls_decided (none ∷ ps) default = tls_decided ps default
tls_decided (some p ∷ ps) default =
    tls_decided ps (if p.tls_mode_set then p.config.use_tls else default)

overlay_all_fields :
    (ps : List (Option PConfig)) (c : Config)
    → (let r = overlay_all c ps in
        (r.srv_addr ≡ decided (λ p. p.config.srv_addr) ps c.srv_addr)
        × (r.base_url ≡ decided (λ p. p.config.base_url) ps c.base_url)
        × (r.storage_path ≡ decided (λ p. p.config.storage_path) ps c.storage_path)
        × (r.db_dsn ≡ decided (λ p. p.config.db_dsn) ps c.db_dsn)
        × (r.ssl_path ≡ decided (λ p. p.config.ssl_path) ps c.ssl_path)
        × (r.trusted_subnet ≡ decided (λ p. p.config.trusted_subnet) ps c.trusted_subnet)
        × (r.use_tls ≡ tls_decided ps c.use_tls)
        × (r.use_grpc ≡ c.use_grpc))
unfolding overlay_all overlay decided tls_decided
overlay_all_fields [] c = (refl, refl, refl, refl, refl, refl, refl, refl)
overlay_all_fields (none ∷ ps) c = overlay_all_fields ps c
overlay_all_fields (some p ∷ ps) c = overlay_all_fields ps (overlay c (some p))

replaced-nil : (x : Str) → replaced x [] ≡ x
replaced-nil [] = refl
replaced-nil (b ∷ x) = refl

replaced_assoc : (x y z : Str) → replaced (replaced x y) z ≡ replaced x (replaced y z)
replaced_assoc [] y z = refl
replaced_assoc (b ∷ x) y z = refl

decided-given :
    (field : PConfig → Str) (p : Option PConfig) (ps : List (Option PConfig)) (default : Str)
    → decided field (p ∷ ps) default ≡ decided field ps (replaced (given field p) default)
unfolding decided
decided-given field none ps default = refl
decided-given field (some p) ps default = refl

decided-nil : (field : PConfig → Str) (default : Str) → decided field [] default ≡ default
unfolding decided
decided-nil field default = refl

module _ (field : PConfig → Str) (file env line : Option PConfig) where
  decided-first :
      decided field (file ∷ env ∷ line ∷ []) []
      ≡ first_given (given field line ∷ given field env ∷ given field file ∷ []) []
  decided-first = simp (decided-given, decided-nil)

  defaulted-first :
      (default : Str)
      → replaced (decided field (file ∷ env ∷ line ∷ []) []) default
        ≡ first_given (given field line ∷ given field env ∷ given field file ∷ []) default
  defaulted-first default = simp (decided-given, decided-nil, replaced_assoc)

-- The mode of TLS comes from the last source that sets it.
abbrev pub tls_given : Option PConfig → Bool → Bool
tls_given none default = default
tls_given (some p) default = if p.tls_mode_set then p.config.use_tls else default

tls_decided-given :
    (file env line : Option PConfig)
    → tls_decided (file ∷ env ∷ line ∷ []) false
      ≡ tls_given line (tls_given env (tls_given file false))
unfolding tls_decided
tls_decided-given none none none = refl
tls_decided-given none none (some l) = refl
tls_decided-given none (some e) none = refl
tls_decided-given none (some e) (some l) = refl
tls_decided-given (some f) none none = refl
tls_decided-given (some f) none (some l) = refl
tls_decided-given (some f) (some e) none = refl
tls_decided-given (some f) (some e) (some l) = refl

-- Every text of the configuration is that of the command line, or else of the environment, or else
-- of the file, or else the default (none for the storage path, the database and the subnet). The
-- mode of TLS goes by the same order, and the gRPC mode is off whatever the sources say.
pub fill_cfg_lem :
    (file env line : Option PConfig)
    → (let c = fill_cfg (file ∷ env ∷ line ∷ []) in
        let first = λ (field : PConfig → Str) (default : Str).
          first_given (given field line ∷ given field env ∷ given field file ∷ []) default in
        (c.srv_addr ≡ first (λ p. p.config.srv_addr) (str "localhost:8080"))
        × (c.base_url ≡ first (λ p. p.config.base_url) (str "http://localhost:8080"))
        × (c.ssl_path ≡ first (λ p. p.config.ssl_path) (str "./etc/ssl"))
        × (c.storage_path ≡ first (λ p. p.config.storage_path) [])
        × (c.db_dsn ≡ first (λ p. p.config.db_dsn) [])
        × (c.trusted_subnet ≡ first (λ p. p.config.trusted_subnet) [])
        × (c.use_tls ≡ tls_given line (tls_given env (tls_given file false)))
        × (c.use_grpc ≡ false))
unfolding fill_cfg set_defaults
fill_cfg_lem file env line =
    let (addr, base, storage, dsn, ssl, subnet, tls, grpc) =
      overlay_all_fields (file ∷ env ∷ line ∷ []) empty_config in
    (
      ap (λ x. replaced x (str "localhost:8080")) addr ∙ defaulted-first _ file env line _,
      ap (λ x. replaced x (str "http://localhost:8080")) base ∙ defaulted-first _ file env line _,
      ap (λ x. replaced x (str "./etc/ssl")) ssl ∙ defaulted-first _ file env line _,
      storage ∙ decided-first _ file env line,
      dsn ∙ decided-first _ file env line,
      subnet ∙ decided-first _ file env line,
      tls ∙ tls_decided-given file env line,
      grpc,
    )

module _ (os_args : List Str) (getenv : Str → Str) (files : Files) where
  -- No option, no flag, no variable and no file turns the gRPC mode on.
  pub new-use_grpc : (opts : List ConfigOption) → (new os_args getenv files opts).use_grpc ≡ false
  unfolding new sources
  new-use_grpc opts = (fill_cfg_lem _ _ _).7

from_env-trusted_subnet :
    (env_vars : SyncMap Str)
    → (from_env env_vars).config.trusted_subnet ≡ env_value env_vars "TRUSTED_SUBNET"
unfolding from_env set_tls_mode set_grpc_mode
from_env-trusted_subnet env_vars = ground arith

-- The subnet that a command line gives, or else the file that it or `CONFIG` names.
abbrev pub subnet_at : List Str → Files → Str → Str
subnet_at os_args files path =
    let from_line = from_args os_args path in
    let from_path =
      if not (from_line.1 == []) then some (from_file (parse_file files from_line.1)) else none in
    first_given
      (from_line.0.config.trusted_subnet ∷ given (λ p. p.config.trusted_subnet) from_path ∷ []) []

-- With no option the environment has no say in the trusted subnet but through the file that `CONFIG`
-- names, though `fromEnv` reads a variable for the subnet.
pub new-trusted_subnet :
    (os_args : List Str) (getenv : Str → Str) (files : Files)
    → (new os_args getenv files []).trusted_subnet ≡ subnet_at os_args files (getenv (str "CONFIG"))
unfolding new sources set_config_options env_value load ◌==◌
new-trusted_subnet os_args getenv files =
    (fill_cfg_lem _ _ _).5 ∙ simp (replaced-nil, from_env-trusted_subnet)
