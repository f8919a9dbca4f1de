-- ===== src/Config/Loading.antt =====
-- LoadConfig of internal/config/config.go, with applyEnvironmentOverrides and validateSecurity.
use whatsignal.Base.{
  Bool, not, ◌&&◌, List, [], ◌∷◌, Option, none, some, all, map, keep, ltb, length, if◌then◌else◌,
}
use whatsignal.Base.Text.{Text, codes, same, is_empty}
use whatsignal.Paths.{FilePaths, validate_file_path}
use whatsignal.Config.{
  Config, ConfigError, missing, too_short, malformed, debug_logging, unreadable, bad_path, Library,
  Env, first_error,
}
use whatsignal.Config.Checks.{require, validate, with_defaults, validate_bounds}

abbrev pub override : Text → Text → Text
override t old = if is_empty t then old else t

-- A secret: set, and not too short.
abbrev pub require_long : Bool → Text → Text → Option ConfigError
require_long long name t =
    if is_empty t then some (missing name) else if long then none else some (too_short name)

module _ (l : Library) (env : Env) where
  -- parseCSVEnv
  unfoldable pub parse_csv_env : Text → List Text
  parse_csv_env t = keep (λ item. not (is_empty item)) (map l.trim_space (l.split_commas t))

  -- applyEnvironmentOverrides
  unfoldable pub apply_environment_overrides : Config → Config
  unfolding parse_csv_env
  apply_environment_overrides c = record c {
    whatsapp = record c.whatsapp {
      api_base_url = override env.whatsapp_api_url c.whatsapp.api_base_url;
      webhook_secret = override env.webhook_secret c.whatsapp.webhook_secret;
    };
    signal = record c.signal { rpc_url = override env.signal_rpc_url c.signal.rpc_url };
    database = record c.database { path = override env.db_path c.database.path };
    media = record c.media { cache_dir = override env.media_dir c.media.cache_dir };
    server = record c.server {
      trusted_proxies =
          if is_empty env.trusted_proxies
          then c.server.trusted_proxies
          else parse_csv_env env.trusted_proxies;
    };
  }

  -- The tests of validateSecurity in secure mode.
  abbrev pub secure_checks : Config → List (Option ConfigError)
  secure_checks c =
      (require (codes "admin token") env.admin_token
        ∷ require_long (not (ltb (length c.whatsapp.webhook_secret) 32)) (codes "webhook secret")
            c.whatsapp.webhook_secret
        ∷ require_long (not (ltb (length env.encryption_salt) 16)) (codes "encryption salt")
            env.encryption_salt
        ∷ require_long (not (ltb (length env.lookup_salt) 16)) (codes "lookup salt") env.lookup_salt
        ∷ (if same c.log_level (codes "debug") then some debug_logging else none)
        ∷ [])

  unfoldable pub validate_secure : Config → Option ConfigError
  unfolding first_error same
  validate_secure c = first_error (secure_checks c)

  -- The tests of validateSecurity.
  abbrev pub security_checks : Config → List (Option ConfigError)
  security_checks c =
      ((if all l.is_cidr c.server.trusted_proxies
          then none
          else some (malformed (codes "trusted proxies")))
        ∷ (if not (is_empty env.admin_token) && ltb (length env.admin_token) 32
            then some (too_short (codes "admin token"))
            else none)
        ∷ (if env.secure then validate_secure c else none)
        ∷ [])

  -- validateSecurity
  unfoldable pub validate_security : Config → Option ConfigError
  unfolding first_error validate_secure
  validate_security c = first_error (security_checks c)

pub data Loaded : Type 0 where
  loaded : Config → Loaded
  refused : ConfigError → Loaded

abbrev pub unless : Option ConfigError → Loaded → Loaded
unless none rest = rest
unless (some e) rest = refused e

-- LoadConfig; `file` is the content of the file at a path as a configuration, if it can be read.
unfoldable pub load_config : Library → Env → FilePaths → (Text → Option Config) → Text → Loaded
unfolding validate with_defaults validate_bounds apply_environment_overrides validate_security
    validate_file_path
load_config l env paths file path = elim (validate_file_path paths path) [
  | some e ↦ refused (bad_path e)
  | none ↦ elim (file path) [
    | none ↦ refused unreadable
    | some c ↦
        let d = with_defaults c in
        let final = apply_environment_overrides l env d in
        unless (validate c)
          (unless (validate_bounds l d) (unless (validate_security l env final) (loaded final)))
  ]
]
