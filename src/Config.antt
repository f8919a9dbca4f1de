-- ===== src/Config.antt =====
-- LoadConfig of internal/config/config.go with the structs of internal/models/config.go: what it
-- requires, its defaults, and what the environment overrides. The reading of the file and its JSON
-- are arguments, as are the environment, net.ParseCIDR, strings.TrimSpace and the classes of
-- characters of unicode. The settings of tracing, and those that LoadConfig does not look at, are
-- left out; messages of errors are the names of what they are about.
pub mod Checks
pub mod Loading
pub mod Accepted
pub mod Bounds
pub mod Secure
mod Tests
use whatsignal.Base.{
  ℕ, ◌+◌, Bool, true, false, not, ◌&&◌, ◌||◌, List, [], ◌∷◌, Option, none, some, any, all, keep,
  ltb, ◌==◌, length, if◌then◌else◌,
}
use whatsignal.Base.Text.{Text, codes, same, is_empty, trim_prefix}
use whatsignal.Channels.{Channel}
use whatsignal.Poller.{ℤ, pos, negsuc, is_positive, is_less}
use whatsignal.Paths.{PathError}

pub record WhatsAppConfig : Type 0 where
  pub api_base_url : Text
  pub webhook_secret : Text
  pub timeout : ℤ
  pub retry_count : ℤ
  pub poll_interval_sec : ℤ
  pub contact_cache_hours : ℤ
  pub session_health_check_sec : ℤ
  pub session_startup_timeout_sec : ℤ
  pub group_cache_hours : ℤ

pub record SignalConfig : Type 0 where
  pub rpc_url : Text
  pub poll_interval_sec : ℤ
  pub poll_timeout_sec : ℤ
  pub http_timeout_sec : ℤ

pub record DatabaseConfig : Type 0 where
  pub path : Text
  pub max_open_connections : ℤ
  pub max_idle_connections : ℤ
  pub conn_max_lifetime_sec : ℤ
  pub conn_max_idle_time_sec : ℤ

pub record MediaConfig : Type 0 where
  pub cache_dir : Text
  pub max_image : ℤ
  pub max_video : ℤ
  pub max_document : ℤ
  pub max_voice : ℤ
  pub image_types : List Text
  pub video_types : List Text
  pub document_types : List Text
  pub voice_types : List Text
  pub download_timeout : ℤ

pub record ServerConfig : Type 0 where
  pub read_timeout_sec : ℤ
  pub write_timeout_sec : ℤ
  pub idle_timeout_sec : ℤ
  pub webhook_max_skew_sec : ℤ
  pub webhook_max_bytes : ℤ
  pub rate_limit_per_minute : ℤ
  pub rate_limit_cleanup_minutes : ℤ
  pub cleanup_interval_hours : ℤ
  pub trusted_proxies : List Text

pub record RetryConfig : Type 0 where
  pub initial_backoff_ms : ℤ
  pub max_backoff_ms : ℤ
  pub max_attempts : ℤ

pub record Config : Type 0 where
  pub whatsapp : WhatsAppConfig
  pub signal : SignalConfig
  pub database : DatabaseConfig
  pub media : MediaConfig
  pub server : ServerConfig
  pub retry : RetryConfig
  pub log_level : Text
  pub retention_days : ℤ
  pub channels : List Channel

pub data ConfigError : Type 0 where
  missing too_small too_large too_short : Text → ConfigError
  duplicate malformed : Text → ConfigError
  idle_above_open max_below_initial http_below_poll debug_logging unreadable : ConfigError
  bad_path : PathError → ConfigError

-- What the code uses of other packages.
pub record Library : Type 0 where
  pub runes : Text → List ℕ
  pub is_letter : ℕ → Bool
  pub is_digit : ℕ → Bool
  pub is_cidr : Text → Bool
  pub trim_space : Text → Text
  pub split_commas : Text → List Text

-- The environment: texts are empty if they are not set.
pub record Env : Type 0 where
  pub secure : Bool
  pub admin_token : Text
  pub encryption_salt : Text
  pub lookup_salt : Text
  pub whatsapp_api_url : Text
  pub webhook_secret : Text
  pub signal_rpc_url : Text
  pub db_path : Text
  pub media_dir : Text
  pub trusted_proxies : Text

-- A sequence of tests that return at the first error.
unfoldable pub first_error : List (Option ConfigError) → Option ConfigError
first_error [] = none
first_error (none ∷ rest) = first_error rest
first_error (some e ∷ rest) = some e

-- ValidateNumericRange of internal/validation/validation.go
unfoldable pub validate_numeric_range : Text → ℕ → ℕ → ℤ → Option ConfigError
validate_numeric_range name low high v =
    if is_less v (pos low)
    then some (too_small name)
    else if is_less (pos high) v
    then some (too_large name)
    else none

-- ValidateTimeout
unfoldable pub validate_timeout : Text → ℤ → Option ConfigError
unfolding validate_numeric_range
validate_timeout name v = validate_numeric_range name 1 3600 v

-- ValidateConnectionPool
unfoldable pub validate_connection_pool : ℤ → ℤ → Option ConfigError
validate_connection_pool max_open max_idle =
    if is_less max_open (pos 1)
    then some (too_small (codes "max open"))
    else if is_less (pos 1000) max_open
    then some (too_large (codes "max open"))
    else if is_less max_idle (pos 0)
    then some (too_small (codes "max idle"))
    else if is_less max_open max_idle
    then some idle_above_open
    else none

-- ValidateRetentionDays
unfoldable pub validate_retention_days : ℤ → Option ConfigError
unfolding validate_numeric_range
validate_retention_days v = validate_numeric_range (codes "retention days") 1 3650 v

module _ (l : Library) where
  -- ValidateE164PhoneNumber
  unfoldable pub validate_e164_phone_number : Text → Option ConfigError
  unfolding trim_prefix
  validate_e164_phone_number phone =
      let cleaned = trim_prefix phone (codes "+") in
      if is_empty phone
      then some (missing (codes "phone number"))
      else if ltb (length cleaned) 10
      then some (too_short (codes "phone number"))
      else if ltb 15 (length cleaned)
      then some (too_large (codes "phone number"))
      else if all l.is_digit (l.runes cleaned)
      then none
      else some (malformed (codes "phone number"))

  abbrev pub is_name_char : ℕ → Bool
  is_name_char c = l.is_letter c || l.is_digit c || c == b'_' || c == b'-'

  -- ValidateSessionName
  unfoldable pub validate_session_name : Text → Option ConfigError
  validate_session_name name =
      if is_empty name
      then some (missing (codes "session name"))
      else if ltb 64 (length name)
      then some (too_large (codes "session name"))
      else if all is_name_char (l.runes name)
      then none
      else some (malformed (codes "session name"))
