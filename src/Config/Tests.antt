-- ===== src/Config/Tests.antt =====
-- A configuration with one channel, in secure mode.
use whatsignal.Base.{◌≡◌, refl, true, false, [], ◌∷◌, Option, some, replicate, ◌&&◌, leb}
use whatsignal.Base.Text.{Text, codes, same, trim_prefix, has_prefix, contains}
use whatsignal.Channels.{ChannelManager, ok, new_channel_manager}
use whatsignal.Poller.{pos, negsuc}
use whatsignal.Paths.{FilePaths, validate_file_path}
use whatsignal.Config.{
  Config, Library, Env, first_error, validate_numeric_range, validate_timeout,
  validate_connection_pool, validate_retention_days, validate_e164_phone_number,
  validate_session_name,
}
use whatsignal.Config.Checks.{
  validate_channels, validate, with_defaults, validate_poll_timeout, validate_pool,
  validate_backoff, validate_names, validate_bounds,
}
use whatsignal.Config.Loading.{
  parse_csv_env, apply_environment_overrides, validate_secure, validate_security, loaded,
  load_config,
}
use whatsignal.Config.Accepted.{load_config-new_channel_manager}
use whatsignal.Config.Bounds.{IsBounded, load_config-IsBounded}
use whatsignal.Config.Secure.{IsSecure, load_config-IsSecure}

abbrev library : Library
library = record {
  runes = λ t. t;
  is_letter = λ c. leb b'a' c && leb c b'z';
  is_digit = λ c. leb b'0' c && leb c b'9';
  is_cidr = λ t. false;
  trim_space = λ t. t;
  split_commas = λ t. t ∷ [];
}

abbrev secret : Text
secret = replicate 32 b'x'

abbrev env : Env
env = record {
  secure = true;
  admin_token = secret;
  encryption_salt = secret;
  lookup_salt = secret;
  whatsapp_api_url = [];
  webhook_secret = secret;
  signal_rpc_url = codes "http://signal:8080";
  db_path = [];
  media_dir = [];
  trusted_proxies = [];
}

abbrev paths : FilePaths
paths = record { clean = λ t. t; join = λ directory name. name; is_abs = λ t. false }

-- Most settings are not set; the backoffs are, and a negative retention.
abbrev config : Config
config = record {
  whatsapp = record {
    api_base_url = codes "http://waha:3000";
    webhook_secret = [];
    timeout = pos 0;
    retry_count = pos 0;
    poll_interval_sec = pos 0;
    contact_cache_hours = pos 0;
    session_health_check_sec = pos 0;
    session_startup_timeout_sec = pos 0;
    group_cache_hours = pos 0;
  };
  signal = record {
    rpc_url = codes "http://localhost:8080";
    poll_interval_sec = pos 5;
    poll_timeout_sec = pos 15;
    http_timeout_sec = pos 0;
  };
  database = record {
    path = codes "db";
    max_open_connections = pos 0;
    max_idle_connections = pos 0;
    conn_max_lifetime_sec = pos 0;
    conn_max_idle_time_sec = pos 0;
  };
  media = record {
    cache_dir = codes "cache";
    max_image = pos 0;
    max_video = pos 0;
    max_document = pos 0;
    max_voice = pos 0;
    image_types = [];
    video_types = [];
    document_types = [];
    voice_types = [];
    download_timeout = pos 0;
  };
  server = record {
    read_timeout_sec = pos 15;
    write_timeout_sec = pos 0;
    idle_timeout_sec = pos 0;
    webhook_max_skew_sec = pos 0;
    webhook_max_bytes = pos 0;
    rate_limit_per_minute = pos 0;
    rate_limit_cleanup_minutes = pos 0;
    cleanup_interval_hours = pos 0;
    trusted_proxies = [];
  };
  retry = record { initial_backoff_ms = pos 100; max_backoff_ms = pos 5000; max_attempts = pos 3 };
  log_level = codes "info";
  retention_days = negsuc 0;
  channels = record { session_name = codes "home"; destination = codes "+1234567890" } ∷ [];
}

abbrev file : Text → Option Config
file path = some config

abbrev final : Config
final = apply_environment_overrides library env (with_defaults config)

accepted : load_config library env paths file (codes "config.json") ≡ loaded final
unfolding load_config validate_file_path contains has_prefix validate validate_channels same
    first_error with_defaults validate_bounds validate_numeric_range validate_timeout
    validate_connection_pool validate_retention_days validate_e164_phone_number
    validate_session_name validate_poll_timeout validate_pool validate_backoff validate_names
    trim_prefix apply_environment_overrides parse_csv_env validate_secure validate_security
accepted = refl

load_config-new_channel_manager_example :
    (cm : ChannelManager) × (new_channel_manager final.channels ≡ ok cm)
load_config-new_channel_manager_example =
    load_config-new_channel_manager library env paths file (codes "config.json") final accepted

load_config-IsBounded_example : IsBounded final
load_config-IsBounded_example =
    load_config-IsBounded library env paths file (codes "config.json") final accepted

load_config-IsSecure_example : IsSecure env final
load_config-IsSecure_example =
    load_config-IsSecure library env paths file (codes "config.json") final refl accepted
