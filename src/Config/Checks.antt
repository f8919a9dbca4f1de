-- ===== src/Config/Checks.antt =====
-- The tests and the defaults of internal/config/config.go: validate, validateBounds,
-- applyEnvironmentOverrides and validateSecurity, and LoadConfig, which runs them in this order.
use whatsignal.Base.{
  ℕ, ◌+◌, ◌/◌, Bool, not, ◌&&◌, ◌||◌, List, [], ◌∷◌, Option, none, some, any, ltb, if◌then◌else◌,
}
use whatsignal.Base.Text.{Text, codes, same, is_empty}
use whatsignal.Channels.{Channel}
use whatsignal.Poller.{ℤ, pos, negsuc, is_positive, is_less}
use whatsignal.Config.{
  Config, SignalConfig, DatabaseConfig, RetryConfig, ConfigError, missing, duplicate,
  max_below_initial, http_below_poll, Library, first_error, validate_numeric_range,
  validate_timeout, validate_connection_pool, validate_retention_days, validate_e164_phone_number,
  validate_session_name,
}

abbrev pub require : Text → Text → Option ConfigError
require name t = if is_empty t then some (missing name) else none

-- The loop over the channels in validate, with the sessions and destinations that were seen.
unfoldable pub validate_channels : List Text → List Text → List Channel → Option ConfigError
unfolding same
validate_channels sessions destinations [] = none
validate_channels sessions destinations (c ∷ cs) =
    if is_empty c.session_name
    then some (missing (codes "session name"))
    else if is_empty c.destination
    then some (missing (codes "destination"))
    else if any (same c.session_name) sessions
    then some (duplicate c.session_name)
    else if any (same c.destination) destinations
    then some (duplicate c.destination)
    else validate_channels (c.session_name ∷ sessions) (c.destination ∷ destinations) cs

abbrev pub require_channels : List Channel → Option ConfigError
require_channels [] = some (missing (codes "channels"))
require_channels (c ∷ cs) = validate_channels [] [] (c ∷ cs)

-- The tests of validate.
abbrev pub requirements : Config → List (Option ConfigError)
requirements c =
    (require (codes "api_base_url") c.whatsapp.api_base_url
      ∷ require (codes "rpc_url") c.signal.rpc_url
      ∷ require (codes "path") c.database.path
      ∷ require (codes "cache_dir") c.media.cache_dir
      ∷ require_channels c.channels
      ∷ [])

unfoldable pub validate : Config → Option ConfigError
unfolding first_error validate_channels
validate c = first_error (requirements c)

abbrev pub or_default : ℕ → ℤ → ℤ
or_default n (pos m) = if ltb 0 m then pos m else pos n
or_default n (negsuc m) = negsuc m

abbrev pub positive_or : ℕ → ℤ → ℤ
positive_or n v = if is_positive v then v else pos n

abbrev pub types_or : List Text → List Text → List Text
types_or ts [] = ts
types_or ts (u ∷ us) = u ∷ us

-- The defaults that validate sets.
unfoldable pub with_defaults : Config → Config
with_defaults c = record c {
  media = record c.media {
    max_image = or_default 5 c.media.max_image;
    max_video = or_default 100 c.media.max_video;
    max_document = or_default 100 c.media.max_document;
    max_voice = or_default 16 c.media.max_voice;
    image_types =
        types_or (codes "jpg" ∷ codes "jpeg" ∷ codes "png" ∷ codes "gif" ∷ []) c.media.image_types;
    video_types = types_or (codes "mp4" ∷ codes "mov" ∷ []) c.media.video_types;
    document_types =
        types_or (codes "pdf" ∷ codes "doc" ∷ codes "docx" ∷ []) c.media.document_types;
    voice_types = types_or (codes "ogg" ∷ []) c.media.voice_types;
  };
  whatsapp = record c.whatsapp {
    poll_interval_sec = positive_or 30 c.whatsapp.poll_interval_sec;
    timeout = or_default 30000000000 c.whatsapp.timeout;
    retry_count = or_default 3 c.whatsapp.retry_count;
    group_cache_hours = positive_or 24 c.whatsapp.group_cache_hours;
  };
  server = record c.server { webhook_max_skew_sec = positive_or 120 c.server.webhook_max_skew_sec };
  retention_days = positive_or 30 c.retention_days;
}

abbrev pub if_positive : ℤ → Option ConfigError → Option ConfigError
if_positive v e = if is_positive v then e else none

abbrev pub timeout_if : Text → ℤ → Option ConfigError
timeout_if name v = if_positive v (validate_timeout name v)

abbrev pub range_if : Text → ℕ → ℕ → ℤ → Option ConfigError
range_if name low high v = if_positive v (validate_numeric_range name low high v)

-- A positive duration in whole seconds.
abbrev pub seconds : ℤ → ℤ
seconds (pos n) = pos (n / 1000000000)
seconds (negsuc n) = negsuc n

abbrev pub plus : ℤ → ℕ → ℤ
plus (pos n) k = pos (n + k)
plus (negsuc n) k = negsuc n

abbrev pub is_zero : ℤ → Bool
is_zero v = not (is_positive v) && not (is_less v (pos 0))

abbrev pub zero_or : ℕ → ℤ → ℤ
zero_or n v = if is_zero v then pos n else v

-- The poll timeout with its buffer against the HTTP timeout.
unfoldable pub validate_poll_timeout : SignalConfig → Option ConfigError
validate_poll_timeout s =
    let poll = if is_positive s.poll_timeout_sec then s.poll_timeout_sec else s.poll_interval_sec in
    let http = if is_positive s.http_timeout_sec then s.http_timeout_sec else pos 60 in
    if is_positive poll && is_less http (plus poll 10) then some http_below_poll else none

unfoldable pub validate_pool : DatabaseConfig → Option ConfigError
unfolding validate_connection_pool
validate_pool d =
    if is_positive d.max_open_connections || is_positive d.max_idle_connections
    then validate_connection_pool (zero_or 25 d.max_open_connections)
        (zero_or 5 d.max_idle_connections)
    else none

unfoldable pub validate_backoff : RetryConfig → Option ConfigError
unfolding validate_numeric_range
validate_backoff r =
    if is_positive r.max_backoff_ms
    then first_error (
        validate_numeric_range (codes "max backoff") 100 60000 r.max_backoff_ms
        ∷ (if is_positive r.initial_backoff_ms && is_less r.max_backoff_ms r.initial_backoff_ms
            then some max_below_initial
            else none)
        ∷ [])
    else none

module _ (l : Library) where
  -- The loop over the channels in validateBounds.
  unfoldable pub validate_names : List Channel → Option ConfigError
  unfolding validate_session_name validate_e164_phone_number first_error
  validate_names [] = none
  validate_names (c ∷ cs) = first_error (
      validate_session_name l c.session_name
      ∷ validate_e164_phone_number l c.destination
      ∷ validate_names cs
      ∷ [])

  -- The tests of validateBounds.
  abbrev pub bound_checks : Config → List (Option ConfigError)
  bound_checks c =
      (validate_numeric_range (codes "retry count") 0 100 c.whatsapp.retry_count
        ∷ if_positive c.whatsapp.timeout
            (validate_timeout (codes "WhatsApp timeout") (seconds c.whatsapp.timeout))
        ∷ timeout_if (codes "poll interval") c.signal.poll_interval_sec
        ∷ timeout_if (codes "poll timeout") c.signal.poll_timeout_sec
        ∷ timeout_if (codes "HTTP timeout") c.signal.http_timeout_sec
        ∷ validate_poll_timeout c.signal
        ∷ validate_pool c.database
        ∷ timeout_if (codes "max lifetime") c.database.conn_max_lifetime_sec
        ∷ timeout_if (codes "max idle time") c.database.conn_max_idle_time_sec
        ∷ validate_numeric_range (codes "image max size") 1 100 c.media.max_image
        ∷ validate_numeric_range (codes "video max size") 1 500 c.media.max_video
        ∷ validate_numeric_range (codes "document max size") 1 100 c.media.max_document
        ∷ validate_numeric_range (codes "voice max size") 1 50 c.media.max_voice
        ∷ timeout_if (codes "download timeout") c.media.download_timeout
        ∷ timeout_if (codes "read timeout") c.server.read_timeout_sec
        ∷ timeout_if (codes "write timeout") c.server.write_timeout_sec
        ∷ timeout_if (codes "idle timeout") c.server.idle_timeout_sec
        ∷ timeout_if (codes "max skew") c.server.webhook_max_skew_sec
        ∷ range_if (codes "max bytes") 1024 52428800 c.server.webhook_max_bytes
        ∷ range_if (codes "rate limit") 1 10000 c.server.rate_limit_per_minute
        ∷ range_if (codes "rate limit cleanup") 1 60 c.server.rate_limit_cleanup_minutes
        ∷ range_if (codes "cleanup interval") 1 168 c.server.cleanup_interval_hours
        ∷ if_positive c.retention_days (validate_retention_days c.retention_days)
        ∷ range_if (codes "contact cache hours") 1 168 c.whatsapp.contact_cache_hours
        ∷ range_if (codes "groups cache hours") 1 168 c.whatsapp.group_cache_hours
        ∷ timeout_if (codes "health check") c.whatsapp.session_health_check_sec
        ∷ timeout_if (codes "startup timeout") c.whatsapp.session_startup_timeout_sec
        ∷ timeout_if (codes "WhatsApp poll interval") c.whatsapp.poll_interval_sec
        ∷ range_if (codes "initial backoff") 10 10000 c.retry.initial_backoff_ms
        ∷ validate_backoff c.retry
        ∷ range_if (codes "max attempts") 1 10 c.retry.max_attempts
        ∷ validate_names c.channels
        ∷ [])

  -- validateBounds
  unfoldable pub validate_bounds : Config → Option ConfigError
  unfolding first_error validate_numeric_range validate_timeout validate_poll_timeout validate_pool
      validate_retention_days validate_backoff validate_names
  validate_bounds c = first_error (bound_checks c)
