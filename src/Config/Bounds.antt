-- ===== src/Config/Bounds.antt =====
-- The limits of a configuration that LoadConfig accepts.
use whatsignal.Base.{
  ℕ, zero, suc, ◌≡◌, ◌≤◌, refl, sym, ap, ◌∙◌, Bool, true, false, ◌&&◌, List, [], ◌∷◌, Option, none,
  some, All, arith, if◌then◌else◌,
}
use mathlib.Core.Path.{subst}
use whatsignal.Base.Text.{Text}
use whatsignal.Poller.{ℤ, pos, negsuc, is_positive, is_less}
use whatsignal.Paths.{FilePaths}
use whatsignal.Config.{
  Config, ConfigError, SignalConfig, RetryConfig, Library, Env, http_below_poll, max_below_initial,
  validate_numeric_range, validate_timeout, validate_retention_days,
}
use whatsignal.Config.Checks.{
  with_defaults, positive_or, if_positive, plus, validate_poll_timeout, validate_backoff,
  bound_checks, validate_bounds,
}
use whatsignal.Config.Loading.{apply_environment_overrides, loaded, load_config}
use whatsignal.Config.Accepted.{first_error-none, load_config-IsLoaded}

abbrev check_at : List (Option ConfigError) → ℕ → Option ConfigError
check_at [] n = none
check_at (o ∷ rest) zero = o
check_at (o ∷ rest) (suc n) = check_at rest n

passed :
    (checks : List (Option ConfigError)) (n : ℕ)
    → All (λ (o : Option ConfigError). o ≡ none) checks
    → check_at checks n ≡ none
passed [] n h = refl
passed (o ∷ rest) zero h = h.0
passed (o ∷ rest) (suc n) h = passed rest n h.1

-- An int that is not negative, within limits.
abbrev pub IsIn : ℕ → ℕ → ℤ → Type 0
IsIn low high v = (n : ℕ) × (v ≡ pos n) × (low ≤ n) × (n ≤ high)

validate_numeric_range-IsIn :
    (name : Text) (low high : ℕ) (v : ℤ)
    → validate_numeric_range name low high v ≡ none
    → IsIn low high v
unfolding validate_numeric_range
validate_numeric_range-IsIn name low high (pos n) h = (n, refl, ground arith, ground arith)
validate_numeric_range-IsIn name low high (negsuc n) h = absurd (cc h)

-- A setting with a default is tested after the default is set.
positive_or-IsIn :
    (low high n : ℕ) (v : ℤ) (check : ℤ → Option ConfigError)
    → ((w : ℤ) → check w ≡ none → IsIn low high w)
    → low ≤ n
    → n ≤ high
    → if_positive (positive_or n v) (check (positive_or n v)) ≡ none
    → IsIn low high (positive_or n v)
positive_or-IsIn low high n (pos zero) check sound lo hi h = (n, refl, lo, hi)
positive_or-IsIn low high n (pos (suc m)) check sound lo hi h = sound (pos (suc m)) h
positive_or-IsIn low high n (negsuc m) check sound lo hi h = (n, refl, lo, hi)

abbrev pub poll_of : SignalConfig → ℤ
poll_of s = if is_positive s.poll_timeout_sec then s.poll_timeout_sec else s.poll_interval_sec

abbrev pub http_of : SignalConfig → ℤ
http_of s = if is_positive s.http_timeout_sec then s.http_timeout_sec else pos 60

pub if-none : (b : Bool) (e : ConfigError) → (if b then some e else none) ≡ none → b ≡ false
if-none true e h = absurd (cc h)
if-none false e h = refl

-- A test under a condition that holds.
pub opened :
    (b : Bool) (x : Option ConfigError) → b ≡ true → (if b then x else none) ≡ none → x ≡ none
opened true x e h = h
opened false x e h = absurd (cc e)

-- The settings with a default lie within limits, the HTTP timeout leaves a poll its time and ten
-- seconds, and the backoff can grow.
pub record IsBounded (c : Config) : Type 0 where
  pub retry_count : IsIn 0 100 c.whatsapp.retry_count
  pub poll_interval : IsIn 1 3600 c.whatsapp.poll_interval_sec
  pub group_cache : IsIn 1 168 c.whatsapp.group_cache_hours
  pub image : IsIn 1 100 c.media.max_image
  pub video : IsIn 1 500 c.media.max_video
  pub document : IsIn 1 100 c.media.max_document
  pub voice : IsIn 1 50 c.media.max_voice
  pub skew : IsIn 1 3600 c.server.webhook_max_skew_sec
  pub retention : IsIn 1 3650 c.retention_days
  pub polling :
      is_positive (poll_of c.signal) ≡ true
      → is_less (http_of c.signal) (plus (poll_of c.signal) 10) ≡ false
  pub backoff :
      is_positive c.retry.max_backoff_ms ≡ true
      → is_positive c.retry.initial_backoff_ms ≡ true
      → is_less c.retry.max_backoff_ms c.retry.initial_backoff_ms ≡ false

validate_poll_timeout-polling :
    (s : SignalConfig)
    → validate_poll_timeout s ≡ none
    → is_positive (poll_of s) ≡ true
    → is_less (http_of s) (plus (poll_of s) 10) ≡ false
unfolding validate_poll_timeout
validate_poll_timeout-polling s h p =
    let both =
      if-none (is_positive (poll_of s) && is_less (http_of s) (plus (poll_of s) 10)) http_below_poll
        h in
    ap (λ b. b && is_less (http_of s) (plus (poll_of s) 10)) (sym p) ∙ both

validate_backoff-backoff :
    (r : RetryConfig)
    → validate_backoff r ≡ none
    → is_positive r.max_backoff_ms ≡ true
    → is_positive r.initial_backoff_ms ≡ true
    → is_less r.max_backoff_ms r.initial_backoff_ms ≡ false
unfolding validate_backoff
validate_backoff-backoff r h p q =
    let checks = opened (is_positive r.max_backoff_ms) _ p h in
    let below = is_less r.max_backoff_ms r.initial_backoff_ms in
    let both =
      if-none (is_positive r.initial_backoff_ms && below) max_below_initial
        (first_error-none _ checks).1.0 in
    ap (λ b. b && below) (sym q) ∙ both

bound_checks-IsBounded :
    (l : Library) (raw : Config)
    → All (λ (o : Option ConfigError). o ≡ none) (bound_checks l (with_defaults raw))
    → IsBounded (with_defaults raw)
unfolding with_defaults validate_timeout validate_retention_days
bound_checks-IsBounded l raw h =
    let checks = bound_checks l (with_defaults raw) in
    let range = validate_numeric_range-IsIn in
    let timeout = λ (name : Text). λ (v : ℤ). range name 1 3600 v in
    record {
      retry_count = range _ 0 100 _ (passed checks 0 h);
      poll_interval =
          positive_or-IsIn 1 3600 30 raw.whatsapp.poll_interval_sec (validate_timeout _) (timeout _)
            (omega arith) (omega arith) (passed checks 27 h);
      group_cache =
          positive_or-IsIn 1 168 24 raw.whatsapp.group_cache_hours _ (range _ 1 168) (omega arith)
            (omega arith) (passed checks 24 h);
      image = range _ 1 100 _ (passed checks 9 h);
      video = range _ 1 500 _ (passed checks 10 h);
      document = range _ 1 100 _ (passed checks 11 h);
      voice = range _ 1 50 _ (passed checks 12 h);
      skew =
          positive_or-IsIn 1 3600 120 raw.server.webhook_max_skew_sec _ (timeout _) (omega arith)
            (omega arith) (passed checks 17 h);
      retention =
          positive_or-IsIn 1 3650 30 raw.retention_days _ (range _ 1 3650) (omega arith)
            (omega arith) (passed checks 22 h);
      polling = validate_poll_timeout-polling raw.signal (passed checks 5 h);
      backoff = validate_backoff-backoff raw.retry (passed checks 29 h);
    }

overridden :
    (l : Library) (env : Env) (raw : Config)
    → IsBounded (with_defaults raw)
    → IsBounded (apply_environment_overrides l env (with_defaults raw))
unfolding apply_environment_overrides
overridden l env raw b = record {
  retry_count = b.retry_count;
  poll_interval = b.poll_interval;
  group_cache = b.group_cache;
  image = b.image;
  video = b.video;
  document = b.document;
  voice = b.voice;
  skew = b.skew;
  retention = b.retention;
  polling = b.polling;
  backoff = b.backoff;
}

-- Limits: in a configuration that LoadConfig accepts, the retry count, the WhatsApp poll interval,
-- the group cache hours, the sizes of media, the webhook skew and the retention days lie within
-- their limits. If there is a poll timeout, taken from the poll interval where it is not set, the
-- HTTP timeout, 60 where it is not set, is at least 10 seconds longer. If both backoffs are set, the
-- largest is not below the first.
pub load_config-IsBounded :
    (l : Library) (env : Env) (paths : FilePaths) (file : Text → Option Config) (path : Text)
    (c : Config)
    → load_config l env paths file path ≡ loaded c
    → IsBounded c
unfolding apply_environment_overrides validate_bounds
load_config-IsBounded l env paths file path c h =
    let from = load_config-IsLoaded l env c paths file path h in
    let checks = first_error-none (bound_checks l (with_defaults from.raw)) from.bounded in
    subst IsBounded from.final
      (overridden l env from.raw (bound_checks-IsBounded l from.raw checks))
