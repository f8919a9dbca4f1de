-- ===== src/Config/Secure.antt =====
-- The secrets of a configuration that LoadConfig accepts in secure mode.
use whatsignal.Base.{
  ℕ, ◌≡◌, ◌≢◌, ◌≤◌, sym, ◌∙◌, true, not, ◌&&◌, [], ◌∷◌, Option, none, some, length, ltb, arith,
  if◌then◌else◌,
}
use mathlib.Core.Path.{subst}
use whatsignal.Base.Text.{Text, codes, same, same_iff, is_empty}
use whatsignal.Paths.{FilePaths}
use whatsignal.Config.{Config, Library, Env, too_short, debug_logging, missing}
use whatsignal.Config.Loading.{
  require_long, secure_checks, security_checks, validate_secure, validate_security, loaded,
  load_config,
}
use whatsignal.Config.Accepted.{first_error-none, load_config-IsLoaded}
use whatsignal.Config.Bounds.{if-none, opened}

-- The secrets of secure mode.
pub record IsSecure (env : Env) (c : Config) : Type 0 where
  pub admin_token : 32 ≤ length env.admin_token
  pub webhook_secret : 32 ≤ length c.whatsapp.webhook_secret
  pub encryption_salt : 16 ≤ length env.encryption_salt
  pub lookup_salt : 16 ≤ length env.lookup_salt
  pub log_level : c.log_level ≢ codes "debug"

require_long-none :
    (n : ℕ) (name t : Text) → require_long (not (ltb (length t) n)) name t ≡ none → n ≤ length t
require_long-none n name t h = ground arith

not_debug :
    (t : Text)
    → t ≡ codes "debug"
    → (if same t (codes "debug") then some debug_logging else none) ≡ none
    → ⊥
not_debug t e h =
    let yes_debug = if-none (same t (codes "debug")) debug_logging h in
    absurd (cc (sym yes_debug ∙ (same_iff t (codes "debug")).1 e))

long_token :
    (t : Text) (name : Text)
    → (if is_empty t then some (missing name) else none) ≡ none
    → (if not (is_empty t) && ltb (length t) 32 then some (too_short name) else none) ≡ none
    → 32 ≤ length t
long_token [] name h k = absurd (cc h)
long_token (x ∷ xs) name h k = ground arith

validate_security-IsSecure :
    (l : Library) (env : Env) (c : Config)
    → env.secure ≡ true
    → validate_security l env c ≡ none
    → IsSecure env c
unfolding validate_security validate_secure
validate_security-IsSecure l env c e h =
    let all_checks = first_error-none (security_checks l env c) h in
    let secure = opened env.secure _ e all_checks.1.1.0 in
    let checks = first_error-none (secure_checks l env c) secure in
    record {
      admin_token = long_token env.admin_token _ checks.0 all_checks.1.0;
      webhook_secret = require_long-none 32 _ c.whatsapp.webhook_secret checks.1.0;
      encryption_salt = require_long-none 16 _ env.encryption_salt checks.1.1.0;
      lookup_salt = require_long-none 16 _ env.lookup_salt checks.1.1.1.0;
      log_level = λ d. not_debug c.log_level d checks.1.1.1.1.0;
    }

-- Secure mode: a configuration that LoadConfig accepts there comes with an admin token and a webhook
-- secret of at least 32 bytes and two encryption salts of at least 16, and its log level is not the
-- text `debug`; other spellings and levels are not excluded.
pub load_config-IsSecure :
    (l : Library) (env : Env) (paths : FilePaths) (file : Text → Option Config) (path : Text)
    (c : Config)
    → env.secure ≡ true
    → load_config l env paths file path ≡ loaded c
    → IsSecure env c
load_config-IsSecure l env paths file path c e h =
    let from = load_config-IsLoaded l env c paths file path h in
    subst (IsSecure env) from.final (validate_security-IsSecure l env _ e from.secured)
