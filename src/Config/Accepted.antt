-- ===== src/Config/Accepted.antt =====
-- Configurations that LoadConfig accepts.
use whatsignal.Base.{
  ◌≡◌, refl, sym, ap, ◌∙◌, Bool, true, false, List, [], ◌∷◌, Option, none, some, All, any, arith,
  if◌then◌else◌,
}
use whatsignal.Base.Text.{Text, same, same_iff, is_empty}
use whatsignal.Channels.{Channel, ChannelManager, ok, new_channel_manager}
use whatsignal.Channels.Accepted.{IsNamed, Differs, Unique, new_channel_manager_iff}
use whatsignal.Paths.{FilePaths, PathError, validate_file_path}
use whatsignal.Config.{Config, ConfigError, Library, Env, first_error, bad_path, unreadable}
use whatsignal.Config.Checks.{
  requirements, validate, validate_channels, require_channels, with_defaults, validate_bounds,
}
use whatsignal.Config.Loading.{
  apply_environment_overrides, validate_security, Loaded, loaded, refused, unless, load_config,
}

pub first_error-none :
    (checks : List (Option ConfigError))
    → first_error checks ≡ none
    → All (λ (o : Option ConfigError). o ≡ none) checks
unfolding first_error
first_error-none [] h = tt
first_error-none (none ∷ rest) h = (refl, first_error-none rest h)
first_error-none (some e ∷ rest) h = absurd (cc h)

-- The error of a test that passed.
pub test-none :
    (b : Bool) (e : ConfigError) (rest : Option ConfigError)
    → (if b then some e else rest) ≡ none
    → (b ≡ false) × (rest ≡ none)
test-none true e rest h = absurd (cc h)
test-none false e rest h = (refl, h)

unless-loaded :
    (o : Option ConfigError) (rest : Loaded) (c : Config)
    → unless o rest ≡ loaded c
    → (o ≡ none) × (rest ≡ loaded c)
unless-loaded none rest c h = (refl, h)
unless-loaded (some e) rest c h = absurd (cc h)

loaded_inj : (c d : Config) → loaded c ≡ loaded d → c ≡ d
loaded_inj c d h = cc

-- What an accepted configuration comes from, and the tests that it passed.
pub record IsLoaded (l : Library) (env : Env) (c : Config) : Type 0 where
  pub raw : Config
  pub final : apply_environment_overrides l env (with_defaults raw) ≡ c
  pub valid : validate raw ≡ none
  pub bounded : validate_bounds l (with_defaults raw) ≡ none
  pub secured :
      validate_security l env (apply_environment_overrides l env (with_defaults raw)) ≡ none

module _ (l : Library) (env : Env) (c : Config) where
  read-IsLoaded :
      (o : Option Config)
      → (elim o as (λ x. Loaded) [
        | none ↦ refused unreadable
        | some r ↦
            let d = with_defaults r in
            let final = apply_environment_overrides l env d in
            unless
              (validate r)
              (unless (validate_bounds l d) (unless (validate_security l env final) (loaded final)))
      ])
        ≡ loaded c
      → IsLoaded l env c
  read-IsLoaded none h = absurd (cc h)
  read-IsLoaded (some r) h =
      let d = with_defaults r in
      let final = apply_environment_overrides l env d in
      let (v, h') = unless-loaded (validate r) _ c h in
      let (b, h'') = unless-loaded (validate_bounds l d) _ c h' in
      let (s, h''') = unless-loaded (validate_security l env final) _ c h'' in
      record { raw = r; final = loaded_inj final c h'''; valid = v; bounded = b; secured = s }

  path-IsLoaded :
      (o : Option PathError) (rest : Loaded)
      → (elim o as (λ x. Loaded) [ some e ↦ refused (bad_path e) | none ↦ rest ]) ≡ loaded c
      → rest ≡ loaded c
  path-IsLoaded none rest h = h
  path-IsLoaded (some e) rest h = absurd (cc h)

  pub load_config-IsLoaded :
      (paths : FilePaths) (file : Text → Option Config) (path : Text)
      → load_config l env paths file path ≡ loaded c
      → IsLoaded l env c
  unfolding load_config
  load_config-IsLoaded paths file path h =
      read-IsLoaded (file path) (path-IsLoaded (validate_file_path paths path) _ h)

-- Not among those that were seen.
abbrev IsUnseen : List Text → List Text → Channel → Type 0
IsUnseen sessions destinations c =
    (any (same c.session_name) sessions ≡ false) × (any (same c.destination) destinations ≡ false)

IsUnseen-cons :
    (sessions destinations : List Text) (c : Channel) (cs : List Channel)
    → All (IsUnseen (c.session_name ∷ sessions) (c.destination ∷ destinations)) cs
    → All (Differs c) cs × All (IsUnseen sessions destinations) cs
IsUnseen-cons sessions destinations c [] h = (tt, tt)
IsUnseen-cons sessions destinations c (d ∷ ds) h =
    let (differs, unseen) = IsUnseen-cons sessions destinations c ds h.1 in
    (
      (
        (
          ground (arith, same_iff d.session_name c.session_name),
          ground (arith, same_iff d.destination c.destination),
        ),
        differs,
      ),
      ((ground arith, ground arith), unseen),
    )

validate_channels-Unique :
    (sessions destinations : List Text) (cs : List Channel)
    → validate_channels sessions destinations cs ≡ none
    → All IsNamed cs × Unique cs × All (IsUnseen sessions destinations) cs
unfolding validate_channels
validate_channels-Unique sessions destinations [] h = (tt, tt, tt)
validate_channels-Unique sessions destinations (c ∷ cs) h =
    let (a, h1) = test-none (is_empty c.session_name) _ _ h in
    let (b, h2) = test-none (is_empty c.destination) _ _ h1 in
    let (s, h3) = test-none (any (same c.session_name) sessions) _ _ h2 in
    let (d, h4) = test-none (any (same c.destination) destinations) _ _ h3 in
    let (named, unique, unseen) =
      validate_channels-Unique (c.session_name ∷ sessions) (c.destination ∷ destinations) cs h4 in
    let (differs, unseen') = IsUnseen-cons sessions destinations c cs unseen in
    (((a, b), named), (differs, unique), ((s, d), unseen'))

require_channels-new :
    (cs : List Channel)
    → require_channels cs ≡ none
    → (cm : ChannelManager) × (new_channel_manager cs ≡ ok cm)
require_channels-new [] h = absurd (cc h)
require_channels-new (c ∷ cs) h =
    let (named, unique, unseen) = validate_channels-Unique [] [] (c ∷ cs) h in
    (new_channel_manager_iff (c ∷ cs)).1 (named, unique, λ e. cc e)

validate-channels : (c : Config) → validate c ≡ none → require_channels c.channels ≡ none
unfolding validate
validate-channels c h = (first_error-none (requirements c) h).1.1.1.1.0

-- The channels: a configuration that LoadConfig accepts is accepted by NewChannelManager.
pub load_config-new_channel_manager :
    (l : Library) (env : Env) (paths : FilePaths) (file : Text → Option Config) (path : Text)
    (c : Config)
    → load_config l env paths file path ≡ loaded c
    → (cm : ChannelManager) × (new_channel_manager c.channels ≡ ok cm)
unfolding apply_environment_overrides with_defaults
load_config-new_channel_manager l env paths file path c h =
    let from = load_config-IsLoaded l env c paths file path h in
    let (cm, e) = require_channels-new from.raw.channels (validate-channels from.raw from.valid) in
    (cm, ap (λ d. new_channel_manager d.channels) (sym from.final) ∙ e)
