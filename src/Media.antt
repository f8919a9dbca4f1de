-- ===== src/Media.antt =====
-- pkg/media/handler.go and pkg/media/validate_url.go with the types of internal/media/router.go:
-- which URLs media are fetched from, how files are told apart, and the cache of media files
-- (Media/Cache). The URL parser, the resolver and the IP tests of Go's net packages are parameters;
-- strings.EqualFold is that of ASCII letters. IP addresses are their bytes.
pub mod Urls
pub mod Allowed
pub mod Files
pub mod Cache
pub mod Plain
pub mod Intact
pub mod Processed
pub mod HalfCopied
mod Tests
pub mod Shadowed
use whatsignal.Base.{
  ℕ, Bool, true, false, not, ◌&&◌, ◌||◌, List, [], ◌∷◌, ◌++◌, Option, none, some, any, leb, ◌/◌,
  ◌%◌, ltb, length, if◌then◌else◌,
}
use whatsignal.Base.Text.{Text, codes, same, is_empty, contains, to_lower}

-- url.URL; the rest is its path, query and fragment.
pub record Url : Type 0 where
  pub scheme : Text
  pub host : Text
  pub rest : Text

-- What the code uses of net/url, net and strconv; `parse_uint` is ParseUint with base 0 and 32 bits.
pub record Net : Type 0 where
  pub parse_url : Text → Option Url
  pub render_url : Url → Text
  pub hostname : Url → Text
  pub port : Url → Text
  pub parse_ip : Text → Option Text
  pub parse_uint : Text → Option ℕ
  pub ipv4 : ℕ → ℕ → ℕ → ℕ → Text
  pub is_loopback : Text → Bool
  pub is_private : Text → Bool
  pub is_link_local_unicast : Text → Bool
  pub is_link_local_multicast : Text → Bool
  pub is_unspecified : Text → Bool
  pub in_network : Text → Text → Bool
  pub lookup_host : Text → Option (List Text)

-- The URLs of the two services in struct handler; empty if not configured.
pub record Endpoints : Type 0 where
  pub waha_base_url : Text
  pub signal_rpc_url : Text

pub data UrlError : Type 0 where
  not_configured invalid_url unsupported_scheme invalid_waha invalid_signal : UrlError
  disallowed_ip unresolved host_not_allowed : UrlError

abbrev pub is_some {ℓ} : {A : Type ℓ} → Option A → Bool
is_some none = false
is_some (some a) = true

-- strings.EqualFold
unfoldable pub equal_fold : Text → Text → Bool
unfolding to_lower same
equal_fold s t = same (to_lower s) (to_lower t)

module _ (n : Net) where
  unfoldable pub endpoint_matches : Url → Url → Bool
  unfolding equal_fold same
  endpoint_matches candidate allowed =
      equal_fold (n.hostname candidate) (n.hostname allowed)
      && same (n.port candidate) (n.port allowed)

  -- parseLegacyIPv4: a host that is one number, in big-endian order.
  unfoldable pub parse_legacy_ipv4 : Text → Option Text
  unfolding contains
  parse_legacy_ipv4 hostname =
      if is_empty hostname || contains hostname (codes ".") || contains hostname (codes ":")
      then none
      else elim (n.parse_uint hostname) [
        | none ↦ none
        | some v ↦ some (n.ipv4 (v / 16777216 % 256) (v / 65536 % 256) (v / 256 % 256) (v % 256))
      ]

  unfoldable pub is_blocked_ip : Text → Bool
  is_blocked_ip ip =
      n.is_loopback ip
      || n.is_private ip
      || n.is_link_local_unicast ip
      || n.is_link_local_multicast ip
      || n.is_unspecified ip

  abbrev pub is_blocked : Option Text → Bool
  is_blocked none = false
  is_blocked (some ip) = is_blocked_ip ip

  unfoldable pub is_docker_internal_host : Text → Bool
  unfolding contains same
  is_docker_internal_host hostname =
      not (is_some (n.parse_ip hostname))
      && not (contains hostname (codes "."))
      && not (same hostname (codes "localhost"))
      && not (is_empty hostname)

  abbrev pub is_docker_internal_ip : Text → Bool
  is_docker_internal_ip ip = n.in_network (codes "172.16.0.0/12") ip

  -- The loop over the addresses of rejectDisallowedResolvedIP.
  unfoldable pub reject_blocked : Option (List Text) → Option UrlError
  unfolding is_blocked_ip
  reject_blocked none = some unresolved
  reject_blocked (some addrs) =
      if any (λ a. is_blocked (n.parse_ip a)) addrs then some disallowed_ip else none

  unfoldable pub reject_disallowed_resolved_ip : Text → Option UrlError
  unfolding parse_legacy_ipv4 is_blocked_ip reject_blocked
  reject_disallowed_resolved_ip hostname =
      if is_blocked (parse_legacy_ipv4 hostname)
      then some disallowed_ip
      else if is_some (n.parse_ip hostname)
      then none
      else reject_blocked (n.lookup_host hostname)
