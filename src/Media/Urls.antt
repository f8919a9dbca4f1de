-- ===== src/Media/Urls.antt =====
-- Which URLs media are fetched from: rewriteMediaURL of pkg/media/handler.go and
-- validateDownloadURL of pkg/media/validate_url.go.
use whatsignal.Base.{Bool, false, not, ◌&&◌, ◌||◌, Option, none, some, if◌then◌else◌}
use whatsignal.Base.Text.{Text, codes, same, is_empty}
use whatsignal.Media.{
  Url, Net, Endpoints, UrlError, not_configured, invalid_url, unsupported_scheme, invalid_waha,
  invalid_signal, disallowed_ip, host_not_allowed, is_some, equal_fold, endpoint_matches,
  parse_legacy_ipv4, is_blocked, is_blocked_ip, is_docker_internal_host, is_docker_internal_ip,
  reject_disallowed_resolved_ip,
}

-- A configured service URL: no URL if it is empty, and `none` if it cannot be parsed.
abbrev pub parse_service : Net → Text → Option (Option Url)
parse_service n t =
    if is_empty t then some none else elim (n.parse_url t) [ none ↦ none | some u ↦ some (some u) ]

abbrev pub or_error : Option UrlError → Option UrlError → Option UrlError
or_error none rest = rest
or_error (some e) rest = some e

module _ (n : Net) where
  abbrev pub is_docker_address : Url → Bool
  is_docker_address u = elim (n.parse_ip (n.hostname u)) [
    | none ↦ false
    | some ip ↦ is_docker_internal_ip n ip
  ]

  abbrev pub is_endpoint : Url → Option Url → Bool
  is_endpoint u none = false
  is_endpoint u (some w) = endpoint_matches n u w

  abbrev pub is_outer_address : Option Text → Bool
  is_outer_address none = false
  is_outer_address (some ip) = not (n.is_loopback ip)

  -- An address of the Docker network, where WAHA is reached by an address.
  abbrev pub is_waha_address : Url → Option Url → Bool
  is_waha_address u none = false
  is_waha_address u (some w) =
      is_outer_address (n.parse_ip (n.hostname w)) && same (n.port u) (n.port w)

  -- An address, where the service is reached by a Docker host name.
  abbrev pub is_docker_peer : Url → Option Url → Bool
  is_docker_peer u none = false
  is_docker_peer u (some w) =
      is_docker_internal_host n (n.hostname w)
      && same (n.port u) (n.port w)
      && is_some (n.parse_ip (n.hostname u))

  unfoldable pub validate_port : Url → Option Url → Option Url → Option UrlError
  unfolding is_docker_internal_host same
  validate_port u waha signal =
      if is_docker_peer u waha || is_docker_peer u signal then none else some host_not_allowed

  unfoldable pub validate_address : Url → Option Url → Option Url → Option UrlError
  unfolding validate_port reject_disallowed_resolved_ip
  validate_address u waha signal =
      if is_docker_address u
      then or_error (reject_disallowed_resolved_ip n (n.hostname u))
          (if is_waha_address u waha then none else validate_port u waha signal)
      else validate_port u waha signal

  unfoldable pub validate_host : Url → Option Url → Option Url → Option UrlError
  unfolding validate_address endpoint_matches parse_legacy_ipv4 is_blocked_ip equal_fold
      reject_disallowed_resolved_ip
  validate_host u waha signal =
      if is_endpoint u waha || is_endpoint u signal
      then none
      else if is_blocked n (parse_legacy_ipv4 n (n.hostname u))
      then some disallowed_ip
      else or_error
          (if equal_fold (n.hostname u) (codes "localhost")
            then reject_disallowed_resolved_ip n (n.hostname u)
            else none)
          (validate_address u waha signal)

  unfoldable pub validate_parsed : Url → Endpoints → Option UrlError
  unfolding validate_host same
  validate_parsed u e =
      if not (same u.scheme (codes "https")) && not (same u.scheme (codes "http"))
      then some unsupported_scheme
      else elim (parse_service n e.waha_base_url) [
        | none ↦ some invalid_waha
        | some waha ↦ elim (parse_service n e.signal_rpc_url) [
          | none ↦ some invalid_signal
          | some signal ↦ validate_host u waha signal
        ]
      ]

  -- validateDownloadURL
  unfoldable pub validate_download_url : Endpoints → Text → Option UrlError
  unfolding validate_parsed
  validate_download_url e raw =
      if is_empty e.waha_base_url && is_empty e.signal_rpc_url
      then some not_configured
      else elim (n.parse_url raw) [ none ↦ some invalid_url | some u ↦ validate_parsed u e ]

  -- The tests of rewriteMediaURL, with DefaultDevServerPort 3000
  unfoldable pub needs_rewrite : Url → Url → Bool
  unfolding is_docker_internal_host same
  needs_rewrite u w =
      same u.host (codes "localhost:3000")
      || same u.host (codes "127.0.0.1:3000")
      || same u.host (codes "[::1]:3000")
      || is_docker_internal_host n (n.hostname u)
      || (is_docker_address u && same (n.port u) (n.port w))

  unfoldable pub rewrite_parsed : Text → Url → Url → Text
  unfolding needs_rewrite
  rewrite_parsed raw u w =
      if needs_rewrite u w
      then n.render_url (record u { scheme = w.scheme; host = w.host })
      else raw

  -- rewriteMediaURL
  unfoldable pub rewrite_media_url : Endpoints → Text → Text
  unfolding rewrite_parsed
  rewrite_media_url e raw = if is_empty e.waha_base_url then raw else elim (n.parse_url raw) [
    | none ↦ raw
    | some u ↦ elim (n.parse_url e.waha_base_url) [ none ↦ raw | some w ↦ rewrite_parsed raw u w ]
  ]
