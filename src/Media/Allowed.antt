-- ===== src/Media/Allowed.antt =====
-- What validateDownloadURL lets through.
use whatsignal.Base.{
  ◌≡◌, ◌⊎◌, inl, inr, refl, Bool, true, false, not, ◌&&◌, ◌||◌, Option, none, some, arith,
  if◌then◌else◌,
}
use whatsignal.Base.Text.{Text, codes, same, is_empty}
use whatsignal.Media.{
  Url, Net, Endpoints, UrlError, not_configured, invalid_url, unsupported_scheme, invalid_waha,
  invalid_signal, disallowed_ip, is_some, equal_fold, endpoint_matches, parse_legacy_ipv4,
  is_blocked, is_docker_internal_host, is_docker_internal_ip,
}
use whatsignal.Media.Urls.{
  parse_service, or_error, is_docker_address, is_endpoint, is_waha_address, is_docker_peer,
  validate_port, validate_address, validate_host, validate_parsed, validate_download_url,
}

module _ (n : Net) where
  -- The URL goes to the port of the service, and to its host or, by address, into the Docker network
  -- or where the service has a Docker host name.
  pub record Reaches (u w : Url) : Type 0 where
    pub same_port : same (n.port u) (n.port w) ≡ true
    pub same_host :
        (equal_fold (n.hostname u) (n.hostname w) ≡ true)
        ⊎ ((is_some (n.parse_ip (n.hostname u)) ≡ true)
            × ((is_docker_internal_host n (n.hostname w) ≡ true) ⊎ (is_docker_address n u ≡ true)))

  abbrev pub ReachesSome : Url → Option Url → Type 0
  ReachesSome u none = ⊥
  ReachesSome u (some w) = Reaches u w

  is_endpoint-Reaches : (u : Url) (o : Option Url) → is_endpoint n u o ≡ true → ReachesSome u o
  unfolding endpoint_matches
  is_endpoint-Reaches u none h = ground arith
  is_endpoint-Reaches u (some w) h = record {
    same_port = ground arith;
    same_host = inl (ground arith);
  }

  is_docker_peer-Reaches :
      (u : Url) (o : Option Url) → is_docker_peer n u o ≡ true → ReachesSome u o
  is_docker_peer-Reaches u none h = ground arith
  is_docker_peer-Reaches u (some w) h = record {
    same_port = ground arith;
    same_host = inr (ground arith, inl (ground arith));
  }

  is_waha_address-Reaches :
      (u : Url) (o : Option Url)
      → is_docker_address n u ≡ true
      → is_waha_address n u o ≡ true
      → ReachesSome u o
  is_waha_address-Reaches u none d h = ground arith
  is_waha_address-Reaches u (some w) d h = record {
    same_port = ground arith;
    same_host = inr (address (n.parse_ip (n.hostname u)) d, inr d);
  }
    where
      address :
          (o : Option Text)
          → (elim o [ none ↦ false | some ip ↦ is_docker_internal_ip n ip ]) ≡ true
          → is_some o ≡ true
      address none h = ground arith
      address (some ip) h = refl

  Either : Url → Option Url → Option Url → Type 0
  Either u waha signal = ReachesSome u waha ⊎ ReachesSome u signal

  either : {A B : Type 0} (a b : Bool) → (a ≡ true → A) → (b ≡ true → B) → (a || b) ≡ true → A ⊎ B
  either true b f g h = inl (f refl)
  either false b f g h = inr (g h)

  validate_port-Reaches :
      (u : Url) (waha signal : Option Url)
      → validate_port n u waha signal ≡ none
      → Either u waha signal
  unfolding validate_port Either
  validate_port-Reaches u waha signal h =
      either (is_docker_peer n u waha) (is_docker_peer n u signal) (is_docker_peer-Reaches u waha)
        (is_docker_peer-Reaches u signal) (ground arith)

  or_error-none : (e rest : Option UrlError) → or_error e rest ≡ none → rest ≡ none
  or_error-none none rest h = h
  or_error-none (some x) rest h = ground arith

  if-none :
      (b : Bool) (x y : Option UrlError)
      → (if b then x else y) ≡ none
      → ((b ≡ true) × (x ≡ none)) ⊎ (y ≡ none)
  if-none true x y h = inl (refl, h)
  if-none false x y h = inr h

  validate_address-Reaches :
      (u : Url) (waha signal : Option Url)
      → validate_address n u waha signal ≡ none
      → Either u waha signal
  unfolding validate_address Either
  validate_address-Reaches u waha signal h =
      elim (if-none (is_docker_address n u) _ (validate_port n u waha signal) h) [
        | inr k ↦ validate_port-Reaches u waha signal k
        | inl (d, k) ↦
            elim (if-none (is_waha_address n u waha) none (validate_port n u waha signal)
              (or_error-none _ _ k)) [
                | inl (f, l) ↦ inl (is_waha_address-Reaches u waha d f)
                | inr l ↦ validate_port-Reaches u waha signal l
              ]
      ]

  validate_host-Reaches :
      (u : Url) (waha signal : Option Url)
      → validate_host n u waha signal ≡ none
      → Either u waha signal
  unfolding validate_host Either
  validate_host-Reaches u waha signal h =
      elim (if-none (is_endpoint n u waha || is_endpoint n u signal) none _ h) [
        | inl (e, k) ↦
            either (is_endpoint n u waha) (is_endpoint n u signal) (is_endpoint-Reaches u waha)
              (is_endpoint-Reaches u signal) e
        | inr k ↦
            elim (if-none (is_blocked n (parse_legacy_ipv4 n (n.hostname u))) (some disallowed_ip) _
              k) [
                | inl (e, l) ↦ absurd (cc l)
                | inr l ↦ validate_address-Reaches u waha signal (or_error-none _ _ l)
              ]
      ]

  abbrev pub IsService : Endpoints → Url → Type 0
  IsService e w =
      (parse_service n e.waha_base_url ≡ some (some w))
      ⊎ (parse_service n e.signal_rpc_url ≡ some (some w))

  abbrev pub IsWeb : Url → Type 0
  IsWeb u = (same u.scheme (codes "https") ≡ true) ⊎ (same u.scheme (codes "http") ≡ true)

  reached :
      (e : Endpoints) (u : Url) (waha signal : Option Url)
      → parse_service n e.waha_base_url ≡ some waha
      → parse_service n e.signal_rpc_url ≡ some signal
      → Either u waha signal
      → (w : Url) × IsService e w × Reaches u w
  unfolding Either
  reached e u none signal a b (inl r) = absurd r
  reached e u (some w) signal a b (inl r) = (w, inl a, r)
  reached e u waha none a b (inr r) = absurd r
  reached e u waha (some w) a b (inr r) = (w, inr b, r)

  services-none :
      (o p : Option (Option Url)) (k : Option Url → Option Url → Option UrlError)
      → (elim o [
        | none ↦ some invalid_waha
        | some waha ↦ elim p [ none ↦ some invalid_signal | some signal ↦ k waha signal ]
      ])
        ≡ none
      → (waha signal : Option Url) × (o ≡ some waha) × (p ≡ some signal) × (k waha signal ≡ none)
  services-none none p k h = ground arith
  services-none (some waha) none k h = ground arith
  services-none (some waha) (some signal) k h = (waha, signal, refl, refl, h)

  web-none :
      (s t : Bool) (k : Option UrlError)
      → (if not s && not t then some unsupported_scheme else k) ≡ none
      → ((s ≡ true) ⊎ (t ≡ true)) × (k ≡ none)
  web-none true t k h = (inl refl, h)
  web-none false true k h = (inr refl, h)
  web-none false false k h = absurd (cc h)

  validate_parsed-Reaches :
      (e : Endpoints) (u : Url)
      → validate_parsed n u e ≡ none
      → IsWeb u × ((w : Url) × IsService e w × Reaches u w)
  unfolding validate_parsed
  validate_parsed-Reaches e u h =
      let (web, k) = web-none (same u.scheme (codes "https")) (same u.scheme (codes "http")) _ h in
      let (waha, signal, a, b, l) =
        services-none (parse_service n e.waha_base_url) (parse_service n e.signal_rpc_url)
          (validate_host n u) k in
      (web, reached e u waha signal a b (validate_host-Reaches u waha signal l))

  parsed-none :
      (o : Option Url) (k : Url → Option UrlError)
      → (elim o [ none ↦ some invalid_url | some u ↦ k u ]) ≡ none
      → (u : Url) × (o ≡ some u) × (k u ≡ none)
  parsed-none none k h = absurd (cc h)
  parsed-none (some u) k h = (u, refl, h)

-- The URLs that are accepted: such a URL is an http or https URL to the port of one of
-- the two configured services, and either to its host name, compared without case, or to an IP
-- address. In the second case the service has a Docker host name, or the address lies in the Docker
-- network.
pub validate_download_url-Reaches :
    (n : Net) (e : Endpoints) (raw : Text)
    → validate_download_url n e raw ≡ none
    → (u : Url) × (n.parse_url raw ≡ some u)
      × IsWeb n u
      × ((w : Url) × IsService n e w × Reaches n u w)
unfolding validate_download_url
validate_download_url-Reaches n e raw h =
    elim (if-none n (is_empty e.waha_base_url && is_empty e.signal_rpc_url) (some not_configured) _
      h) [
        | inl (f, k) ↦ absurd (cc k)
        | inr k ↦
            let (u, p, l) = parsed-none n (n.parse_url raw) (λ u. validate_parsed n u e) k in
            let (web, service) = validate_parsed-Reaches n e u l in (u, p, web, service)
      ]
