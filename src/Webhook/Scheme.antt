-- ===== src/Webhook/Scheme.antt =====
-- What verifySignatureWithSkew accepts in the other headers, after a scheme.
use whatsignal.Base.{
  ◌≡◌, ◌↔◌, refl, sym, ap, ◌∙◌, ◌∷◌, ◌++◌, Option, none, some, arith, Bool-cases, inl, inr,
}
use whatsignal.Base.Text.{Text, codes, same, same_iff, to_lower}
use whatsignal.Webhook.{ok, split_once, verify_scheme}
use whatsignal.Webhook.Fields.{
  check_signature_iff, split_once-append, split_once_found, split_once-to_lower,
}

module _ (hmac_sha256 hmac_sha512 : Text → Text → Text) where
  scheme_accepts :
      (secret body b : Text) (parts : Option (Text × Text))
      → verify_scheme hmac_sha256 hmac_sha512 secret body parts ≡ ok b
      → (body ≡ b)
        × (scheme : Text) × (to_lower scheme ≡ codes "sha256")
        × (parts ≡ some (scheme, hmac_sha256 secret b))
  unfolding verify_scheme
  scheme_accepts secret body b none h = ground arith
  scheme_accepts secret body b (some (scheme, signature)) h =
      elim (Bool-cases (same (to_lower scheme) (codes "sha256"))) [
        | inr e ↦ ground arith
        | inl e ↦
            let (s, t) =
              (check_signature_iff (hmac_sha256 secret body) signature body b).0 (ground arith) in
            (
              t,
              scheme,
              (same_iff (to_lower scheme) (codes "sha256")).0 e,
              ap (λ x. some (scheme, x)) (s ∙ ap (hmac_sha256 secret) t),
            )
      ]

  scheme_accepted :
      (secret body b scheme : Text)
      → body ≡ b
      → to_lower scheme ≡ codes "sha256"
      → verify_scheme hmac_sha256 hmac_sha512 secret body (some (scheme, hmac_sha256 secret b))
        ≡ ok b
  unfolding verify_scheme
  scheme_accepted secret body b scheme t l =
      rw ((same_iff (to_lower scheme) (codes "sha256")).1 l) (
        (check_signature_iff (hmac_sha256 secret body) (hmac_sha256 secret b) body b).1
          (ap (hmac_sha256 secret) (sym t), t))

  pub verify_scheme_iff :
      (secret body b header : Text)
      → (verify_scheme hmac_sha256 hmac_sha512 secret body (split_once b'=' header) ≡ ok b) ↔ (
          (body ≡ b)
          × (scheme : Text) × (to_lower scheme ≡ codes "sha256")
          × (header ≡ scheme ++ b'=' ∷ hmac_sha256 secret b))
  verify_scheme_iff secret body b header = (
    λ h.
        let (t, scheme, l, e) = scheme_accepts secret body b (split_once b'=' header) h in
        (t, scheme, l, split_once_found b'=' header scheme (hmac_sha256 secret b) e),
    λ (t, scheme, l, e).
        let whole =
          ap (split_once b'=') e
          ∙ split_once-append b'=' scheme (hmac_sha256 secret b) (sha256_once scheme l) in
        rw whole (scheme_accepted secret body b scheme t l),
  )
    where
      sha256_once :
          (scheme : Text) → to_lower scheme ≡ codes "sha256" → split_once b'=' scheme ≡ none
      sha256_once scheme l = split_once-to_lower scheme (rw l (unfold split_once in refl))
