-- ===== src/Webhook/Signature.antt =====
-- What verifySignatureWithSkew accepts.
use whatsignal.Base.{
  ℕ, ◌≡◌, ◌≢◌, ◌↔◌, refl, sym, ap, ◌∙◌, Bool, true, false, [], ◌∷◌, ◌++◌, none, some, arith,
  Bool-cases, Option-cases, inl, inr,
}
use whatsignal.Base.Text.{Text, codes, same, same_iff, same_refl, is_empty, to_lower}
use whatsignal.Webhook.{
  Int64, read_failed, missing_signature, ok, err, Request, parse_int, split_once, waha_header,
  timestamp_header, verify_waha, verify_scheme, verify_body, verify,
}
use whatsignal.Webhook.Fields.{nonempty, is_nonempty}
use whatsignal.Webhook.Fresh.{Fresh, verify_waha_iff}
use whatsignal.Webhook.Scheme.{verify_scheme_iff}

module _ (hmac_sha256 hmac_sha512 : Text → Text → Text) where
  verify_body_waha :
      (now max_skew : ℕ) (secure : Bool) (secret body : Text) (r : Request)
      → is_empty secret ≡ false
      → is_empty (r.header waha_header) ≡ false
      → verify_body hmac_sha256 hmac_sha512 now max_skew secure secret waha_header r body
        ≡ verify_waha hmac_sha256 hmac_sha512 now max_skew secret
            (r.header waha_header)
            (r.header timestamp_header)
            body
  unfolding verify_body
  verify_body_waha now max_skew secure secret body r e f = rw (e, f, same_refl waha_header)

  verify_body_unsigned :
      (now max_skew : ℕ) (secure : Bool) (secret name body : Text) (r : Request)
      → is_empty secret ≡ false
      → is_empty (r.header name) ≡ true
      → verify_body hmac_sha256 hmac_sha512 now max_skew secure secret name r body
        ≡ err missing_signature
  unfolding verify_body
  verify_body_unsigned now max_skew secure secret name body r e f = rw (e, f)

  verify_body_scheme :
      (now max_skew : ℕ) (secure : Bool) (secret name body : Text) (r : Request)
      → is_empty secret ≡ false
      → is_empty (r.header name) ≡ false
      → same name waha_header ≡ false
      → verify_body hmac_sha256 hmac_sha512 now max_skew secure secret name r body
        ≡ verify_scheme hmac_sha256 hmac_sha512 secret body (split_once b'=' (r.header name))
  unfolding verify_body
  verify_body_scheme now max_skew secure secret name body r e f g = rw (e, f, g)

  read_body :
      (now max_skew : ℕ) (secure : Bool) (secret name body : Text) (r : Request)
      → r.body ≡ some body
      → verify hmac_sha256 hmac_sha512 now max_skew secure secret name r
        ≡ verify_body hmac_sha256 hmac_sha512 now max_skew secure secret name r body
  unfolding verify
  read_body now max_skew secure secret name body r e = rw e

  unread :
      (now max_skew : ℕ) (secure : Bool) (secret name : Text) (r : Request)
      → r.body ≡ none
      → verify hmac_sha256 hmac_sha512 now max_skew secure secret name r ≡ err read_failed
  unfolding verify
  unread now max_skew secure secret name r e = rw e

  accepts_signed :
      (now max_skew : ℕ) (secure : Bool) (secret name b : Text) (r : Request)
      → is_empty secret ≡ false
      → verify hmac_sha256 hmac_sha512 now max_skew secure secret name r ≡ ok b
      → (body : Text) × (r.body ≡ some body)
        × (is_empty (r.header name) ≡ false)
        × (verify_body hmac_sha256 hmac_sha512 now max_skew secure secret name r body ≡ ok b)
  accepts_signed now max_skew secure secret name b r ns h = elim (Option-cases r.body) [
    | inl e ↦ absurd (cc (sym (unread now max_skew secure secret name r e) ∙ h))
    | inr (body, e) ↦
        let k = sym (read_body now max_skew secure secret name body r e) ∙ h in
        elim (Bool-cases (is_empty (r.header name))) [
          | inl f ↦
              absurd
                (cc (sym (verify_body_unsigned now max_skew secure secret name body r ns f) ∙ k))
          | inr f ↦ (body, e, f, k)
        ]
  ]

  -- WAHA webhooks: with a secret, a request is accepted, with its body as the result, exactly when
  -- the body can be read, the signature header holds the HMAC-SHA-512 of the body and is not empty,
  -- and the timestamp header is an int64 of milliseconds within the skew of now.
  pub verify-waha_iff :
      (now max_skew : ℕ) (secure : Bool) (secret : Text) (r : Request) (b : Text)
      → secret ≢ []
      → (verify hmac_sha256 hmac_sha512 now max_skew secure secret waha_header r ≡ ok b) ↔ (
          (r.body ≡ some b)
          × (r.header waha_header ≡ hmac_sha512 secret b)
          × (r.header waha_header ≢ [])
          × (ts : Int64) × (parse_int (r.header timestamp_header) ≡ some ts)
          × Fresh now max_skew ts)
  verify-waha_iff now max_skew secure secret r b ns = (
    λ h.
        let (body, e, f, k) =
          accepts_signed now max_skew secure secret waha_header b r (nonempty secret ns) h in
        let q =
          sym (verify_body_waha now max_skew secure secret body r (nonempty secret ns) f) ∙ k in
        let (t, s, ts, p, fresh) =
          (verify_waha_iff hmac_sha256 hmac_sha512 now max_skew secret (r.header waha_header)
              (r.header timestamp_header) body b).0
            q in
        (e ∙ ap some t, s, is_nonempty (r.header waha_header) f, ts, p, fresh),
    λ (e, s, n, ts, p, fresh).
        read_body now max_skew secure secret waha_header b r e
        ∙ verify_body_waha now max_skew secure secret b r (nonempty secret ns)
            (nonempty (r.header waha_header) n)
        ∙ (verify_waha_iff hmac_sha256 hmac_sha512 now max_skew secret (r.header waha_header)
              (r.header timestamp_header) b b).1
            (refl, s, ts, p, fresh),
  )

  -- All other webhooks: with a secret, a request is accepted, with its body as the result, exactly
  -- when the body can be read and the signature header is sha256, in letters of either case, then
  -- `=`, then the HMAC-SHA-256 of the body.
  pub verify-scheme_iff :
      (now max_skew : ℕ) (secure : Bool) (secret name : Text) (r : Request) (b : Text)
      → secret ≢ []
      → name ≢ waha_header
      → (verify hmac_sha256 hmac_sha512 now max_skew secure secret name r ≡ ok b) ↔ (
          (r.body ≡ some b)
          × (scheme : Text) × (to_lower scheme ≡ codes "sha256")
          × (r.header name ≡ scheme ++ b'=' ∷ hmac_sha256 secret b))
  verify-scheme_iff now max_skew secure secret name r b ns nn = (
    λ h.
        let (body, e, f, k) =
          accepts_signed now max_skew secure secret name b r (nonempty secret ns) h in
        let q =
          sym (
            verify_body_scheme now max_skew secure secret name body r (nonempty secret ns) f
              (differs name nn))
          ∙ k in
        let (t, scheme, l, s) =
          (verify_scheme_iff hmac_sha256 hmac_sha512 secret body b (r.header name)).0 q in
        (e ∙ ap some t, scheme, l, s),
    λ (e, scheme, l, s).
        read_body now max_skew secure secret name b r e
        ∙ verify_body_scheme now max_skew secure secret name b r (nonempty secret ns)
            (rw s (nonempty_append scheme b'=' (hmac_sha256 secret b))) (differs name nn)
        ∙ (verify_scheme_iff hmac_sha256 hmac_sha512 secret b b (r.header name)).1
            (refl, scheme, l, s),
  )
    where
      differs : (name : Text) → name ≢ waha_header → same name waha_header ≡ false
      differs name h = ground (arith, same_iff name waha_header)

      nonempty_append : (s : Text) (c : ℕ) (t : Text) → is_empty (s ++ c ∷ t) ≡ false
      nonempty_append [] c t = refl
      nonempty_append (x ∷ xs) c t = refl

  -- Without a secret: a request is accepted, with its body as the result, exactly when the body can
  -- be read and the secure mode is off, whatever its headers are.
  pub verify-unsigned_iff :
      (now max_skew : ℕ) (secure : Bool) (name : Text) (r : Request) (b : Text)
      → (verify hmac_sha256 hmac_sha512 now max_skew secure [] name r ≡ ok b)
        ↔ ((r.body ≡ some b) × (secure ≡ false))
  unfolding verify verify_body
  verify-unsigned_iff now max_skew secure name r b = elim (Option-cases r.body) [
    | inl e ↦ rw e (ground arith)
    | inr (body, e) ↦ rw e (ground arith)
  ]
