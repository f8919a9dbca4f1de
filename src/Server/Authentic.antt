-- ===== src/Server/Authentic.antt =====
-- What it takes for a webhook to change the bridge.
use whatsignal.Base.{
  [], ◌∷◌, sym, ap, ◌∙◌, ◌≡◌, ◌≢◌, refl, false, not, ◌&&◌, Option, none, some, ◌⊎◌, inl, inr,
  Bool-cases,
}
use whatsignal.Base.Text.{Text}
use whatsignal.Webhook.{
  Request, Verified, ok, err, WebhookError, waha_header, timestamp_header, verify,
}
use whatsignal.Webhook.{Int64, parse_int}
use whatsignal.Webhook.Fresh.{Fresh}
use whatsignal.Webhook.Signature.{verify-waha_iff, verify-unsigned_iff}
use whatsignal.Bridge.{Services, State, Conditions}
use whatsignal.Server.{Payload, Library, Server}
use whatsignal.Server.Hooks.{
  Hook, max_skew, is_own_event, handle_payload, check_replay, handle_body, handle_webhook,
}

Verified-cases :
    (x : Verified) → ((e : WebhookError) × (x ≡ err e)) ⊎ ((body : Text) × (x ≡ ok body))
Verified-cases (err e) = inl (e, refl)
Verified-cases (ok body) = inr (body, refl)

module _ (v : Services) (l : Library) (c : Conditions) where
  -- A payload that is handled: it was decoded, and is no content that we sent ourselves.
  abbrev IsForeign : Payload → Type 0
  IsForeign p = (p.from_me && not (is_own_event p.event)) ≡ false

  handle_payload-changes :
      (decoded : Option Payload) (s : State)
      → (handle_payload v l c decoded s).0 ≢ s
      → (p : Payload) × (decoded ≡ some p) × IsForeign p
  unfolding handle_payload
  handle_payload-changes none s h = absurd (h refl)
  handle_payload-changes (some p) s h =
      elim (Bool-cases (p.from_me && not (is_own_event p.event))) [
        | inl e ↦ absurd (h (rw (e, handle_payload) refl))
        | inr e ↦ (p, refl, e)
      ]

  module _ (h : Hook) (timestamp body : Text) (s : Server) where
    handle_body-changes :
        (handle_body v l h c timestamp body s).0.bridge ≢ s.bridge
        → ((check_replay v l h timestamp body s.replay).1 ≡ false)
          × ((handle_payload v l c (l.decode body) s.bridge).0 ≢ s.bridge)
    unfolding handle_body
    handle_body-changes k = elim (Bool-cases (check_replay v l h timestamp body s.replay).1) [
      | inl e ↦ absurd (k (rw (e, handle_body) refl))
      | inr e ↦ (e, λ same_bridge. k (rw (e, handle_body) same_bridge))
    ]

module _ (l : Library) (h : Hook) (r : Request) (body : Text) where
  -- Signed with the secret and in time; or there is no secret, and no secure mode.
  abbrev pub IsVerified : Type 0
  IsVerified =
      (r.body ≡ some body)
      × (((h.secret ≡ []) × (h.secure ≡ false))
          ⊎ ((h.secret ≢ [])
              × (r.header waha_header ≡ l.hmac_sha512 h.secret body)
              × (ts : Int64) × (parse_int (r.header timestamp_header) ≡ some ts)
              × Fresh h.now (max_skew h.max_skew_sec) ts))

  verify-IsVerified :
      (secret : Text)
      → h.secret ≡ secret
      → verify l.hmac_sha256 l.hmac_sha512 h.now
          (max_skew h.max_skew_sec)
          h.secure
          secret
          waha_header
          r
        ≡ ok body
      → IsVerified
  verify-IsVerified [] e k =
      let (read, insecure) =
        (verify-unsigned_iff l.hmac_sha256 l.hmac_sha512 h.now (max_skew h.max_skew_sec) h.secure
            waha_header r body).0
          k in
      (read, inl (e, insecure))
  verify-IsVerified (x ∷ secret) e k =
      let (read, signed, _, ts, parsed, fresh) =
        (verify-waha_iff l.hmac_sha256 l.hmac_sha512 h.now (max_skew h.max_skew_sec) h.secure
            (x ∷ secret) r body (λ q. cc q)).0
          k in
      (
        read,
        inr (
          λ q. cc (sym e ∙ q),
          signed ∙ ap (λ z. l.hmac_sha512 z body) (sym e),
          ts,
          parsed,
          fresh,
        ),
      )

-- Webhooks: if one changes the bridge, its mappings, its calls or its fallbacks, its body was read
-- and holds a payload that can be decoded and is no content of the account's own, and it is not a
-- replay as the cache tells where it has a timestamp. Moreover, its signature is the HMAC-SHA-512 of
-- the body under the secret and its timestamp is within the skew; or no secret is configured, and
-- secure mode is off.
pub handle_webhook-authentic :
    (v : Services) (l : Library) (h : Hook) (c : Conditions) (r : Request) (s : Server)
    → (handle_webhook v l h c r s).0.bridge ≢ s.bridge
    → (body : Text) × (p : Payload) × IsVerified l h r body
      × ((check_replay v l h (r.header timestamp_header) body s.replay).1 ≡ false)
      × (l.decode body ≡ some p)
      × ((p.from_me && not (is_own_event p.event)) ≡ false)
unfolding handle_webhook
handle_webhook-authentic v l h c r s k =
    let checked =
      verify l.hmac_sha256 l.hmac_sha512 h.now (max_skew h.max_skew_sec) h.secure h.secret
        waha_header r in
    elim (Verified-cases checked) [
      | inl (e, x) ↦ absurd (k (rw (x, handle_webhook) refl))
      | inr (body, x) ↦
          let (fresh, changed) =
            handle_body-changes v l c h (r.header timestamp_header) body s
              (λ same_bridge. k (rw (x, handle_webhook) same_bridge)) in
          let (p, decoded, foreign) =
            handle_payload-changes v l c (l.decode body) s.bridge changed in
          (body, p, verify-IsVerified l h r body h.secret refl x, fresh, decoded, foreign)
    ]
