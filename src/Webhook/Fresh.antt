-- ===== src/Webhook/Fresh.antt =====
-- What verifySignatureWithSkew accepts in the header of WAHA, with a timestamp.
use mathlib.Core.Option.{some-injective}
use whatsignal.Base.{
  ℕ, ◌+◌, ◌*◌, ◌≤◌, ◌≡◌, ◌↔◌, refl, sym, ap, ◌∙◌, false, [], ◌∷◌, Option, none, some, arith,
  Bool-cases, inl, inr,
}
use whatsignal.Base.Text.{Text}
use whatsignal.Webhook.{Int64, plus, minus, ok, out_of_skew, parse_int, check_fresh, verify_waha}
use whatsignal.Webhook.Fields.{check_signature_iff}

-- The time of the event, ts milliseconds, and now differ by at most max_skew.
abbrev pub Fresh : ℕ → ℕ → Int64 → Type 0
Fresh now max_skew (plus ts) = (now ≤ ts * 1_000_000 + max_skew) × (ts * 1_000_000 ≤ now + max_skew)
Fresh now max_skew (minus ts) = now + ts * 1_000_000 ≤ max_skew

out_of_skew_iff :
    (now max_skew : ℕ) (ts : Int64) → (out_of_skew now max_skew ts ≡ false) ↔ Fresh now max_skew ts
unfolding out_of_skew
out_of_skew_iff now max_skew (plus ts) = ground arith
out_of_skew_iff now max_skew (minus ts) = ground arith

module _ (hmac_sha256 hmac_sha512 : Text → Text → Text) where
  check_fresh_iff :
      (now max_skew : ℕ) (secret signature body b : Text) (parsed : Option Int64)
      → (check_fresh hmac_sha256 hmac_sha512 now max_skew secret signature body parsed ≡ ok b) ↔ (
          (body ≡ b)
          × (signature ≡ hmac_sha512 secret b)
          × (ts : Int64) × (parsed ≡ some ts)
          × Fresh now max_skew ts)
  unfolding check_fresh
  check_fresh_iff now max_skew secret signature body b none = ground arith
  check_fresh_iff now max_skew secret signature body b (some ts) = (
    λ h. elim (Bool-cases (out_of_skew now max_skew ts)) [
      | inl e ↦ ground arith
      | inr e ↦
          let (s, t) =
            (check_signature_iff (hmac_sha512 secret body) signature body b).0 (ground arith) in
          (
            t,
            ground (arith, ap (hmac_sha512 secret) t),
            ts,
            refl,
            (out_of_skew_iff now max_skew ts).0 e,
          )
    ],
    λ (t, s, ts', e, fresh).
        let same_ts : ts' ≡ ts = some-injective ts' ts (sym e) in
        let q = (out_of_skew_iff now max_skew ts).1 (rw (← same_ts) fresh) in
        let k =
          (check_signature_iff (hmac_sha512 secret body) signature body b).1
            (s ∙ ap (hmac_sha512 secret) (sym t), t) in
        rw q k,
  )

  pub verify_waha_iff :
      (now max_skew : ℕ) (secret signature timestamp body b : Text)
      → (verify_waha hmac_sha256 hmac_sha512 now max_skew secret signature timestamp body ≡ ok b)
        ↔ ((body ≡ b)
            × (signature ≡ hmac_sha512 secret b)
            × (ts : Int64) × (parse_int timestamp ≡ some ts)
            × Fresh now max_skew ts)
  unfolding verify_waha
  verify_waha_iff now max_skew secret signature [] body b =
      (λ h. ground arith, λ (t, s, ts, e, fresh). unfold parse_int in absurd (cc e))
  verify_waha_iff now max_skew secret signature (c ∷ cs) body b =
      check_fresh_iff now max_skew secret signature body b (parse_int (c ∷ cs))
