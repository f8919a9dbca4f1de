-- ===== src/Webhook/Admin.antt =====
-- Who passes requireProductionAdminToken.
use whatsignal.Base.{
  ◌≡◌, ◌≢◌, ◌↔◌, ◌⊎◌, inl, inr, refl, ap, ◌∙◌, Bool, true, false, [], ◌∷◌, ◌++◌, arith,
}
use whatsignal.Base.Text.{
  Text, codes, same_iff, is_empty, has_prefix, trim_prefix, has_prefix-append, trim_prefix-append,
  trim_prefix_found,
}
use whatsignal.Webhook.{require_admin_token}

-- The guards, once the prefix and the token are known.
passes :
    (secure : Bool) (token authorization : Text)
    → (require_admin_token secure token authorization ≡ true) ↔ (
        ((secure ≡ false) × (is_empty token ≡ true))
        ⊎ ((is_empty token ≡ false)
            × (has_prefix authorization (codes "Bearer ") ≡ true)
            × (trim_prefix authorization (codes "Bearer ") ≡ token)))
unfolding require_admin_token
passes secure token authorization =
    ground (arith, same_iff (trim_prefix authorization (codes "Bearer ")) token)

-- The diagnostics: a request passes exactly when the secure mode is off and no admin token is set,
-- or when a token is set and the Authorization header is `Bearer ` and the token.
pub require_admin_token_iff :
    (secure : Bool) (token authorization : Text)
    → (require_admin_token secure token authorization ≡ true) ↔ (
        ((secure ≡ false) × (token ≡ []))
        ⊎ ((token ≢ []) × (authorization ≡ codes "Bearer " ++ token)))
require_admin_token_iff secure [] authorization = (
  λ h. elim ((passes secure [] authorization).0 h) [
    | inl (e, f) ↦ inl (e, refl)
    | inr (f, p, t) ↦ absurd (cc f)
  ],
  λ h. elim h [
    | inl (e, f) ↦ (passes secure [] authorization).1 (inl (e, refl))
    | inr (n, e) ↦ absurd (n refl)
  ],
)
require_admin_token_iff secure (c ∷ cs) authorization = (
  λ h. elim ((passes secure (c ∷ cs) authorization).0 h) [
    | inl (e, f) ↦ absurd (cc f)
    | inr (f, p, t) ↦ inr (
      (λ e. cc e),
      trim_prefix_found authorization (codes "Bearer ") p ∙ ap (λ s. codes "Bearer " ++ s) t,
    )
  ],
  λ h. elim h [
    | inl (e, f) ↦ absurd (cc f)
    | inr (n, e) ↦ (passes secure (c ∷ cs) authorization).1 (
        inr (
          refl,
          rw e (has_prefix-append (codes "Bearer ") (c ∷ cs)),
          rw e (trim_prefix-append (codes "Bearer ") (c ∷ cs)),
        ))
  ],
)
