-- ===== src/Webhook/Fields.antt =====
-- Lemmas on the header fields of a webhook, and on the comparison with a computed signature.
use whatsignal.Base.{
  ℕ, ◌≡◌, ◌≢◌, ◌↔◌, refl, false, [], ◌∷◌, ◌++◌, none, some, arith, Bool-cases, Option-cases, inl,
  inr, ◌==◌,
}
use whatsignal.Base.Text.{Text, same_iff, is_empty, to_lower}
use whatsignal.Webhook.{ok, split_once, check_signature}

pub check_signature_iff :
    (computed presented body b : Text)
    → (check_signature computed presented body ≡ ok b) ↔ ((presented ≡ computed) × (body ≡ b))
unfolding check_signature
check_signature_iff computed presented body b = ground (arith, same_iff computed presented)

pub nonempty : (s : Text) → s ≢ [] → is_empty s ≡ false
nonempty [] h = absurd (h refl)
nonempty (x ∷ xs) h = refl

pub is_nonempty : (s : Text) → is_empty s ≡ false → s ≢ []
is_nonempty [] h = absurd (cc h)
is_nonempty (x ∷ xs) h = λ e. cc e

pub split_once-append :
    (sep : ℕ) (before after : Text)
    → split_once sep before ≡ none
    → split_once sep (before ++ sep ∷ after) ≡ some (before, after)
unfolding split_once
split_once-append sep [] after h = ground arith
split_once-append sep (c ∷ cs) after h = elim (Bool-cases (c == sep)) [
  | inl e ↦ ground arith
  | inr e ↦ elim (Option-cases (split_once sep cs)) [
    | inl f ↦ ground (arith, split_once-append sep cs after f)
    | inr (p, f) ↦ ground arith
  ]
]

pub split_once_found :
    (sep : ℕ) (s before after : Text)
    → split_once sep s ≡ some (before, after)
    → s ≡ before ++ sep ∷ after
unfolding split_once
split_once_found sep [] before after h = ground arith
split_once_found sep (c ∷ cs) before after h = elim (Bool-cases (c == sep)) [
  | inl e ↦ ground arith
  | inr e ↦ elim (Option-cases (split_once sep cs)) [
    | inl f ↦ ground arith
    | inr ((b, a), f) ↦ ground (arith, split_once_found sep cs b a f)
  ]
]

pub split_once-to_lower :
    (s : Text) → split_once b'=' (to_lower s) ≡ none → split_once b'=' s ≡ none
unfolding split_once to_lower
split_once-to_lower [] h = refl
split_once-to_lower (c ∷ cs) h = elim (Option-cases (split_once b'=' (to_lower cs))) [
  | inl f ↦ ground (arith, split_once-to_lower cs f)
  | inr (p, f) ↦ ground arith
]
