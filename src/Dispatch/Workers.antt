-- ===== src/Dispatch/Workers.antt =====
-- What a worker of PollSignalMessages leaves in the table.
use native.Mathlib.Decide.{dec_le}
use whatsignal.Base.{
  ℕ, zero, suc, ◌+◌, ◌≤◌, ◌<◌, ◌≡◌, ◌≢◌, ◌↔◌, refl, sym, ◌∙◌, Bool, true, false, not, ◌&&◌, List,
  [], ◌∷◌, any, arith, Bool-cases, inl, inr, ◌==◌,
}
use whatsignal.Base.Text.{Text}
use whatsignal.Dispatch.{
  PendingMessage, has_key, delete_pending, increment_retry_count, Outcome, delivered, cancelled,
  exhausted, attempts, settle, work,
}

-- From attempt n on and before attempt m, all failed and no wait was cancelled.
abbrev pub NoneBetween : (ℕ → Bool) → (ℕ → Bool) → ℕ → ℕ → Type 0
NoneBetween succeeds cancels n m =
    (k : ℕ) → n ≤ k → k < m → (succeeds (k + 1) ≡ false) × (cancels (k + 1) ≡ false)

module _ (succeeds cancels : ℕ → Bool) where
  attempts-first :
      (left n : ℕ) → succeeds (n + 1) ≡ true → attempts succeeds cancels (suc left) n ≡ delivered
  unfolding attempts
  attempts-first left n e = rw (e, attempts)

  attempts-again :
      (left n : ℕ)
      → succeeds (n + 1) ≡ false
      → not (left == 0) && cancels (n + 1) ≡ false
      → attempts succeeds cancels (suc left) n ≡ attempts succeeds cancels left (n + 1)
  unfolding attempts
  attempts-again left n e f = rw (e, f, attempts)

  attempts-cancelled :
      (left n : ℕ)
      → succeeds (n + 1) ≡ false
      → not (left == 0) && cancels (n + 1) ≡ true
      → attempts succeeds cancels (suc left) n ≡ cancelled
  unfolding attempts
  attempts-cancelled left n e f = rw (e, f, attempts)

  attempts_succeed :
      (left n : ℕ)
      → attempts succeeds cancels left n ≡ delivered
      → (m : ℕ) × (n ≤ m)
        × (m < n + left)
        × (succeeds (m + 1) ≡ true)
        × NoneBetween succeeds cancels n m
  attempts_succeed zero n h = unfold attempts in absurd (cc h)
  attempts_succeed (suc left) n h = elim (Bool-cases (succeeds (n + 1))) [
    | inl e ↦ (n, omega arith, omega arith, e, λ k le lt. absurd (omega arith))
    | inr e ↦ elim (Bool-cases (not (left == 0) && cancels (n + 1))) [
      | inl f ↦ absurd (cc (sym (attempts-cancelled left n e f) ∙ h))
      | inr f ↦
          let (m, low, high, s, none) =
            attempts_succeed left (n + 1) (sym (attempts-again left n e f) ∙ h) in
          (
            m,
            omega arith,
            omega arith,
            s,
            λ k le lt. elim (dec_le (n + 1) k) [
              | yes le' ↦ none k le' lt
              | no nle ↦ let same : k ≡ n = omega arith in rw same (e, ground arith)
            ],
          )
    ]
  ]

  succeed_attempts :
      (left n m : ℕ)
      → n ≤ m
      → m < n + left
      → succeeds (m + 1) ≡ true
      → NoneBetween succeeds cancels n m
      → attempts succeeds cancels left n ≡ delivered
  succeed_attempts zero n m low high s none = absurd (omega arith)
  succeed_attempts (suc left) n m low high s none = elim (dec_le m n) [
    | yes le ↦ let same : m ≡ n = omega arith in attempts-first left n (rw (← same) s)
    | no nle ↦
        let (e, f) = none n (omega arith) (omega arith) in
        attempts-again left n e (ground arith)
        ∙ succeed_attempts left (n + 1) m (omega arith) (omega arith) s
            (λ k le lt. none k (omega arith) lt)
  ]

-- The attempts of a worker: it forwards the message exactly when one of the first three attempts
-- succeeds and every attempt before it fails without a cancellation in the wait after it.
pub attempts-delivered_iff :
    (succeeds cancels : ℕ → Bool)
    → (attempts succeeds cancels 3 0 ≡ delivered)
      ↔ ((n : ℕ) × (n < 3) × (succeeds (n + 1) ≡ true) × NoneBetween succeeds cancels 0 n)
attempts-delivered_iff succeeds cancels = (
  λ h. let (m, low, high, s, none) = attempts_succeed succeeds cancels 3 0 h in (m, high, s, none),
  λ (m, high, s, none). succeed_attempts succeeds cancels 3 0 m (omega arith) high s none,
)

-- Rows: some row of these has the key.
abbrev pub holds : Text → Text → List PendingMessage → Bool
holds id destination rows = any (has_key id destination) rows

holds-delete_pending :
    (id destination : Text) (rows : List PendingMessage)
    → holds id destination (delete_pending id destination rows) ≡ false
unfolding delete_pending
holds-delete_pending id destination [] = refl
holds-delete_pending id destination (p ∷ rows) =
    ground (arith, holds-delete_pending id destination rows)

holds-increment_retry_count :
    (id destination : Text) (rows : List PendingMessage)
    → holds id destination (increment_retry_count id destination rows) ≡ holds id destination rows
unfolding increment_retry_count has_key
holds-increment_retry_count id destination [] = refl
holds-increment_retry_count id destination (p ∷ rows) =
    ground (arith, holds-increment_retry_count id destination rows)

-- No loss, and no leftover: after a worker whose statement on the row succeeds, the row of its
-- persisted message is still in the table exactly when it was there before and the message was not
-- forwarded.
pub holds-work :
    (succeeds cancels : ℕ → Bool) (id destination : Text) (rows : List PendingMessage)
    → (holds id destination (work succeeds cancels true true id destination rows) ≡ true)
      ↔ ((holds id destination rows ≡ true) × (attempts succeeds cancels 3 0 ≢ delivered))
unfolding work settle
holds-work succeeds cancels id destination rows = go (attempts succeeds cancels 3 0)
  where
    go :
        (o : Outcome)
        → (holds id destination (settle true true id destination o rows) ≡ true)
          ↔ ((holds id destination rows ≡ true) × (o ≢ delivered))
    go delivered = ground (arith, holds-delete_pending id destination rows)
    go cancelled = (λ h. (h, λ e. cc e), λ (h, n). h)
    go exhausted =
        rw (holds-increment_retry_count id destination rows) (λ h. (h, λ e. cc e), λ (h, n). h)
