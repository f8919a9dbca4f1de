-- ===== src/Retry.antt =====
-- internal/retry/backoff.go. The operation, the context and the waits are arguments: what the
-- n-th call of the operation returns, whether the context is done before the n-th call, and whether
-- it is done before the wait after it ends.
pub mod Attempts
pub mod Delay
pub mod Classifier
pub mod Classes
mod Tests
use whatsignal.Base.{ℕ, zero, suc, ◌+◌, Bool, true, false, Option, none, some, ◌==◌, if◌then◌else◌}

-- What a retried operation meets.
pub record World {ℓ} (E : Type ℓ) : Type ℓ where
  pub call : ℕ → Option E
  pub done_before : ℕ → Bool
  pub done_waiting : ℕ → Bool
  pub ctx_err : E

-- The error that is returned, `none` for nil, and how often the operation was called.
pub record Outcome {ℓ} (E : Type ℓ) : Type ℓ where
  pub error : Option E
  pub calls : ℕ

module _ {ℓ} {E : Type ℓ} (w : World E) (is_retryable : E → Bool) where
  -- The loop of RetryWithPredicate, with the rounds left, the attempt and lastErr.
  unfoldable pub predicate_loop : ℕ → ℕ → Option E → Outcome E
  predicate_loop zero attempt last = record { error = last; calls = attempt }
  predicate_loop (suc left) attempt last = elim (w.done_before (attempt + 1)) [
    | true ↦ record { error = some w.ctx_err; calls = attempt }
    | false ↦ elim (w.call (attempt + 1)) [
      | none ↦ record { error = none; calls = attempt + 1 }
      | some e ↦ elim (is_retryable e) [
        | false ↦ record { error = some e; calls = attempt + 1 }
        | true ↦ elim (left == 0) [
          | true ↦ record { error = some e; calls = attempt + 1 }
          | false ↦ elim (w.done_waiting (attempt + 1)) [
            | true ↦ record { error = some w.ctx_err; calls = attempt + 1 }
            | false ↦ predicate_loop left (attempt + 1) (some e)
          ]
        ]
      ]
    ]
  ]

  -- RetryWithPredicate, for a MaxAttempts that is not negative
  unfoldable pub retry_with_predicate : ℕ → Outcome E
  unfolding predicate_loop
  retry_with_predicate max_attempts = predicate_loop max_attempts 0 none

module _ {ℓ} {E : Type ℓ} (w : World E) where
  -- The loop of Retry.
  unfoldable pub retry_loop : ℕ → ℕ → Option E → Outcome E
  retry_loop zero attempt last = record { error = last; calls = attempt }
  retry_loop (suc left) attempt last = elim (w.done_before (attempt + 1)) [
    | true ↦ record { error = some w.ctx_err; calls = attempt }
    | false ↦ elim (w.call (attempt + 1)) [
      | none ↦ record { error = none; calls = attempt + 1 }
      | some e ↦ elim (left == 0) [
        | true ↦ record { error = some e; calls = attempt + 1 }
        | false ↦ elim (w.done_waiting (attempt + 1)) [
          | true ↦ record { error = some w.ctx_err; calls = attempt + 1 }
          | false ↦ retry_loop left (attempt + 1) (some e)
        ]
      ]
    ]
  ]

  -- Retry
  unfoldable pub retry : ℕ → Outcome E
  unfolding retry_loop
  retry max_attempts = retry_loop max_attempts 0 none
