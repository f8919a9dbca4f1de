-- ===== src/Breaker/Runs.antt =====
-- Execute, one call after the other.
use native.Mathlib.Decide.{dec_lt}
use whatsignal.Base.{
  ℕ, ◌+◌, ◌^◌, ◌≤◌, ◌<◌, ◌≡◌, ◌≢◌, ◌↔◌, List, [], ◌∷◌, Option, none, some, length, arith, ◌⊎◌, inl,
  inr, Bool, true, false, refl,
}
use whatsignal.Base.Text.{Text}
use whatsignal.Breaker.{
  closed, open_circuit, half_open, CircuitBreaker, refused, returned, execute, run_if,
  allow_request, State,
}

-- Before the timeout has passed since the last failure an open breaker refuses a call with its name
-- and state, whatever the call would have returned, and is left as it was.
pub execute-open {ℓ} :
    {E : Type ℓ} (before after : ℕ) (result : Option E) (cb : CircuitBreaker)
    → cb.state ≡ open_circuit
    → before < cb.last_failure_time + cb.timeout
    → execute before after result cb ≡ (cb, refused cb.name open_circuit)
unfolding execute
execute-open before after result cb e h = ground arith

-- Calls that all fail, each with the times at which it begins and ends.
pub fail_all {ℓ} : {E : Type ℓ} → List (ℕ × ℕ × E) → CircuitBreaker → CircuitBreaker
fail_all [] cb = cb
fail_all ((before, after, e) ∷ calls) cb = fail_all calls (execute before after (some e) cb).0

execute_fails-closed {ℓ} :
    {E : Type ℓ} (before after : ℕ) (e : E) (cb : CircuitBreaker)
    → cb.state ≡ closed
    → cb.failures + 1 < cb.max_failures
    → cb.max_failures < 2 ^ 32
    → ((execute before after (some e) cb).0.state ≡ closed)
      × ((execute before after (some e) cb).0.failures ≡ cb.failures + 1)
      × ((execute before after (some e) cb).0.max_failures ≡ cb.max_failures)
unfolding execute
execute_fails-closed before after e cb c h f = ground arith

execute_fails_trips {ℓ} :
    {E : Type ℓ} (before after : ℕ) (e : E) (cb : CircuitBreaker)
    → cb.state ≡ closed
    → cb.max_failures ≤ cb.failures + 1
    → cb.failures + 1 < 2 ^ 32
    → (execute before after (some e) cb).0.state ≡ open_circuit
unfolding execute
execute_fails_trips before after e cb c h f = ground arith

execute_fails-ne-closed {ℓ} :
    {E : Type ℓ} (before after : ℕ) (e : E) (cb : CircuitBreaker)
    → cb.state ≢ closed
    → (execute before after (some e) cb).0.state ≢ closed
unfolding execute
execute_fails-ne-closed before after e cb h = ground arith

fail_all-ne-closed {ℓ} :
    {E : Type ℓ} (calls : List (ℕ × ℕ × E)) (cb : CircuitBreaker)
    → cb.state ≢ closed
    → (fail_all calls cb).state ≢ closed
unfolding fail_all
fail_all-ne-closed [] cb h = h
fail_all-ne-closed ((before, after, e) ∷ calls) cb h =
    fail_all-ne-closed calls _ (execute_fails-ne-closed before after e cb h)

-- A run of calls that all fail, begun on a closed breaker, leaves it closed exactly when its
-- failures and theirs together stay below the threshold, which is positive and fits uint32.
pub fail_all-closed {ℓ} :
    {E : Type ℓ} (calls : List (ℕ × ℕ × E)) (cb : CircuitBreaker)
    → cb.state ≡ closed
    → cb.failures < cb.max_failures
    → cb.max_failures < 2 ^ 32
    → ((fail_all calls cb).state ≡ closed) ↔ (cb.failures + length calls < cb.max_failures)
unfolding fail_all
fail_all-closed [] cb c lt fits = (λ _. omega arith, λ _. c)
fail_all-closed ((before, after, e) ∷ calls) cb c lt fits =
    elim (dec_lt (cb.failures + 1) cb.max_failures) [
      | yes more ↦
          let (c', f', m') = execute_fails-closed before after e cb c more fits in
          let ih =
            fail_all-closed calls (execute before after (some e) cb).0 c' (omega arith)
              (omega arith) in
          (λ z. omega (arith, ih.0 z), λ z. ih.1 (omega arith))
      | no full ↦
          let opened = execute_fails_trips before after e cb c (omega arith) (omega arith) in
          (
            λ z. absurd (
                fail_all-ne-closed calls (execute before after (some e) cb).0
                  (λ same. cc (opened, same)) z),
            λ z. absurd (omega arith),
          )
    ]

-- Calls that all succeed.
pub succeed_all : List (ℕ × ℕ) → CircuitBreaker → CircuitBreaker
succeed_all [] cb = cb
succeed_all ((before, after) ∷ calls) cb =
    succeed_all calls (execute {E = Unit {0}} before after none cb).0

-- An open breaker whose timeout has passed needs three successful calls to close again: after
-- one and two of them it is half-open, after the third it is closed with no failures, also when
-- nothing is known of the later calls' times. Its limit on test calls is the three of New.
pub execute-recovers :
    (t₁ t₂ t₃ u₁ u₂ u₃ : ℕ) (cb : CircuitBreaker)
    → cb.state ≡ open_circuit
    → cb.half_open_max_calls ≡ 3
    → cb.last_failure_time + cb.timeout ≤ t₁
    → ((succeed_all ((t₁, u₁) ∷ []) cb).state ≡ half_open)
      × ((succeed_all ((t₁, u₁) ∷ (t₂, u₂) ∷ []) cb).state ≡ half_open)
      × ((succeed_all ((t₁, u₁) ∷ (t₂, u₂) ∷ (t₃, u₃) ∷ []) cb).state ≡ closed)
      × ((succeed_all ((t₁, u₁) ∷ (t₂, u₂) ∷ (t₃, u₃) ∷ []) cb).failures ≡ 0)
unfolding succeed_all execute
execute-recovers t₁ t₂ t₃ u₁ u₂ u₃ cb c m h = ground arith

by_allowed {ℓ} :
    {E : Type ℓ} (allowed : Bool) (after : ℕ) (result : Option E) (cb : CircuitBreaker)
    → ((name : Text) × (s : State) × ((run_if allowed after result cb).1 ≡ refused name s))
      ⊎ ((run_if allowed after result cb).1 ≡ returned result)
unfolding run_if
by_allowed true after result cb = inr refl
by_allowed false after result cb = inl (cb.name, cb.state, refl)

-- A call is refused, or its result is returned.
pub execute_cases {ℓ} :
    {E : Type ℓ} (before after : ℕ) (result : Option E) (cb : CircuitBreaker)
    → ((name : Text) × (s : State) × ((execute before after result cb).1 ≡ refused name s))
      ⊎ ((execute before after result cb).1 ≡ returned result)
unfolding execute
execute_cases before after result cb =
    by_allowed (allow_request before cb).1 after result (allow_request before cb).0
