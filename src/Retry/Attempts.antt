-- ===== src/Retry/Attempts.antt =====
-- How often an operation is called, and what its caller is told.
use native.Mathlib.Decide.{dec_lt}
use whatsignal.Base.{
  ℕ, zero, suc, ◌+◌, ◌≤◌, ◌<◌, ◌≡◌, refl, ◌⊎◌, inl, inr, Bool, true, false, Option, none, some,
  Bool-cases, Option-cases, ◌==◌, arith,
}
use whatsignal.Retry.{World, Outcome, predicate_loop, retry_with_predicate, retry_loop, retry}

module _ {ℓ} {E : Type ℓ} (w : World E) (is_retryable : E → Bool) where
  -- The n-th call failed with an error that is worth another.
  abbrev pub FailsRetryably : ℕ → Type ℓ
  FailsRetryably n = (e : E) × (w.call n ≡ some e) × (is_retryable e ≡ true)

  -- Why a caller that had `before` calls already, at most `max`, is told what it is told.
  pub record IsExplained (before max : ℕ) (o : Outcome E) : Type ℓ where
    pub at_least : before ≤ o.calls
    pub at_most : o.calls ≤ max
    -- every call but the last one failed, and was worth another
    pub earlier : (n : ℕ) → before < n → n < o.calls → FailsRetryably n
    -- nil is told only of a call that succeeded
    pub success : o.error ≡ none → w.call o.calls ≡ none
    -- an error is that of the last call, which is final or used up the attempts, or the context's
    pub failure :
        (e : E)
        → o.error ≡ some e
        → ((w.call o.calls ≡ some e) × ((is_retryable e ≡ false) ⊎ (o.calls ≡ max)))
          ⊎ ((e ≡ w.ctx_err)
              × ((w.done_before (o.calls + 1) ≡ true) ⊎ (w.done_waiting o.calls ≡ true)))

  -- The loop stops at this round's call, or before it.
  stopped :
      (attempt max calls : ℕ) (error : Option E)
      → attempt ≤ calls
      → calls ≤ attempt + 1
      → calls ≤ max
      → (error ≡ none → w.call calls ≡ none)
      → ((e : E)
          → error ≡ some e
          → ((w.call calls ≡ some e) × ((is_retryable e ≡ false) ⊎ (calls ≡ max)))
            ⊎ ((e ≡ w.ctx_err)
                × ((w.done_before (calls + 1) ≡ true) ⊎ (w.done_waiting calls ≡ true))))
      → IsExplained attempt max (record { error = error; calls = calls })
  stopped attempt max calls error lo hi top s f = record {
    at_least = lo;
    at_most = top;
    earlier = λ n p q. absurd (omega arith);
    success = s;
    failure = f;
  }

  -- The loop goes on after a call that failed retryably.
  continued :
      (attempt max : ℕ) (o : Outcome E)
      → FailsRetryably (attempt + 1)
      → IsExplained (attempt + 1) max o
      → IsExplained attempt max o
  continued attempt max o f x = record {
    at_least = omega (arith, x.at_least);
    at_most = x.at_most;
    earlier = λ n p q. elim (dec_lt (attempt + 1) n) [
      | yes more ↦ x.earlier n more q
      | no same ↦ let e : attempt + 1 ≡ n = omega arith in rw (← e) f
    ];
    success = x.success;
    failure = x.failure;
  }

  pub predicate_loop-IsExplained :
      (left attempt max : ℕ) (last : Option E)
      → 0 < left
      → attempt + left ≡ max
      → IsExplained attempt max (predicate_loop w is_retryable left attempt last)
  unfolding predicate_loop
  predicate_loop-IsExplained zero attempt max last pos h = absurd (omega arith)
  predicate_loop-IsExplained (suc left) attempt max last pos h =
      elim (Bool-cases (w.done_before (attempt + 1))) [
        | inl done ↦
            rw (done, predicate_loop)
              (stopped attempt max attempt (some w.ctx_err) (omega arith) (omega arith)
                (omega arith) (λ q. cc) (λ e q. inr (cc, inl done)))
        | inr running ↦
            rw (running, predicate_loop)
              (elim (Option-cases (w.call (attempt + 1))) [
                | inl success ↦ rw success (
                    stopped attempt max (attempt + 1) none (omega arith) (omega arith) (omega arith)
                      (λ _. success) (λ e q. cc))
                | inr (x, fails) ↦ rw fails (elim (Bool-cases (is_retryable x)) [
                  | inr final ↦ rw final (
                      stopped attempt max (attempt + 1) (some x) (omega arith) (omega arith)
                        (omega arith) (λ q. cc)
                        (λ e q. let x≡e : x ≡ e = cc in inl (cc, inl (rw (← x≡e) final))))
                  | inl again ↦ rw again (elim (Bool-cases (left == 0)) [
                    | inl spent ↦ rw spent (
                        stopped attempt max (attempt + 1) (some x) (omega arith) (omega arith)
                          (omega arith) (λ q. cc) (λ e q. inl (cc, inr (ground arith))))
                    | inr more ↦ rw more (elim (Bool-cases (w.done_waiting (attempt + 1))) [
                      | inl done ↦ rw done (
                          stopped attempt max (attempt + 1) (some w.ctx_err) (omega arith)
                            (omega arith) (omega arith) (λ q. cc) (λ e q. inr (cc, inr done)))
                      | inr waited ↦ rw waited (
                          continued attempt max _ (x, fails, again)
                            (predicate_loop-IsExplained left (attempt + 1) max (some x)
                              (ground arith) (omega arith)))
                    ])
                  ])
                ])
              ])
      ]

-- RetryWithPredicate with at least one attempt allowed: the operation is called at most so often;
-- every call but the last failed with a retryable error; nil is returned only after a call that
-- succeeded; an error is the last call's, which is not retryable or used up the attempts, or it is
-- the context's, which was done before the next call or during the wait.
pub retry_with_predicate-IsExplained {ℓ} :
    {E : Type ℓ} (w : World E) (is_retryable : E → Bool) (max : ℕ)
    → 0 < max
    → IsExplained w is_retryable 0 max (retry_with_predicate w is_retryable max)
unfolding retry_with_predicate
retry_with_predicate-IsExplained w is_retryable max pos =
    predicate_loop-IsExplained w is_retryable max 0 max none pos (omega arith)

retry_loop-predicate_loop {ℓ} :
    {E : Type ℓ} (w : World E) (left attempt : ℕ) (last : Option E)
    → retry_loop w left attempt last ≡ predicate_loop w (λ _. true) left attempt last
unfolding retry_loop predicate_loop
retry_loop-predicate_loop w zero attempt last = refl
retry_loop-predicate_loop {E} w (suc left) attempt last = λ i.
    elim (w.done_before (attempt + 1)) as (λ _. Outcome E) [
      | true ↦ record { error = some w.ctx_err; calls = attempt }
      | false ↦ elim (w.call (attempt + 1)) as (λ _. Outcome E) [
        | none ↦ record { error = none; calls = attempt + 1 }
        | some e ↦ elim (left == 0) as (λ _. Outcome E) [
          | true ↦ record { error = some e; calls = attempt + 1 }
          | false ↦ elim (w.done_waiting (attempt + 1)) as (λ _. Outcome E) [
            | true ↦ record { error = some w.ctx_err; calls = attempt + 1 }
            | false ↦ retry_loop-predicate_loop w left (attempt + 1) (some e) i
          ]
        ]
      ]
    ]

-- Retry is RetryWithPredicate with every error retryable, whatever the operation and the context
-- do: the same error after the same calls.
pub retry-retry_with_predicate {ℓ} :
    {E : Type ℓ} (w : World E) (max : ℕ) → retry w max ≡ retry_with_predicate w (λ _. true) max
unfolding retry retry_with_predicate
retry-retry_with_predicate w max = retry_loop-predicate_loop w max 0 none
