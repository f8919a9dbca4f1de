-- ===== src/Poller/Polls.antt =====
-- A poll with its retries against RetryWithPredicate, and the failure counter.
use whatsignal.Base.{
  ℕ, zero, suc, ◌+◌, ◌≡◌, ◌↔◌, refl, ap, Bool, true, false, Option, none, some, List, [], ◌∷◌,
  arith, Bool-cases, Option-cases, inl, inr, ◌==◌,
}
use whatsignal.Retry.{World, Outcome, predicate_loop, retry_with_predicate}
use whatsignal.Poller.{
  SignalPoller, PollStatus, cancelled, succeeded, non_retryable, exhausted, poll_loop, record_poll,
  Poll,
}

-- As many calls, and a success exactly where no error is returned.
abbrev pub Agree {ℓ} : {E : Type ℓ} → Poll → Outcome E → Type ℓ
Agree p o = (p.calls ≡ o.calls) × ((p.status ≡ succeeded) ↔ (o.error ≡ none))

more_left : (left : ℕ) → (suc left == 0) ≡ false
more_left left = ground arith

module _ {ℓ} {E : Type ℓ} (w : World E) (is_retryable : E → Bool) where
  -- A round that its own call or the context ends, or a retryable failure with the wait not done.
  round-Agree :
      (left attempt : ℕ) (last : Option E)
      → ((x : E)
          → w.done_before (attempt + 1) ≡ false
          → w.call (attempt + 1) ≡ some x
          → is_retryable x ≡ true
          → Agree
              (poll_loop w is_retryable (suc left) attempt)
              (predicate_loop w is_retryable (suc left) attempt last))
      → Agree
          (poll_loop w is_retryable (suc left) attempt)
          (predicate_loop w is_retryable (suc left) attempt last)
  unfolding poll_loop predicate_loop
  round-Agree left attempt last next = elim (Bool-cases (w.done_before (attempt + 1))) [
    | inl a ↦ rw (a, poll_loop, predicate_loop) (refl, (λ e. absurd (cc e), λ e. absurd (cc e)))
    | inr a ↦ elim (Option-cases (w.call (attempt + 1))) [
      | inl b ↦ rw (a, b, poll_loop, predicate_loop) (refl, (λ e. refl, λ e. refl))
      | inr (x, b) ↦ elim (Bool-cases (is_retryable x)) [
        | inr c ↦
            rw (a, b, c, poll_loop, predicate_loop) (refl, (λ e. absurd (cc e), λ e. absurd (cc e)))
        | inl c ↦ next x a b c
      ]
    ]
  ]

  loops-Agree :
      (left attempt : ℕ) (last : Option E)
      → Agree
          (poll_loop w is_retryable (suc left) attempt)
          (predicate_loop w is_retryable (suc left) attempt last)
  unfolding poll_loop predicate_loop
  loops-Agree zero attempt last = round-Agree zero attempt last (λ x a b c.
      rw (a, b, c, poll_loop, predicate_loop) (refl, (λ e. absurd (cc e), λ e. absurd (cc e))))
  loops-Agree (suc left) attempt last = round-Agree (suc left) attempt last (λ x a b c.
      elim (Bool-cases (w.done_waiting (attempt + 1))) [
        | inl d ↦
            rw (a, b, c, more_left left, d, poll_loop, predicate_loop)
              (refl, (λ e. absurd (cc e), λ e. absurd (cc e)))
        | inr d ↦
            rw (a, b, c, more_left left, d, poll_loop, predicate_loop)
              (loops-Agree left (attempt + 1) (some x))
      ])

  -- A poll is RetryWithPredicate on the same operation and context: with at least one attempt, it
  -- makes as many calls, and succeeds exactly when RetryWithPredicate returns no error.
  pub poll_loop-retry_with_predicate :
      (left : ℕ)
      → ((poll_loop w is_retryable (suc left) 0).calls
          ≡ (retry_with_predicate w is_retryable (suc left)).calls)
        × (((poll_loop w is_retryable (suc left) 0).status ≡ succeeded)
            ↔ ((retry_with_predicate w is_retryable (suc left)).error ≡ none))
  unfolding retry_with_predicate
  poll_loop-retry_with_predicate left = loops-Agree left 0 none

-- The failures since the last success: those of polls that used up their attempts, newest first.
abbrev pub failures_since : List PollStatus → ℕ → ℕ
failures_since [] n = n
failures_since (succeeded ∷ h) n = 0
failures_since (exhausted ∷ h) n = failures_since h n + 1
failures_since (cancelled ∷ h) n = failures_since h n
failures_since (non_retryable ∷ h) n = failures_since h n

abbrev pub record_all : List (ℕ × PollStatus) → SignalPoller → SignalPoller
record_all [] sp = sp
record_all ((now, s) ∷ h) sp = record_poll now s (record_all h sp)

abbrev pub statuses : List (ℕ × PollStatus) → List PollStatus
statuses [] = []
statuses ((now, s) ∷ h) = s ∷ statuses h

-- The failure counter: after any polls it is the number of polls since the last success that used
-- up their attempts, on from its first value if no poll succeeded; polls that were cancelled or met
-- an error that is not retryable do not count.
pub record_all-failures_since :
    (h : List (ℕ × PollStatus)) (sp : SignalPoller)
    → (record_all h sp).consecutive_failures ≡ failures_since (statuses h) sp.consecutive_failures
unfolding record_poll
record_all-failures_since [] sp = refl
record_all-failures_since ((now, succeeded) ∷ h) sp = refl
record_all-failures_since ((now, exhausted) ∷ h) sp =
    ap (λ n. n + 1) (record_all-failures_since h sp)
record_all-failures_since ((now, cancelled) ∷ h) sp = record_all-failures_since h sp
record_all-failures_since ((now, non_retryable) ∷ h) sp = record_all-failures_since h sp
