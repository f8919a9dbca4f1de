-- ===== src/Breaker/Invariant.antt =====
-- What holds of a breaker between two locked sections, for any interleaving of callers.
use mathlib.Core.Path.{subst}
use whatsignal.Base.Text.{Text}
use whatsignal.Base.{ℕ, zero, suc, ◌+◌, ◌^◌, ◌<◌, ◌≡◌, refl, ap, true, false, arith, ◌-◌}
use whatsignal.Breaker.{
  closed, half_open, CircuitBreaker, new, allow_request, on_success, on_failure, count_request,
  maybe_transition, reset,
}

-- A breaker with the clock and the calls under way: allowed but not counted yet, and running.
pub record System : Type 0 where
  pub breaker : CircuitBreaker
  pub now : ℕ
  pub allowed : ℕ
  pub running : ℕ

-- The locked sections of the callers, in any order, and the passing of time.
pub data Step : System → System → Type 0 where
  tick : (s : System) (d : ℕ) → Step s (record s { now = s.now + d })
  allow :
      (s : System)
      → (allow_request s.now s.breaker).1 ≡ true
      → Step s (record s { breaker = (allow_request s.now s.breaker).0; allowed = s.allowed + 1 })
  deny :
      (s : System)
      → (allow_request s.now s.breaker).1 ≡ false
      → Step s (record s { breaker = (allow_request s.now s.breaker).0 })
  count :
      (s : System)
      → 0 < s.allowed
      → Step s (record s {
        breaker = count_request s.breaker;
        allowed = s.allowed - 1;
        running = s.running + 1;
      })
  succeed :
      (s : System)
      → 0 < s.running
      → Step s (record s { breaker = on_success s.breaker; running = s.running - 1 })
  fail :
      (s : System)
      → 0 < s.running
      → Step s (record s { breaker = on_failure s.now s.breaker; running = s.running - 1 })
  probe : (s : System) → Step s (record s { breaker = maybe_transition s.now s.breaker })
  clear : (s : System) → Step s (record s { breaker = reset s.breaker })

pub data Reach (s : System) : System → Type 0 where
  here : Reach s s
  next : {t u : System} → Reach s t → Step t u → Reach s u

pub record IsCoherent (max_failures : ℕ) (cb : CircuitBreaker) : Type 0 where
  pub limit : cb.half_open_max_calls ≡ 3
  pub threshold : cb.max_failures ≡ max_failures
  pub paired : cb.state ≡ half_open → cb.half_open_calls ≡ cb.success_count
  pub testing : cb.state ≡ half_open → cb.success_count < 3
  pub healthy : cb.state ≡ closed → cb.failures < max_failures

module _ (m : ℕ) (pos : 0 < m) (fits : m < 2 ^ 32) where
  allow_request-IsCoherent :
      (now : ℕ) (cb : CircuitBreaker) → IsCoherent m cb → IsCoherent m (allow_request now cb).0
  unfolding allow_request
  allow_request-IsCoherent now cb h = ground arith

  on_success-IsCoherent : (cb : CircuitBreaker) → IsCoherent m cb → IsCoherent m (on_success cb)
  unfolding on_success
  on_success-IsCoherent cb h = ground arith

  on_failure-IsCoherent :
      (now : ℕ) (cb : CircuitBreaker) → IsCoherent m cb → IsCoherent m (on_failure now cb)
  unfolding on_failure
  on_failure-IsCoherent now cb h = ground arith

  maybe_transition-IsCoherent :
      (now : ℕ) (cb : CircuitBreaker) → IsCoherent m cb → IsCoherent m (maybe_transition now cb)
  unfolding maybe_transition
  maybe_transition-IsCoherent now cb h = ground arith

  Step-IsCoherent : {s t : System} → Step s t → IsCoherent m s.breaker → IsCoherent m t.breaker
  unfolding reset count_request
  Step-IsCoherent (tick s d) h = h
  Step-IsCoherent (allow s e) h = allow_request-IsCoherent s.now s.breaker h
  Step-IsCoherent (deny s e) h = allow_request-IsCoherent s.now s.breaker h
  Step-IsCoherent (count s p) h = ground arith
  Step-IsCoherent (succeed s p) h = on_success-IsCoherent s.breaker h
  Step-IsCoherent (fail s p) h = on_failure-IsCoherent s.now s.breaker h
  Step-IsCoherent (probe s) h = maybe_transition-IsCoherent s.now s.breaker h
  Step-IsCoherent (clear s) h = ground arith

  pub Reach-IsCoherent :
      {s t : System} → IsCoherent m s.breaker → Reach s t → IsCoherent m t.breaker
  Reach-IsCoherent h here = h
  Reach-IsCoherent h (next r st) = Step-IsCoherent st (Reach-IsCoherent h r)

-- A new breaker that nobody has called.
abbrev pub start : Text → ℕ → ℕ → System
start name m timeout = record { breaker = new name m timeout; now = 0; allowed = 0; running = 0 }

new-IsCoherent : (name : Text) (m timeout : ℕ) → 0 < m → IsCoherent m (new name m timeout)
unfolding new
new-IsCoherent name m timeout h = ground arith

-- Whatever callers, clock and probes do to a new breaker, in any interleaving: the limits stay
-- what they were, a closed breaker has fewer failures than its threshold, and a half-open one has
-- as many test calls as successes, fewer than three. The threshold is positive and fits uint32.
pub start-IsCoherent :
    (name : Text) (m timeout : ℕ) (s : System)
    → 0 < m
    → m < 2 ^ 32
    → Reach (start name m timeout) s
    → IsCoherent m s.breaker
start-IsCoherent name m timeout s pos fits r =
    Reach-IsCoherent m pos fits (new-IsCoherent name m timeout pos) r

allow_request-half_open :
    (m now : ℕ) (cb : CircuitBreaker)
    → IsCoherent m cb
    → cb.state ≡ half_open
    → allow_request now cb ≡ (cb, true)
unfolding allow_request
allow_request-half_open m now cb h e = ground arith

Step-allow_same :
    (s : System)
    → allow_request s.now s.breaker ≡ (s.breaker, true)
    → Step s (record s { allowed = s.allowed + 1 })
Step-allow_same s e =
    subst (λ b. Step s (record s { breaker = b; allowed = s.allowed + 1 })) (ap (λ p. p.0) e)
      (allow s (ap (λ p. p.1) e))

repeat_allow :
    (m n : ℕ) (s : System)
    → IsCoherent m s.breaker
    → s.breaker.state ≡ half_open
    → Reach s (record s { allowed = s.allowed + n })
repeat_allow m zero s h e = subst (λ k. Reach s (record s { allowed = k })) (omega arith) here
repeat_allow m (suc n) s h e =
    subst (λ k. Reach s (record s { allowed = k })) (omega arith)
      (next (repeat_allow m n s h e) (
        Step-allow_same (record s { allowed = s.allowed + n })
          (allow_request-half_open m s.now s.breaker h e)))

-- In every reachable half-open state any number n of further calls is let through, one after the
-- other, with no call finished in between and the breaker unchanged: the test against
-- half_open_max_calls never refuses a call.
pub half_open-allows :
    (name : Text) (m timeout n : ℕ) (s : System)
    → 0 < m
    → m < 2 ^ 32
    → Reach (start name m timeout) s
    → s.breaker.state ≡ half_open
    → (t : System) × Reach s t
      × (t.breaker ≡ s.breaker)
      × (t.running ≡ s.running)
      × (t.allowed ≡ s.allowed + n)
half_open-allows name m timeout n s pos fits r e = (
  record s { allowed = s.allowed + n },
  repeat_allow m n s (start-IsCoherent name m timeout s pos fits r) e,
  refl,
  refl,
  refl,
)
