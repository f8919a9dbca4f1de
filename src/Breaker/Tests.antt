-- ===== src/Breaker/Tests.antt =====
-- Concrete breakers.
use whatsignal.Base.{ℕ, ◌+◌, ◌<◌, ◌≡◌, ◌↔◌, refl, List, [], ◌∷◌, arith}
use whatsignal.Base.Text.{Text, codes}
use whatsignal.Breaker.{
  CircuitBreaker, closed, open_circuit, half_open, new, allow_request, count_request, on_failure,
  maybe_transition,
}
use whatsignal.Breaker.Invariant.{
  System, Reach, here, next, fail, probe, allow, count, tick, IsCoherent, start, start-IsCoherent,
  half_open-allows,
}
use whatsignal.Breaker.Runs.{fail_all, fail_all-closed, succeed_all, execute-recovers}

abbrev api : Text
api = codes "api"

abbrev tripped : CircuitBreaker
tripped = record {
  name = api;
  max_failures = 1;
  timeout = 10;
  half_open_max_calls = 3;
  state = open_circuit;
  failures = 1;
  last_failure_time = 0;
  half_open_calls = 0;
  success_count = 0;
  request_count = 1;
}

abbrev testing : CircuitBreaker
testing = record tripped { state = half_open }

abbrev at_ten : System
at_ten = record { breaker = testing; now = 10; allowed = 0; running = 0 }

-- A failed call, ten nanoseconds, and a probe.
at_ten_reached : Reach (start api 1 10) at_ten
unfolding new allow_request count_request on_failure maybe_transition
at_ten_reached =
    next
      (next
        (next (next (next here (allow (start api 1 10) refl)) (count _ (omega arith)))
          (fail _ (omega arith)))
        (tick _ 10))
      (probe _)

start-IsCoherent_example : IsCoherent 1 testing
start-IsCoherent_example =
    start-IsCoherent api 1 10 at_ten (omega arith) (omega arith) at_ten_reached

half_open-allows_example :
    (t : System) × Reach at_ten t × (t.breaker ≡ testing) × (t.running ≡ 0) × (t.allowed ≡ 0 + 5)
half_open-allows_example =
    half_open-allows api 1 10 5 at_ten (omega arith) (omega arith) at_ten_reached refl

abbrev two_failures : List (ℕ × ℕ × ℕ)
two_failures = (1, 2, 7) ∷ (3, 4, 7) ∷ []

fail_all-closed_example :
    ((fail_all two_failures (new api 3 10)).state ≡ closed)
    ↔ ((new api 3 10).failures + 2 < (new api 3 10).max_failures)
fail_all-closed_example =
    fail_all-closed two_failures (new api 3 10) (unfold new in refl) (unfold new in omega arith)
      (unfold new in omega arith)

execute-recovers_example :
    ((succeed_all ((10, 11) ∷ []) tripped).state ≡ half_open)
    × ((succeed_all ((10, 11) ∷ (12, 13) ∷ []) tripped).state ≡ half_open)
    × ((succeed_all ((10, 11) ∷ (12, 13) ∷ (14, 15) ∷ []) tripped).state ≡ closed)
    × ((succeed_all ((10, 11) ∷ (12, 13) ∷ (14, 15) ∷ []) tripped).failures ≡ 0)
execute-recovers_example = execute-recovers 10 12 14 11 13 15 tripped refl refl (omega arith)
