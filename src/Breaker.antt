-- ===== src/Breaker.antt =====
-- pkg/circuitbreaker/circuit_breaker.go. Each method that takes the mutex is one function on the
-- breaker; the clock is an argument. Log calls are left out, and the name is a text.
pub mod Invariant
pub mod Runs
mod Tests
use whatsignal.Base.{
  ℕ, ◌+◌, ◌%◌, ◌^◌, Bool, true, false, Option, none, some, ltb, leb, if◌then◌else◌,
}
use whatsignal.Base.Text.{Text, codes}

pub data State : Type 0 where
  closed open_circuit half_open : State

-- State.String
unfoldable pub state_name : State → Text
state_name closed = codes "CLOSED"
state_name open_circuit = codes "OPEN"
state_name half_open = codes "HALF_OPEN"

-- Times and durations are numbers of nanoseconds; counters are uint32.
pub record CircuitBreaker : Type 0 where
  pub name : Text
  pub max_failures : ℕ
  pub timeout : ℕ
  pub half_open_max_calls : ℕ
  pub state : State
  pub failures : ℕ
  pub last_failure_time : ℕ
  pub half_open_calls : ℕ
  pub success_count : ℕ
  pub request_count : ℕ

abbrev pub u32 : ℕ → ℕ
u32 n = n % 2 ^ 32

-- New and NewWithLogger
unfoldable pub new : Text → ℕ → ℕ → CircuitBreaker
new name max_failures timeout = record {
  name = name;
  max_failures = max_failures;
  timeout = timeout;
  half_open_max_calls = 3;
  state = closed;
  failures = 0;
  last_failure_time = 0;
  half_open_calls = 0;
  success_count = 0;
  request_count = 0;
}

-- `time.Since(last) >= timeout`, with the subtraction moved to the other side
unfoldable pub should_attempt_reset : ℕ → CircuitBreaker → Bool
should_attempt_reset now cb = leb (cb.last_failure_time + cb.timeout) now

unfoldable pub transition_to_half_open : CircuitBreaker → CircuitBreaker
transition_to_half_open cb = record cb { state = half_open; half_open_calls = 0; success_count = 0 }

unfoldable pub trip : CircuitBreaker → CircuitBreaker
trip cb = record cb { state = open_circuit }

unfoldable pub close_after_recovery : CircuitBreaker → CircuitBreaker
close_after_recovery cb = record cb { state = closed; failures = 0; half_open_calls = 0 }

-- reset and Reset
unfoldable pub reset_counters : CircuitBreaker → CircuitBreaker
reset_counters cb = record cb {
  state = closed;
  failures = 0;
  success_count = 0;
  half_open_calls = 0;
}

unfoldable pub reset : CircuitBreaker → CircuitBreaker
unfolding reset_counters
reset cb = record (reset_counters cb) { request_count = 0 }

allow_in : State → ℕ → CircuitBreaker → CircuitBreaker × Bool
unfolding should_attempt_reset transition_to_half_open
allow_in closed now cb = (cb, true)
allow_in open_circuit now cb =
    if should_attempt_reset now cb then (transition_to_half_open cb, true) else (cb, false)
allow_in half_open now cb = (cb, ltb cb.half_open_calls cb.half_open_max_calls)

unfoldable pub allow_request : ℕ → CircuitBreaker → CircuitBreaker × Bool
unfolding allow_in
allow_request now cb = allow_in cb.state now cb

success_in : State → CircuitBreaker → CircuitBreaker
unfolding close_after_recovery
success_in half_open cb =
    let cb' = record cb {
      half_open_calls = u32 (cb.half_open_calls + 1);
      success_count = u32 (cb.success_count + 1);
    } in
    if leb cb'.half_open_max_calls cb'.success_count then close_after_recovery cb' else cb'
success_in closed cb = record cb { success_count = u32 (cb.success_count + 1); failures = 0 }
success_in open_circuit cb = cb

unfoldable pub on_success : CircuitBreaker → CircuitBreaker
unfolding success_in
on_success cb = success_in cb.state cb

failure_in : State → CircuitBreaker → CircuitBreaker
unfolding trip
failure_in closed cb = if leb cb.max_failures cb.failures then trip cb else cb
failure_in half_open cb = trip cb
failure_in open_circuit cb = cb

unfoldable pub on_failure : ℕ → CircuitBreaker → CircuitBreaker
unfolding failure_in
on_failure now cb =
    failure_in cb.state (record cb { failures = u32 (cb.failures + 1); last_failure_time = now })

unfoldable pub count_request : CircuitBreaker → CircuitBreaker
count_request cb = record cb { request_count = u32 (cb.request_count + 1) }

is_open : State → Bool
is_open open_circuit = true
is_open _ = false

-- MaybeTransition; its result is the state of the breaker that is returned
unfoldable pub maybe_transition : ℕ → CircuitBreaker → CircuitBreaker
unfolding is_open should_attempt_reset transition_to_half_open
maybe_transition now cb =
    if is_open cb.state
    then (if should_attempt_reset now cb then transition_to_half_open cb else cb)
    else cb

-- What Execute returns: a CircuitBreakerError, or what the call returned.
pub data Outcome {ℓ} (E : Type ℓ) : Type ℓ where
  refused : Text → State → Outcome E
  returned : Option E → Outcome E

module _ {ℓ} {E : Type ℓ} where
  settle : ℕ → Option E → CircuitBreaker → CircuitBreaker
  unfolding on_success on_failure
  settle now none cb = on_success cb
  settle now (some e) cb = on_failure now cb

  run_if : Bool → ℕ → Option E → CircuitBreaker → CircuitBreaker × Outcome E
  unfolding settle count_request
  run_if true after result cb = (settle after result (count_request cb), returned result)
  run_if false after result cb = (cb, refused cb.name cb.state)

  -- Execute with no other caller in between: asked for at `before`, the call ends at `after` with
  -- `result`.
  unfoldable pub execute : ℕ → ℕ → Option E → CircuitBreaker → CircuitBreaker × Outcome E
  unfolding run_if allow_request
  execute before after result cb =
      let (cb', allowed) = allow_request before cb in run_if allowed after result cb'
