-- ===== src/Poller.antt =====
-- internal/service/signal_poller.go: validateConfig, Start and Stop, and pollWithRetry. The mutex
-- is released between the two locked sections of Start, and of Stop, so each section is one step.
-- The context, and what PollSignalMessages returns, are arguments as in Retry; the clock is an
-- argument. The WebSocket loop, metrics and logging are not modelled.
pub mod Starts
pub mod Polls
mod Tests
use whatsignal.Base.{
  ℕ, zero, suc, ◌+◌, Bool, true, false, not, ◌&&◌, Option, none, some, ltb, ◌==◌, if◌then◌else◌,
}
use whatsignal.Retry.{World}

-- An int of the configuration, by its sign: negsuc n is -(n + 1).
pub data ℤ : Type 0 where
  pos negsuc : ℕ → ℤ

abbrev pub is_positive : ℤ → Bool
is_positive (pos zero) = false
is_positive (pos (suc n)) = true
is_positive (negsuc n) = false

abbrev pub is_negative : ℤ → Bool
is_negative (pos n) = false
is_negative (negsuc n) = true

-- a < b
abbrev pub is_less : ℤ → ℤ → Bool
is_less (pos a) (pos b) = ltb a b
is_less (pos a) (negsuc b) = false
is_less (negsuc a) (pos b) = true
is_less (negsuc a) (negsuc b) = ltb b a

-- The fields of SignalConfig and RetryConfig that the poller reads.
pub record PollerConfig : Type 0 where
  pub poll_interval_sec : ℤ
  pub poll_timeout_sec : ℤ
  pub max_attempts : ℤ
  pub initial_backoff_ms : ℤ
  pub max_backoff_ms : ℤ
  pub polling_enabled : Bool

pub data PollerError : Type 0 where
  poll_interval poll_timeout max_attempts_positive initial_backoff max_backoff : PollerError
  already_running connection_failed : PollerError

-- validateConfig; `none` is nil
unfoldable pub validate_config : PollerConfig → Option PollerError
validate_config c =
    if not (is_positive c.poll_interval_sec)
    then some poll_interval
    else if is_negative c.poll_timeout_sec
    then some poll_timeout
    else if not (is_positive c.max_attempts)
    then some max_attempts_positive
    else if is_negative c.initial_backoff_ms
    then some initial_backoff
    else if is_less c.max_backoff_ms c.initial_backoff_ms
    then some max_backoff
    else none

-- The poller: its flag, the goroutines that poll (the WaitGroup's counter), and its counters.
pub record SignalPoller : Type 0 where
  pub config : PollerConfig
  pub running : Bool
  pub loops : ℕ
  pub consecutive_failures : ℕ
  pub last_success_time : ℕ

-- How the first section of Start ends: with a result, or with the connection test.
pub data Begun : Type 0 where
  returns : Option PollerError → Begun
  tests_connection : Begun

abbrev pub begun : Option PollerError → Bool → Begun
begun (some e) enabled = returns (some e)
begun none true = tests_connection
begun none false = returns none

-- Start, up to the connection test; it changes nothing
unfoldable pub begin_start : SignalPoller → Begun
unfolding validate_config
begin_start sp =
    if sp.running
    then returns (some already_running)
    else begun (validate_config sp.config) sp.config.polling_enabled

-- Start, from the connection test on. ProcessPendingMessages, which runs before the polling
-- goroutine starts and whose error is only logged, is in Dispatch.
unfoldable pub finish_start : ℕ → Bool → SignalPoller → SignalPoller × Option PollerError
finish_start now connects sp =
    if connects
    then (record sp { running = true; loops = sp.loops + 1; last_success_time = now }, none)
    else (sp, some connection_failed)

-- Start by a single caller
unfoldable pub start : ℕ → Bool → SignalPoller → SignalPoller × Option PollerError
unfolding begin_start finish_start
start now connects sp = elim (begin_start sp) [
  | returns r ↦ (sp, r)
  | tests_connection ↦ finish_start now connects sp
]

-- Stop by a single caller: the context is cancelled, and all polling goroutines end before the last
-- section.
unfoldable pub stop : SignalPoller → SignalPoller
stop sp = if sp.running then record sp { running = false; loops = 0 } else sp

-- The context given to Start is done: the polling goroutine ends, and the poller keeps its flag.
unfoldable pub context_done : SignalPoller → SignalPoller
context_done sp = record sp { loops = 0 }

pub data PollStatus : Type 0 where
  cancelled succeeded non_retryable exhausted : PollStatus

pub record Poll : Type 0 where
  pub status : PollStatus
  pub calls : ℕ

module _ {ℓ} {E : Type ℓ} (w : World E) (is_retryable : E → Bool) where
  -- The loop of pollWithRetry, with the rounds left and the attempt.
  unfoldable pub poll_loop : ℕ → ℕ → Poll
  poll_loop zero attempt = record { status = exhausted; calls = attempt }
  poll_loop (suc left) attempt = elim (w.done_before (attempt + 1)) [
    | true ↦ record { status = cancelled; calls = attempt }
    | false ↦ elim (w.call (attempt + 1)) [
      | none ↦ record { status = succeeded; calls = attempt + 1 }
      | some e ↦ elim (is_retryable e) [
        | false ↦ record { status = non_retryable; calls = attempt + 1 }
        | true ↦ elim (not (left == 0) && w.done_waiting (attempt + 1)) [
          | true ↦ record { status = cancelled; calls = attempt + 1 }
          | false ↦ poll_loop left (attempt + 1)
        ]
      ]
    ]
  ]

-- What a poll does to the counters.
unfoldable pub record_poll : ℕ → PollStatus → SignalPoller → SignalPoller
record_poll now succeeded sp = record sp { consecutive_failures = 0; last_success_time = now }
record_poll now exhausted sp = record sp { consecutive_failures = sp.consecutive_failures + 1 }
record_poll now cancelled sp = sp
record_poll now non_retryable sp = sp

-- pollWithRetry
unfoldable pub poll_with_retry {ℓ} :
    {E : Type ℓ} → World E → (E → Bool) → ℕ → ℕ → SignalPoller → SignalPoller
unfolding poll_loop record_poll
poll_with_retry w is_retryable max_attempts now sp =
    record_poll now (poll_loop w is_retryable max_attempts 0).status sp
