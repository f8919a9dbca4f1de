-- ===== src/Poller/Tests.antt =====
-- A poller that may start, and polls of three attempts.
use whatsignal.Base.{
  ℕ, ◌≡◌, ◌≢◌, ◌⊎◌, ◌↔◌, refl, List, arith, Bool, true, false, none, some, [], ◌∷◌,
}
use whatsignal.Retry.{World, retry_with_predicate}
use whatsignal.Poller.{
  PollerConfig, pos, negsuc, SignalPoller, validate_config, max_backoff, tests_connection,
  begin_start, finish_start, start, stop, succeeded, poll_loop, record_poll, poll_with_retry,
}
use whatsignal.Poller.Starts.{
  Event, start_call, stop_call, context_end, perform_all, IsSettled, perform_all-IsSettled,
}
use whatsignal.Poller.Polls.{poll_loop-retry_with_predicate}

abbrev config : PollerConfig
config = record {
  poll_interval_sec = pos 5;
  poll_timeout_sec = pos 0;
  max_attempts = pos 3;
  initial_backoff_ms = pos 100;
  max_backoff_ms = pos 1_000;
  polling_enabled = true;
}

abbrev stopped : SignalPoller
stopped = record {
  config = config;
  running = false;
  loops = 0;
  consecutive_failures = 0;
  last_success_time = 0;
}

abbrev events : List Event
events = start_call 1 true ∷ start_call 2 true ∷ context_end ∷ stop_call ∷ []

perform_all-IsSettled_example :
    let sp = perform_all events stopped in
    IsSettled sp
    × ((begin_start sp ≢ tests_connection)
        ⊎ (((start 9 true sp).0.loops ≡ 1) × ((start 9 true sp).0.running ≡ true)))
    × ((stop sp).loops ≡ 0)
    × ((stop sp).running ≡ false)
perform_all-IsSettled_example = perform_all-IsSettled events 9 stopped (omega arith)

-- Two callers in the connection test at once.
two_loops :
    (begin_start stopped ≡ tests_connection)
    × ((finish_start 2 true (finish_start 1 true stopped).0).1 ≡ none)
    × ((finish_start 2 true (finish_start 1 true stopped).0).0.loops ≡ 2)
unfolding begin_start validate_config finish_start
two_loops = (refl, refl, refl)

backoff_too_small : validate_config (record config { max_backoff_ms = negsuc 0 }) ≡ some max_backoff
unfolding validate_config
backoff_too_small = refl

-- Every call fails, retryably.
abbrev down : World ℕ
down = record {
  call = λ n. some n;
  done_before = λ n. false;
  done_waiting = λ n. false;
  ctx_err = 0;
}

abbrev always : ℕ → Bool
always n = true

poll_loop-retry_with_predicate_example :
    ((poll_loop down always 3 0).calls ≡ (retry_with_predicate down always 3).calls)
    × (((poll_loop down always 3 0).status ≡ succeeded)
        ↔ ((retry_with_predicate down always 3).error ≡ none))
poll_loop-retry_with_predicate_example = poll_loop-retry_with_predicate down always 2

gives_up : (poll_with_retry down always 3 9 stopped).consecutive_failures ≡ 1
unfolding poll_with_retry poll_loop record_poll
gives_up = refl
