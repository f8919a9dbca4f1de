-- ===== src/Retry/Tests.antt =====
-- Concrete operations and errors.
use whatsignal.Base.{
  ℕ, ◌+◌, ◌-◌, ◌*◌, ◌/◌, ◌^◌, ◌≤◌, ◌≡◌, refl, true, false, none, some, ltb, ◌==◌, if◌then◌else◌,
  arith,
}
use whatsignal.Base.Text.{codes, to_lower}
use whatsignal.Retry.{World, retry_with_predicate}
use whatsignal.Retry.Attempts.{IsExplained, retry_with_predicate-IsExplained}
use whatsignal.Retry.Delay.{Float, BackoffConfig, calculate_delay}
use whatsignal.Retry.Classifier.{
  Error, is_legacy_transient_error, mentions, lowered, is_retryable_whatsapp_error,
}

-- Fails twice with error 7, then succeeds.
abbrev flaky : World ℕ
flaky = record {
  call = λ n. if ltb n 3 then some 7 else none;
  done_before = λ n. false;
  done_waiting = λ n. false;
  ctx_err = 1;
}

flaky_succeeds : retry_with_predicate flaky (λ e. e == 7) 5 ≡ record { error = none; calls = 3 }
unfolding retry_with_predicate
flaky_succeeds = refl

flaky_gives_up : retry_with_predicate flaky (λ e. e == 7) 2 ≡ record { error = some 7; calls = 2 }
unfolding retry_with_predicate
flaky_gives_up = refl

-- With no attempt allowed, nil is returned and nothing was called.
no_attempts : retry_with_predicate flaky (λ e. e == 7) 0 ≡ record { error = none; calls = 0 }
unfolding retry_with_predicate
no_attempts = refl

retry_with_predicate-IsExplained_example :
    IsExplained flaky (λ e. e == 7) 0 5 (retry_with_predicate flaky (λ e. e == 7) 5)
retry_with_predicate-IsExplained_example =
    retry_with_predicate-IsExplained flaky (λ e. e == 7) 5 (omega arith)

quarters-not_above : (d m : ℕ) → m ≤ 2 ^ 53 → ltb (m * 4) d ≡ false → d / 4 ≤ m
quarters-not_above d m fits h = ground arith

-- Quarters of a nanosecond in place of float64; the random number is at least a half.
abbrev quarters : Float
quarters = record {
  F = ℕ;
  of_duration = λ n. n * 4;
  to_duration = λ d. d / 4;
  plus = λ a b. a + b;
  minus = λ a b. a - b;
  times = λ a b. a * b / 4;
  half = 2;
  two = 8;
  quarter = 1;
  above = λ a b. ltb b a;
  negative = λ a. false;
  not_above = quarters-not_above;
  exact = λ m fits. omega arith;
}

abbrev doubling : BackoffConfig quarters
doubling = record { initial_delay = 100; max_delay = 1000; multiplier = 8; jitter = true }

third_delay : calculate_delay quarters (record doubling { jitter = false }) 3 3 ≡ 400
unfolding calculate_delay
third_delay = refl

abbrev gateway_down : Error
gateway_down = record {
  text = codes "request failed with Status 502";
  is_canceled = false;
  is_deadline_exceeded = false;
  app_retryable = none;
}

abbrev typed : Error
typed = record gateway_down { app_retryable = some false }

gateway_down_retried : is_retryable_whatsapp_error (some gateway_down) ≡ true
unfolding is_retryable_whatsapp_error mentions to_lower lowered is_legacy_transient_error
gateway_down_retried = refl

abbrev timed_out : Error
timed_out = record gateway_down { is_deadline_exceeded = true }
