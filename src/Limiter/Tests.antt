-- ===== src/Limiter/Tests.antt =====
-- A limiter with two requests a minute, and one IP.
use whatsignal.Base.{ℕ, ◌≤◌, ◌≡◌, refl, false, List, [], ◌∷◌, length, keep, arith}
use whatsignal.Base.Text.{Text, codes}
use whatsignal.Limiter.{RateLimiter, new_rate_limiter, live, cleanup, allow_with_info}
use whatsignal.Limiter.Kept.{times}
use whatsignal.Limiter.Trace.{Run, begin, request, allowed-le-limit}

abbrev client : Text
client = codes "10.0.0.7"

-- Allowed at 100, and again at 130.
abbrev after_two : RateLimiter
after_two = record {
  requests = (client, 100 ∷ 130 ∷ []) ∷ [];
  limit = 2;
  window = 60;
  max_tracked_ips = 10000;
  last_cleanup = 100;
  cleanup_period = 300_000_000_000;
}

abbrev two_requests : List (Text × ℕ)
two_requests = (client, 100) ∷ (client, 130) ∷ []

after_two-Run : Run 2 60 0 100 two_requests 130 after_two
unfolding new_rate_limiter allow_with_info
after_two-Run =
    request client 130 (request client 100 begin (omega arith) (unfold cleanup in omega arith))
      (omega arith) (unfold cleanup in omega arith)

third_refused : (allow_with_info 140 client after_two).1.allowed ≡ false
unfolding allow_with_info
third_refused = refl

allowed-le-limit_example : length (keep (live 130 60) (times client two_requests)) ≤ 2
allowed-le-limit_example =
    allowed-le-limit 2 60 0 100 two_requests 130 after_two client after_two-Run
