-- ===== src/Limiter/Trace.antt =====
-- Runs of the limiter under a clock that never goes back, while it tracks no more IPs than its cap.
use whatsignal.Base.{ℕ, ◌≤◌, refl, List, [], length, keep, arith}
use whatsignal.Base.Text.{Text}
use whatsignal.Limiter.{RateLimiter, new_rate_limiter, live, stamps, cleanup, allow_with_info}
use whatsignal.Limiter.Kept.{Fits, logged, times}
use whatsignal.Limiter.Tracks.{Tracks, later, cleanup-Tracks, request-Tracks}

-- From a new limiter at t₀: the allowed requests, the time of the last event, and the limiter.
pub data Run (limit window period t₀ : ℕ) : List (Text × ℕ) → ℕ → RateLimiter → Type 0 where
  begin : Run limit window period t₀ [] t₀ (new_rate_limiter t₀ limit window period)
  request :
      {log : List (Text × ℕ)} {t : ℕ} {rl : RateLimiter} (ip : Text) (now : ℕ)
      → Run limit window period t₀ log t rl
      → t ≤ now
      → Fits now rl
      → Run limit window period t₀
          (logged (allow_with_info now ip rl).1.allowed ip now log)
          now
          (allow_with_info now ip rl).0
  sweep :
      {log : List (Text × ℕ)} {t : ℕ} {rl : RateLimiter} (now : ℕ)
      → Run limit window period t₀ log t rl
      → t ≤ now
      → Fits now rl
      → Run limit window period t₀ log now (cleanup now rl)

Run-Tracks :
    {limit window period t₀ : ℕ} {log : List (Text × ℕ)} {t : ℕ} {rl : RateLimiter}
    → Run limit window period t₀ log t rl
    → Tracks limit window log t rl
Run-Tracks {limit} {window} {period} {t₀} begin =
    unfold new_rate_limiter stamps in
    record {
      distinct = tt;
      same_limit = refl;
      same_window = refl;
      agree = λ ip. refl;
      bounded = λ ip. omega arith;
    }
Run-Tracks {limit} {window} (request {rl = old} ip now r h fits) =
    request-Tracks limit window now ip old h fits (Run-Tracks r)
Run-Tracks {limit} {window} (sweep now r h fits) =
    cleanup-Tracks limit window now fits (later limit window now h (Run-Tracks r))

-- The sliding window: however often whatever clients ask, and however often the cleanup runs, at
-- every moment of a run at most `limit` requests of an IP were allowed within the last `window`,
-- as long as no cleanup has to evict an IP.
pub allowed-le-limit :
    (limit window period t₀ : ℕ) (log : List (Text × ℕ)) (t : ℕ) (rl : RateLimiter) (ip : Text)
    → Run limit window period t₀ log t rl
    → length (keep (live t window) (times ip log)) ≤ limit
allowed-le-limit limit window period t₀ log t rl ip r = (Run-Tracks r).bounded ip
