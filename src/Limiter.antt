-- ===== src/Limiter.antt =====
-- The RateLimiter of cmd/whatsignal/security.go. Methods run under its mutex, so each is one
-- function on the limiter; the clock is an argument. Times and durations are nanoseconds. The
-- order of the association list stands for the order in which Go ranges over the map.
pub mod Maps
pub mod Window
pub mod Kept
pub mod Tracks
pub mod Trace
mod Tests
use whatsignal.Base.{
  ℕ, ◌+◌, ◌-◌, Bool, true, false, ◌&&◌, List, [], ◌∷◌, ◌++◌, Option, none, some, length, take, keep,
  ltb, leb, ◌==◌, if◌then◌else◌,
}
use whatsignal.Base.Text.{Text}
use whatsignal.Base.Dict.{lookup, insert, erase}

-- The int limit is a natural number: 0 stands for every limit that is not positive.
pub record RateLimiter : Type 0 where
  pub requests : List (Text × List ℕ)
  pub limit : ℕ
  pub window : ℕ
  pub max_tracked_ips : ℕ
  pub last_cleanup : ℕ
  pub cleanup_period : ℕ

-- NewRateLimiter, with the default period of startBackgroundCleanup (5 minutes)
unfoldable pub new_rate_limiter : ℕ → ℕ → ℕ → ℕ → RateLimiter
new_rate_limiter now limit window cleanup_period = record {
  requests = [];
  limit = limit;
  window = window;
  max_tracked_ips = 10000;
  last_cleanup = now;
  cleanup_period = if cleanup_period == 0 then 300_000_000_000 else cleanup_period;
}

-- `reqTime.After(now.Add(-window))`
abbrev pub live : ℕ → ℕ → ℕ → Bool
live now window t = ltb now (t + window)

-- An entry is kept only if it has a valid request.
unfoldable pub keep_entry : Text → List ℕ → List (Text × List ℕ) → List (Text × List ℕ)
keep_entry ip [] m = m
keep_entry ip (t ∷ ts) m = (ip, t ∷ ts) ∷ m

-- The loop over all IPs of cleanupLocked.
unfoldable pub prune : ℕ → ℕ → List (Text × List ℕ) → List (Text × List ℕ)
unfolding keep_entry
prune now window [] = []
prune now window ((ip, reqs) ∷ m) = keep_entry ip (keep (live now window) reqs) (prune now window m)

-- sort.Slice by count
unfoldable pub insert_by_count : Text × ℕ → List (Text × ℕ) → List (Text × ℕ)
insert_by_count (ip, n) [] = (ip, n) ∷ []
insert_by_count (ip, n) ((jp, k) ∷ es) =
    if leb n k then (ip, n) ∷ (jp, k) ∷ es else (jp, k) ∷ insert_by_count (ip, n) es

unfoldable pub sort_by_count : List (Text × ℕ) → List (Text × ℕ)
unfolding insert_by_count
sort_by_count [] = []
sort_by_count (e ∷ es) = insert_by_count e (sort_by_count es)

unfoldable pub counts : List (Text × List ℕ) → List (Text × ℕ)
counts [] = []
counts ((ip, reqs) ∷ m) = (ip, length reqs) ∷ counts m

unfoldable pub evict : List (Text × ℕ) → List (Text × List ℕ) → List (Text × List ℕ)
evict [] m = m
evict ((ip, n) ∷ es) m = evict es (erase ip m)

unfoldable pub cap_tracked : ℕ → List (Text × List ℕ) → List (Text × List ℕ)
unfolding evict sort_by_count counts
cap_tracked cap m =
    if ltb 0 cap && ltb cap (length m)
    then evict (take (length m - cap) (sort_by_count (counts m))) m
    else m

-- cleanupLocked
unfoldable pub cleanup : ℕ → RateLimiter → RateLimiter
unfolding prune cap_tracked
cleanup now rl = record rl {
  requests = cap_tracked rl.max_tracked_ips (prune now rl.window rl.requests);
  last_cleanup = now;
}

pub record RateLimitInfo : Type 0 where
  pub allowed : Bool
  pub limit : ℕ
  pub remaining : ℕ
  pub reset_time : ℕ

-- `rl.requests[ip]`, nil where it is missing
unfoldable pub stamps : Text → List (Text × List ℕ) → List ℕ
unfolding lookup
stamps ip m = elim (lookup ip m) [ none ↦ [] | some reqs ↦ reqs ]

-- `delete` where no request is valid, or else the assignment.
unfoldable pub store_valid : Text → List ℕ → List (Text × List ℕ) → List (Text × List ℕ)
unfolding insert erase
store_valid ip [] m = erase ip m
store_valid ip (t ∷ ts) m = insert ip (t ∷ ts) m

-- The old requests of one IP.
unfoldable pub refresh : ℕ → ℕ → Text → List (Text × List ℕ) → List (Text × List ℕ)
unfolding lookup store_valid
refresh now window ip m = elim (lookup ip m) [
  | none ↦ m
  | some reqs ↦ store_valid ip (keep (live now window) reqs) m
]

-- When the oldest request expires.
abbrev reset_at : ℕ → ℕ → List ℕ → ℕ
reset_at now window [] = now + window
reset_at now window (t ∷ ts) = t + window

unfoldable pub tidy : ℕ → RateLimiter → RateLimiter
unfolding cleanup
tidy now rl =
    if ltb 0 rl.cleanup_period && leb (rl.last_cleanup + rl.cleanup_period) now
    then cleanup now rl
    else rl

unfoldable pub decide : ℕ → Text → RateLimiter → List ℕ → RateLimiter × RateLimitInfo
unfolding insert
decide now ip rl current =
    if leb rl.limit (length current)
    then (
      rl,
      record {
        allowed = false;
        limit = rl.limit;
        remaining = 0;
        reset_time = reset_at now rl.window current;
      },
    )
    else (
      record rl { requests = insert ip (current ++ now ∷ []) rl.requests },
      record {
        allowed = true;
        limit = rl.limit;
        remaining = rl.limit - length current - 1;
        reset_time = reset_at now rl.window current;
      },
    )

-- AllowWithInfo; Allow is the field `allowed` of its result
unfoldable pub allow_with_info : ℕ → Text → RateLimiter → RateLimiter × RateLimitInfo
unfolding tidy decide refresh stamps
allow_with_info now ip rl =
    let rl₁ = tidy now rl in
    let m = refresh now rl₁.window ip rl₁.requests in
    decide now ip (record rl₁ { requests = m }) (stamps ip m)
