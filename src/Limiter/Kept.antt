-- ===== src/Limiter/Kept.antt =====
-- The requests of a run that are still in the window, and the cleanups that evict nobody.
use whatsignal.Base.{
  ℕ, ◌+◌, ◌≤◌, ◌≡◌, refl, sym, Bool, true, false, ◌&&◌, List, [], ◌∷◌, ◌++◌, length, keep, arith,
  Bool-cases, ltb, leb, if◌then◌else◌, inl, inr,
}
use whatsignal.Base.Text.{Text, same}
use whatsignal.Limiter.{RateLimiter, live, prune, cap_tracked, cleanup, tidy}

-- A cleanup at this moment would evict nobody.
abbrev pub Fits : ℕ → RateLimiter → Type 0
Fits now rl = length (prune now rl.window rl.requests) ≤ rl.max_tracked_ips

-- The requests that were allowed, in order.
abbrev pub logged : Bool → Text → ℕ → List (Text × ℕ) → List (Text × ℕ)
logged true ip now log = log ++ (ip, now) ∷ []
logged false ip now log = log

abbrev pub times : Text → List (Text × ℕ) → List ℕ
times ip [] = []
times ip ((jp, t) ∷ log) = if same jp ip then t ∷ times ip log else times ip log

-- A request that has left the window does not come back.
pub keep-live :
    (t now w : ℕ) (l : List ℕ)
    → t ≤ now
    → keep (live now w) (keep (live t w) l) ≡ keep (live now w) l
keep-live t now w [] h = refl
keep-live t now w (x ∷ l) h = ground (arith, keep-live t now w l h)

pub keep-live_again :
    (now v w : ℕ) (l : List ℕ)
    → v ≡ w
    → keep (live now v) l ≡ keep (live now w) (keep (live now v) l)
keep-live_again now v w l e = rw e (sym (keep-live now now w l (omega arith)))

pub keep-append : (p : ℕ → Bool) (xs ys : List ℕ) → keep p (xs ++ ys) ≡ keep p xs ++ keep p ys
keep-append p [] ys = refl
keep-append p (x ∷ xs) ys = ground (arith, keep-append p xs ys)

pub times-append :
    (ip jp : Text) (now : ℕ) (log : List (Text × ℕ))
    → times jp (log ++ (ip, now) ∷ [])
      ≡ (if same ip jp then times jp log ++ now ∷ [] else times jp log)
times-append ip jp now [] = refl
times-append ip jp now ((kp, t) ∷ log) = ground (arith, times-append ip jp now log)

pub length-keep-live :
    (t now w : ℕ) (l : List ℕ) → t ≤ now → length (keep (live now w) l) ≤ length (keep (live t w) l)
length-keep-live t now w [] h = omega arith
length-keep-live t now w (x ∷ l) h = ground (arith, length-keep-live t now w l h)

pub cleanup-requests :
    (now : ℕ) (rl : RateLimiter)
    → Fits now rl
    → (cleanup now rl).requests ≡ prune now rl.window rl.requests
cleanup-requests now rl h =
    unfold cleanup in cap_tracked-fits rl.max_tracked_ips (prune now rl.window rl.requests) h
  where
    cap_tracked-fits : (cap : ℕ) (m : List (Text × List ℕ)) → length m ≤ cap → cap_tracked cap m ≡ m
    cap_tracked-fits cap m h = unfold cap_tracked in ground arith

pub tidy-cases {κ} :
    (now : ℕ) (rl : RateLimiter) (P : RateLimiter → Type κ)
    → P (cleanup now rl)
    → P rl
    → P (tidy now rl)
tidy-cases now rl P swept same =
    elim (Bool-cases (ltb 0 rl.cleanup_period && leb (rl.last_cleanup + rl.cleanup_period) now)) [
      | inl e ↦ unfold tidy in rw e swept
      | inr e ↦ unfold tidy in rw e same
    ]

pub length-keep-append :
    (now w : ℕ) (l : List ℕ)
    → length (keep (live now w) (l ++ now ∷ [])) ≤ length (keep (live now w) l) + 1
length-keep-append now w [] = ground arith
length-keep-append now w (x ∷ l) = ground (arith, length-keep-append now w l)
