-- ===== src/Limiter/Window.antt =====
-- The sliding window: how AllowWithInfo decides, and what that gives over a run.
use native.Mathlib.Decide.{dec_lt}
use whatsignal.Base.{
  ℕ, ◌+◌, ◌-◌, ◌≤◌, ◌<◌, ◌≡◌, refl, ap, ◌∙◌, true, false, List, [], ◌∷◌, ◌++◌, length, keep, arith,
  ltb, if◌then◌else◌, lt→ltb, not_lt→ltb,
}
use whatsignal.Base.Text.{Text, same_refl}
use whatsignal.Base.Dict.{insert}
use whatsignal.Limiter.{RateLimiter, live, stamps, refresh, cleanup, tidy, allow_with_info, decide}
use whatsignal.Limiter.Maps.{stamps-refresh, stamps-insert}

-- The requests of an IP that are in the window when AllowWithInfo decides.
abbrev pub recent : ℕ → Text → RateLimiter → List ℕ
recent now ip rl = keep (live now rl.window) (stamps ip (tidy now rl).requests)

pub tidy-window : (now : ℕ) (rl : RateLimiter) → (tidy now rl).window ≡ rl.window
unfolding tidy cleanup
tidy-window now rl = ground arith

pub tidy-limit : (now : ℕ) (rl : RateLimiter) → (tidy now rl).limit ≡ rl.limit
unfolding tidy cleanup
tidy-limit now rl = ground arith

unfoldable pub refreshed : ℕ → Text → RateLimiter → List (Text × List ℕ)
refreshed now ip rl = refresh now (tidy now rl).window ip (tidy now rl).requests

pub stamps-refreshed :
    (now : ℕ) (ip : Text) (rl : RateLimiter) → stamps ip (refreshed now ip rl) ≡ recent now ip rl
unfolding refreshed
stamps-refreshed now ip rl =
    rw (tidy-window now rl)
      (stamps-refresh now rl.window ip ip (tidy now rl).requests ∙ rw (same_refl ip))

-- The limiter just before the decision.
unfoldable pub cleaned : ℕ → Text → RateLimiter → RateLimiter
unfolding refreshed
cleaned now ip rl = record (tidy now rl) { requests = refreshed now ip rl }

pub allow_with_info-decide :
    (now : ℕ) (ip : Text) (rl : RateLimiter)
    → allow_with_info now ip rl ≡ decide now ip (cleaned now ip rl) (recent now ip rl)
allow_with_info-decide now ip rl =
    opened ∙ ap (decide now ip (cleaned now ip rl)) (stamps-refreshed now ip rl)
  where
    opened :
        allow_with_info now ip rl
        ≡ decide now ip (cleaned now ip rl) (stamps ip (refreshed now ip rl))
    opened = unfold allow_with_info cleaned in refl

pub cleaned-limit : (now : ℕ) (ip : Text) (rl : RateLimiter) → (cleaned now ip rl).limit ≡ rl.limit
unfolding cleaned
cleaned-limit now ip rl = tidy-limit now rl

module _ (now : ℕ) (ip : Text) (rl : RateLimiter) (current : List ℕ) where
  pub decide_refused :
      rl.limit ≤ length current
      → ((decide now ip rl current).1.allowed ≡ false)
        × ((decide now ip rl current).1.remaining ≡ 0)
        × ((decide now ip rl current).0 ≡ rl)
  unfolding decide
  decide_refused h = ground arith

  pub decide_allowed :
      length current < rl.limit
      → ((decide now ip rl current).1.allowed ≡ true)
        × ((decide now ip rl current).1.remaining + length current + 1 ≡ rl.limit)
        × ((decide now ip rl current).0
            ≡ record rl { requests = insert ip (current ++ now ∷ []) rl.requests })
  decide_allowed h = unfold decide in ground arith

-- The whole behaviour of AllowWithInfo: a request is allowed exactly when fewer requests than the
-- limit are in the window; those remaining are the limit less these and less the request itself,
-- and none where it is refused; its time is added to them if it is allowed, and nothing otherwise.
pub allow_with_info_lem :
    (now : ℕ) (ip : Text) (rl : RateLimiter)
    → ((allow_with_info now ip rl).1.allowed ≡ ltb (length (recent now ip rl)) rl.limit)
      × ((allow_with_info now ip rl).1.remaining ≡ rl.limit - length (recent now ip rl) - 1)
      × (stamps ip (allow_with_info now ip rl).0.requests ≡ (
          if ltb (length (recent now ip rl)) rl.limit
          then recent now ip rl ++ now ∷ []
          else recent now ip rl))
allow_with_info_lem now ip rl =
    rw (allow_with_info-decide now ip rl) (elim (dec_lt (length (recent now ip rl)) rl.limit) [
      | yes room ↦
          let (a, b, c) =
            decide_allowed now ip (cleaned now ip rl) (recent now ip rl)
              (rw (cleaned-limit now ip rl) room) in
          (
            ground (arith, a),
            omega (arith, b, cleaned-limit now ip rl),
            rw (c, lt→ltb _ _ room)
                (stamps-insert ip ip _ (cleaned now ip rl).requests ∙ rw (same_refl ip)),
          )
      | no full ↦
          let (a, b, c) =
            decide_refused now ip (cleaned now ip rl) (recent now ip rl)
              (rw (cleaned-limit now ip rl) (omega arith)) in
          (
            ground (arith, a),
            omega (arith, b),
            rw (c, not_lt→ltb _ _ full) (unfold cleaned in stamps-refreshed now ip rl),
          )
    ])
