-- ===== src/Retry/Delay.antt =====
-- calculateDelay of internal/retry/backoff.go. float64 is a parameter: its operations, and what is
-- used of its rounding.
use whatsignal.Base.{
  ℕ, zero, suc, ◌-◌, ◌^◌, ◌≤◌, ◌≡◌, Bool, true, false, arith, Bool-cases, inl, inr, if◌then◌else◌,
}

-- The float64 operations of calculateDelay and its three constants. Durations are natural numbers
-- of nanoseconds. A duration up to 2^53 ns, some 104 days, is exact as a float64, and the
-- conversion to int64 truncates.
pub record Float : Type 1 where
  pub F : Type 0
  pub of_duration : ℕ → F
  pub to_duration : F → ℕ
  pub plus : F → F → F
  pub minus : F → F → F
  pub times : F → F → F
  pub half : F
  pub two : F
  pub quarter : F
  pub above : F → F → Bool
  pub negative : F → Bool
  pub not_above : (d : F) (m : ℕ) → m ≤ 2 ^ 53 → above d (of_duration m) ≡ false → to_duration d ≤ m
  pub exact : (m : ℕ) → m ≤ 2 ^ 53 → to_duration (of_duration m) ≡ m

module _ (f : Float) where
  open f use {F, of_duration, to_duration, plus, minus, times, half, two, quarter, above, negative}

  -- BackoffConfig; MaxAttempts belongs to the loops
  pub record BackoffConfig : Type 0 where
    pub initial_delay : ℕ
    pub max_delay : ℕ
    pub multiplier : F
    pub jitter : Bool

  -- `for i := 1; i < attempt; i++ { delay *= multiplier }`, with the rounds left
  grow : ℕ → F → F → F
  grow zero m d = d
  grow (suc n) m d = grow n m (times d m)

  cap_at : ℕ → F → F
  cap_at max d = if above d (of_duration max) then of_duration max else d

  -- The jitter, for the random number `r`.
  shake : BackoffConfig → F → F → F
  unfolding cap_at
  shake c r d =
      let d' = plus d (times (times (minus r half) two) (times d quarter)) in
      cap_at c.max_delay (if negative d' then of_duration c.initial_delay else d')

  -- calculateDelay, GetNextDelay
  unfoldable pub calculate_delay : BackoffConfig → F → ℕ → ℕ
  unfolding grow cap_at shake
  calculate_delay c r attempt =
      let d = cap_at c.max_delay (grow (attempt - 1) c.multiplier (of_duration c.initial_delay)) in
      to_duration (if c.jitter then shake c r d else d)

  to_duration-cap_at : (max : ℕ) (d : F) → max ≤ 2 ^ 53 → to_duration (cap_at max d) ≤ max
  unfolding cap_at
  to_duration-cap_at max d fits = elim (Bool-cases (above d (of_duration max))) [
    | inl over ↦ rw over (omega (arith, f.exact max fits))
    | inr under ↦ rw under (f.not_above d max fits under)
  ]

  chosen-le :
      (b : Bool) (x y : F) (max : ℕ)
      → to_duration x ≤ max
      → to_duration y ≤ max
      → to_duration (if b then x else y) ≤ max
  chosen-le true x y max p q = p
  chosen-le false x y max p q = q

  -- For every attempt, multiplier and random number, with jitter and without, no delay is longer
  -- than MaxDelay, where MaxDelay is at most 2^53 ns.
  pub calculate_delay-le-max_delay :
      (c : BackoffConfig) (r : F) (attempt : ℕ)
      → c.max_delay ≤ 2 ^ 53
      → calculate_delay c r attempt ≤ c.max_delay
  calculate_delay-le-max_delay c r attempt fits =
      unfold calculate_delay in
      chosen-le c.jitter _ _ c.max_delay (to_duration-cap_at c.max_delay _ fits)
        (to_duration-cap_at c.max_delay _ fits)
