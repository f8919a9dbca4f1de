-- ===== src/Waha/Waits.antt =====
-- The wait for a session ends.
use whatsignal.Base.{
  ℕ, zero, suc, ◌+◌, ◌*◌, ◌≤◌, ◌<◌, ◌≡◌, ◌≢◌, refl, Bool, true, false, Option, none, some, ltb,
  arith, Bool-cases, inl, inr, if◌then◌else◌,
}
use whatsignal.Base.Text.{Text, codes, same}
use whatsignal.Waha.{
  get_sessions, World, State, ClientError, request_failed, timed_out, cancelled, permanent,
  no_session, do_request, decoded, get_error,
}
use whatsignal.Waha.Sessions.{
  backoff, Rounds, Waited, failed, unfinished, says_working, wait_loop, wait_for_session_ready,
  status_or_unknown, is_permanent, check_status, find_session, validate_session_status,
}

backoff-le : (n : ℕ) → 500000000 ≤ backoff n
unfolding backoff
backoff-le zero = omega arith
backoff-le (suc n) = ground (arith, backoff-le n)

-- The clock: a round does not start before its wait is over.
pub record IsClock (rs : Rounds) : Type 0 where
  pub starts : rs.started ≤ rs.clock 0
  pub waits : (n : ℕ) → rs.clock n + backoff n ≤ rs.clock (suc n)

clock-le : (rs : Rounds) (n : ℕ) → IsClock rs → rs.started + n * 500000000 ≤ rs.clock n
clock-le rs zero c = omega (arith, c.starts)
clock-le rs (suc n) c = omega (arith, clock-le rs n c, c.waits n, backoff-le n)

abbrev IsFinished : State × Waited → Type 0
IsFinished out = out.1 ≢ unfinished

module _ (w : World) (name : Text) where
  bool-IsFinished :
      (b : Bool) (x y : State × Waited)
      → IsFinished x
      → IsFinished y
      → IsFinished (elim b as (λ z. State × Waited) [ true ↦ x | false ↦ y ])
  bool-IsFinished true x y hx hy = hx
  bool-IsFinished false x y hx hy = hy

  option-IsFinished {ℓ} :
      {A : Type ℓ} (o : Option A) (x : State × Waited) (y : A → State × Waited)
      → IsFinished x
      → ((a : A) → IsFinished (y a))
      → IsFinished (elim o as (λ z. State × Waited) [ none ↦ x | some a ↦ y a ])
  option-IsFinished none x y hx hy = hx
  option-IsFinished (some a) x y hx hy = hy a

  failed-IsFinished : (s : State) (e : ClientError) → IsFinished (s, failed e)
  failed-IsFinished s e h = cc h

  last_round :
      (deadline t : ℕ) (x y : State × Waited)
      → deadline ≤ t
      → IsFinished x
      → IsFinished (elim (ltb t deadline) as (λ z. State × Waited) [ false ↦ x | true ↦ y ])
  last_round deadline t x y h f = elim (Bool-cases (ltb t deadline)) [
    | inl e ↦ absurd (omega (arith, over deadline t h e))
    | inr e ↦ rw e f
  ]
    where
      over : (d t : ℕ) → d ≤ t → ltb t d ≡ true → t < t
      over d t h e = ground arith

  wait_loop-IsFinished :
      (rs : Rounds) (deadline left n : ℕ) (s : State)
      → deadline ≤ rs.clock 60
      → n + left ≡ 60
      → IsFinished (wait_loop w name rs deadline (suc left) n s)
  unfolding wait_loop
  wait_loop-IsFinished rs deadline zero n s h e =
      last_round deadline (rs.clock n) _ _ (ap_clock n (omega arith))
        (failed-IsFinished s timed_out)
    where
      ap_clock : (n : ℕ) → n ≡ 60 → deadline ≤ rs.clock n
      ap_clock n e = rw e h
  wait_loop-IsFinished rs deadline (suc left) n s h e =
      let (s', r) = do_request w get_sessions s in
      bool-IsFinished (ltb (rs.clock n) deadline) _ _
        (option-IsFinished r _ _ (failed-IsFinished s' request_failed) (λ a.
          bool-IsFinished (says_working w name (some a)) _ _ (λ k. cc k)
            (bool-IsFinished (rs.ends n) _ _ (failed-IsFinished s' cancelled)
              (wait_loop-IsFinished rs deadline left (n + 1) s' h (omega arith)))))
        (failed-IsFinished s timed_out)

  if-IsFinished :
      (b : Bool) (x y : State × Waited)
      → IsFinished x
      → IsFinished y
      → IsFinished (if b then x else y)
  if-IsFinished true x y hx hy = hx
  if-IsFinished false x y hx hy = hy

  wait_for_session_ready-IsFinished :
      (rs : Rounds) (s : State) → IsClock rs → IsFinished (wait_for_session_ready w name rs s)
  unfolding wait_for_session_ready
  wait_for_session_ready-IsFinished rs s c =
      wait_loop-IsFinished rs (rs.started + 30000000000) 60 0 s (omega (arith, clock-le rs 60 c))
        refl

-- Waiting ends: if no round starts before its wait is over, validateSessionStatus ends with an
-- answer within the 61 rounds of its wait, whatever WAHA says.
pub validate_session_status-ends :
    (w : World) (name : Text) (rs : Rounds) (s : State)
    → IsClock rs
    → (validate_session_status w name rs s).1 ≢ unfinished
unfolding validate_session_status check_status
validate_session_status-ends w name rs s c =
    let (s', r) = do_request w get_sessions s in
    option-IsFinished w name (decoded w w.json.sessions r) _ _
      (failed-IsFinished w name s' (get_error w r))
      (λ es.
        option-IsFinished w name (find_session name es) _ _ (failed-IsFinished w name s' no_session)
          (λ status.
            if-IsFinished w name (same (status_or_unknown status) (codes "WORKING")) _ _ (λ k. cc k)
              (if-IsFinished w name (is_permanent (status_or_unknown status)) _ _
                (failed-IsFinished w name s' (permanent (status_or_unknown status)))
                (wait_for_session_ready-IsFinished w name rs s' c))))
