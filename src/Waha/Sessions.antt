-- ===== src/Waha/Sessions.antt =====
-- GetSessionStatusByName, validateSessionStatus and WaitForSessionReadyByName of
-- pkg/whatsapp/client.go. The clock at the start of each round of the wait, and the context in the
-- wait after it, are arguments.
use whatsignal.Base.{
  ℕ, zero, suc, ◌+◌, ◌*◌, Bool, true, false, List, [], ◌∷◌, Option, none, some, any, ltb,
  if◌then◌else◌,
}
use whatsignal.Base.Text.{Text, codes, same}
use whatsignal.Waha.{
  get_sessions, Response, World, State, ClientError, request_failed, no_session, permanent,
  timed_out, cancelled, do_request, decoded, get_error,
}

abbrev pub has_name : Text → Option Text × Option Text → Bool
has_name name (none, status) = false
has_name name (some n, status) = same n name

-- The first session of that name, with the status that it has, if any.
unfoldable pub find_session : Text → List (Option Text × Option Text) → Option (Option Text)
unfolding same
find_session name [] = none
find_session name (e ∷ es) = if has_name name e then some e.1 else find_session name es

abbrev pub status_or_unknown : Option Text → Text
status_or_unknown none = codes "unknown"
status_or_unknown (some t) = t

abbrev pub is_working : Option (Option Text) → Bool
is_working none = false
is_working (some none) = false
is_working (some (some t)) = same t (codes "WORKING")

-- isPermanentSessionError
abbrev pub is_permanent : Text → Bool
is_permanent status = any (same status) (codes "STOPPED" ∷ codes "FAILED" ∷ codes "ERROR" ∷ [])

-- The end of a wait; the last says that the rounds ran out.
pub data Waited : Type 0 where
  ready : Waited
  failed : ClientError → Waited
  unfinished : Waited

-- The wait after the n-th round in nanoseconds: DefaultBackoffInitialMs, doubled each time up to
-- DefaultBackoffMaxSec.
unfoldable pub backoff : ℕ → ℕ
backoff zero = 500000000
backoff (suc n) = let next = backoff n * 2 in if ltb 5000000000 next then 5000000000 else next

-- The rounds of a wait: when it starts, the clock at the start of the n-th round, and whether the
-- context ends in the wait after it.
pub record Rounds : Type 0 where
  pub started : ℕ
  pub clock : ℕ → ℕ
  pub ends : ℕ → Bool

module _ (w : World) (name : Text) where
  -- The answer says that the session is ready.
  unfoldable pub says_working : Option Response → Bool
  unfolding find_session same
  says_working r = elim (decoded w w.json.sessions r) [
    | none ↦ false
    | some es ↦ is_working (find_session name es)
  ]

  -- The loop of WaitForSessionReadyByName.
  unfoldable pub wait_loop : Rounds → ℕ → ℕ → ℕ → State → State × Waited
  unfolding do_request says_working
  wait_loop rs deadline zero n s = (s, unfinished)
  wait_loop rs deadline (suc left) n s = elim (ltb (rs.clock n) deadline) [
    | false ↦ (s, failed timed_out)
    | true ↦
        let (s', r) = do_request w get_sessions s in
        elim r [
          | none ↦ (s', failed request_failed)
          | some answer ↦ elim (says_working (some answer)) [
            | true ↦ (s', ready)
            | false ↦ elim (rs.ends n) [
              | true ↦ (s', failed cancelled)
              | false ↦ wait_loop rs deadline left (n + 1) s'
            ]
          ]
        ]
  ]

  -- WaitForSessionReadyByName, with DefaultSessionReadyTimeoutSec; each wait is at least
  -- DefaultBackoffInitialMs, so there are at most 61 rounds.
  unfoldable pub wait_for_session_ready : Rounds → State → State × Waited
  unfolding wait_loop
  wait_for_session_ready rs s = wait_loop rs (rs.started + 30000000000) 61 0 s

  -- validateSessionStatus after the request for the status
  unfoldable pub check_status : Rounds → Option Text → State → State × Waited
  unfolding wait_for_session_ready same
  check_status rs status s =
      if same (status_or_unknown status) (codes "WORKING")
      then (s, ready)
      else if is_permanent (status_or_unknown status)
      then (s, failed (permanent (status_or_unknown status)))
      else wait_for_session_ready rs s

  -- GetSessionStatusByName and validateSessionStatus
  unfoldable pub validate_session_status : Rounds → State → State × Waited
  unfolding do_request find_session check_status
  validate_session_status rs s =
      let (s', r) = do_request w get_sessions s in
      elim (decoded w w.json.sessions r) [
        | none ↦ (s', failed (get_error w r))
        | some es ↦ elim (find_session name es) [
          | none ↦ (s', failed no_session)
          | some status ↦ check_status rs status s'
        ]
      ]
