-- ===== src/Monitor/History.antt =====
-- When a session counts as stuck, over any history of checks.
use mathlib.Core.Path.{subst}
use whatsignal.Base.{
  ap, ◌∙◌, ◌&&◌, ltb, ℕ, ◌+◌, ◌<◌, ◌≡◌, refl, Bool, true, false, List, [], ◌∷◌, Option, none, some,
  Bool-cases, inl, inr, arith,
}
use whatsignal.Base.Text.{Text, same, same_iff}
use whatsignal.Base.Dict.{lookup, insert, lookup-insert_self, lookup-erase_self}
use whatsignal.Monitor.{
  SessionMonitor, new_session_monitor, starting, is_some_text, or_zero, update_and_check,
  reset_tracking, handle_restart, check_and_recover, respond, starting_timeout,
  is_session_unhealthy,
}

-- The checks that got an answer, newest first.
abbrev pub seen : ℕ → Option Text → List (ℕ × Text) → List (ℕ × Text)
seen now none h = h
seen now (some status) h = (now, status) ∷ h

-- The checks of a new monitor, with what it saw so far.
pub data Run (session : Text) (timeout : ℕ) : List (ℕ × Text) → SessionMonitor → Type 0 where
  begin : Run session timeout [] (new_session_monitor session timeout)
  check :
      {h : List (ℕ × Text)} {sm : SessionMonitor} (now : ℕ) (answer : Option Text) (succeeds : Bool)
      → Run session timeout h sm
      → Run session timeout (seen now answer h) (check_and_recover now answer succeeds sm).0

-- The newest checks, back to one at t, all saw the status.
pub data HeldSince (status : Text) (t : ℕ) : List (ℕ × Text) → Type 0 where
  first : {h : List (ℕ × Text)} → HeldSince status t ((t, status) ∷ h)
  again :
      {h : List (ℕ × Text)} (u : ℕ) → HeldSince status t h → HeldSince status t ((u, status) ∷ h)

-- What the monitor remembers of the history.
pub record Remembers (timeout : ℕ) (h : List (ℕ × Text)) (sm : SessionMonitor) : Type 0 where
  pub same_timeout : sm.startup_timeout ≡ timeout
  pub held :
      (status : Text)
      → lookup sm.session_name sm.last_known_status ≡ some status
      → HeldSince status (or_zero (lookup sm.session_name sm.session_state_timestamps)) h

tracked : ℕ → Text → SessionMonitor → SessionMonitor
tracked now status sm = record sm {
  session_state_timestamps = insert sm.session_name now sm.session_state_timestamps;
  last_known_status = insert sm.session_name status sm.last_known_status;
}

update_and_check_changed :
    (now : ℕ) (status : Text) (sm : SessionMonitor)
    → is_some_text status (lookup sm.session_name sm.last_known_status) ≡ false
    → update_and_check now status sm ≡ (tracked now status sm, false)
unfolding update_and_check tracked
update_and_check_changed now status sm e = rw e

update_and_check_unchanged :
    (now : ℕ) (status : Text) (sm : SessionMonitor)
    → is_some_text status (lookup sm.session_name sm.last_known_status) ≡ true
    → ((update_and_check now status sm).0 ≡ sm)
      × ((update_and_check now status sm).1 ≡ (
          same status starting
          && ltb
              (or_zero (lookup sm.session_name sm.session_state_timestamps) + sm.startup_timeout)
              now))
unfolding update_and_check
update_and_check_unchanged now status sm e = ground arith

is_some_text→eq : (s t : Text) (o : Option Text) → is_some_text s o ≡ true → o ≡ some t → t ≡ s
is_some_text→eq s t none h e = cc
is_some_text→eq s t (some u) h e = let u≡s : u ≡ s = (same_iff u s).0 h in cc

is_some_text→some : (s : Text) (o : Option Text) → is_some_text s o ≡ true → o ≡ some s
is_some_text→some s none h = cc
is_some_text→some s (some u) h = ap some ((same_iff u s).0 h)

module _ (timeout now : ℕ) (status : Text) {h : List (ℕ × Text)} where
  tracked-Remembers :
      (sm : SessionMonitor)
      → Remembers timeout h sm
      → Remembers timeout ((now, status) ∷ h) (tracked now status sm)
  unfolding tracked
  tracked-Remembers sm r = record {
    same_timeout = r.same_timeout;
    held = λ s e.
        let eq : status ≡ s =
          cc (lookup-insert_self sm.session_name status sm.last_known_status, e) in
        rw (lookup-insert_self sm.session_name now sm.session_state_timestamps, ← eq) first;
  }

  same-Remembers :
      (sm : SessionMonitor)
      → is_some_text status (lookup sm.session_name sm.last_known_status) ≡ true
      → Remembers timeout h sm
      → Remembers timeout ((now, status) ∷ h) sm
  same-Remembers sm k r = record {
    same_timeout = r.same_timeout;
    held = λ s e.
        let eq : s ≡ status = is_some_text→eq status s _ k e in
        subst
          (λ u.
            HeldSince s (or_zero (lookup sm.session_name sm.session_state_timestamps))
              ((now, u) ∷ h))
          eq (again now (r.held s e));
  }

  update_and_check-Remembers :
      (sm : SessionMonitor)
      → Remembers timeout h sm
      → Remembers timeout ((now, status) ∷ h) (update_and_check now status sm).0
  update_and_check-Remembers sm r =
      elim (Bool-cases (is_some_text status (lookup sm.session_name sm.last_known_status))) [
        | inl k ↦ rw (update_and_check_unchanged now status sm k).0 (same-Remembers sm k r)
        | inr k ↦ rw (update_and_check_changed now status sm k) (tracked-Remembers sm r)
      ]

handle_restart-Remembers :
    (timeout : ℕ) {h : List (ℕ × Text)} (succeeds : Bool) (sm : SessionMonitor)
    → Remembers timeout h sm
    → Remembers timeout h (handle_restart succeeds sm)
handle_restart-Remembers timeout false sm r = unfold handle_restart in r
handle_restart-Remembers timeout true sm r =
    unfold handle_restart reset_tracking in
    record {
      same_timeout = r.same_timeout;
      held = λ status e. absurd (cc (lookup-erase_self sm.session_name sm.last_known_status, e));
    }

check_and_recover-Remembers :
    (timeout now : ℕ) (answer : Option Text) (succeeds : Bool) {h : List (ℕ × Text)}
    (sm : SessionMonitor)
    → Remembers timeout h sm
    → Remembers timeout (seen now answer h) (check_and_recover now answer succeeds sm).0
check_and_recover-Remembers timeout now none succeeds sm r = unfold check_and_recover in r
check_and_recover-Remembers timeout now (some status) succeeds {h} sm r =
    unfold check_and_recover in
    respond-Remembers (update_and_check now status sm).1 (is_session_unhealthy status)
      (update_and_check-Remembers timeout now status sm r)
  where
    respond-Remembers :
        (stuck unhealthy : Bool)
        → Remembers timeout ((now, status) ∷ h) (update_and_check now status sm).0
        → Remembers timeout
            ((now, status) ∷ h)
            (respond stuck unhealthy succeeds (update_and_check now status sm).0).0
    respond-Remembers true unhealthy k =
        unfold respond in handle_restart-Remembers timeout succeeds _ k
    respond-Remembers false true k = unfold respond in handle_restart-Remembers timeout succeeds _ k
    respond-Remembers false false k = unfold respond in k

Run-Remembers :
    {session : Text} {timeout : ℕ} {h : List (ℕ × Text)} {sm : SessionMonitor}
    → Run session timeout h sm
    → Remembers timeout h sm
Run-Remembers {timeout} begin =
    unfold new_session_monitor lookup in
    record { same_timeout = refl; held = λ status e. absurd (cc e) }
Run-Remembers {timeout} (check {sm = old} now answer succeeds r) =
    check_and_recover-Remembers timeout now answer succeeds old (Run-Remembers r)

-- A restart of a session that is stuck: over any history of checks, answered or not, with restarts
-- that succeed or fail, a check restarts for the startup timeout only if it saw STARTING itself, and
-- every answered check before it, back to one more than the timeout ago, saw STARTING too.
pub check_and_recover_stuck :
    (session : Text) (timeout : ℕ) (h : List (ℕ × Text)) (sm : SessionMonitor) (now : ℕ)
    (status : Text) (succeeds : Bool)
    → Run session timeout h sm
    → (check_and_recover now (some status) succeeds sm).1 ≡ some starting_timeout
    → (status ≡ starting) × (t : ℕ) × HeldSince starting t h × (t + timeout < now)
check_and_recover_stuck session timeout h sm now status succeeds run e =
    let stuck : (update_and_check now status sm).1 ≡ true =
      respond_stuck (update_and_check now status sm).1 (is_session_unhealthy status)
        (unfold check_and_recover in e) in
    elim (Bool-cases (is_some_text status (lookup sm.session_name sm.last_known_status))) [
      | inr k ↦ absurd (cc (ap (λ p. p.1) (update_and_check_changed now status sm k), stuck))
      | inl k ↦
          let r = Run-Remembers run in
          let late = (update_and_check_unchanged now status sm k).1 in
          let is_starting : status ≡ starting =
            ground (arith, late, stuck, same_iff status starting) in
          let known = is_some_text→some status (lookup sm.session_name sm.last_known_status) k in
          (
            is_starting,
            or_zero (lookup sm.session_name sm.session_state_timestamps),
            r.held starting (known ∙ ap some is_starting),
            ground (arith, late, stuck, r.same_timeout),
          )
    ]
  where
    respond_stuck :
        (stuck unhealthy : Bool)
        → (respond stuck unhealthy succeeds (update_and_check now status sm).0).1
          ≡ some starting_timeout
        → stuck ≡ true
    respond_stuck true unhealthy q = refl
    respond_stuck false true q = unfold respond in cc q
    respond_stuck false false q = unfold respond in cc q
