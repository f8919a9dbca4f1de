-- ===== src/Waha/Working.antt =====
-- What is sent, and when.
use whatsignal.Base.{
  ℕ, zero, suc, ◌+◌, ◌≡◌, ◌⊎◌, refl, sym, ap, ◌∙◌, Bool, true, false, List, [], ◌∷◌, ◌++◌, Option,
  none, some, any, all, ltb, arith, inl, inr, if◌then◌else◌,
}
use mathlib.Core.List.{append_assoc}
use whatsignal.Base.Text.{Text, codes, same}
use whatsignal.Breaker.{Outcome, refused, returned, execute}
use whatsignal.Waha.{
  Request, get_sessions, Response, World, State, ClientError, request_failed, timed_out, cancelled,
  permanent, no_session, failure, passed_on, logged, do_request, decoded, get_error,
}
use whatsignal.Waha.Sessions.{
  Rounds, Waited, ready, failed, says_working, is_working, wait_loop, wait_for_session_ready,
  status_or_unknown, is_permanent, check_status, find_session, validate_session_status,
}

abbrev pub Log : Type 0
Log = List (Request × Option Response)

abbrev pub is_poll : Request × Option Response → Bool
is_poll (get_sessions, r) = true
is_poll (q, r) = false

-- A request is either refused, or in the log with its answer.
pub do_request-log :
    (w : World) (q : Request) (s : State)
    → (((do_request w q s).0.log ≡ s.log) × ((do_request w q s).1 ≡ none))
      ⊎ ((do_request w q s).0.log ≡ (q, (do_request w q s).1) ∷ s.log)
unfolding do_request
do_request-log w q s =
    let answer = w.answers s.calls q in
    go (execute (w.before s.calls) (w.after s.calls) (failure answer) s.breaker).1 answer
  where
    go :
        (o : Outcome ClientError) (r : Option Response)
        → ((logged o q r s.log ≡ s.log) × (passed_on o r ≡ none))
          ⊎ (logged o q r s.log ≡ (q, passed_on o r) ∷ s.log)
    go (refused name state) r = inl (refl, refl)
    go (returned e) r = inr refl

module _ (w : World) (name : Text) where
  abbrev pub answers_working : Log → Bool
  answers_working log = any (λ e. says_working w name e.1) log

  -- Only polls were made, and a wait that ends well had an answer that the session works.
  pub record IsChecked (s : State) (out : State × Waited) : Type 0 where
    pub polls : Log
    pub grown : out.0.log ≡ polls ++ s.log
    pub only_polls : all is_poll polls ≡ true
    pub working : out.1 ≡ ready → answers_working polls ≡ true

  failed-IsChecked :
      (s s' : State) (e : ClientError) (polls : Log)
      → s'.log ≡ polls ++ s.log
      → all is_poll polls ≡ true
      → IsChecked s (s', failed e)
  failed-IsChecked s s' e polls g o = record {
    polls = polls;
    grown = g;
    only_polls = o;
    working = λ k. absurd (cc k);
  }

  pub record IsPolled (s : State) (out : State × Option Response) : Type 0 where
    pub polls : Log
    pub grown : out.0.log ≡ polls ++ s.log
    pub only_polls : all is_poll polls ≡ true
    pub answered : says_working w name out.1 ≡ true → answers_working polls ≡ true

  says_working-none : says_working w name none ≡ true → ⊥
  unfolding says_working
  says_working-none h = absurd (cc h)

  do_request-IsPolled : (s : State) → IsPolled s (do_request w get_sessions s)
  do_request-IsPolled s = elim (do_request-log w get_sessions s) [
    | inl (e, n) ↦ record {
      polls = [];
      grown = e;
      only_polls = refl;
      answered = λ h. absurd (says_working-none (rw (← n) h));
    }
    | inr e ↦ record {
      polls = (get_sessions, (do_request w get_sessions s).1) ∷ [];
      grown = e;
      only_polls = refl;
      answered = λ h. rw h refl;
    }
  ]

  all-append :
      (xs ys : Log) → all is_poll xs ≡ true → all is_poll ys ≡ true → all is_poll (xs ++ ys) ≡ true
  all-append [] ys h k = k
  all-append (x ∷ xs) ys h k = ground (arith, all-append xs ys)

  any-append_first : (xs ys : Log) → answers_working xs ≡ true → answers_working (xs ++ ys) ≡ true
  any-append_first [] ys h = absurd (cc h)
  any-append_first (x ∷ xs) ys h = ground (arith, any-append_first xs ys)

  -- The rest of a wait, after a poll.
  after_poll-IsChecked :
      (s : State) (p : State × Option Response) (out : State × Waited)
      → IsPolled s p
      → IsChecked p.0 out
      → IsChecked s out
  after_poll-IsChecked s p out i c = record {
    polls = c.polls ++ i.polls;
    grown = c.grown ∙ ap (λ l. c.polls ++ l) i.grown ∙ sym (append_assoc c.polls i.polls s.log);
    only_polls = all-append c.polls i.polls c.only_polls i.only_polls;
    working = λ h. any-append_first c.polls i.polls (c.working h);
  }

  polled_failed-IsChecked :
      (s : State) (p : State × Option Response) (e : ClientError)
      → IsPolled s p
      → IsChecked s (p.0, failed e)
  polled_failed-IsChecked s p e i = failed-IsChecked s p.0 e i.polls i.grown i.only_polls

  polled_ready-IsChecked :
      (s : State) (p : State × Option Response)
      → IsPolled s p
      → says_working w name p.1 ≡ true
      → IsChecked s (p.0, ready)
  polled_ready-IsChecked s p i h = record {
    polls = i.polls;
    grown = i.grown;
    only_polls = i.only_polls;
    working = λ k. i.answered h;
  }

  bool-IsChecked :
      (s : State) (b : Bool) (x y : State × Waited)
      → (b ≡ true → IsChecked s x)
      → IsChecked s y
      → IsChecked s (elim b as (λ z. State × Waited) [ true ↦ x | false ↦ y ])
  bool-IsChecked s true x y hx hy = hx refl
  bool-IsChecked s false x y hx hy = hy

  option-IsChecked {ℓ} :
      {A : Type ℓ} (s : State) (o : Option A) (x : State × Waited) (y : A → State × Waited)
      → IsChecked s x
      → ((a : A) → o ≡ some a → IsChecked s (y a))
      → IsChecked s (elim o as (λ z. State × Waited) [ none ↦ x | some a ↦ y a ])
  option-IsChecked s none x y hx hy = hx
  option-IsChecked s (some a) x y hx hy = hy a refl

  wait_loop-IsChecked :
      (rs : Rounds) (deadline left n : ℕ) (s : State)
      → IsChecked s (wait_loop w name rs deadline left n s)
  unfolding wait_loop
  wait_loop-IsChecked rs deadline zero n s = record {
    polls = [];
    grown = refl;
    only_polls = refl;
    working = λ k. absurd (cc k);
  }
  wait_loop-IsChecked rs deadline (suc left) n s =
      let p = do_request w get_sessions s in
      let i = do_request-IsPolled s in
      bool-IsChecked s (ltb (rs.clock n) deadline) _ _
        (λ _. option-IsChecked s p.1 _ _ (polled_failed-IsChecked s p request_failed i) (λ a e.
          bool-IsChecked s (says_working w name (some a)) _ _
            (λ h. polled_ready-IsChecked s p i (rw e h))
            (bool-IsChecked s (rs.ends n) _ _ (λ _. polled_failed-IsChecked s p cancelled i)
              (after_poll-IsChecked s p _ i (wait_loop-IsChecked rs deadline left (n + 1) p.0)))))
        (failed-IsChecked s s timed_out [] refl refl)

  if-IsChecked :
      (s : State) (b : Bool) (x y : State × Waited)
      → (b ≡ true → IsChecked s x)
      → IsChecked s y
      → IsChecked s (if b then x else y)
  if-IsChecked s true x y hx hy = hx refl
  if-IsChecked s false x y hx hy = hy

  working_status :
      (status : Option Text)
      → same (status_or_unknown status) (codes "WORKING") ≡ true
      → is_working (some status) ≡ true
  unfolding same
  working_status none h = absurd (cc h)
  working_status (some t) h = h

  decoded-says_working :
      (r : Option Response) (es : List (Option Text × Option Text)) (status : Option Text)
      → decoded w w.json.sessions r ≡ some es
      → find_session name es ≡ some status
      → same (status_or_unknown status) (codes "WORKING") ≡ true
      → says_working w name r ≡ true
  unfolding says_working
  decoded-says_working r es status e f h = rw (e, says_working) (rw f (working_status status h))

  pub validate_session_status-IsChecked :
      (rs : Rounds) (s : State) → IsChecked s (validate_session_status w name rs s)
  unfolding validate_session_status check_status wait_for_session_ready
  validate_session_status-IsChecked rs s =
      let p = do_request w get_sessions s in
      let i = do_request-IsPolled s in
      option-IsChecked s (decoded w w.json.sessions p.1) _ _
        (polled_failed-IsChecked s p (get_error w p.1) i)
        (λ es e.
          option-IsChecked s (find_session name es) _ _ (polled_failed-IsChecked s p no_session i)
            (λ status f.
              if-IsChecked s (same (status_or_unknown status) (codes "WORKING")) _ _
                (λ h. polled_ready-IsChecked s p i (decoded-says_working p.1 es status e f h))
                (if-IsChecked s (is_permanent (status_or_unknown status)) _ _
                  (λ _. polled_failed-IsChecked s p (permanent (status_or_unknown status)) i)
                  (after_poll-IsChecked s p _ i
                    (wait_loop-IsChecked rs (rs.started + 30000000000) 61 0 p.0)))))
