-- ===== src/Poller/Starts.antt =====
-- Starting and stopping the poller.
use whatsignal.Base.{
  ℕ, ◌≡◌, ◌≢◌, ◌≤◌, ◌⊎◌, refl, sym, ◌∙◌, Bool, Bool-cases, true, false, Option, List, [], ◌∷◌,
  arith, inl, inr, if◌then◌else◌,
}
use whatsignal.Poller.{
  PollerError, SignalPoller, begin_start, finish_start, start, stop, context_done, tests_connection,
  returns, Begun,
}

-- A call of one caller, after the one before it has returned, or the end of the context that Start
-- was given.
pub data Event : Type 0 where
  start_call : ℕ → Bool → Event
  stop_call context_end : Event

abbrev pub perform : Event → SignalPoller → SignalPoller
perform (start_call now connects) sp = (start now connects sp).0
perform stop_call sp = stop sp
perform context_end sp = context_done sp

abbrev pub perform_all : List Event → SignalPoller → SignalPoller
perform_all [] sp = sp
perform_all (c ∷ cs) sp = perform_all cs (perform c sp)

-- At most one polling goroutine if it runs, and none if it does not.
abbrev pub IsSettled : SignalPoller → Type 0
IsSettled sp = sp.loops ≤ (if sp.running then 1 else 0)

begin_start-tests : (sp : SignalPoller) → begin_start sp ≡ tests_connection → sp.running ≡ false
unfolding begin_start
begin_start-tests sp h = ground arith

Begun-cases : (b : Begun) → (b ≡ tests_connection) ⊎ ((r : Option PollerError) × (b ≡ returns r))
Begun-cases (returns r) = inr (r, refl)
Begun-cases tests_connection = inl refl

finish_start-IsSettled :
    (now : ℕ) (connects : Bool) (sp : SignalPoller)
    → sp.running ≡ false
    → IsSettled sp
    → IsSettled (finish_start now connects sp).0
unfolding finish_start
finish_start-IsSettled now connects sp off h = ground arith

start-IsSettled :
    (now : ℕ) (connects : Bool) (sp : SignalPoller)
    → IsSettled sp
    → IsSettled (start now connects sp).0
unfolding start
start-IsSettled now connects sp h = elim (Begun-cases (begin_start sp)) [
  | inl e ↦ rw (e, start) (finish_start-IsSettled now connects sp (begin_start-tests sp e) h)
  | inr (r, e) ↦ rw (e, start) h
]

stop-IsSettled : (sp : SignalPoller) → IsSettled sp → IsSettled (stop sp)
unfolding stop
stop-IsSettled sp h = ground arith

context_done-IsSettled : (sp : SignalPoller) → IsSettled (context_done sp)
unfolding context_done
context_done-IsSettled sp = omega arith

perform_all_keeps :
    (cs : List Event) (sp : SignalPoller) → IsSettled sp → IsSettled (perform_all cs sp)
perform_all_keeps [] sp h = h
perform_all_keeps (start_call now connects ∷ cs) sp h =
    perform_all_keeps cs (start now connects sp).0 (start-IsSettled now connects sp h)
perform_all_keeps (stop_call ∷ cs) sp h = perform_all_keeps cs (stop sp) (stop-IsSettled sp h)
perform_all_keeps (context_end ∷ cs) sp h =
    perform_all_keeps cs (context_done sp) (context_done-IsSettled sp)

stop-ends : (sp : SignalPoller) → IsSettled sp → ((stop sp).loops ≡ 0) × ((stop sp).running ≡ false)
unfolding stop
stop-ends sp h = elim (Bool-cases sp.running) [
  | inl e ↦ rw e (refl, refl)
  | inr e ↦ let none_left : sp.loops ≤ 0 = ap_bound e h in rw e (omega (arith, none_left), refl)
]
  where
    ap_bound : sp.running ≡ false → IsSettled sp → sp.loops ≤ 0
    ap_bound e h = ground (arith, e, h)

start-begins :
    (now : ℕ) (sp : SignalPoller)
    → IsSettled sp
    → (begin_start sp ≢ tests_connection)
      ⊎ (((start now true sp).0.loops ≡ 1) × ((start now true sp).0.running ≡ true))
unfolding start finish_start
start-begins now sp h = elim (Begun-cases (begin_start sp)) [
  | inl e ↦
      let off = begin_start-tests sp e in
      let none_left : sp.loops ≤ 0 = ground (arith, off, h) in
      rw (e, start) (inr (omega (arith, none_left), refl))
  | inr (r, e) ↦ inl (λ k. absurd (cc (sym e ∙ k)))
]

-- Calls one after the other: from a poller with at most one polling goroutine if its flag says that
-- it runs and none if not, any sequence of Start and Stop calls, each made after the one before has
-- returned, successful or not, and of ends of the context between them, leads to such a poller
-- again. After it, a Start that gets to the connection test and passes it leaves exactly one
-- goroutine and the flag set, and a Stop leaves none and the flag cleared.
pub perform_all-IsSettled :
    (cs : List Event) (now : ℕ) (sp : SignalPoller)
    → IsSettled sp
    → let sp' = perform_all cs sp in
      IsSettled sp'
      × ((begin_start sp' ≢ tests_connection)
          ⊎ (((start now true sp').0.loops ≡ 1) × ((start now true sp').0.running ≡ true)))
      × ((stop sp').loops ≡ 0)
      × ((stop sp').running ≡ false)
perform_all-IsSettled cs now sp h =
    let settled = perform_all_keeps cs sp h in
    let (ended, cleared) = stop-ends (perform_all cs sp) settled in
    (settled, start-begins now (perform_all cs sp) settled, ended, cleared)
