-- ===== src/Monitor/Tests.antt =====
-- A session with a startup timeout of 30.
use whatsignal.Base.{ℕ, ◌+◌, ◌<◌, ◌≡◌, refl, true, List, [], ◌∷◌, some}
use whatsignal.Base.Text.{Text, codes}
use whatsignal.Base.Dict.{lookup, insert}
use whatsignal.Monitor.{
  SessionMonitor, new_session_monitor, starting, is_session_unhealthy, update_and_check, respond,
  check_and_recover, starting_timeout,
}
use whatsignal.Monitor.History.{Run, begin, check, HeldSince, check_and_recover_stuck}

abbrev main : Text
main = codes "main"

-- Seen STARTING at 10 and at 40.
abbrev waiting : SessionMonitor
waiting = record {
  session_name = main;
  startup_timeout = 30;
  session_state_timestamps = (main, 10) ∷ [];
  last_known_status = (main, starting) ∷ [];
}

abbrev history : List (ℕ × Text)
history = (40, starting) ∷ (10, starting) ∷ []

waiting-Run : Run main 30 history waiting
unfolding new_session_monitor check_and_recover update_and_check respond lookup insert
    is_session_unhealthy
waiting-Run = check 40 (some starting) true (check 10 (some starting) true begin)

restarts : (check_and_recover 41 (some starting) true waiting).1 ≡ some starting_timeout
unfolding check_and_recover update_and_check respond lookup
restarts = refl

check_and_recover_stuck_example :
    (starting ≡ starting) × (t : ℕ) × HeldSince starting t history × (t + 30 < 41)
check_and_recover_stuck_example =
    check_and_recover_stuck main 30 history waiting 41 starting true waiting-Run restarts
