-- ===== src/Waha/Tests.antt =====
-- A WAHA service with one session, home.
use whatsignal.Base.{ℕ, zero, suc, ◌+◌, ◌≢◌, arith, false, [], ◌∷◌, some, none}
use whatsignal.Base.Text.{codes}
use whatsignal.Paths.{FilePaths}
use whatsignal.Breaker.{new}
use whatsignal.Waha.{World, State}
use whatsignal.Waha.Sessions.{Rounds, backoff, validate_session_status, unfinished}
use whatsignal.Waha.Sends.{
  video, or_own, send_text_with_session, send_media_with_session, send_reaction_with_session,
}
use whatsignal.Waha.Waits.{IsClock, validate_session_status-ends}
use whatsignal.Waha.Guarded.{IsGuarded, send_with_session-IsGuarded}

-- Every answer is the text of the request's result, read as the constant that it stands for.
abbrev world : World
world = record {
  json = record {
    sessions = λ t. some ((some (codes "home"), some (codes "WORKING")) ∷ []);
    message_ids = λ t. some (codes "id", []);
    send_response = λ t. some (codes "id", []);
    error_text = λ t. none;
    error_field = λ t. none;
    version = λ t. some (codes "PLUS", codes "google-chrome");
  };
  answers = λ n q. some (record { status = 200; body = some (codes "{}") });
  before = λ n. n;
  after = λ n. n;
}

abbrev state : State
state = record { breaker = new (codes "waha") 5 1000; calls = 0; log = []; supports_video = none }

-- Rounds without delay.
ticks : ℕ → ℕ
ticks zero = 7
ticks (suc n) = ticks n + backoff n

abbrev rounds : Rounds
rounds = record { started = 7; clock = ticks; ends = λ n. false }

rounds-IsClock : IsClock rounds
unfolding ticks
rounds-IsClock = record { starts = omega arith; waits = λ n. omega arith }

-- The session is starting, so the wait is entered.
abbrev starting : World
starting = record world {
  json = record world.json {
    sessions = λ t. some ((some (codes "home"), some (codes "STARTING")) ∷ []);
  };
}

validate_session_status-ends_example :
    (validate_session_status starting (codes "home") rounds state).1 ≢ unfinished
validate_session_status-ends_example =
    validate_session_status-ends starting (codes "home") rounds state rounds-IsClock

abbrev paths : FilePaths
paths = record { clean = λ t. t; join = λ directory name. name; is_abs = λ t. false }

send_with_session-IsGuarded_example :
    IsGuarded world
      (or_own (codes "home") [])
      3
      state
      (send_text_with_session world rounds
        (codes "home")
        (codes "1@c.us")
        (codes "hi")
        []
        []
        state).0
    × IsGuarded world
        (or_own (codes "home") [])
        2
        state
        (send_media_with_session world rounds paths
          (λ t. some 3)
          (codes "home")
          (codes "1@c.us")
          (codes "hi")
          []
          video
          []
          []
          state).0
    × IsGuarded world
        (or_own (codes "home") [])
        1
        state
        (send_reaction_with_session world rounds
          (codes "home")
          (codes "1@c.us")
          (codes "hi")
          []
          state).0
send_with_session-IsGuarded_example =
    send_with_session-IsGuarded world rounds paths (λ t. some 3) video (codes "home")
      (codes "1@c.us") (codes "hi") [] [] [] state
