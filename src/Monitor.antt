-- ===== src/Monitor.antt =====
-- The health checks of internal/service/session_monitor.go. What WAHA answers is an argument: the
-- status or an error, and whether the restart, with the wait after it, succeeds. The clock is an
-- argument. Start, Stop and the ticker only decide when a check runs.
pub mod Health
pub mod History
mod Tests
use whatsignal.Base.{
  ℕ, ◌+◌, Bool, true, false, not, List, [], ◌∷◌, Option, none, some, any, ltb, if◌then◌else◌,
}
use whatsignal.Base.Text.{Text, codes, same}
use whatsignal.Base.Dict.{lookup, insert, erase}

pub record SessionMonitor : Type 0 where
  pub session_name : Text
  pub startup_timeout : ℕ
  pub session_state_timestamps : List (Text × ℕ)
  pub last_known_status : List (Text × Text)

-- NewSessionMonitorWithStartupTimeout, with a positive timeout
unfoldable pub new_session_monitor : Text → ℕ → SessionMonitor
new_session_monitor session_name startup_timeout = record {
  session_name = session_name;
  startup_timeout = startup_timeout;
  session_state_timestamps = [];
  last_known_status = [];
}

-- The keys of unhealthyStatusSet.
abbrev pub unhealthy_statuses : List Text
unhealthy_statuses =
    codes "OPENING" ∷ codes "STOPPED" ∷ codes "FAILED" ∷ codes "error" ∷ codes "disconnected" ∷ []

abbrev pub starting : Text
starting = codes "STARTING"

abbrev pub working : Text
working = codes "WORKING"

-- isSessionUnhealthy
unfoldable pub is_session_unhealthy : Text → Bool
is_session_unhealthy status =
    if any (same status) unhealthy_statuses
    then true
    else if same status starting
    then false
    else not (same status working)

abbrev pub is_some_text : Text → Option Text → Bool
is_some_text s none = false
is_some_text s (some t) = same t s

-- The missing timestamp is the zero time.
abbrev pub or_zero : Option ℕ → ℕ
or_zero none = 0
or_zero (some t) = t

-- updateAndCheckStartingTimeout; the duration that it returns as well is only logged
unfoldable pub update_and_check : ℕ → Text → SessionMonitor → SessionMonitor × Bool
update_and_check now status sm =
    if not (is_some_text status (lookup sm.session_name sm.last_known_status))
    then (
      record sm {
        session_state_timestamps = insert sm.session_name now sm.session_state_timestamps;
        last_known_status = insert sm.session_name status sm.last_known_status;
      },
      false,
    )
    else if not (same status starting)
    then (sm, false)
    else (
      sm,
      ltb (or_zero (lookup sm.session_name sm.session_state_timestamps) + sm.startup_timeout) now,
    )

-- resetSessionTracking
unfoldable pub reset_tracking : SessionMonitor → SessionMonitor
reset_tracking sm = record sm {
  session_state_timestamps = erase sm.session_name sm.session_state_timestamps;
  last_known_status = erase sm.session_name sm.last_known_status;
}

pub data Reason : Type 0 where
  starting_timeout unhealthy_state : Reason

-- handleSessionRestart, restartSession
unfoldable pub handle_restart : Bool → SessionMonitor → SessionMonitor
handle_restart succeeds sm = if succeeds then reset_tracking sm else sm

-- What checkAndRecoverSession does about a session that is stuck, or unhealthy.
unfoldable pub respond : Bool → Bool → Bool → SessionMonitor → SessionMonitor × Option Reason
respond true unhealthy succeeds sm = (handle_restart succeeds sm, some starting_timeout)
respond false true succeeds sm = (handle_restart succeeds sm, some unhealthy_state)
respond false false succeeds sm = (sm, none)

-- checkAndRecoverSession, with the reason of the restart that it attempts, if it does
unfoldable pub check_and_recover :
    ℕ → Option Text → Bool → SessionMonitor → SessionMonitor × Option Reason
check_and_recover now none succeeds sm = (sm, none)
check_and_recover now (some status) succeeds sm =
    let (sm', stuck) = update_and_check now status sm in
    respond stuck (is_session_unhealthy status) succeeds sm'
