-- ===== src/Monitor/Health.antt =====
-- Which statuses are unhealthy.
use whatsignal.Base.{◌≡◌, ◌≢◌, ◌↔◌, true, arith}
use whatsignal.Base.Text.{Text, codes, same_iff}
use whatsignal.Monitor.{starting, working, is_session_unhealthy}

-- A status is unhealthy exactly when it is neither WORKING nor STARTING: the five statuses that are
-- listed as unhealthy make no difference.
pub is_session_unhealthy_iff :
    (status : Text)
    → (is_session_unhealthy status ≡ true) ↔ ((status ≢ starting) × (status ≢ working))
unfolding is_session_unhealthy
is_session_unhealthy_iff status = ground (
  arith,
  same_iff status starting,
  same_iff status working,
  same_iff status (codes "OPENING"),
  same_iff status (codes "STOPPED"),
  same_iff status (codes "FAILED"),
  same_iff status (codes "error"),
  same_iff status (codes "disconnected"),
)
