-- ===== src/Bridge/Rounds.antt =====
-- The calls of the client that one message makes: its sends, and a restart between them.
use whatsignal.Base.{
  ℕ, zero, suc, ◌≡◌, refl, ap, ◌∙◌, Bool, true, false, not, ◌&&◌, List, [], ◌∷◌, ◌++◌, Option, keep,
  all, replicate, arith, if◌then◌else◌,
}
use mathlib.Core.List.{append-nil}
use whatsignal.Base.Text.{Text, is_empty}
use whatsignal.Retry.Classifier.{Error, is_retryable_whatsapp_error}
use whatsignal.Sending.{should_restart, restarts_after, recovery}
use whatsignal.Sending.Restarts.{asked, recovery-asked}
use whatsignal.Bridge.{
  Services, Outgoing, Effect, to_signal, to_whatsapp, react, delete_message, ack, restart,
  wait_ready,
}
use whatsignal.Bridge.Replies.{restart_calls, round_calls}

abbrev pub is_send : Effect → Bool
is_send (to_signal d message attachments) = false
is_send (to_whatsapp o) = true
is_send (react chat id emoji s) = false
is_send (delete_message chat id) = false
is_send (ack chat s) = false
is_send (restart s) = false
is_send (wait_ready s) = false

abbrev pub sends_of : List Effect → List Effect
sends_of es = keep is_send es

abbrev pub other_than_sends : List Effect → List Effect
other_than_sends es = keep (λ e. not (is_send e)) es

keep-append : (p : Effect → Bool) (xs ys : List Effect) → keep p (xs ++ ys) ≡ keep p xs ++ keep p ys
keep-append p [] ys = refl
keep-append p (x ∷ xs) ys = ground (arith, keep-append p xs ys)

replicate-suc : (n : ℕ) (e : Effect) → replicate n e ++ e ∷ [] ≡ replicate (suc n) e
replicate-suc zero e = refl
replicate-suc (suc n) e = ap (λ l. e ∷ l) (replicate-suc n e)

pub all-append :
    (p : Effect → Bool) (xs ys : List Effect)
    → all p xs ≡ true
    → all p ys ≡ true
    → all p (xs ++ ys) ≡ true
all-append p [] ys h k = k
all-append p (x ∷ xs) ys h k = ground (arith, h, all-append p xs ys, k)

module _ (v : Services) (call : ℕ → Option Error) (works : Bool) (m : Outgoing) where
  restart_sends : (b : Bool) → sends_of (if b then restart_calls v works m.session else []) ≡ []
  restart_sends false = refl
  restart_sends true = elim works as (λ w. sends_of (restart_calls v w m.session) ≡ []) [
    | true ↦ refl
    | false ↦ refl
  ]

  restart_others :
      (b : Bool)
      → let es = if b then restart_calls v works m.session else [] in other_than_sends es ≡ es
  restart_others false = refl
  restart_others true =
      elim works
        as (λ w. other_than_sends (restart_calls v w m.session) ≡ restart_calls v w m.session) [
          | true ↦ refl
          | false ↦ refl
        ]

  pub round_calls-sends_of :
      (n : ℕ) → sends_of (round_calls v call works m n) ≡ replicate n (to_whatsapp m)
  unfolding round_calls
  round_calls-sends_of zero = refl
  round_calls-sends_of (suc n) =
      let b = restarts_after (call (suc n)) (recovery call n) in
      keep-append is_send (round_calls v call works m n)
        (to_whatsapp m ∷ (if b then restart_calls v works m.session else []))
      ∙ rw (round_calls-sends_of n, restart_sends b) (replicate-suc n (to_whatsapp m))

  pub round_calls-other_than_sends :
      (n : ℕ)
      → other_than_sends (round_calls v call works m n)
        ≡ (if asked call n then restart_calls v works m.session else [])
  unfolding round_calls
  round_calls-other_than_sends zero = refl
  round_calls-other_than_sends (suc n) =
      let b = restarts_after (call (suc n)) (recovery call n) in
      keep-append (λ e. not (is_send e)) (round_calls v call works m n)
        (to_whatsapp m ∷ (if b then restart_calls v works m.session else []))
      ∙ rw (round_calls-other_than_sends n, restart_others b, (recovery-asked call n).0)
          (once (asked call n) (is_retryable_whatsapp_error (call (suc n)))
            (should_restart (call (suc n))))
    where
      once :
          (was retries asks : Bool)
          → (if was then restart_calls v works m.session else [])
              ++ (if retries && not was && asks then restart_calls v works m.session else [])
            ≡ (if (if retries && asks then true else was)
                then restart_calls v works m.session
                else [])
      once false true true = refl
      once false true false = refl
      once false false asks = refl
      once true true true = append-nil (restart_calls v works m.session)
      once true true false = append-nil (restart_calls v works m.session)
      once true false asks = append-nil (restart_calls v works m.session)

  -- The name of the session that is restarted.
  abbrev pub restarted : Text
  restarted = if is_empty m.session then v.default_session else m.session

  restart-all :
      (p : Effect → Bool) (b w : Bool)
      → p (restart restarted) ≡ true
      → p (wait_ready restarted) ≡ true
      → all p (if b then restart_calls v w m.session else []) ≡ true
  restart-all p false w h k = refl
  restart-all p true true h k = rw (h, k) refl
  restart-all p true false h k = rw h refl

  pub round_calls-all :
      (p : Effect → Bool) (n : ℕ)
      → p (to_whatsapp m) ≡ true
      → p (restart restarted) ≡ true
      → p (wait_ready restarted) ≡ true
      → all p (round_calls v call works m n) ≡ true
  unfolding round_calls
  round_calls-all p zero sent h k = refl
  round_calls-all p (suc n) sent h k =
      let b = restarts_after (call (suc n)) (recovery call n) in
      all-append p (round_calls v call works m n) _ (round_calls-all p n sent h k)
        (rw sent (restart-all p b works h k))
