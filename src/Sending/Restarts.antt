-- ===== src/Sending/Restarts.antt =====
-- How often a session is restarted while a message is sent.
use whatsignal.Base.{
  ℕ, zero, suc, ◌≤◌, ◌<◌, ◌≡◌, ◌≢◌, ◌⊎◌, inl, inr, refl, Bool, true, false, not, ◌&&◌, Option, none,
  some, arith, if◌then◌else◌,
}
use whatsignal.Base.Text.{Text, is_empty}
use whatsignal.Retry.{World, retry_with_predicate}
use whatsignal.Retry.Attempts.{retry_with_predicate-IsExplained}
use whatsignal.Retry.Classifier.{Error, is_retryable_whatsapp_error}
use whatsignal.Sending.{should_restart, after_send, recovery, send_message, SendError, wrapped}

-- This send asks for a restart of the session.
abbrev pub asks : (ℕ → Option Error) → ℕ → Bool
asks call n = is_retryable_whatsapp_error (call n) && should_restart (call n)

-- Some send of the first n does.
abbrev pub asked : (ℕ → Option Error) → ℕ → Bool
asked call zero = false
asked call (suc n) = if asks call (suc n) then true else asked call n

pub recovery-asked :
    (call : ℕ → Option Error) (n : ℕ)
    → ((recovery call n).attempted ≡ asked call n)
      × ((recovery call n).restarts ≡ (if asked call n then 1 else 0))
unfolding recovery after_send
recovery-asked call zero = (refl, refl)
recovery-asked call (suc n) = ground (arith, recovery-asked call n)

wrapped-none : (o : Option Error) → wrapped o ≡ none → o ≡ none
wrapped-none none h = refl
wrapped-none (some e) h = absurd (ground arith)

-- A message that is not empty goes through the retries.
sends_nonempty :
    (w : World Error) (max_attempts : ℕ) (has_attachments : Bool) (message : Text)
    → not has_attachments && is_empty message ≡ false
    → let o = retry_with_predicate w (λ e. is_retryable_whatsapp_error (some e)) max_attempts in
      send_message w max_attempts has_attachments message ≡ record {
        error = wrapped o.error;
        sends = o.calls;
        restarts = (recovery w.call o.calls).restarts;
      }
unfolding send_message
sends_nonempty w max_attempts has_attachments message h = rw (h, send_message)

fails_or_succeeds {κ} : {P : Type κ} (o : Option SendError) → (o ≡ none → P) → (o ≢ none) ⊎ P
fails_or_succeeds none f = inr (f refl)
fails_or_succeeds (some e) f = inl (λ k. cc k)

-- Sending: with a positive MaxAttempts, a message that has text or an attachment is sent at most
-- MaxAttempts times, the last send succeeded or an error is returned, and the session is restarted
-- once if some send failed with a retryable error that asks for it, and not at all otherwise.
pub send_message_lem :
    (w : World Error) (max_attempts : ℕ) (has_attachments : Bool) (message : Text)
    → not has_attachments && is_empty message ≡ false
    → 0 < max_attempts
    → let r = send_message w max_attempts has_attachments message in
      (r.sends ≤ max_attempts)
      × ((r.error ≢ none) ⊎ (w.call r.sends ≡ none))
      × (r.restarts ≡ (if asked w.call r.sends then 1 else 0))
send_message_lem w max_attempts has_attachments message h p =
    let x =
      retry_with_predicate-IsExplained w (λ e. is_retryable_whatsapp_error (some e)) max_attempts
        p in
    let o = retry_with_predicate w (λ e. is_retryable_whatsapp_error (some e)) max_attempts in
    rw (sends_nonempty w max_attempts has_attachments message h) (
      x.at_most,
      fails_or_succeeds (wrapped o.error) (λ e. x.success (wrapped-none o.error e)),
      (recovery-asked w.call o.calls).1,
    )
