-- ===== src/Sending.antt =====
-- sendMessageToWhatsApp of internal/service/bridge.go, with shouldRestartWhatsAppSession and the
-- attachment types of internal/media/router.go. The WhatsApp client is an argument: what the n-th
-- send returns, `none` for success, and the context and the waits as in Retry. The message is given
-- with its white space trimmed; filepath.Ext, which finds an extension, is a parameter.
pub mod Restarts
mod Tests
use whatsignal.Base.{
  ℕ, zero, suc, ◌+◌, Bool, true, false, not, ◌&&◌, ◌||◌, List, [], ◌∷◌, Option, none, some, any,
  if◌then◌else◌,
}
use whatsignal.Base.Text.{Text, codes, same, contains, to_lower, is_empty, trim_prefix}
use whatsignal.Retry.{World, Outcome, retry_with_predicate}
use whatsignal.Retry.Classifier.{Error, is_retryable_whatsapp_error}

-- shouldRestartWhatsAppSession
unfoldable pub should_restart : Option Error → Bool
unfolding to_lower contains
should_restart none = false
should_restart (some e) =
    let text = to_lower e.text in
    if contains text (codes "restart the session")
    then true
    else if contains text (codes "status\":\"starting\"")
        || contains text (codes "status: starting")
    then true
    else contains text (codes "did not become ready")

-- sessionRecoveryAttempted, and how often restartWhatsAppSession was called
pub record Recovery : Type 0 where
  pub attempted : Bool
  pub restarts : ℕ

-- The closure restarts the session after this send.
abbrev pub restarts_after : Option Error → Recovery → Bool
restarts_after sent r = is_retryable_whatsapp_error sent && not r.attempted && should_restart sent

-- The end of the closure, after a send.
unfoldable pub after_send : Option Error → Recovery → Recovery
unfolding is_retryable_whatsapp_error should_restart
after_send sent r =
    if restarts_after sent r then record { attempted = true; restarts = r.restarts + 1 } else r

-- After the first n sends.
unfoldable pub recovery : (ℕ → Option Error) → ℕ → Recovery
unfolding after_send
recovery call zero = record { attempted = false; restarts = 0 }
recovery call (suc n) = after_send (call (suc n)) (recovery call n)

pub data SendError : Type 0 where
  non_retryable failed_after_retries : Error → SendError

pub record SendResult : Type 0 where
  pub error : Option SendError
  pub sends : ℕ
  pub restarts : ℕ

abbrev pub wrapped : Option Error → Option SendError
wrapped none = none
wrapped (some e) =
    if is_retryable_whatsapp_error (some e)
    then some (failed_after_retries e)
    else some (non_retryable e)

-- sendMessageToWhatsApp, with the number of sends and restarts that it makes
unfoldable pub send_message : World Error → ℕ → Bool → Text → SendResult
unfolding retry_with_predicate is_retryable_whatsapp_error recovery
send_message w max_attempts has_attachments message =
    if not has_attachments && is_empty message
    then record { error = none; sends = 0; restarts = 0 }
    else let o = retry_with_predicate w (λ e. is_retryable_whatsapp_error (some e)) max_attempts in
      record {
        error = wrapped o.error;
        sends = o.calls;
        restarts = (recovery w.call o.calls).restarts;
      }

-- The AllowedTypes of MediaConfig.
pub record AllowedTypes : Type 0 where
  pub image : List Text
  pub video : List Text
  pub voice : List Text

pub data Method : Type 0 where
  send_text send_image send_video send_voice send_document : Method

-- hasAllowedExtension, on what filepath.Ext returns
unfoldable pub has_allowed_extension : Text → List Text → Bool
unfolding to_lower trim_prefix same
has_allowed_extension ext [] = false
has_allowed_extension ext (a ∷ rest) =
    if same (to_lower (trim_prefix ext (codes "."))) (trim_prefix (to_lower a) (codes "."))
    then true
    else has_allowed_extension ext rest

module _ (ext : Text → Text) where
  -- The switch of the closure: the first attachment decides.
  unfoldable pub send_method : AllowedTypes → List Text → Method
  unfolding has_allowed_extension
  send_method types [] = send_text
  send_method types (a ∷ rest) =
      if has_allowed_extension (ext a) types.image
      then send_image
      else if has_allowed_extension (ext a) types.video
      then send_video
      else if has_allowed_extension (ext a) types.voice
      then send_voice
      else send_document
