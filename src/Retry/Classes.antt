-- ===== src/Retry/Classes.antt =====
-- Which errors are retried.
use whatsignal.Base.{◌≡◌, Bool, true, false, ◌||◌, ◌&&◌, not, none, some, arith}
use whatsignal.Base.Text.{to_lower}
use whatsignal.Retry.Classifier.{
  Error, non_retryable_signal_errors, non_retryable_whatsapp_errors, database_transient_texts,
  mentions, lowered, is_retryable_database_error, is_retryable_signal_error,
  is_retryable_whatsapp_error, is_retryable_poll_error,
}

-- An AppError in the chain of an error that is no context error decides for all four classifiers,
-- whatever the text says.
pub app_error_decides :
    (e : Error) (retryable : Bool)
    → e.app_retryable ≡ some retryable
    → e.is_canceled ≡ false
    → e.is_deadline_exceeded ≡ false
    → (is_retryable_database_error (some e) ≡ retryable)
      × (is_retryable_signal_error (some e) ≡ retryable)
      × (is_retryable_whatsapp_error (some e) ≡ retryable)
      × (is_retryable_poll_error (some e) ≡ retryable)
app_error_decides e retryable a c d =
    unfold is_retryable_database_error is_retryable_signal_error is_retryable_whatsapp_error
      is_retryable_poll_error in
    ground arith

-- Without an AppError in the chain, a WhatsApp error is retried exactly when its text in lower case
-- mentions no permanent failure, and a Signal error exactly when its text mentions none, so that the
-- transient texts make no difference; a database error is retried exactly when it is no context
-- error and mentions a transient failure, so that the permanent ones make no difference.
pub untyped_errors :
    (e : Error)
    → e.app_retryable ≡ none
    → (is_retryable_whatsapp_error (some e)
        ≡ not (mentions (to_lower e.text) (lowered non_retryable_whatsapp_errors)))
      × (is_retryable_signal_error (some e) ≡ not (mentions e.text non_retryable_signal_errors))
      × (is_retryable_database_error (some e) ≡ (
          not (e.is_canceled || e.is_deadline_exceeded)
          && mentions (to_lower e.text) database_transient_texts))
untyped_errors e a = (
  unfold is_retryable_whatsapp_error in ground arith,
  unfold is_retryable_signal_error in ground arith,
  unfold is_retryable_database_error in ground arith,
)

-- Whatever its type and its text, a context error is never retried by a database operation, and by
-- a poll exactly when it is no cancellation, but an exceeded deadline.
pub context_errors :
    (e : Error)
    → (e.is_canceled || e.is_deadline_exceeded) ≡ true
    → (is_retryable_database_error (some e) ≡ false)
      × (is_retryable_poll_error (some e) ≡ not e.is_canceled)
context_errors e h = (
  unfold is_retryable_database_error in ground arith,
  unfold is_retryable_poll_error in ground arith,
)
