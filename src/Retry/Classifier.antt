-- ===== src/Retry/Classifier.antt =====
-- internal/retry/classifier.go. An error is what the functions ask of it: its text, whether
-- errors.Is finds the two context errors in it, and the Retryable field of the AppError that
-- errors.As finds. The argument `none` is a nil error.
use whatsignal.Base.{Bool, true, false, ◌||◌, List, [], ◌∷◌, Option, none, some, any, if◌then◌else◌}
use whatsignal.Base.Text.{Text, codes, contains, to_lower}

pub record Error : Type 0 where
  pub text : Text
  pub is_canceled : Bool
  pub is_deadline_exceeded : Bool
  pub app_retryable : Option Bool

abbrev pub non_retryable_signal_errors : List Text
non_retryable_signal_errors =
    codes "Untrusted Identity"
    ∷ codes "Unregistered user"
    ∷ codes "Invalid registration"
    ∷ codes "Rate limit"
    ∷ codes "Invalid phone number"
    ∷ codes "Forbidden"
    ∷ codes "Not found"
    ∷ []

abbrev pub non_retryable_whatsapp_errors : List Text
non_retryable_whatsapp_errors =
    codes "status 400"
    ∷ codes "status 401"
    ∷ codes "status 403"
    ∷ codes "status 404"
    ∷ codes "invalid chat"
    ∷ codes "not registered"
    ∷ codes "blocked"
    ∷ codes "session not found"
    ∷ []

abbrev pub transient_texts : List Text
transient_texts =
    codes "status 500"
    ∷ codes "status 502"
    ∷ codes "status 503"
    ∷ codes "status 504"
    ∷ codes "markedunread"
    ∷ codes "timeout"
    ∷ codes "network"
    ∷ codes "connection refused"
    ∷ codes "connection reset"
    ∷ codes "connection timeout"
    ∷ codes "temporary failure"
    ∷ codes "temporary error"
    ∷ codes "eof"
    ∷ codes "broken pipe"
    ∷ []

abbrev pub database_transient_texts : List Text
database_transient_texts =
    codes "database is locked"
    ∷ codes "disk i/o error"
    ∷ codes "no such host"
    ∷ codes "connection refused"
    ∷ []

abbrev pub database_permanent_texts : List Text
database_permanent_texts =
    codes "unique constraint"
    ∷ codes "foreign key constraint"
    ∷ codes "no such table"
    ∷ codes "no such column"
    ∷ []

abbrev pub poll_permanent_texts : List Text
poll_permanent_texts =
    codes "unauthorized"
    ∷ codes "forbidden"
    ∷ codes "authentication"
    ∷ codes "not authorized"
    ∷ codes "invalid"
    ∷ codes "malformed"
    ∷ codes "bad request"
    ∷ []

-- A row of strings.Contains calls joined by ||, or a loop that returns at the first match.
unfoldable pub mentions : Text → List Text → Bool
unfolding contains
mentions text words = any (contains text) words

-- The words in lower case.
unfoldable pub lowered : List Text → List Text
unfolding to_lower
lowered [] = []
lowered (w ∷ ws) = to_lower w ∷ lowered ws

-- isLegacyTransientError
unfoldable pub is_legacy_transient_error : Text → Bool
unfolding mentions
is_legacy_transient_error text = mentions text transient_texts

-- Where typedRetryable finds an AppError, its field decides; or else the rest of the function.
abbrev pub typed_or : Option Bool → Bool → Bool
typed_or none rest = rest
typed_or (some retryable) rest = retryable

-- IsRetryableDatabaseError
unfoldable pub is_retryable_database_error : Option Error → Bool
is_retryable_database_error none = false
is_retryable_database_error (some e) =
    if e.is_canceled || e.is_deadline_exceeded
    then false
    else typed_or e.app_retryable (
        let text = to_lower e.text in
        if mentions text database_transient_texts
        then true
        else if mentions text database_permanent_texts
        then false
        else false)

-- IsRetryableSignalError
unfoldable pub is_retryable_signal_error : Option Error → Bool
is_retryable_signal_error none = false
is_retryable_signal_error (some e) =
    typed_or e.app_retryable (if mentions e.text non_retryable_signal_errors then false else true)

-- IsRetryableWhatsAppError
unfoldable pub is_retryable_whatsapp_error : Option Error → Bool
is_retryable_whatsapp_error none = false
is_retryable_whatsapp_error (some e) = typed_or e.app_retryable (
    let text = to_lower e.text in
    if mentions text (lowered non_retryable_whatsapp_errors)
    then false
    else if is_legacy_transient_error text
    then true
    else true)

-- IsRetryablePollError
unfoldable pub is_retryable_poll_error : Option Error → Bool
is_retryable_poll_error none = false
is_retryable_poll_error (some e) =
    if e.is_canceled
    then false
    else if e.is_deadline_exceeded
    then true
    else typed_or e.app_retryable (
        let text = to_lower e.text in
        if is_legacy_transient_error text || contains text (codes "no route to host")
        then true
        else if mentions text poll_permanent_texts
        then false
        else true)
