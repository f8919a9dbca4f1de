-- ===== src/Dispatch.antt =====
-- The routing and the processing of polled Signal messages: DispatchSingleSignalMessage,
-- determineDestinationForSender, the workers of PollSignalMessages, and ProcessPendingMessages of
-- internal/service/message_service.go, with the statements of internal/database/database.go on the
-- table pending_signal_messages. The bridge that forwards a message, and the database's success, are
-- arguments. The empty destination, which means none, is `none`.
pub mod Histories
pub mod Routing
pub mod Pending
pub mod Workers
pub mod Markers
pub mod Polling
pub mod Polled
mod PollTests
mod Tests
use whatsignal.Base.{
  ℕ, zero, suc, ◌+◌, Bool, true, false, not, ◌&&◌, List, [], ◌∷◌, ◌++◌, Option, none, some, any,
  take, ltb, ◌==◌, if◌then◌else◌,
}
use whatsignal.Base.Text.{Text, same}
use whatsignal.Channels.{
  ChannelManager, Result, ok, err, get_signal_destination, get_whatsapp_session,
  get_all_signal_destinations, get_all_whatsapp_sessions,
}

abbrev pub is_ok : Result Text → Bool
is_ok (ok t) = true
is_ok (err e) = false

-- The first loop of determineDestinationForSender.
unfoldable pub own_destination : Text → List Text → ChannelManager → Option Text
unfolding same get_whatsapp_session
own_destination sender [] cm = none
own_destination sender (d ∷ ds) cm =
    if same sender d && is_ok (get_whatsapp_session d cm)
    then some d
    else own_destination sender ds cm

-- A destination counts if it is available.
abbrev pub available_destination : Result Text → List Text → Option Text
available_destination (err e) ds = none
available_destination (ok d) ds = if any (same d) ds then some d else none

abbrev pub or_else : Option Text → Option Text → Option Text
or_else none o = o
or_else (some d) o = some d

-- HasMessageHistoryBetween without an error, and true
abbrev pub has_history : Option Bool → Bool
has_history none = false
has_history (some b) = b

-- What the database answers on the history of a session and a sender, or none for an error.
module _ (history : Text → Text → Option Bool) where
  -- The second loop of determineDestinationForSender, over the sessions.
  unfoldable pub destination_by_history :
      Text → List Text → List Text → ChannelManager → Option Text
  unfolding get_signal_destination
  destination_by_history sender [] ds cm = none
  destination_by_history sender (s ∷ ss) ds cm =
      if has_history (history s sender)
      then or_else (available_destination (get_signal_destination s cm) ds)
          (destination_by_history sender ss ds cm)
      else destination_by_history sender ss ds cm

  -- determineDestinationForSender
  unfoldable pub determine_destination : Text → List Text → ChannelManager → Option Text
  unfolding own_destination destination_by_history get_all_whatsapp_sessions
  determine_destination sender ds cm =
      or_else (own_destination sender ds cm)
        (destination_by_history sender (get_all_whatsapp_sessions cm) ds cm)

  -- The choice in PollSignalMessages and DispatchSingleSignalMessage.
  unfoldable pub choose_among : Text → List Text → ChannelManager → Option Text
  unfolding determine_destination
  choose_among sender [] cm = none
  choose_among sender (d ∷ []) cm = some d
  choose_among sender (d ∷ e ∷ ds) cm = determine_destination sender (d ∷ e ∷ ds) cm

  unfoldable pub choose_destination : Text → ChannelManager → Option Text
  unfolding choose_among get_all_signal_destinations
  choose_destination sender cm = choose_among sender (get_all_signal_destinations cm) cm

-- A row of pending_signal_messages; message_id and destination are unique together.
pub record PendingMessage : Type 0 where
  pub message_id : Text
  pub destination : Text
  pub raw_json : Text
  pub retry_count : ℕ

unfoldable pub has_key : Text → Text → PendingMessage → Bool
unfolding same
has_key id destination p = same p.message_id id && same p.destination destination

-- DeletePendingMessage
unfoldable pub delete_pending : Text → Text → List PendingMessage → List PendingMessage
unfolding has_key
delete_pending id destination [] = []
delete_pending id destination (p ∷ ps) =
    if has_key id destination p
    then delete_pending id destination ps
    else p ∷ delete_pending id destination ps

-- IncrementPendingRetryCount
unfoldable pub increment_retry_count : Text → Text → List PendingMessage → List PendingMessage
unfolding has_key
increment_retry_count id destination [] = []
increment_retry_count id destination (p ∷ ps) =
    (if has_key id destination p then record p { retry_count = p.retry_count + 1 } else p)
    ∷ increment_retry_count id destination ps

-- What happens to the row of a message: whether its text can be read, whether the bridge forwards
-- it, and whether the statement on the row that follows succeeds.
pub record Fate : Type 0 where
  pub decodes : PendingMessage → Bool
  pub succeeds : PendingMessage → Bool
  pub writes : PendingMessage → Bool

module _ (w : Fate) where
  -- The body of the loop of ProcessPendingMessages.
  unfoldable pub process_one : PendingMessage → List PendingMessage → List PendingMessage
  unfolding delete_pending increment_retry_count
  process_one p rows =
      if w.writes p
      then if w.decodes p && not (w.succeeds p)
        then increment_retry_count p.message_id p.destination rows
        else delete_pending p.message_id p.destination rows
      else rows

  unfoldable pub process_each : List PendingMessage → List PendingMessage → List PendingMessage
  unfolding process_one
  process_each [] rows = rows
  process_each (p ∷ ps) rows = process_each ps (process_one p rows)

  -- ProcessPendingMessages, when GetPendingMessages succeeds: it returns the first 100 rows by
  -- created_at, the order of the list.
  unfoldable pub process_pending_messages : List PendingMessage → List PendingMessage
  unfolding process_each
  process_pending_messages rows = process_each (take 100 rows) rows

pub data Outcome : Type 0 where
  delivered cancelled exhausted : Outcome

-- The attempts of a worker: whether the n-th forwards the message, and whether the context is
-- cancelled during the wait after it.
module _ (succeeds cancels : ℕ → Bool) where
  unfoldable pub attempts : ℕ → ℕ → Outcome
  attempts zero n = exhausted
  attempts (suc left) n = elim (succeeds (n + 1)) [
    | true ↦ delivered
    | false ↦ elim (not (left == 0) && cancels (n + 1)) [
      | true ↦ cancelled
      | false ↦ attempts left (n + 1)
    ]
  ]

-- What a worker does about the row, if the message was persisted.
unfoldable pub settle :
    Bool → Bool → Text → Text → Outcome → List PendingMessage → List PendingMessage
unfolding delete_pending increment_retry_count
settle persisted writes id destination delivered rows =
    if persisted && writes then delete_pending id destination rows else rows
settle persisted writes id destination cancelled rows = rows
settle persisted writes id destination exhausted rows =
    if persisted && writes then increment_retry_count id destination rows else rows

-- A worker of PollSignalMessages, with DefaultMessageProcessRetryAttempts
unfoldable pub work :
    (ℕ → Bool) → (ℕ → Bool) → Bool → Bool → Text → Text → List PendingMessage → List PendingMessage
unfolding attempts settle
work succeeds cancels persisted writes id destination rows =
    settle persisted writes id destination (attempts succeeds cancels 3 0) rows
