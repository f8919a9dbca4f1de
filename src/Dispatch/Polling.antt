-- ===== src/Dispatch/Polling.antt =====
-- PollSignalMessages of internal/service/message_service.go after a receive: the assignment of
-- destinations, SavePendingMessages of internal/database/database.go, and the workers, whose
-- statements reach the table in any order. How each worker fares is an argument, and so is
-- json.Marshal.
use whatsignal.Base.{
  ℕ, ◌+◌, ◌≡◌, Bool, true, false, List, [], ◌∷◌, ◌++◌, Option, none, some, any, if◌then◌else◌,
}
use whatsignal.Base.Text.{Text}
use whatsignal.Channels.{ChannelManager}
use whatsignal.Bridge.Resolving.{SignalMessage}
use whatsignal.Dispatch.{PendingMessage, has_key, choose_destination, work}

-- messageWithDest
pub record Assigned : Type 0 where
  pub msg : SignalMessage
  pub destination : Text

-- The first loop of PollSignalMessages: a message without a destination is skipped.
unfoldable pub assign :
    (Text → Text → Option Bool) → ChannelManager → List SignalMessage → List Assigned
unfolding choose_destination
assign history cm [] = []
assign history cm (m ∷ ms) = elim (choose_destination history m.sender cm) [
  | none ↦ assign history cm ms
  | some d ↦ record { msg = m; destination = d } ∷ assign history cm ms
]

-- InsertPendingSignalMessageQuery, INSERT OR IGNORE
unfoldable pub insert_or_ignore : PendingMessage → List PendingMessage → List PendingMessage
unfolding has_key
insert_or_ignore p rows =
    if any (has_key p.message_id p.destination) rows then rows else rows ++ p ∷ []

-- The loop of SavePendingMessages, whose transaction is committed.
unfoldable pub save_each : List PendingMessage → List PendingMessage → List PendingMessage
unfolding insert_or_ignore
save_each [] rows = rows
save_each (p ∷ ps) rows = save_each ps (insert_or_ignore p rows)

-- The rows, and the flag `persisted`.
pub record Persisted : Type 0 where
  pub rows : List PendingMessage
  pub persisted : Bool

-- SavePendingMessages, if there are messages: a transaction that fails leaves the table alone.
unfoldable pub persist : Bool → List PendingMessage → List PendingMessage → Persisted
unfolding save_each
persist saves [] rows = record { rows = rows; persisted = false }
persist saves (p ∷ ps) rows =
    if saves
    then record { rows = save_each (p ∷ ps) rows; persisted = true }
    else record { rows = rows; persisted = false }

module _ (encode : SignalMessage → Option Text) where
  -- The second loop: a message that cannot be encoded gets no row.
  unfoldable pub pending_rows : List Assigned → List PendingMessage
  pending_rows [] = []
  pending_rows (a ∷ as') = elim (encode a.msg) [
    | none ↦ pending_rows as'
    | some raw ↦
        record {
          message_id = a.msg.message_id;
          destination = a.destination;
          raw_json = raw;
          retry_count = 0;
        }
        ∷ pending_rows as'
  ]

  -- PollSignalMessages up to the workers.
  unfoldable pub begin_poll : Bool → List Assigned → List PendingMessage → Persisted
  unfolding pending_rows persist
  begin_poll saves assigned rows = persist saves (pending_rows assigned) rows

-- How a worker fares: which attempts forward the message, in the wait after which attempt the
-- context is cancelled, and whether its statement on the row succeeds.
pub record Fortune : Type 0 where
  pub succeeds : ℕ → Bool
  pub cancels : ℕ → Bool
  pub writes : Bool

pub record Worker : Type 0 where
  pub assigned : Assigned
  pub fortune : Fortune

-- The loop that starts a worker for each message.
unfoldable pub start_workers : (ℕ → Fortune) → ℕ → List Assigned → List Worker
start_workers fortunes n [] = []
start_workers fortunes n (a ∷ as') =
    record { assigned = a; fortune = fortunes n } ∷ start_workers fortunes (n + 1) as'

-- The goroutine of PollSignalMessages.
unfoldable pub run_worker : Bool → Worker → List PendingMessage → List PendingMessage
unfolding work
run_worker persisted w rows =
    work w.fortune.succeeds w.fortune.cancels persisted w.fortune.writes w.assigned.msg.message_id
      w.assigned.destination rows

-- The workers end in any order, until WaitGroup.Wait returns.
pub data Finishes (persisted : Bool)
    : List Worker → List PendingMessage → List PendingMessage → Type 0 where
  waited :
      {ws : List Worker} {rows rows' : List PendingMessage}
      → ws ≡ []
      → rows' ≡ rows
      → Finishes persisted ws rows rows'
  ends :
      {ws : List Worker} {rows rows' : List PendingMessage} (before : List Worker) (w : Worker)
      (after : List Worker)
      → ws ≡ before ++ w ∷ after
      → Finishes persisted (before ++ after) (run_worker persisted w rows) rows'
      → Finishes persisted ws rows rows'
