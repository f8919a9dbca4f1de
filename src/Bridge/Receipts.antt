-- ===== src/Bridge/Receipts.antt =====
-- Read and delivery receipts: HandleSignalReceipt of internal/service/bridge.go.
use whatsignal.Base.{Bool, not, ◌&&◌, ◌||◌, [], ◌∷◌, Option, none, some, if◌then◌else◌}
use whatsignal.Base.Text.{Text, codes, is_empty}
use whatsignal.Delivery.{should_update}
use whatsignal.Mappings.{MessageMapping, Table, or_find, find_signal, find_either, replace_status}
use whatsignal.Bridge.{
  Services, ack, State, Conditions, BridgeError, lookup_failed, update_failed, ack_failed,
  add_effects,
}
use whatsignal.Bridge.Resolving.{Receipt}

-- The mapping that a receipt is for: by Signal ID, or else by either ID.
unfoldable pub receipt_mapping : Text → Table → Option MessageMapping
unfolding find_signal find_either
receipt_mapping id ms = or_find (find_signal id ms) (find_either id ms)

-- The status that a receipt stands for; empty if none.
unfoldable pub receipt_status : Receipt → Text
receipt_status r =
    if r.is_read || r.is_viewed
    then codes "read"
    else if r.is_delivery
    then codes "delivered"
    else []

abbrev pub with_table : Table → State → State
with_table ms s = record s { mappings = ms }

-- The update of the status; none for an error.
unfoldable pub receive_status : Bool → Text → MessageMapping → State → Option State
unfolding should_update replace_status
receive_status works status m s =
    if not (is_empty status) && should_update m.status status
    then if works
      then elim (replace_status m.whatsapp_id status s.mappings) [
        | none ↦ none
        | some ms ↦ some (with_table ms s)
      ]
      else none
    else some s

module _ (v : Services) where
  -- The call of AckMessage, if the receipt asks for it.
  unfoldable pub acknowledge :
      Conditions → Receipt → MessageMapping → State → State × Option BridgeError
  acknowledge c r m s =
      let session = if is_empty m.session then v.default_session else m.session in
      let s' = add_effects (ack m.chat_id session ∷ []) s in
      if r.is_read || r.is_viewed
      then (s', if c.client_works then none else some ack_failed)
      else (s, none)

  unfoldable pub receive_for :
      Conditions → Receipt → MessageMapping → State → State × Option BridgeError
  unfolding receive_status receipt_status acknowledge
  receive_for c r m s = elim (receive_status c.updates (receipt_status r) m s) [
    | none ↦ (s, some update_failed)
    | some s' ↦ acknowledge c r m s'
  ]

  abbrev pub receive_found :
      Conditions → Receipt → Option MessageMapping → State → State × Option BridgeError
  receive_found c r none s = (s, none)
  receive_found c r (some m) s = receive_for c r m s

  -- HandleSignalReceipt, for a message with a receipt
  unfoldable pub handle_receipt : Conditions → Receipt → State → State × Option BridgeError
  unfolding receipt_mapping find_signal receive_for
  handle_receipt c r s =
      let id = v.decimal r.target_timestamp in
      let handled = receive_found c r (receipt_mapping id s.mappings) s in
      if c.reads 1
      then elim (find_signal id s.mappings) [
        | some m ↦ handled
        | none ↦ if c.reads 2 then handled else (s, some lookup_failed)
      ]
      else (s, some lookup_failed)
