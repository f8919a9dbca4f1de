-- ===== src/Server/Events.antt =====
-- The handlers of the events: handleWhatsAppMessage and the others of cmd/whatsignal/server.go.
use whatsignal.Base.{
  Bool, false, not, ◌&&◌, ◌||◌, [], ◌∷◌, ◌++◌, Option, none, some, ◌==◌, if◌then◌else◌,
}
use whatsignal.Base.Text.{Text, codes, same, is_empty, has_suffix, contains}
use whatsignal.Channels.{ok, err, is_valid_session, get_signal_destination}
use whatsignal.Webhook.{Int64, plus, minus}
use whatsignal.Delivery.{should_update}
use whatsignal.Mappings.{MessageMapping, Table, find_whatsapp, replace_status}
use whatsignal.Bridge.{Services, State, Conditions, BridgeError, to_signal, add_effects}
use whatsignal.Bridge.Forwarding.{Incoming, receive_whatsapp}
use whatsignal.Server.{
  Payload, Reacted, Library, EventError, invalid, failed, SessionCheck, session_invalid,
  session_skipped, session_ok, is_valid_message_id, is_valid_session_name, is_valid_chat_id,
  or_text, payload_name,
}

abbrev pub error_of : Option BridgeError → Option EventError
error_of none = none
error_of (some e) = some failed

abbrev pub handled : State × Option BridgeError → State × Option EventError
handled (s, e) = (s, error_of e)

abbrev pub no_media : Option Text → Text
no_media none = []
no_media (some url) = url

module _ (v : Services) where
  -- validateWebhookSession
  unfoldable pub check_session : Payload → SessionCheck
  unfolding is_valid_session_name is_valid_session
  check_session p =
      if is_empty p.session
      then session_invalid
      else if not (is_valid_session_name p.session)
      then session_invalid
      else if is_valid_session p.session v.channels
      then session_ok p.session
      else session_skipped

  -- The arguments with which the message service is called.
  unfoldable pub incoming : Payload → Text → Incoming
  unfolding has_suffix
  incoming p session = record {
    session = session;
    chat_id = p.from;
    msg_id = p.id;
    sender =
        if has_suffix p.from (codes "@g.us") && not (is_empty p.participant)
        then p.participant
        else p.from;
    sender_display_name = payload_name p;
    content = p.body;
    media_path = if p.has_media then no_media p.media_url else [];
  }

  -- handleWhatsAppMessage, from the validation of the session on
  unfoldable pub deliver : Conditions → Payload → State → State × Option EventError
  unfolding check_session incoming receive_whatsapp
  deliver c p s = elim (check_session p) [
    | session_invalid ↦ (s, some invalid)
    | session_skipped ↦ (s, none)
    | session_ok session ↦ handled (receive_whatsapp v c (incoming p session) s)
  ]

  -- handleWhatsAppMessage
  unfoldable pub handle_message : Library → Conditions → Payload → State → State × Option EventError
  unfolding contains is_valid_chat_id is_valid_message_id deliver
  handle_message l c p s =
      let sender = (incoming p p.session).sender in
      if is_empty p.id || is_empty p.from
      then (s, some invalid)
      else if is_empty p.body && not p.has_media
      then (s, none)
      else if contains p.from (codes "status@broadcast")
      then (s, none)
      else if not (is_valid_chat_id l.runes_are_digits sender)
      then (s, none)
      else if not (is_valid_message_id p.id)
      then (s, some invalid)
      else deliver c p s

  -- SendSignalNotification: the call, and an error without a destination or when it fails
  unfoldable pub notify : Conditions → Text → Text → State → State × Option EventError
  unfolding get_signal_destination
  notify c session message s = elim (get_signal_destination session v.channels) [
    | err e ↦ (s, some failed)
    | ok destination ↦ (
      add_effects (to_signal destination message [] ∷ []) s,
      if c.client_works then none else some failed,
    )
  ]

  -- A notification about a message that is mapped, in its session.
  unfoldable pub notify_mapped : Conditions → Text → Text → Text → State → State × Option EventError
  unfolding find_whatsapp notify
  notify_mapped c id message session s =
      if c.reads 1
      then elim (find_whatsapp id s.mappings) [
        | none ↦ (s, none)
        | some m ↦ notify c (or_text m.session session) message s
      ]
      else (s, none)

  abbrev pub reaction_text : Payload → Reacted → Text
  reaction_text p r =
      let name = or_text (payload_name p) p.from in
      if is_empty r.text
      then name ++ codes " removed reaction from message"
      else name ++ codes " reacted with " ++ r.text

  -- The two handlers that end in a notification about a mapped message.
  unfoldable pub notify_about :
      Conditions → Payload → Text → Text → State → State × Option EventError
  unfolding check_session notify_mapped
  notify_about c p id message s = elim (check_session p) [
    | session_invalid ↦ (s, some invalid)
    | session_skipped ↦ (s, none)
    | session_ok session ↦ notify_mapped c id message session s
  ]

  -- handleWhatsAppReaction
  unfoldable pub handle_wa_reaction : Conditions → Payload → State → State × Option EventError
  unfolding notify_about
  handle_wa_reaction c p s = elim p.reaction [
    | none ↦ (s, some invalid)
    | some r ↦
        if is_empty p.from
        then (s, some invalid)
        else notify_about c p r.message_id (reaction_text p r) s
  ]

  -- The bytes of the pencil sign.
  abbrev pub edited_text : Text → Text
  edited_text body = 226 ∷ 156 ∷ 143 ∷ 239 ∷ 184 ∷ 143 ∷ codes " Message edited: " ++ body

  -- handleWhatsAppEditedMessage
  unfoldable pub handle_edited : Conditions → Payload → State → State × Option EventError
  unfolding notify_about
  handle_edited c p s = elim p.edited_message_id [
    | none ↦ (s, some invalid)
    | some id ↦
        if is_empty p.from then (s, some invalid) else notify_about c p id (edited_text p.body) s
  ]

  -- The bytes of the hourglass sign, and the text.
  abbrev pub waiting_text : Text
  waiting_text = 226 ∷ 143 ∷ 179 ∷ codes " WhatsApp is waiting for a message"

  -- handleWhatsAppWaitingMessage
  unfoldable pub handle_waiting : Conditions → Payload → State → State × Option EventError
  unfolding check_session notify
  handle_waiting c p s = elim (check_session p) [
    | session_invalid ↦ (s, some invalid)
    | session_skipped ↦ (s, none)
    | session_ok session ↦ notify c session waiting_text s
  ]

-- The delivery status of an ACK; empty for a number without one.
unfoldable pub status_of_ack : Int64 → Text
status_of_ack (minus n) = if n == 1 then codes "failed" else if n == 0 then codes "sent" else []
status_of_ack (plus n) =
    if n == 0 || n == 1
    then codes "sent"
    else if n == 2
    then codes "delivered"
    else if n == 3 || n == 4
    then codes "read"
    else []

-- ackStatusFromPayload
unfoldable pub ack_of_name : Text → Option Int64
unfolding same
ack_of_name name =
    if same name (codes "ERROR")
    then some (minus 1)
    else if same name (codes "PENDING")
    then some (plus 0)
    else if same name (codes "SERVER")
    then some (plus 1)
    else if same name (codes "DEVICE")
    then some (plus 2)
    else if same name (codes "READ")
    then some (plus 3)
    else if same name (codes "PLAYED")
    then some (plus 4)
    else none

unfoldable pub ack_status : Library → Payload → Option Int64
unfolding ack_of_name
ack_status l p = elim p.ack [ some n ↦ some n | none ↦ ack_of_name (l.to_upper p.ack_name) ]

abbrev pub updated : Option Table → State → State
updated none s = s
updated (some ms) s = record s { mappings = ms }

abbrev pub is_lowered : Option MessageMapping → Text → Bool
is_lowered none status = false
is_lowered (some m) status = not (should_update m.status status)

-- UpdateDeliveryStatus of the message service; its errors are only logged
unfoldable pub update_mapped : Conditions → Text → Text → State → State
unfolding find_whatsapp replace_status should_update
update_mapped c id status s =
    if c.reads 2 && not (is_lowered (find_whatsapp id s.mappings) status) && c.updates
    then updated (replace_status id status s.mappings) s
    else s

-- handleWhatsAppACK, for an ACK with a status
unfoldable pub apply_ack : Conditions → Text → Text → State → State
unfolding find_whatsapp update_mapped
apply_ack c id status s =
    if c.reads 1
    then elim (find_whatsapp id s.mappings) [
      | none ↦ s
      | some m ↦ if is_empty status then s else update_mapped c id status s
    ]
    else s

-- handleWhatsAppACK
unfoldable pub handle_ack : Library → Conditions → Payload → State → State × Option EventError
unfolding ack_status status_of_ack apply_ack
handle_ack l c p s = elim (ack_status l p) [
  | none ↦ (s, none)
  | some n ↦ (apply_ack c p.id (status_of_ack n) s, none)
]
