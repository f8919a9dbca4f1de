-- ===== src/Bridge/Forwarding.antt =====
-- From WhatsApp to Signal: HandleWhatsAppMessageWithSession of internal/service/bridge.go, and of
-- internal/service/message_service.go, which calls it.
use whatsignal.Base.{List, [], ◌∷◌, ◌++◌, Option, none, some, replicate, if◌then◌else◌}
use whatsignal.Base.Text.{Text, codes, is_empty, has_suffix, trim_suffix}
use whatsignal.Channels.{ok, err, get_signal_destination}
use whatsignal.Retry.{retry_with_predicate}
use whatsignal.Retry.Classifier.{Error, is_retryable_signal_error}
use whatsignal.Mappings.{MessageMapping, first, is_group, find_either, replace_signal_id}
use whatsignal.Bridge.{
  Services, to_signal, State, SignalResponse, Conditions, BridgeError, media_failed, save_failed,
  nil_response, no_destination, signal_non_retryable, signal_failed, add_effects, save_mapping,
  unix_seconds,
}

-- The arguments of HandleWhatsAppMessageWithSession.
pub record Incoming : Type 0 where
  pub session : Text
  pub chat_id : Text
  pub msg_id : Text
  pub sender : Text
  pub sender_display_name : Text
  pub content : Text
  pub media_path : Text

unfoldable pub sender_phone : Text → Text
unfolding has_suffix trim_suffix
sender_phone sender =
    if has_suffix sender (codes "@c.us")
    then trim_suffix sender (codes "@c.us")
    else if has_suffix sender (codes "@lid")
    then trim_suffix sender (codes "@lid")
    else if has_suffix sender (codes "@g.us")
    then trim_suffix sender (codes "@g.us")
    else sender

-- The mapping that is saved before the send.
unfoldable pub partial_mapping : Conditions → Incoming → List Text → MessageMapping
partial_mapping c m attachments = record {
  chat_id = m.chat_id;
  whatsapp_id = m.msg_id;
  signal_id = codes "pending:" ++ m.msg_id;
  signal_timestamp = c.now;
  forwarded_at = c.now;
  status = codes "sent";
  media_path = first attachments;
  session = m.session;
  media_type = [];
  created_at = c.now;
}

-- The mapping that is saved after the send when the update fails.
unfoldable pub forwarded_mapping :
    Conditions → Incoming → List Text → SignalResponse → MessageMapping
unfolding partial_mapping
forwarded_mapping c m attachments r = record (partial_mapping c m attachments) {
  signal_id = r.message_id;
  signal_timestamp = unix_seconds r.timestamp;
  status = codes "delivered";
}

abbrev pub or_same {ℓ} : {S : Type ℓ} → Option S → S → S
or_same none s = s
or_same (some s') s = s'

abbrev pub or_error {ℓ κ} : {S : Type ℓ} {E : Type κ} → Option S → S → E → S × Option E
or_error none s e = (s, some e)
or_error (some s') s e = (s', none)

-- From the update of the partial mapping on.
unfoldable pub record_sent :
    Conditions → Incoming → List Text → SignalResponse → State → State × Option BridgeError
unfolding replace_signal_id save_mapping forwarded_mapping
record_sent c m attachments r s =
    if c.updates
    then (
      record s {
        mappings =
            replace_signal_id m.msg_id r.message_id (unix_seconds r.timestamp) (codes "delivered")
              s.mappings;
      },
      none,
    )
    else or_error (save_mapping (c.saves 2) (forwarded_mapping c m attachments r) s) s save_failed

-- From the retried send's outcome on.
unfoldable pub finish_forward :
    Option Error
    → Option SignalResponse
    → Conditions
    → Incoming
    → List Text
    → State
    → State × Option BridgeError
unfolding record_sent is_retryable_signal_error
finish_forward (some e) response c m attachments s =
    if is_retryable_signal_error (some e)
    then (s, some (signal_failed e))
    else (s, some (signal_non_retryable e))
finish_forward none none c m attachments s = (s, some nil_response)
finish_forward none (some r) c m attachments s = record_sent c m attachments r s

module _ (v : Services) where
  unfoldable pub display_name : Incoming → Text
  unfolding sender_phone
  display_name m =
      if is_empty m.sender_display_name
      then elim v.contact_display_name [
        | none ↦ sender_phone m.sender
        | some name ↦ name (sender_phone m.sender)
      ]
      else m.sender_display_name

  abbrev pub direct_message : Text → Text → Text
  direct_message name content = name ++ codes ": " ++ content

  unfoldable pub format_message : Incoming → Text
  unfolding display_name
  format_message m =
      let name = display_name m in
      let direct = direct_message name m.content in
      if is_group m.chat_id
      then elim v.group_name [
        | none ↦ direct
        | some group ↦ name ++ codes " in " ++ group m.chat_id m.session ++ codes ": " ++ m.content
      ]
      else direct

  -- The attachments, or none when the media cannot be processed.
  unfoldable pub media_attachments : Text → Option (List Text)
  media_attachments path =
      if is_empty path
      then some []
      else elim (v.process_media path) [ none ↦ none | some processed ↦ some (processed ∷ []) ]

  -- The partial mapping is saved, and the message is sent to the destination.
  unfoldable pub forward :
      Conditions → Incoming → List Text → Text → State → State × Option BridgeError
  unfolding partial_mapping save_mapping retry_with_predicate finish_forward format_message
  forward c m attachments destination s =
      let saved = or_same (save_mapping (c.saves 1) (partial_mapping c m attachments) s) s in
      let o =
        retry_with_predicate c.sends (λ e. is_retryable_signal_error (some e)) v.max_attempts in
      let sent = replicate o.calls (to_signal destination (format_message m) attachments) in
      finish_forward o.error c.signal_response c m attachments (add_effects sent saved)

  -- HandleWhatsAppMessageWithSession of the bridge
  unfoldable pub handle_whatsapp : Conditions → Incoming → State → State × Option BridgeError
  unfolding media_attachments get_signal_destination forward
  handle_whatsapp c m s = elim (media_attachments m.media_path) [
    | none ↦ (s, some media_failed)
    | some attachments ↦ elim (get_signal_destination m.session v.channels) [
      | err e ↦ (s, some (no_destination e))
      | ok destination ↦ forward c m attachments destination s
    ]
  ]

  -- HandleWhatsAppMessageWithSession of the message service, whose marker is in Dispatch.
  unfoldable pub receive_whatsapp : Conditions → Incoming → State → State × Option BridgeError
  unfolding find_either handle_whatsapp
  receive_whatsapp c m s =
      if c.reads 1
      then elim (find_either m.msg_id s.mappings) [
        | none ↦ handle_whatsapp c m s
        | some existing ↦ (s, none)
      ]
      else handle_whatsapp c m s
