-- ===== src/Bridge/Replies.antt =====
-- From Signal to WhatsApp: the direct messages of HandleSignalMessageWithDestination of
-- internal/service/bridge.go, and the sends that they share with group messages.
use whatsignal.Base.{
  ℕ, zero, suc, Bool, true, false, not, List, [], ◌∷◌, ◌++◌, Option, none, some, ◌==◌,
  if◌then◌else◌,
}
use whatsignal.Base.Text.{Text, codes, is_empty}
use whatsignal.Base.Dict.{insert, erase}
use whatsignal.Sending.{
  Method, send_text, send_image, send_video, send_voice, send_document, SendResult, send_message,
  send_method, restarts_after, recovery, should_restart,
}
use whatsignal.Retry.Classifier.{Error, is_retryable_whatsapp_error}
use whatsignal.Mappings.{MessageMapping, first}
use whatsignal.Bridge.{
  Services, Outgoing, Effect, to_whatsapp, restart, wait_ready, State, Conditions, BridgeError,
  save_failed, new_thread, whatsapp_failed, add_effects, save_mapping, unix_seconds,
}
use whatsignal.Bridge.Forwarding.{or_error}
use whatsignal.Bridge.Resolving.{
  Quote, SignalMessage, to_mapping, unmapped, unresolved, resolve, process_attachments,
}

-- The media type that is stored: GetMediaType, or nothing without an attachment.
abbrev pub media_type_of : Method → Text
media_type_of send_image = codes "image"
media_type_of send_video = codes "video"
media_type_of send_voice = codes "voice"
media_type_of send_text = []
media_type_of send_document = codes "document"

-- The reply target of a message with a quote.
abbrev pub reply_target : Option Quote → MessageMapping → Text
reply_target none m = []
reply_target (some q) m = m.whatsapp_id

-- What each method sends besides the attachment: a voice message has no caption.
abbrev pub body_of : Method → Text → Text → Text
body_of send_text message trimmed = trimmed
body_of send_voice message trimmed = []
body_of send_image message trimmed = message
body_of send_video message trimmed = message
body_of send_document message trimmed = message

module _ (v : Services) where
  abbrev pub outgoing : Text → Text → List Text → Text → Text → Outgoing
  outgoing chat message attachments reply_to session =
      let method = send_method v.ext v.allowed_types attachments in
      record {
        method = method;
        chat_id = chat;
        body = body_of method message (v.trim_space message);
        attachment = first attachments;
        reply_to = reply_to;
        session = session;
      }

  -- saveSignalToWhatsAppMapping
  unfoldable pub reply_mapping :
      Conditions → SignalMessage → Text → Text → List Text → Text → MessageMapping
  reply_mapping c msg response chat attachments session = record {
    chat_id = chat;
    whatsapp_id = response;
    signal_id = msg.message_id;
    signal_timestamp = unix_seconds msg.timestamp;
    forwarded_at = c.now;
    status = codes "sent";
    media_path = first attachments;
    session = session;
    media_type = media_type_of (send_method v.ext v.allowed_types attachments);
    created_at = c.now;
  }

  -- restartWhatsAppSession, which waits for the session if the restart works
  abbrev pub restart_calls : Bool → Text → List Effect
  restart_calls works session =
      let name = if is_empty session then v.default_session else session in
      restart name ∷ (if works then wait_ready name ∷ [] else [])

  -- The calls of the first n rounds of the closure.
  unfoldable pub round_calls : (ℕ → Option Error) → Bool → Outgoing → ℕ → List Effect
  unfolding is_retryable_whatsapp_error should_restart recovery
  round_calls call works message zero = []
  round_calls call works message (suc n) =
      round_calls call works message n
      ++ to_whatsapp message
        ∷ (if restarts_after (call (suc n)) (recovery call n)
            then restart_calls works message.session
            else [])

  -- sendMessageToWhatsApp: its result, and its calls of the client.
  unfoldable pub send_reply :
      Conditions → SignalMessage → MessageMapping → List Text → Text → SendResult × List Effect
  unfolding send_message send_method round_calls
  send_reply c msg m attachments session =
      let has_attachments = not (is_none (first attachments)) in
      let r = send_message c.sends v.max_attempts has_attachments (v.trim_space msg.message) in
      let message =
        outgoing m.chat_id msg.message attachments (reply_target msg.quoted m) session in
      (r, round_calls c.sends.call c.restarts message r.sends)
    where
      is_none : Option Text → Bool
      is_none none = true
      is_none (some t) = false

  -- The fallback that a direct message leaves.
  abbrev pub set_fallback : Bool → Text → Text → State → State
  set_fallback used key chat s =
      if used
      then record s { last_fallback = insert key chat s.last_fallback }
      else record s { last_fallback = erase key s.last_fallback }

  -- After the sends: the result, the response, and what is done with a response.
  unfoldable pub finish_reply :
      Conditions
      → SignalMessage
      → MessageMapping
      → List Text
      → Text
      → (State → State)
      → SendResult
      → State
      → State × Option BridgeError
  unfolding save_mapping reply_mapping
  finish_reply c msg m attachments session mark r s = elim r.error [
    | some e ↦ (s, some (whatsapp_failed e))
    | none ↦ if r.sends == 0 then (s, none) else elim c.whatsapp_response [
      | none ↦ (s, none)
      | some response ↦
          or_error
            (save_mapping (c.saves 1) (reply_mapping c msg response m.chat_id attachments session)
              (mark s))
            (mark s) save_failed
    ]
  ]

  -- HandleSignalMessageWithDestination, from a mapping on
  unfoldable pub reply_direct :
      Conditions → SignalMessage → MessageMapping → Bool → Text → State → State × Option BridgeError
  unfolding process_attachments send_reply finish_reply insert erase
  reply_direct c msg m used session s =
      let attachments = process_attachments v.process_media msg.attachments in
      let (r, sent) = send_reply c msg m attachments session in
      finish_reply c msg m attachments session (set_fallback used session m.chat_id) r
        (add_effects sent s)

  unfoldable pub handle_direct :
      Conditions → SignalMessage → Text → State → State × Option BridgeError
  unfolding resolve reply_direct
  handle_direct c msg session s = elim (resolve v c msg.quoted session s.mappings) [
    | unresolved e ↦ (s, some e)
    | unmapped ↦ (s, some new_thread)
    | to_mapping m used ↦ reply_direct c msg m used session s
  ]
