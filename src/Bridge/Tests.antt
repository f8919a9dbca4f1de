-- ===== src/Bridge/Tests.antt =====
-- Runs of the bridge at concrete inputs.
use whatsignal.Base.{◌≡◌, ◌≢◌, refl, sym, ap, [], ◌∷◌, none, some, arith, true, false}
use whatsignal.Base.Text.{codes, same, has_prefix, has_suffix}
use whatsignal.Base.Dict.{lookup, erase}
use whatsignal.Channels.{get_signal_destination, get_whatsapp_session}
use whatsignal.Retry.{retry_with_predicate, predicate_loop}
use whatsignal.Retry.Classifier.{is_retryable_signal_error, is_retryable_whatsapp_error}
use whatsignal.Mappings.{MessageMapping, find_either, find_whatsapp, find_signal, replace_signal_id}
use whatsignal.Bridge.{to_whatsapp, to_signal, State, save_mapping}
use whatsignal.Bridge.Forwarding.{
  partial_mapping, forwarded_mapping, handle_whatsapp, receive_whatsapp, media_attachments, forward,
  finish_forward, record_sent, format_message, display_name,
}
use whatsignal.Bridge.AtMostOnce.{receive_whatsapp-receive_whatsapp}
use whatsignal.Bridge.Resolving.{Quote, SignalMessage, resolve, process_attachments, Receipt}
use whatsignal.Bridge.RoundTrip.{IsSent, IsReply, handle_signal-handle_whatsapp}
use mathlib.Core.Option.{some-injective}
use whatsignal.Bridge.Receipts.{receipt_status, receipt_mapping, handle_receipt}
use whatsignal.Bridge.Ranks.{share_status, IsReceived, handle_receipt-IsReceived}
use whatsignal.Bridge.Replies.{
  outgoing, round_calls, send_reply, finish_reply, reply_direct, handle_direct,
}
use whatsignal.Bridge.Handlers.{handle_in_session, handle_signal}
use whatsignal.Sending.{should_restart, send_text, send_message, send_method, recovery, after_send}
use whatsignal.Bridge.Fixtures.{
  phone, services, sent_as, down, up, hello, start, hello-IsFresh, hello-IsForwarded,
}

some_effects : (receive_whatsapp services down hello start).0.effects ≢ []
unfolding receive_whatsapp handle_whatsapp forward finish_forward media_attachments
    get_signal_destination lookup same find_either find_whatsapp find_signal retry_with_predicate
    predicate_loop is_retryable_signal_error save_mapping
some_effects e = absurd (ground (arith, e))

receive_whatsapp-receive_whatsapp_example :
    receive_whatsapp services up hello (receive_whatsapp services down hello start).0
    ≡ ((receive_whatsapp services down hello start).0, none)
receive_whatsapp-receive_whatsapp_example =
    receive_whatsapp-receive_whatsapp services down up hello start refl refl refl some_effects

abbrev quote : Quote
quote = record { id = codes "1700000000000"; text = codes "Ann: hi" }

abbrev reply : SignalMessage
reply = record {
  timestamp = 1700000005000;
  sender = codes "+15550002222";
  message_id = codes "1700000005000";
  message = codes "hello";
  attachments = [];
  quoted = some quote;
  reaction = none;
  deletion = none;
  receipt = none;
}

reply-IsReply : IsReply services up reply quote (codes "default") phone
unfolding get_whatsapp_session lookup same has_prefix
reply-IsReply = record {
  in_session = refl;
  direct = refl;
  no_reaction = refl;
  no_deletion = refl;
  quotes = refl;
  readable = refl;
}

handle_signal-handle_whatsapp_example :
    let s' = (handle_whatsapp services up hello start).0 in
    let files = process_attachments services.process_media [] in
    let sent =
      send_reply services up reply
        (forwarded_mapping up hello [] sent_as)
        files
        (codes "default") in
    IsSent services up
      (outgoing services (codes "555@c.us") (codes "hello") files (codes "A1") (codes "default"))
      sent.0.sends
      s'
      (handle_signal services up reply phone s').0
handle_signal-handle_whatsapp_example =
    handle_signal-handle_whatsapp services up up hello [] sent_as reply quote (codes "default")
      phone start hello-IsFresh hello-IsForwarded reply-IsReply refl

-- The reply is sent once, as a text.
replied_once :
    (handle_signal services up reply phone (handle_whatsapp services up hello start).0).0.effects
    ≡ to_signal phone (codes "Ann: hi") []
      ∷ to_whatsapp (record {
        method = send_text;
        chat_id = codes "555@c.us";
        body = codes "hello";
        attachment = none;
        reply_to = codes "A1";
        session = codes "default";
      })
      ∷ []
unfolding handle_signal handle_in_session handle_direct resolve reply_direct finish_reply send_reply
    round_calls should_restart process_attachments save_mapping handle_whatsapp forward
    finish_forward record_sent media_attachments format_message display_name get_signal_destination
    get_whatsapp_session lookup erase same has_prefix retry_with_predicate predicate_loop
    send_message send_method recovery after_send is_retryable_whatsapp_error find_either
    find_whatsapp find_signal replace_signal_id partial_mapping has_suffix
replied_once = refl

abbrev to_group : SignalMessage
to_group = record reply { quoted = none; sender = codes "group.abc" }

abbrev family : State
family = record start {
  mappings = (record (partial_mapping up hello []) { chat_id = codes "777@g.us" }) ∷ [];
}

abbrev seen : Receipt
seen = record {
  target_timestamp = 1700000000000;
  is_delivery = false;
  is_read = true;
  is_viewed = false;
}

abbrev delivered : MessageMapping
delivered = record (partial_mapping up hello []) {
  signal_id = codes "1700000000000";
  status = codes "delivered";
}

abbrev one_delivered : State
one_delivered = record start { mappings = delivered ∷ [] }

only_delivered :
    (m : MessageMapping)
    → receipt_mapping (codes "1700000000000") one_delivered.mappings ≡ some m
    → share_status m one_delivered.mappings ≡ true
unfolding receipt_mapping share_status find_signal same partial_mapping
only_delivered m e =
    ap (λ n. share_status n one_delivered.mappings) (sym (some-injective delivered m e))

handle_receipt-IsReceived_example :
    IsReceived
      (receipt_status seen)
      (receipt_mapping (codes "1700000000000") one_delivered.mappings)
      one_delivered
      (handle_receipt services up seen one_delivered)
handle_receipt-IsReceived_example =
    handle_receipt-IsReceived services up seen one_delivered only_delivered
