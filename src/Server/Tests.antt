-- ===== src/Server/Tests.antt =====
-- Webhooks at concrete inputs.
use whatsignal.Base.{
  ◌≡◌, ◌≢◌, refl, ap, sym, ◌∙◌, [], ◌∷◌, none, some, arith, true, false, not, ◌&&◌, if◌then◌else◌,
}
use whatsignal.Base.Text.{
  Text, codes, same, has_prefix, has_suffix, contains, trim_suffix, trim_prefix,
}
use whatsignal.Base.Dict.{lookup, insert}
use whatsignal.Channels.{is_valid_session, get_signal_destination}
use whatsignal.Retry.{retry_with_predicate, predicate_loop}
use whatsignal.Webhook.{
  Request, timestamp_header, verify, parse_int, parse_digits, check_fresh, check_signature,
  check_and_store,
}
use whatsignal.Mappings.{find_either, find_whatsapp, find_signal, replace_signal_id}
use whatsignal.Bridge.{to_signal, save_mapping}
use whatsignal.Bridge.Forwarding.{
  receive_whatsapp, handle_whatsapp, forward, finish_forward, record_sent, media_attachments,
}
use whatsignal.Bridge.Fixtures.{phone, services, up, start}
use whatsignal.Server.{
  Payload, Library, Server, is_valid_chat_id, is_valid_message_id, is_valid_session_name,
}
use whatsignal.Server.Events.{handle_message, deliver, check_session}
use whatsignal.Server.Hooks.{
  Hook, is_own_event, check_replay, handle_event, handle_payload, handle_body, handle_webhook,
}
use whatsignal.Server.Authentic.{IsVerified, handle_webhook-authentic}

abbrev hello : Payload
hello = record {
  event = codes "message";
  session = codes "default";
  id = codes "A1";
  from = codes "15550002@c.us";
  from_me = false;
  body = codes "hi";
  has_media = false;
  participant = [];
  notify_name = codes "Ann";
  media_url = none;
  reaction = none;
  engine_names = none;
  edited_message_id = none;
  ack = none;
  ack_name = [];
}

abbrev library : Library
library = record {
  decode = λ body. some hello;
  runes_are_digits = λ t. true;
  to_upper = λ t. t;
  hmac_sha256 = λ secret body. codes "256";
  hmac_sha512 = λ secret body. codes "512";
  sha256 = λ body. codes "hash";
}

abbrev hook : Hook
hook = record {
  secret = codes "secret";
  secure = true;
  max_skew_sec = 0;
  now = 1000000000;
  too_large = false;
}

abbrev request : Request
request = record {
  body = some (codes "{}");
  header = λ name. if same name (codes "X-Webhook-Hmac") then codes "512" else codes "1000";
}

abbrev server : Server
server = record { bridge = start; replay = [] }

-- The message is forwarded once.
forwarded :
    (handle_webhook services library hook up request server).0.bridge.effects
    ≡ to_signal phone (codes "Ann: hi") [] ∷ []
unfolding parse_digits check_signature handle_webhook handle_body handle_payload handle_event
    check_replay check_and_store verify parse_int check_fresh lookup insert same handle_message
    deliver check_session is_valid_chat_id is_valid_message_id is_valid_session_name
    is_valid_session receive_whatsapp handle_whatsapp forward finish_forward record_sent
    media_attachments get_signal_destination find_either find_whatsapp find_signal replace_signal_id
    save_mapping retry_with_predicate predicate_loop has_prefix has_suffix contains trim_suffix
    trim_prefix
forwarded = refl

not_empty : to_signal phone (codes "Ann: hi") [] ∷ [] ≢ []
not_empty e = absurd (ground (arith, e))

changed : (handle_webhook services library hook up request server).0.bridge ≢ server.bridge
changed e = not_empty (sym forwarded ∙ ap (λ b. b.effects) e)

handle_webhook-authentic_example :
    (body : Text) × (p : Payload) × IsVerified library hook request body
    × ((check_replay services library hook (request.header timestamp_header) body server.replay).1
        ≡ false)
    × (library.decode body ≡ some p)
    × ((p.from_me && not (is_own_event p.event)) ≡ false)
handle_webhook-authentic_example =
    handle_webhook-authentic services library hook up request server changed
