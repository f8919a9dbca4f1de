-- ===== src/Server.antt =====
-- The webhook handlers of cmd/whatsignal/server.go over the bridge and the replay cache, with the
-- validators of internal/service/logging.go and internal/validation/validation.go that they call,
-- and UpdateDeliveryStatus of internal/service/message_service.go. The JSON decoder, the test of
-- unicode.IsDigit on every rune, strings.ToUpper, the keyed hashes and SHA-256 are parameters, as
-- in record Library. Routing, middleware and the health pages are left out.
pub mod Events
pub mod Hooks
pub mod Authentic
mod Tests
use whatsignal.Base.{
  ℕ, ◌+◌, ◌*◌, Bool, true, false, not, ◌&&◌, ◌||◌, List, [], ◌∷◌, ◌++◌, Option, none, some, all,
  any, length, ltb, leb, ◌==◌, if◌then◌else◌,
}
use whatsignal.Base.Text.{
  Text, codes, same, is_empty, has_suffix, trim_suffix, trim_prefix, contains,
}
use whatsignal.Webhook.{Int64, ReplayCache, is_digit}
use whatsignal.Bridge.{Services, State}

pub record Reacted : Type 0 where
  pub text : Text
  pub message_id : Text

-- WhatsAppWebhookPayload, as far as the handlers read it. The names of `_data` are a pair.
pub record Payload : Type 0 where
  pub event : Text
  pub session : Text
  pub id : Text
  pub from : Text
  pub from_me : Bool
  pub body : Text
  pub has_media : Bool
  pub participant : Text
  pub notify_name : Text
  pub media_url : Option Text
  pub reaction : Option Reacted
  pub engine_names : Option (Text × Text)
  pub edited_message_id : Option Text
  pub ack : Option Int64
  pub ack_name : Text

pub record Library : Type 0 where
  pub decode : Text → Option Payload
  pub runes_are_digits : Text → Bool
  pub to_upper : Text → Text
  pub hmac_sha256 : Text → Text → Text
  pub hmac_sha512 : Text → Text → Text
  pub sha256 : Text → Text

pub data EventError : Type 0 where
  invalid failed : EventError

pub data Status : Type 0 where
  ok_200 bad_request_400 unauthorized_401 conflict_409 too_large_413 internal_error_500 : Status

pub record Server : Type 0 where
  pub bridge : State
  pub replay : ReplayCache

-- ValidateMessageID: whether it is accepted
unfoldable pub is_valid_message_id : Text → Bool
is_valid_message_id id =
    not (is_empty id)
    && leb (length id) 256
    && not (any (λ b. b == 0 || b == 10 || b == 13 || b == 9) id)

-- ValidateSessionName
unfoldable pub is_valid_session_name : Text → Bool
is_valid_session_name name =
    not (is_empty name)
    && leb (length name) 64
    && all
        (λ b.
          leb 97 b && leb b 122
          || (leb 65 b && leb b 90)
          || (leb 48 b && leb b 57)
          || b == 45
          || b == 95)
        name

-- The part before the first dash.
unfoldable pub before_dash : Text → Text
before_dash [] = []
before_dash (b ∷ rest) = if b == 45 then [] else b ∷ before_dash rest

-- ValidateChatID, which ValidatePhoneNumber of the services is: whether it is accepted
unfoldable pub is_valid_chat_id : (Text → Bool) → Text → Bool
unfolding has_suffix trim_suffix trim_prefix contains before_dash
is_valid_chat_id runes_are_digits chat =
    let is_group = has_suffix chat (codes "@g.us") || contains chat (codes "@g.us") in
    let is_lid = has_suffix chat (codes "@lid") in
    let cleaned =
      trim_suffix (trim_suffix (trim_suffix chat (codes "@c.us")) (codes "@g.us")) (codes "@lid") in
    let digits = trim_prefix cleaned (codes "+") in
    let max = if is_group || is_lid then 25 else 20 in
    if is_empty chat
    then false
    else if contains cleaned (codes "-")
    then not (is_empty (before_dash cleaned)) && runes_are_digits (before_dash cleaned)
    else leb 7 (length digits) && leb (length digits) max && runes_are_digits digits

-- The session of a payload: a validation error, a session that is not configured, or the session.
pub data SessionCheck : Type 0 where
  session_invalid session_skipped : SessionCheck
  session_ok : Text → SessionCheck

abbrev pub or_text : Text → Text → Text
or_text [] t = t
or_text (b ∷ bs) t = b ∷ bs

abbrev pub engine_name : Option (Text × Text) → Text
engine_name none = []
engine_name (some (notify, push)) = or_text notify push

-- The sender's display name in the webhook.
abbrev pub payload_name : Payload → Text
payload_name p = or_text p.notify_name (engine_name p.engine_names)
