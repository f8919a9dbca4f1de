-- ===== src/Bridge.antt =====
-- internal/service/bridge.go: the state that the bridge and its database share, what its handlers
-- meet, and the helpers of the handlers. The channel manager and the message table are those of
-- Channels and Mappings. The services for contacts, groups and media, filepath.Ext,
-- strings.TrimSpace and the decimal form of a number are parameters, as in record Services.
-- Metrics and logging are left out.
pub mod Forwarding
pub mod Resolving
pub mod Replies
pub mod Rounds
pub mod GroupReplies
pub mod Handlers
pub mod AtMostOnce
pub mod Forwarded
pub mod RoundTrip
pub mod Groups
pub mod Receipts
pub mod Ranks
pub mod Fixtures
mod Tests
use whatsignal.Base.{
  ℕ, ◌+◌, ◌*◌, ◌/◌, Bool, true, false, ◌&&◌, not, List, [], ◌∷◌, ◌++◌, Option, none, some,
  if◌then◌else◌,
}
use whatsignal.Base.Text.{Text, codes, is_empty, trim_suffix, has_suffix}
use whatsignal.Channels.{ChannelManager, ChannelError}
use whatsignal.Retry.{World}
use whatsignal.Retry.Classifier.{Error}
use whatsignal.Sending.{AllowedTypes, Method, SendError}
use whatsignal.Mappings.{MessageMapping, Table, append_mapping}

pub record Services : Type 0 where
  pub channels : ChannelManager
  pub contact_display_name : Option (Text → Text)
  pub group_name : Option (Text → Text → Text)
  pub process_media : Text → Option Text
  pub contact_by_name : Text → Option (Option Text)
  pub allowed_types : AllowedTypes
  pub ext : Text → Text
  pub trim_space : Text → Text
  pub decimal : ℕ → Text
  pub default_session : Text
  pub max_attempts : ℕ

-- A message that is sent to WhatsApp.
pub record Outgoing : Type 0 where
  pub method : Method
  pub chat_id : Text
  pub body : Text
  pub attachment : Option Text
  pub reply_to : Text
  pub session : Text

-- A call of a client.
pub data Effect : Type 0 where
  to_signal : Text → Text → List Text → Effect
  to_whatsapp : Outgoing → Effect
  react : Text → Text → Text → Text → Effect
  delete_message : Text → Text → Effect
  ack : Text → Text → Effect
  restart wait_ready : Text → Effect

pub record State : Type 0 where
  pub mappings : Table
  pub last_fallback : List (Text × Text)
  pub effects : List Effect

-- signal.SendMessageResponse
pub record SignalResponse : Type 0 where
  pub message_id : Text
  pub timestamp : ℕ

-- What a handler meets: whether its n-th read and its n-th insertion succeed, whether an update
-- and a single call of a client do, what its sends return, and the clock in nanoseconds.
pub record Conditions : Type 0 where
  pub now : ℕ
  pub reads : ℕ → Bool
  pub saves : ℕ → Bool
  pub updates : Bool
  pub client_works : Bool
  pub restarts : Bool
  pub sends : World Error
  pub signal_response : Option SignalResponse
  pub whatsapp_response : Option Text

pub data BridgeError : Type 0 where
  media_failed save_failed lookup_failed nil_response : BridgeError
  no_destination no_session : ChannelError → BridgeError
  signal_non_retryable signal_failed : Error → BridgeError
  ambiguous_destination new_thread update_failed ack_failed delete_failed : BridgeError
  reaction_failed : BridgeError
  no_mapping no_group_context not_a_group : Text → BridgeError
  whatsapp_failed : SendError → BridgeError

abbrev pub add_effects : List Effect → State → State
add_effects es s = record s { effects = s.effects ++ es }

-- SaveMessageMapping, which refuses a mapping without a session; none is an error.
unfoldable pub save_mapping : Bool → MessageMapping → State → Option State
unfolding append_mapping
save_mapping works m s =
    if works && not (is_empty m.session)
    then some (record s { mappings = append_mapping m s.mappings })
    else none

-- time.Unix(timestamp/1000, 0), in nanoseconds, for a timestamp that is not negative
abbrev pub unix_seconds : ℕ → ℕ
unix_seconds timestamp = timestamp / 1000 * 1000000000
