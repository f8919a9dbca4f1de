-- ===== src/Channels.antt =====
-- internal/service/channel_manager.go. Error values are constructors, with what their message
-- names. A list that ranges over a map comes in the order of the association list, which stands
-- for the order in which Go ranges over it.
pub mod Bijection
pub mod Accepted
mod Tests
use whatsignal.Base.{
  ℕ, Bool, true, false, List, [], ◌∷◌, ◌++◌, Option, none, some, length, ◌==◌, if◌then◌else◌,
}
use whatsignal.Base.Text.{Text, is_empty}
use whatsignal.Base.Dict.{lookup, insert}

-- models.Channel
pub record Channel : Type 0 where
  pub session_name : Text
  pub destination : Text

pub data ChannelError : Type 0 where
  empty_session : ChannelError
  empty_destination duplicate_session : Text → ChannelError
  duplicate_destination no_destination no_session : Text → ChannelError
  no_channels : ChannelError

pub data Result {ℓ} (A : Type ℓ) : Type ℓ where
  ok : A → Result A
  err : ChannelError → Result A

pub record ChannelManager : Type 0 where
  pub channels : List (Text × Text)
  pub reverse : List (Text × Text)
  pub ordered_names : List Text

abbrev pub exists {ℓ} : {A : Type ℓ} → Option A → Bool
exists none = false
exists (some a) = true

abbrev pub no_manager : ChannelManager
no_manager = record { channels = []; reverse = []; ordered_names = [] }

-- One round of the loop of NewChannelManager.
unfoldable pub add_channel : Channel → ChannelManager → Result ChannelManager
unfolding lookup insert
add_channel c cm =
    if is_empty c.session_name
    then err empty_session
    else if is_empty c.destination
    then err (empty_destination c.session_name)
    else if exists (lookup c.session_name cm.channels)
    then err (duplicate_session c.session_name)
    else if exists (lookup c.destination cm.reverse)
    then err (duplicate_destination c.destination)
    else ok (record {
      channels = insert c.session_name c.destination cm.channels;
      reverse = insert c.destination c.session_name cm.reverse;
      ordered_names = cm.ordered_names ++ c.session_name ∷ [];
    })

unfoldable pub add_channels : List Channel → ChannelManager → Result ChannelManager
unfolding add_channel
add_channels [] cm = ok cm
add_channels (c ∷ cs) cm = elim (add_channel c cm) [ err e ↦ err e | ok cm' ↦ add_channels cs cm' ]

-- The last test of NewChannelManager.
unfoldable pub require_channel : Result ChannelManager → Result ChannelManager
require_channel (err e) = err e
require_channel (ok cm) = if length cm.channels == 0 then err no_channels else ok cm

-- NewChannelManager
unfoldable pub new_channel_manager : List Channel → Result ChannelManager
unfolding add_channels require_channel
new_channel_manager cs = require_channel (add_channels cs no_manager)

abbrev pub found : Option Text → ChannelError → Result Text
found none e = err e
found (some t) e = ok t

-- GetSignalDestination
unfoldable pub get_signal_destination : Text → ChannelManager → Result Text
unfolding lookup
get_signal_destination session cm = found (lookup session cm.channels) (no_destination session)

-- GetWhatsAppSession
unfoldable pub get_whatsapp_session : Text → ChannelManager → Result Text
unfolding lookup
get_whatsapp_session destination cm = found (lookup destination cm.reverse) (no_session destination)

abbrev pub keys : List (Text × Text) → List Text
keys [] = []
keys ((k, v) ∷ m) = k ∷ keys m

-- GetAllSignalDestinations
unfoldable pub get_all_signal_destinations : ChannelManager → List Text
get_all_signal_destinations cm = keys cm.reverse

-- GetAllWhatsAppSessions
unfoldable pub get_all_whatsapp_sessions : ChannelManager → List Text
get_all_whatsapp_sessions cm = keys cm.channels

-- GetChannelCount
unfoldable pub get_channel_count : ChannelManager → ℕ
get_channel_count cm = length cm.channels

-- IsValidSession
unfoldable pub is_valid_session : Text → ChannelManager → Bool
unfolding lookup
is_valid_session session cm = exists (lookup session cm.channels)

-- IsValidDestination
unfoldable pub is_valid_destination : Text → ChannelManager → Bool
unfolding lookup
is_valid_destination destination cm = exists (lookup destination cm.reverse)
