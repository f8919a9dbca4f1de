-- ===== src/Channels/Bijection.antt =====
-- The two maps of a channel manager are inverse to each other.
use mathlib.Core.Path.{subst}
use whatsignal.Base.{◌≡◌, ◌≢◌, ◌↔◌, refl, List, [], ◌∷◌, none, some, arith}
use whatsignal.Base.Text.{Text, same_iff}
use whatsignal.Base.Dict.{lookup, insert, lookup-insert}
use whatsignal.Channels.{
  Channel, ChannelManager, Result, ok, err, no_manager, add_channel, add_channels,
  new_channel_manager, require_channel, get_signal_destination, get_whatsapp_session,
}

-- A session leads to a destination exactly when the destination leads to the session.
abbrev pub IsInverse : ChannelManager → Type 0
IsInverse cm =
    (session destination : Text)
    → (lookup session cm.channels ≡ some destination)
      ↔ (lookup destination cm.reverse ≡ some session)

add_channel-ok :
    (c : Channel) (cm : ChannelManager) {cm' : ChannelManager}
    → add_channel c cm ≡ ok cm'
    → (lookup c.session_name cm.channels ≡ none)
      × (lookup c.destination cm.reverse ≡ none)
      × (cm'.channels ≡ insert c.session_name c.destination cm.channels)
      × (cm'.reverse ≡ insert c.destination c.session_name cm.reverse)
add_channel-ok c cm h = unfold add_channel in ground arith

insert-IsInverse :
    (s d : Text) (cm cm' : ChannelManager)
    → lookup s cm.channels ≡ none
    → lookup d cm.reverse ≡ none
    → cm'.channels ≡ insert s d cm.channels
    → cm'.reverse ≡ insert d s cm.reverse
    → IsInverse cm
    → IsInverse cm'
insert-IsInverse s d cm cm' hs hd ec er inv session destination = ground (
  arith,
  lookup-insert s session d cm.channels,
  lookup-insert d destination s cm.reverse,
  same_iff s session,
  same_iff d destination,
  inv session destination,
  inv s destination,
  inv session d,
)

-- Inversion of a successful round and of the loop.
pub add_channels-cons :
    (c : Channel) (cs : List Channel) (cm : ChannelManager) {cm' : ChannelManager}
    → add_channels (c ∷ cs) cm ≡ ok cm'
    → (next : ChannelManager) × (add_channel c cm ≡ ok next) × (add_channels cs next ≡ ok cm')
unfolding add_channels
add_channels-cons c cs cm {cm'} h = go (add_channel c cm) refl
  where
    go :
        (r : Result ChannelManager)
        → add_channel c cm ≡ r
        → (next : ChannelManager) × (add_channel c cm ≡ ok next) × (add_channels cs next ≡ ok cm')
    go (ok next) e = (next, e, rw (e, add_channels) at h)
    go (err x) e = cc (rw (e, add_channels) at h)

add_channels-IsInverse :
    (cs : List Channel) (cm cm' : ChannelManager)
    → add_channels cs cm ≡ ok cm'
    → IsInverse cm
    → IsInverse cm'
add_channels-IsInverse [] cm cm' h inv =
    let same : cm ≡ cm' = unfold add_channels in cc h in subst IsInverse same inv
add_channels-IsInverse (c ∷ cs) cm cm' h inv =
    let (next, first, rest) = add_channels-cons c cs cm h in
    let (hs, hd, ec, er) = add_channel-ok c cm first in
    add_channels-IsInverse cs next cm' rest
      (insert-IsInverse c.session_name c.destination cm next hs hd ec er inv)

require_channel-ok :
    (r : Result ChannelManager) {cm : ChannelManager}
    → require_channel r ≡ ok cm
    → (r ≡ ok cm) × (cm.channels ≢ [])
unfolding require_channel
require_channel-ok (ok next) h = ground arith
require_channel-ok (err e) h = cc h

pub new_channel_manager-ok :
    (cs : List Channel) {cm : ChannelManager}
    → new_channel_manager cs ≡ ok cm
    → (add_channels cs no_manager ≡ ok cm) × (cm.channels ≢ [])
new_channel_manager-ok cs {cm} h =
    require_channel-ok (add_channels cs no_manager) (unfold new_channel_manager in h)

-- In a manager that NewChannelManager accepts, sessions and destinations correspond one to one:
-- a session's destination is d exactly when d's session is that session.
pub get_whatsapp_session-get_signal_destination :
    (cs : List Channel) (cm : ChannelManager) (session destination : Text)
    → new_channel_manager cs ≡ ok cm
    → (get_signal_destination session cm ≡ ok destination)
      ↔ (get_whatsapp_session destination cm ≡ ok session)
get_whatsapp_session-get_signal_destination cs cm s d h =
    let inv =
      add_channels-IsInverse cs no_manager cm (new_channel_manager-ok cs h).0
        (λ a b. unfold lookup in ground arith) s d in
    unfold get_signal_destination get_whatsapp_session in ground (arith, inv)
