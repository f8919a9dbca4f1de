-- ===== src/Channels/Tests.antt =====
-- Two channels.
use whatsignal.Base.{◌≡◌, ◌≢◌, ◌↔◌, refl, List, [], ◌∷◌, All}
use whatsignal.Base.Text.{codes}
use whatsignal.Channels.{
  Channel, ChannelManager, ok, err, duplicate_session, new_channel_manager, get_signal_destination,
  get_whatsapp_session,
}
use whatsignal.Channels.Bijection.{get_whatsapp_session-get_signal_destination}
use whatsignal.Channels.Accepted.{Unique, IsNamed, new_channel_manager_iff}

abbrev home : Channel
home = record { session_name = codes "home"; destination = codes "+15550001" }

abbrev work : Channel
work = record { session_name = codes "work"; destination = codes "+15550002" }

abbrev both : List Channel
both = home ∷ work ∷ []

abbrev manager : ChannelManager
manager = record {
  channels = (home.session_name, home.destination) ∷ (work.session_name, work.destination) ∷ [];
  reverse = (home.destination, home.session_name) ∷ (work.destination, work.session_name) ∷ [];
  ordered_names = home.session_name ∷ work.session_name ∷ [];
}

both_accepted : new_channel_manager both ≡ ok manager
unfolding new_channel_manager
both_accepted = refl

twice_refused : new_channel_manager (home ∷ home ∷ []) ≡ err (duplicate_session home.session_name)
unfolding new_channel_manager
twice_refused = refl

get_whatsapp_session-get_signal_destination_example :
    (get_signal_destination work.session_name manager ≡ ok work.destination)
    ↔ (get_whatsapp_session work.destination manager ≡ ok work.session_name)
get_whatsapp_session-get_signal_destination_example =
    get_whatsapp_session-get_signal_destination both manager work.session_name work.destination
      both_accepted

new_channel_manager_iff_example :
    ((cm : ChannelManager) × (new_channel_manager both ≡ ok cm))
    ↔ (All IsNamed both × Unique both × (both ≢ []))
new_channel_manager_iff_example = new_channel_manager_iff both
