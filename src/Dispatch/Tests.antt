-- ===== src/Dispatch/Tests.antt =====
-- Two channels, and a table of three pending messages.
use whatsignal.Base.{
  ◌≤◌, ℕ, ◌≡◌, ◌≢◌, ◌↔◌, ◌⊎◌, refl, Bool, true, false, List, [], ◌∷◌, ◌++◌, Option, none, some,
  take, drop, any, In, here, ◌==◌,
}
use whatsignal.Base.Text.{Text, codes, same}
use whatsignal.Base.Dict.{lookup}
use whatsignal.Channels.{
  ChannelManager, get_signal_destination, get_whatsapp_session, get_all_whatsapp_sessions,
  get_all_signal_destinations,
}
use whatsignal.Dispatch.{
  PendingMessage, Fate, has_key, delete_pending, increment_retry_count, process_one, process_each,
  process_pending_messages, attempts, settle, work, choose_destination, choose_among,
  determine_destination, own_destination, destination_by_history,
}
use whatsignal.Dispatch.Markers.{enter, count, Run, begin, arrive, enter_iff}
use whatsignal.Dispatch.Histories.{Routes}
use whatsignal.Dispatch.Routing.{choose_destination-some, choose_destination-none}
use whatsignal.Dispatch.Pending.{Unique, left_of_all, process_pending_messages_lem}
use whatsignal.Dispatch.Workers.{holds}

abbrev manager : ChannelManager
manager = record {
  channels = (codes "home", codes "+111") ∷ (codes "work", codes "+222") ∷ [];
  reverse = (codes "+111", codes "home") ∷ (codes "+222", codes "work") ∷ [];
  ordered_names = codes "home" ∷ codes "work" ∷ [];
}

-- The session "work" has a history with everybody, and that of "home" cannot be read.
abbrev history : Text → Text → Option Bool
history session sender = if_work (same session (codes "work"))
  where
    if_work : Bool → Option Bool
    if_work true = some true
    if_work false = none

goes_to_work : choose_destination history (codes "+999") manager ≡ some (codes "+222")
unfolding choose_destination choose_among determine_destination own_destination
    destination_by_history get_signal_destination get_whatsapp_session get_all_whatsapp_sessions
    get_all_signal_destinations same lookup
goes_to_work = refl

choose_destination-some_example :
    (any (same (codes "+222")) (get_all_signal_destinations manager) ≡ true)
    × ((get_all_signal_destinations manager ≡ codes "+222" ∷ [])
        ⊎ (codes "+999" ≡ codes "+222")
        ⊎ ((s : Text) × In s (get_all_whatsapp_sessions manager)
            × (history s (codes "+999") ≡ some true)
            × Routes manager s (codes "+222")))
choose_destination-some_example =
    choose_destination-some history (codes "+999") manager (codes "+222") goes_to_work

abbrev no_history : Text → Text → Option Bool
no_history session sender = some false

goes_nowhere : choose_destination no_history (codes "+999") manager ≡ none
unfolding choose_destination choose_among determine_destination own_destination
    destination_by_history get_signal_destination get_whatsapp_session get_all_whatsapp_sessions
    get_all_signal_destinations same lookup
goes_nowhere = refl

at_home :
    (In (codes "home") (get_all_whatsapp_sessions manager))
    × (any (same (codes "+111")) (get_all_signal_destinations manager) ≡ true)
    × Routes manager (codes "home") (codes "+111")
unfolding get_signal_destination get_all_whatsapp_sessions get_all_signal_destinations same lookup
at_home = (here, refl, refl)

choose_destination-none_example : no_history (codes "home") (codes "+999") ≢ some true
choose_destination-none_example =
    choose_destination-none no_history (codes "+999") manager (codes "home") (codes "+111")
      goes_nowhere at_home.0 at_home.1 at_home.2

abbrev pending : Text → Text → PendingMessage
pending id raw = record {
  message_id = id;
  destination = codes "+111";
  raw_json = raw;
  retry_count = 0;
}

abbrev rows : List PendingMessage
rows =
    pending (codes "a") (codes "{}")
    ∷ pending (codes "b") (codes "fails")
    ∷ pending (codes "c") (codes "broken")
    ∷ []

abbrev fate : Fate
fate = record {
  decodes = λ p. decoded (same p.raw_json (codes "broken"));
  succeeds = λ p. same p.raw_json (codes "{}");
  writes = λ p. true;
}
  where
    decoded : Bool → Bool
    decoded true = false
    decoded false = true

rows-Unique : Unique rows
unfolding has_key same
rows-Unique = (refl, (refl, (refl, tt)))

process_pending_messages_lem_example :
    process_pending_messages fate rows ≡ left_of_all fate (take 100 rows) ++ drop 100 rows
process_pending_messages_lem_example = process_pending_messages_lem fate rows rows-Unique

one_left :
    process_pending_messages fate rows
    ≡ record (pending (codes "b") (codes "fails")) { retry_count = 1 } ∷ []
unfolding process_pending_messages process_each process_one delete_pending increment_retry_count
    has_key same
one_left = refl

-- Only the second attempt succeeds.
abbrev second : ℕ → Bool
second n = n == 2

abbrev never : ℕ → Bool
never n = false

row_deleted :
    holds (codes "a") (codes "+111") (work second never true true (codes "a") (codes "+111") rows)
    ≡ false
unfolding work attempts settle delete_pending has_key same
row_deleted = refl

-- The message "a" arrives twice, then "b".
two_handlers : Run (codes "b" ∷ codes "a" ∷ []) (codes "b" ∷ codes "a" ∷ [])
unfolding enter same
two_handlers = arrive (codes "b") (arrive (codes "a") (arrive (codes "a") begin))

enter_iff_example :
    (count (codes "a") (codes "b" ∷ codes "a" ∷ []) ≤ 1)
    × (((enter (codes "a") (codes "b" ∷ codes "a" ∷ [])).1 ≡ true)
        ↔ (count (codes "a") (codes "b" ∷ codes "a" ∷ []) ≡ 0))
enter_iff_example =
    enter_iff (codes "b" ∷ codes "a" ∷ []) (codes "b" ∷ codes "a" ∷ []) (codes "a") two_handlers
