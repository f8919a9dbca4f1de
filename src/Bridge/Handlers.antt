-- ===== src/Bridge/Handlers.antt =====
-- HandleSignalMessage and HandleSignalMessageWithDestination of internal/service/bridge.go, and the
-- handlers of reactions and deletions.
use whatsignal.Base.{[], ◌∷◌, Option, none, some, ◌==◌, if◌then◌else◌}
use whatsignal.Base.Text.{Text, codes, is_empty, has_prefix}
use whatsignal.Channels.{
  ok, err, get_whatsapp_session, get_channel_count, get_all_signal_destinations,
}
use whatsignal.Mappings.{find_either, find_signal}
use whatsignal.Bridge.{
  Services, react, delete_message, State, Conditions, BridgeError, lookup_failed, no_session,
  ambiguous_destination, delete_failed, reaction_failed, add_effects,
}
use whatsignal.Bridge.Resolving.{Reaction, Deletion, SignalMessage}
use whatsignal.Bridge.Replies.{handle_direct}
use whatsignal.Bridge.GroupReplies.{handle_group}

module _ (v : Services) where
  -- handleSignalReactionWithSession
  unfoldable pub handle_reaction : Conditions → Reaction → Text → State → State × Option BridgeError
  unfolding find_either
  handle_reaction c r session s =
      if c.reads 1
      then elim (find_either (v.decimal r.target_timestamp) s.mappings) [
        | none ↦ (s, none)
        | some m ↦
            let emoji = if r.is_remove then [] else r.emoji in
            let s' = add_effects (react m.chat_id m.whatsapp_id emoji session ∷ []) s in
            (s', if c.client_works then none else some reaction_failed)
      ]
      else (s, some lookup_failed)

  unfoldable pub deletion_target : Deletion → Text
  deletion_target d =
      if is_empty d.target_message_id then v.decimal d.target_timestamp else d.target_message_id

  -- handleSignalDeletionWithSession and HandleSignalMessageDeletion
  unfoldable pub handle_deletion : Conditions → Deletion → State → State × Option BridgeError
  unfolding find_signal deletion_target
  handle_deletion c d s =
      if c.reads 1
      then elim (find_signal (deletion_target d) s.mappings) [
        | none ↦ (s, none)
        | some m ↦
            let s' = add_effects (delete_message m.chat_id m.whatsapp_id ∷ []) s in
            (s', if c.client_works then none else some delete_failed)
      ]
      else (s, some lookup_failed)

  -- The messages that are not a group's, in a session.
  unfoldable pub handle_in_session :
      Conditions → SignalMessage → Text → State → State × Option BridgeError
  unfolding handle_reaction handle_deletion handle_direct
  handle_in_session c msg session s = elim msg.reaction [
    | some r ↦ handle_reaction c r session s
    | none ↦ elim msg.deletion [
      | some d ↦ handle_deletion c d s
      | none ↦ handle_direct v c msg session s
    ]
  ]

  -- HandleSignalMessageWithDestination
  unfoldable pub handle_signal :
      Conditions → SignalMessage → Text → State → State × Option BridgeError
  unfolding get_whatsapp_session has_prefix handle_group handle_in_session
  handle_signal c msg destination s = elim (get_whatsapp_session destination v.channels) [
    | err e ↦ (s, some (no_session e))
    | ok session ↦
        if has_prefix msg.sender (codes "group.")
        then handle_group v c msg session s
        else handle_in_session c msg session s
  ]

  -- HandleSignalMessage, which needs a single channel
  unfoldable pub handle_signal_default :
      Conditions → SignalMessage → State → State × Option BridgeError
  unfolding get_channel_count get_all_signal_destinations handle_signal
  handle_signal_default c msg s =
      if get_channel_count v.channels == 1
      then elim (get_all_signal_destinations v.channels) [
        | [] ↦ (s, some ambiguous_destination)
        | destination ∷ rest ↦ handle_signal c msg destination s
      ]
      else (s, some ambiguous_destination)
