-- ===== src/Bridge/GroupReplies.antt =====
-- handleSignalGroupMessage and SendSignalNotificationForSession of internal/service/bridge.go.
use whatsignal.Base.{
  Bool, true, false, not, ◌&&◌, List, [], ◌∷◌, ◌++◌, Option, none, some, if◌then◌else◌,
}
use whatsignal.Base.Text.{Text, codes, same, is_empty}
use whatsignal.Base.Dict.{lookup, insert, erase}
use whatsignal.Channels.{ok, err, get_signal_destination}
use whatsignal.Mappings.{MessageMapping, is_group}
use whatsignal.Bridge.{
  Services, Effect, to_signal, State, Conditions, BridgeError, no_group_context, not_a_group,
  add_effects,
}
use whatsignal.Bridge.Resolving.{
  SignalMessage, to_mapping, unmapped, unresolved, resolve_group, process_attachments,
}
use whatsignal.Bridge.Replies.{send_reply, set_fallback, finish_reply}

-- The key under which a group's fallback is kept.
abbrev pub group_key : Text → Text
group_key session = codes "group:" ++ session

-- The value of a missing key is empty.
abbrev pub value_of : Option Text → Text
value_of none = []
value_of (some t) = t

module _ (v : Services) where
  -- SendSignalNotificationForSession: the call that it makes, if the session has a destination
  unfoldable pub notification : Text → Text → List Effect
  unfolding get_signal_destination
  notification session message = elim (get_signal_destination session v.channels) [
    | err e ↦ []
    | ok destination ↦ to_signal destination message [] ∷ []
  ]

  abbrev pub guidance : Text
  guidance =
      codes
        "Unable to determine target group. Please quote a message from the group you want to reply to."

  unfoldable pub named_group : Text → Text → Text
  named_group chat session = elim v.group_name [
    | none ↦ chat
    | some name ↦ if is_empty (name chat session) then chat else name chat session
  ]

  unfoldable pub routing_notice : Text → Text → Text
  unfolding named_group
  routing_notice chat session =
      codes "Group message routed to: "
      ++ named_group chat session
      ++ 10 ∷ codes "Tip: Quote a message to reply to a specific group."

  -- The warning, unless the last fallback was the same group.
  unfoldable pub warn_group : Bool → Text → Text → State → State
  unfolding notification routing_notice lookup insert erase same
  warn_group used chat session s =
      let key = group_key session in
      let notices =
        if used && not (same (value_of (lookup key s.last_fallback)) chat)
        then notification session (routing_notice chat session)
        else [] in
      set_fallback v used key chat (add_effects notices s)

  unfoldable pub reply_group :
      Conditions → SignalMessage → MessageMapping → Bool → Text → State → State × Option BridgeError
  unfolding warn_group process_attachments send_reply finish_reply
  reply_group c msg m used session s =
      let attachments = process_attachments v.process_media msg.attachments in
      let (r, sent) = send_reply v c msg m attachments session in
      if is_group m.chat_id
      then finish_reply v c msg m attachments session (λ t. t) r
          (add_effects sent (warn_group used m.chat_id session s))
      else (s, some (not_a_group m.chat_id))

  abbrev pub is_context_error : BridgeError → Bool
  is_context_error (no_group_context session) = true
  is_context_error e = false

  -- handleSignalGroupMessage, in a session
  unfoldable pub handle_group :
      Conditions → SignalMessage → Text → State → State × Option BridgeError
  unfolding resolve_group reply_group notification
  handle_group c msg session s = elim (resolve_group c msg.quoted session s.mappings) [
    | unresolved e ↦
        if is_context_error e
        then (add_effects (notification session guidance) s, some e)
        else (s, some e)
    | unmapped ↦ (s, none)
    | to_mapping m used ↦ reply_group c msg m used session s
  ]
