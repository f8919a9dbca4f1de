-- ===== src/Bridge/Groups.antt =====
-- What handling a message for a Signal group calls.
use whatsignal.Base.{◌≡◌, Bool, true, false, ◌&&◌, List, ◌++◌, all, if◌then◌else◌}
use whatsignal.Base.Text.{Text, same, is_empty}
use whatsignal.Channels.{Result, ok, err, get_signal_destination}
use whatsignal.Mappings.{is_group}
use whatsignal.Bridge.{
  Services, Effect, to_signal, to_whatsapp, react, delete_message, ack, restart, wait_ready, State,
}

-- New calls, all of which pass the test.
abbrev Adds : (Effect → Bool) → State → State → Type 0
Adds p s t = (es : List Effect) × (t.effects ≡ s.effects ++ es) × (all p es ≡ true)

abbrev leads_to : Result Text → Text → Bool
leads_to (err e) d = false
leads_to (ok t) d = same t d

module _ (v : Services) (session : Text) where
  -- A notification to the session's own destination, a message to a group in the session, or a
  -- restart of the session or a wait for it.
  unfoldable pub is_group_call : Effect → Bool
  unfolding get_signal_destination same
  is_group_call (to_signal d message attachments) =
      leads_to (get_signal_destination session v.channels) d
  is_group_call (to_whatsapp o) = same o.session session && is_group o.chat_id
  is_group_call (react chat id emoji s) = false
  is_group_call (delete_message chat id) = false
  is_group_call (ack chat s) = false
  is_group_call (restart s) = same s (if is_empty session then v.default_session else session)
  is_group_call (wait_ready s) = same s (if is_empty session then v.default_session else session)
