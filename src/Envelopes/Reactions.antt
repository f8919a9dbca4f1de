-- ===== src/Envelopes/Reactions.antt =====
-- A reaction in Signal to a message that was forwarded from WhatsApp.
use whatsignal.Base.{◌≡◌, refl, ap, ◌∙◌, true, false, List, [], ◌∷◌, ◌++◌, some, if◌then◌else◌}
use whatsignal.Base.Text.{Text, codes, has_prefix}
use whatsignal.Channels.{ok, get_whatsapp_session}
use whatsignal.Mappings.{MessageMapping, find_either}
use whatsignal.Bridge.{Services, State, Conditions, SignalResponse, react}
use whatsignal.Bridge.Forwarding.{Incoming, forwarded_mapping, partial_mapping, handle_whatsapp}
use whatsignal.Bridge.Forwarded.{IsFresh, IsForwarded, handle_whatsapp-found}
use whatsignal.Bridge.Resolving.{Reaction, SignalMessage}
use whatsignal.Bridge.Handlers.{handle_reaction, handle_in_session, handle_signal}
use whatsignal.Envelopes.{DataMessage, Envelope, convert_data}

module _ (v : Services) (d : Conditions) where
  handle_signal-handle_reaction :
      (msg : SignalMessage) (r : Reaction) (session destination : Text) (s : State)
      → get_whatsapp_session destination v.channels ≡ ok session
      → has_prefix msg.sender (codes "group.") ≡ false
      → msg.reaction ≡ some r
      → handle_signal v d msg destination s ≡ handle_reaction v d r session s
  unfolding handle_signal handle_in_session
  handle_signal-handle_reaction msg r session destination s h k e =
      simp (h, k, e, handle_signal, handle_in_session)

  handle_reaction-effects :
      (r : Reaction) (session : Text) (m : MessageMapping) (s : State)
      → d.reads 1 ≡ true
      → find_either (v.decimal r.target_timestamp) s.mappings ≡ some m
      → (handle_reaction v d r session s).0.effects
        ≡ s.effects
          ++ react m.chat_id m.whatsapp_id (if r.is_remove then [] else r.emoji) session ∷ []
  unfolding handle_reaction
  handle_reaction-effects r session m s h e = rw (h, e, handle_reaction) refl

-- Reactions: once a WhatsApp message with fresh IDs was forwarded without an error and its partial
-- mapping was saved, the Signal message made of an envelope that is from no group and reacts to
-- the timestamp that is the forwarded message's Signal ID, handled for a session with the
-- database readable, makes one call: it sets the emoji on the WhatsApp message in its chat, or
-- removes it.
pub handle_signal-convert_data :
    (v : Services) (paths : List Text → List Text) (c d : Conditions) (m : Incoming)
    (attachments : List Text) (a : SignalResponse) (e : Envelope) (x : DataMessage) (r : Reaction)
    (session destination : Text) (s : State)
    → IsFresh m a s.mappings
    → IsForwarded v c m attachments a s
    → get_whatsapp_session destination v.channels ≡ ok session
    → has_prefix e.source (codes "group.") ≡ false
    → x.reaction ≡ some r
    → v.decimal r.target_timestamp ≡ a.message_id
    → d.reads 1 ≡ true
    → let s' = (handle_whatsapp v c m s).0 in
      (handle_signal v d (convert_data v.decimal paths e x) destination s').0.effects
      ≡ s'.effects ++ react m.chat_id m.msg_id (if r.is_remove then [] else r.emoji) session ∷ []
unfolding convert_data forwarded_mapping partial_mapping
handle_signal-convert_data v paths c d m attachments a e x r session destination s f w i k y t h =
    let s' = (handle_whatsapp v c m s).0 in
    let msg = convert_data v.decimal paths e x in
    let found =
      ap (λ id. find_either id s'.mappings) t ∙ handle_whatsapp-found v c m attachments a s f w in
    ap (λ u. u.0.effects) (handle_signal-handle_reaction v d msg r session destination s' i k y)
    ∙ handle_reaction-effects v d r session (forwarded_mapping c m attachments a) s' h found
