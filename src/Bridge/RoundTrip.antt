-- ===== src/Bridge/RoundTrip.antt =====
-- Replies in Signal that quote a forwarded message.
use whatsignal.Base.{
  ◌≡◌, refl, ap, ◌∙◌, ℕ, Bool, true, false, List, [], ◌++◌, none, some, arith, replicate,
  if◌then◌else◌,
}
use whatsignal.Base.Text.{Text, codes, has_prefix}
use whatsignal.Channels.{ok, get_whatsapp_session}
use whatsignal.Mappings.{MessageMapping, Table, find_either}
use whatsignal.Bridge.{
  Services, Outgoing, Effect, State, SignalResponse, Conditions, to_whatsapp, save_mapping,
  add_effects,
}
use whatsignal.Bridge.Forwarding.{Incoming, partial_mapping, forwarded_mapping, handle_whatsapp}
use whatsignal.Sending.{SendResult}
use whatsignal.Sending.Restarts.{asked}
use whatsignal.Bridge.Rounds.{
  sends_of, other_than_sends, round_calls-sends_of, round_calls-other_than_sends,
}
use whatsignal.Bridge.Resolving.{Quote, SignalMessage, to_mapping, resolve, process_attachments}
use whatsignal.Bridge.Replies.{
  outgoing, reply_target, set_fallback, restart_calls, send_reply, finish_reply, reply_direct,
  handle_direct,
}
use whatsignal.Bridge.Handlers.{handle_in_session, handle_signal}
use whatsignal.Bridge.Forwarded.{IsFresh, IsForwarded, handle_whatsapp-found}

module _ (v : Services) (d : Conditions) (msg : SignalMessage) (q : Quote) (session : Text) where
  resolve-quoted :
      (m : MessageMapping) (ms : Table)
      → d.reads 1 ≡ true
      → find_either q.id ms ≡ some m
      → resolve v d (some q) session ms ≡ to_mapping m false
  unfolding resolve
  resolve-quoted m ms h k = rw (h, k, resolve) refl

  -- A direct message that quotes, for the session.
  pub record IsReply (destination : Text) : Type 0 where
    pub in_session : get_whatsapp_session destination v.channels ≡ ok session
    pub direct : has_prefix msg.sender (codes "group.") ≡ false
    pub no_reaction : msg.reaction ≡ none
    pub no_deletion : msg.deletion ≡ none
    pub quotes : msg.quoted ≡ some q
    pub readable : d.reads 1 ≡ true

  handle_in_session-handle_direct :
      (s : State)
      → msg.reaction ≡ none
      → msg.deletion ≡ none
      → handle_in_session v d msg session s ≡ handle_direct v d msg session s
  unfolding handle_in_session
  handle_in_session-handle_direct s h k = simp (h, k, handle_in_session)

  handle_direct-reply_direct :
      (m : MessageMapping) (s : State)
      → resolve v d msg.quoted session s.mappings ≡ to_mapping m false
      → handle_direct v d msg session s ≡ reply_direct v d msg m false session s
  unfolding handle_direct
  handle_direct-reply_direct m s h = rw (h, handle_direct) refl

  handle_signal-reply_direct :
      (destination : Text) (m : MessageMapping) (s : State)
      → IsReply destination
      → find_either q.id s.mappings ≡ some m
      → handle_signal v d msg destination s ≡ reply_direct v d msg m false session s
  unfolding handle_signal
  handle_signal-reply_direct destination m s i e =
      let resolved =
        ap (λ x. resolve v d x session s.mappings) i.quotes
        ∙ resolve-quoted m s.mappings i.readable e in
      (simp (i.in_session, i.direct, handle_signal))
      ∙ handle_in_session-handle_direct s i.no_reaction i.no_deletion
      ∙ handle_direct-reply_direct m s resolved

pub finish_reply-effects :
    (v : Services) (c : Conditions) (msg : SignalMessage) (m : MessageMapping)
    (attachments : List Text) (session : Text) (mark : State → State) (r : SendResult) (s : State)
    → ((t : State) → (mark t).effects ≡ t.effects)
    → (finish_reply v c msg m attachments session mark r s).0.effects ≡ s.effects
unfolding finish_reply save_mapping
finish_reply-effects v c msg m attachments session mark r s keeps = ground (arith, keeps s)

reply_direct-effects :
    (v : Services) (d : Conditions) (msg : SignalMessage) (m : MessageMapping) (used : Bool)
    (session : Text) (s : State)
    → let files = process_attachments v.process_media msg.attachments in
      (reply_direct v d msg m used session s).0.effects
      ≡ s.effects ++ (send_reply v d msg m files session).1
unfolding reply_direct
reply_direct-effects v d msg m used session s =
    let files = process_attachments v.process_media msg.attachments in
    let sent = send_reply v d msg m files session in
    finish_reply-effects v d msg m files session (set_fallback v used session m.chat_id) sent.0
      (add_effects sent.1 s) (keeps used)
  where
    keeps :
        (used : Bool) (t : State) → (set_fallback v used session m.chat_id t).effects ≡ t.effects
    keeps true t = refl
    keeps false t = refl

-- New calls: sends of the message, and a restart of its session if one of the sends asks for it.
pub record IsSent (v : Services) (d : Conditions) (message : Outgoing) (sends : ℕ) (s t : State)
    : Type 0 where
  pub calls : List Effect
  pub grown : t.effects ≡ s.effects ++ calls
  pub sent : sends_of calls ≡ replicate sends (to_whatsapp message)
  pub others :
      other_than_sends calls
      ≡ (if asked d.sends.call sends then restart_calls v d.restarts message.session else [])

reply_direct-IsSent :
    (v : Services) (d : Conditions) (msg : SignalMessage) (m : MessageMapping) (used : Bool)
    (session : Text) (s : State)
    → let files = process_attachments v.process_media msg.attachments in
      IsSent v d
        (outgoing v m.chat_id msg.message files (reply_target msg.quoted m) session)
        (send_reply v d msg m files session).0.sends
        s
        (reply_direct v d msg m used session s).0
unfolding send_reply
reply_direct-IsSent v d msg m used session s =
    let files = process_attachments v.process_media msg.attachments in
    let message = outgoing v m.chat_id msg.message files (reply_target msg.quoted m) session in
    let r = send_reply v d msg m files session in
    record {
      calls = r.1;
      grown = reply_direct-effects v d msg m used session s;
      sent = round_calls-sends_of v d.sends.call d.restarts message r.0.sends;
      others = round_calls-other_than_sends v d.sends.call d.restarts message r.0.sends;
    }

-- A reply that quotes: once a WhatsApp message with fresh IDs was forwarded without an error and
-- its partial mapping was saved, a direct Signal message for a session that quotes the forwarded
-- one, with the database readable, sends to the chat that the WhatsApp message came from, as replies
-- to that message. The only other calls are one restart of the session, if some send failed with a
-- retryable error that asks for it, and the wait for the session if the restart works.
pub handle_signal-handle_whatsapp :
    (v : Services) (c d : Conditions) (m : Incoming) (attachments : List Text) (r : SignalResponse)
    (msg : SignalMessage) (q : Quote) (session destination : Text) (s : State)
    → IsFresh m r s.mappings
    → IsForwarded v c m attachments r s
    → IsReply v d msg q session destination
    → q.id ≡ r.message_id
    → let s' = (handle_whatsapp v c m s).0 in
      let files = process_attachments v.process_media msg.attachments in
      let sent = send_reply v d msg (forwarded_mapping c m attachments r) files session in
      IsSent v d
        (outgoing v m.chat_id msg.message files m.msg_id session)
        sent.0.sends
        s'
        (handle_signal v d msg destination s').0
unfolding forwarded_mapping partial_mapping
handle_signal-handle_whatsapp v c d m attachments r msg q session destination s f w i e =
    let s' = (handle_whatsapp v c m s).0 in
    let n = forwarded_mapping c m attachments r in
    let files = process_attachments v.process_media msg.attachments in
    let quoted_found =
      ap (λ id. find_either id s'.mappings) e ∙ handle_whatsapp-found v c m attachments r s f w in
    let handled = handle_signal-reply_direct v d msg q session destination n s' i quoted_found in
    let k = reply_direct-IsSent v d msg n false session s' in
    record {
      calls = k.calls;
      grown = ap (λ x. x.0.effects) handled ∙ k.grown;
      sent =
          k.sent
          ∙ ap
              (λ x.
                replicate (send_reply v d msg n files session).0.sends
                  (to_whatsapp (outgoing v m.chat_id msg.message files (reply_target x n) session)))
              i.quotes;
      others = k.others;
    }
