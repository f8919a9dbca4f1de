-- ===== src/Bridge/AtMostOnce.antt =====
-- A WhatsApp message that comes a second time.
use whatsignal.Base.{
  ◌≡◌, ◌≢◌, refl, Bool, true, false, List, Option, none, some, ◌⊎◌, inl, inr, Bool-cases,
  Option-cases,
}
use whatsignal.Base.Text.{Text, is_empty}
use whatsignal.Channels.{ChannelError, Result, ok, err, get_signal_destination}
use whatsignal.Retry.Classifier.{Error, is_retryable_signal_error}
use whatsignal.Mappings.{MessageMapping, append_mapping, find_either}
use whatsignal.Mappings.Lookups.{
  is_mapped, find_either-is_mapped, is_mapped-append_mapping, is_mapped_later,
  is_mapped-replace_signal_id,
}
use whatsignal.Bridge.{
  Services, State, SignalResponse, Conditions, BridgeError, save_mapping, save_failed,
}
use whatsignal.Bridge.Forwarding.{
  Incoming, partial_mapping, forwarded_mapping, or_error, record_sent, finish_forward,
  media_attachments, forward, handle_whatsapp, receive_whatsapp,
}

pub Result-cases :
    (r : Result Text) → ((e : ChannelError) × (r ≡ err e)) ⊎ ((t : Text) × (r ≡ ok t))
Result-cases (err e) = inl (e, refl)
Result-cases (ok t) = inr (t, refl)

abbrev Mapped : Text → State → Type 0
Mapped id s = is_mapped id s.mappings ≡ true

save_mapping-Mapped :
    (works : Bool) (id : Text) (m : MessageMapping) (s : State) (e : BridgeError)
    → Mapped id s
    → Mapped id (or_error (save_mapping works m s) s e).0
unfolding save_mapping
save_mapping-Mapped false id m s e h = h
save_mapping-Mapped true id m s e h = elim (Bool-cases (is_empty m.session)) [
  | inl b ↦ rw b h
  | inr b ↦ rw b (is_mapped_later id m s.mappings h)
]

finish_forward-Mapped :
    (error : Option Error) (response : Option SignalResponse) (c : Conditions) (m : Incoming)
    (attachments : List Text) (s : State)
    → Mapped m.msg_id s
    → Mapped m.msg_id (finish_forward error response c m attachments s).0
unfolding finish_forward record_sent
finish_forward-Mapped (some e) response c m attachments s h =
    elim (Bool-cases (is_retryable_signal_error (some e))) [ inl b ↦ rw b h | inr b ↦ rw b h ]
finish_forward-Mapped none none c m attachments s h = h
finish_forward-Mapped none (some r) c m attachments s h = elim (Bool-cases c.updates) [
  | inl b ↦ rw (b, is_mapped-replace_signal_id m.msg_id m.msg_id r.message_id _ _ s.mappings) h
  | inr b ↦ rw b (
      save_mapping-Mapped (c.saves 2) m.msg_id (forwarded_mapping c m attachments r) s save_failed
        h)
]

-- The state once the partial mapping is saved.
pub save_mapping-partial :
    (c : Conditions) (m : Incoming) (attachments : List Text) (s : State)
    → c.saves 1 ≡ true
    → is_empty m.session ≡ false
    → save_mapping (c.saves 1) (partial_mapping c m attachments) s
      ≡ some (record s { mappings = append_mapping (partial_mapping c m attachments) s.mappings })
unfolding save_mapping partial_mapping
save_mapping-partial c m attachments s h k = rw (h, k) refl

module _ (v : Services) (c : Conditions) (m : Incoming) where
  forward-Mapped :
      (attachments : List Text) (destination : Text) (s : State)
      → c.saves 1 ≡ true
      → is_empty m.session ≡ false
      → Mapped m.msg_id (forward v c m attachments destination s).0
  unfolding forward
  forward-Mapped attachments destination s h k = rw (save_mapping-partial c m attachments s h k) (
      finish_forward-Mapped _ c.signal_response c m attachments _
        (is_mapped-append_mapping (partial_mapping c m attachments) s.mappings))

  handle_whatsapp-Mapped :
      (s : State)
      → c.saves 1 ≡ true
      → is_empty m.session ≡ false
      → ((handle_whatsapp v c m s).0.effects ≡ s.effects)
        ⊎ Mapped m.msg_id (handle_whatsapp v c m s).0
  unfolding handle_whatsapp
  handle_whatsapp-Mapped s h k = elim (Option-cases (media_attachments v m.media_path)) [
    | inl e ↦ inl (rw (e, handle_whatsapp) refl)
    | inr (attachments, e) ↦ elim (Result-cases (get_signal_destination m.session v.channels)) [
      | inl (x, f) ↦ inl (rw (e, f, handle_whatsapp) refl)
      | inr (destination, f) ↦
          inr (rw (e, f, handle_whatsapp) (forward-Mapped attachments destination s h k))
    ]
  ]

  receive_whatsapp-Mapped :
      (s : State)
      → c.saves 1 ≡ true
      → is_empty m.session ≡ false
      → ((receive_whatsapp v c m s).0.effects ≡ s.effects)
        ⊎ Mapped m.msg_id (receive_whatsapp v c m s).0
  unfolding receive_whatsapp
  receive_whatsapp-Mapped s h k = elim (Bool-cases (c.reads 1)) [
    | inl e ↦ elim (Option-cases (find_either m.msg_id s.mappings)) [
      | inl f ↦ rw (e, f, receive_whatsapp) (handle_whatsapp-Mapped s h k)
      | inr (n, f) ↦ inl (rw (e, f, receive_whatsapp) refl)
    ]
    | inr e ↦ rw (e, receive_whatsapp) (handle_whatsapp-Mapped s h k)
  ]

  receive_whatsapp_known :
      (s : State) → c.reads 1 ≡ true → Mapped m.msg_id s → receive_whatsapp v c m s ≡ (s, none)
  unfolding receive_whatsapp
  receive_whatsapp_known s h k =
      let (n, e) = find_either-is_mapped m.msg_id s.mappings k in rw (h, e, receive_whatsapp) refl

-- A WhatsApp message that comes again: if handling it made a call of a client, its session is not
-- empty and the partial mapping was saved, then handling it again, with the database readable,
-- changes nothing and reports no error, also if the first handling did.
pub receive_whatsapp-receive_whatsapp :
    (v : Services) (c d : Conditions) (m : Incoming) (s : State)
    → c.saves 1 ≡ true
    → is_empty m.session ≡ false
    → d.reads 1 ≡ true
    → (receive_whatsapp v c m s).0.effects ≢ s.effects
    → receive_whatsapp v d m (receive_whatsapp v c m s).0 ≡ ((receive_whatsapp v c m s).0, none)
receive_whatsapp-receive_whatsapp v c d m s h k r sent =
    elim (receive_whatsapp-Mapped v c m s h k) [
      | inl same_effects ↦ absurd (sent same_effects)
      | inr mapped ↦ receive_whatsapp_known v d m (receive_whatsapp v c m s).0 r mapped
    ]
