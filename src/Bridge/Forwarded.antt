-- ===== src/Bridge/Forwarded.antt =====
-- What the message table holds once a message was forwarded.
use whatsignal.Base.{
  ◌≡◌, refl, ◌∙◌, Bool, true, false, List, ◌++◌, Option, none, some, inl, inr, arith, Bool-cases,
}
use whatsignal.Base.Text.{Text, codes, same, same_refl, is_empty}
use whatsignal.Channels.{get_signal_destination}
use whatsignal.Retry.Classifier.{Error}
use whatsignal.Mappings.{MessageMapping, Table, append_mapping, replace_signal_id, find_either}
use whatsignal.Mappings.Lookups.{
  is_mapped, replace_signal_id-append_mapping, find_either-append_mapping,
}
use whatsignal.Bridge.{
  Services, State, SignalResponse, Conditions, save_mapping, save_failed, unix_seconds,
}
use whatsignal.Bridge.Forwarding.{
  Incoming, partial_mapping, forwarded_mapping, or_error, record_sent, finish_forward,
  media_attachments, forward, handle_whatsapp,
}
use whatsignal.Bridge.AtMostOnce.{save_mapping-partial, Result-cases}

-- No mapping knows the message or its Signal ID, and the IDs differ.
pub record IsFresh (m : Incoming) (r : SignalResponse) (ms : Table) : Type 0 where
  pub not_mapped : is_mapped m.msg_id ms ≡ false
  pub not_found : find_either r.message_id ms ≡ none
  pub other_id : same m.msg_id r.message_id ≡ false
  pub not_pending : same (codes "pending:" ++ m.msg_id) r.message_id ≡ false

module _ (c : Conditions) (m : Incoming) (attachments : List Text) (r : SignalResponse) where
  abbrev saved_table : Table → Table
  saved_table ms = append_mapping (partial_mapping c m attachments) ms

  forwarded-found :
      (ms : Table)
      → find_either r.message_id ms ≡ none
      → same m.msg_id r.message_id ≡ false
      → find_either r.message_id (append_mapping (forwarded_mapping c m attachments r) ms)
        ≡ some (forwarded_mapping c m attachments r)
  unfolding forwarded_mapping partial_mapping
  forwarded-found ms h k =
      find_either-append_mapping r.message_id (forwarded_mapping c m attachments r) ms h k
      ∙ rw (same_refl r.message_id) refl

  replace_signal_id-saved :
      (ms : Table)
      → is_mapped m.msg_id ms ≡ false
      → replace_signal_id m.msg_id r.message_id
          (unix_seconds r.timestamp)
          (codes "delivered")
          (saved_table ms)
        ≡ append_mapping (forwarded_mapping c m attachments r) ms
  unfolding forwarded_mapping partial_mapping
  replace_signal_id-saved ms h =
      replace_signal_id-append_mapping (partial_mapping c m attachments) r.message_id
        (codes "delivered") (unix_seconds r.timestamp) ms h

  record_sent-updated :
      (s : State)
      → c.updates ≡ true
      → (record_sent c m attachments r s).0.mappings
        ≡ replace_signal_id m.msg_id r.message_id
            (unix_seconds r.timestamp)
            (codes "delivered")
            s.mappings
  unfolding record_sent
  record_sent-updated s h = rw h refl

  saved-mappings :
      (works : Bool) (n : MessageMapping) (s : State)
      → (or_error (save_mapping works n s) s save_failed).1 ≡ none
      → (or_error (save_mapping works n s) s save_failed).0.mappings ≡ append_mapping n s.mappings
  unfolding save_mapping
  saved-mappings works n s h = ground (arith, h)

  record_sent-saved :
      (s : State)
      → c.updates ≡ false
      → (record_sent c m attachments r s).1 ≡ none
      → (record_sent c m attachments r s).0.mappings
        ≡ append_mapping (forwarded_mapping c m attachments r) s.mappings
  unfolding record_sent
  record_sent-saved s e =
      rw e λ h. saved-mappings (c.saves 2) (forwarded_mapping c m attachments r) s h

  saved_table-unfound :
      (ms : Table) → IsFresh m r ms → find_either r.message_id (saved_table ms) ≡ none
  unfolding partial_mapping
  saved_table-unfound ms f =
      find_either-append_mapping r.message_id (partial_mapping c m attachments) ms f.not_found
        f.other_id
      ∙ rw f.not_pending refl

  record_sent-found :
      (s : State) (ms : Table)
      → IsFresh m r ms
      → s.mappings ≡ saved_table ms
      → (record_sent c m attachments r s).1 ≡ none
      → find_either r.message_id (record_sent c m attachments r s).0.mappings
        ≡ some (forwarded_mapping c m attachments r)
  record_sent-found s ms f k h = elim (Bool-cases c.updates) [
    | inl e ↦
        rw (record_sent-updated s e, k, replace_signal_id-saved ms f.not_mapped)
          (forwarded-found ms f.not_found f.other_id)
    | inr e ↦
        rw (record_sent-saved s e h, k)
          (forwarded-found (saved_table ms) (saved_table-unfound ms f) f.other_id)
  ]

  finish_forward-found :
      (error : Option Error) (s : State) (ms : Table)
      → IsFresh m r ms
      → s.mappings ≡ saved_table ms
      → (finish_forward error (some r) c m attachments s).1 ≡ none
      → find_either r.message_id (finish_forward error (some r) c m attachments s).0.mappings
        ≡ some (forwarded_mapping c m attachments r)
  unfolding finish_forward
  finish_forward-found (some e) s ms f k h = absurd (ground (arith, h))
  finish_forward-found none s ms f k h = record_sent-found s ms f k h

  finish_forward-answered :
      (error : Option Error) (response : Option SignalResponse) (s : State) (ms : Table)
      → response ≡ some r
      → IsFresh m r ms
      → s.mappings ≡ saved_table ms
      → (finish_forward error response c m attachments s).1 ≡ none
      → find_either r.message_id (finish_forward error response c m attachments s).0.mappings
        ≡ some (forwarded_mapping c m attachments r)
  finish_forward-answered error response s ms e f k = rw e (finish_forward-found error s ms f k)

module _ (v : Services) (c : Conditions) (m : Incoming) (attachments : List Text)
    (r : SignalResponse) where
  -- The message was forwarded, and no error is reported.
  pub record IsForwarded (s : State) : Type 0 where
    pub saved : c.saves 1 ≡ true
    pub has_session : is_empty m.session ≡ false
    pub answered : c.signal_response ≡ some r
    pub media : media_attachments v m.media_path ≡ some attachments
    pub no_error : (handle_whatsapp v c m s).1 ≡ none

  forward-found :
      (s : State) (destination : Text)
      → IsFresh m r s.mappings
      → c.saves 1 ≡ true
      → is_empty m.session ≡ false
      → c.signal_response ≡ some r
      → (forward v c m attachments destination s).1 ≡ none
      → find_either r.message_id (forward v c m attachments destination s).0.mappings
        ≡ some (forwarded_mapping c m attachments r)
  unfolding forward
  forward-found s destination f h k e =
      rw (save_mapping-partial c m attachments s h k)
        (finish_forward-answered c m attachments r _ c.signal_response _ s.mappings e f refl)

  found_unless_failed :
      (s : State)
      → IsFresh m r s.mappings
      → IsForwarded s
      → (handle_whatsapp v c m s).1 ≡ none
      → find_either r.message_id (handle_whatsapp v c m s).0.mappings
        ≡ some (forwarded_mapping c m attachments r)
  unfolding handle_whatsapp
  found_unless_failed s f w = elim (Result-cases (get_signal_destination m.session v.channels)) [
    | inl (x, e) ↦ rw (w.media, e, handle_whatsapp) λ h. absurd (ground (arith, h))
    | inr (destination, e) ↦
        rw (w.media, e, handle_whatsapp)
          (forward-found s destination f w.saved w.has_session w.answered)
  ]

  pub handle_whatsapp-found :
      (s : State)
      → IsFresh m r s.mappings
      → IsForwarded s
      → find_either r.message_id (handle_whatsapp v c m s).0.mappings
        ≡ some (forwarded_mapping c m attachments r)
  handle_whatsapp-found s f w = found_unless_failed s f w w.no_error
