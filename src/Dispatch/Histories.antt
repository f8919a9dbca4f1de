-- ===== src/Dispatch/Histories.antt =====
-- The destination of a Signal message by the histories of the sessions.
use mathlib.Core.Option.{some-injective}
use whatsignal.Base.{
  ◌≡◌, ◌≢◌, ◌⊎◌, inl, inr, refl, sym, ap, ◌∙◌, Bool, true, false, ◌&&◌, List, [], ◌∷◌, Option, none,
  some, any, In, here, there, arith, Bool-cases,
}
use whatsignal.Base.Text.{Text, same, same_iff}
use whatsignal.Channels.{
  ChannelManager, Result, ok, err, get_signal_destination, get_whatsapp_session,
}
use whatsignal.Dispatch.{
  is_ok, own_destination, available_destination, or_else, has_history, destination_by_history,
}

-- The session's destination is d.
abbrev pub Routes : ChannelManager → Text → Text → Type 0
Routes cm s d = get_signal_destination s cm ≡ ok d

pub or_else-some :
    (o p : Option Text) {d : Text}
    → or_else o p ≡ some d
    → (o ≡ some d) ⊎ ((o ≡ none) × (p ≡ some d))
or_else-some none p h = inr (refl, h)
or_else-some (some d) p h = inl h

pub or_else-none : (o p : Option Text) → or_else o p ≡ none → (o ≡ none) × (p ≡ none)
or_else-none none p h = (refl, h)
or_else-none (some d) p h = absurd (cc h)

available_some :
    (r : Result Text) (ds : List Text) (d : Text)
    → available_destination r ds ≡ some d
    → (r ≡ ok d) × (any (same d) ds ≡ true)
available_some (err e) ds d h = absurd (cc h)
available_some (ok e) ds d h = elim (Bool-cases (any (same e) ds)) [
  | inl f ↦
      let q : e ≡ d = some-injective e d (sym (available_ok f) ∙ h) in
      (ap (λ x. ok x) q, rw (← q) f)
  | inr f ↦ absurd (ground arith)
]
  where
    available_ok : any (same e) ds ≡ true → available_destination (ok e) ds ≡ some e
    available_ok f = ground arith

pub own_destination_found :
    (sender : Text) (ds : List Text) (cm : ChannelManager) (d : Text)
    → own_destination sender ds cm ≡ some d
    → (sender ≡ d) × (any (same d) ds ≡ true)
unfolding own_destination
own_destination_found sender [] cm d h = absurd (cc h)
own_destination_found sender (e ∷ ds) cm d h =
    elim (Bool-cases (same sender e && is_ok (get_whatsapp_session e cm))) [
      | inl f ↦ ground (arith, same_iff sender e, same_iff d e)
      | inr f ↦ ground (arith, own_destination_found sender ds cm d)
    ]

own_destination_complete :
    (sender : Text) (ds : List Text) (cm : ChannelManager)
    → own_destination sender ds cm ≡ none
    → any (same sender) ds ≡ true
    → is_ok (get_whatsapp_session sender cm) ≡ false
unfolding own_destination
own_destination_complete sender [] cm h m = ground arith
own_destination_complete sender (e ∷ ds) cm h m = elim (Bool-cases (same sender e)) [
  | inl f ↦ let q : sender ≡ e = (same_iff sender e).0 f in rw q (ground arith)
  | inr f ↦ ground (arith, own_destination_complete sender ds cm)
]

module _ (history : Text → Text → Option Bool) where
  has_history-some : (o : Option Bool) → has_history o ≡ true → o ≡ some true
  has_history-some none h = ground arith
  has_history-some (some b) h = ap (λ x. some x) h

  by_history-skip :
      (sender s : Text) (ss ds : List Text) (cm : ChannelManager)
      → has_history (history s sender) ≡ false
      → destination_by_history history sender (s ∷ ss) ds cm
        ≡ destination_by_history history sender ss ds cm
  unfolding destination_by_history
  by_history-skip sender s ss ds cm e = rw (e, destination_by_history)

  by_history-take :
      (sender s : Text) (ss ds : List Text) (cm : ChannelManager)
      → has_history (history s sender) ≡ true
      → destination_by_history history sender (s ∷ ss) ds cm
        ≡ or_else
            (available_destination (get_signal_destination s cm) ds)
            (destination_by_history history sender ss ds cm)
  unfolding destination_by_history
  by_history-take sender s ss ds cm e = rw (e, destination_by_history)

  unfoldable pub Reached : Text → List Text → List Text → ChannelManager → Text → Type 0
  Reached sender ss ds cm d =
      (s : Text) × In s ss
      × (history s sender ≡ some true)
      × Routes cm s d
      × (any (same d) ds ≡ true)

  later_session :
      (sender s : Text) (ss ds : List Text) (cm : ChannelManager) (d : Text)
      → Reached sender ss ds cm d
      → Reached sender (s ∷ ss) ds cm d
  unfolding Reached
  later_session sender s ss ds cm d (t, m, e, r, a) = (t, there m, e, r, a)

  pub by_history_found :
      (sender : Text) (ss ds : List Text) (cm : ChannelManager) (d : Text)
      → destination_by_history history sender ss ds cm ≡ some d
      → Reached sender ss ds cm d
  by_history_found sender [] ds cm d h = unfold destination_by_history in absurd (cc h)
  by_history_found sender (s ∷ ss) ds cm d h = elim (Bool-cases (has_history (history s sender))) [
    | inr e ↦
        later_session sender s ss ds cm d
          (by_history_found sender ss ds cm d (sym (by_history-skip sender s ss ds cm e) ∙ h))
    | inl e ↦
        elim (or_else-some (available_destination (get_signal_destination s cm) ds)
          (destination_by_history history sender ss ds cm)
          (sym (by_history-take sender s ss ds cm e) ∙ h)) [
            | inl f ↦
                let (r, m) = available_some (get_signal_destination s cm) ds d f in
                unfold Reached in (s, here, has_history-some (history s sender) e, r, m)
            | inr (n, f) ↦ later_session sender s ss ds cm d (by_history_found sender ss ds cm d f)
          ]
  ]

  by_history_first :
      (sender s : Text) (ss ds : List Text) (cm : ChannelManager) (d : Text)
      → destination_by_history history sender (s ∷ ss) ds cm ≡ none
      → any (same d) ds ≡ true
      → Routes cm s d
      → history s sender ≢ some true
  by_history_first sender s ss ds cm d h a r e =
      let k : has_history (history s sender) ≡ true = ap has_history e in
      let (n, f) =
        or_else-none (available_destination (get_signal_destination s cm) ds)
          (destination_by_history history sender ss ds cm)
          (sym (by_history-take sender s ss ds cm k) ∙ h) in
      let is_available : available_destination (ok d) ds ≡ some d = ground arith in
      absurd (cc (sym n ∙ ap (λ x. available_destination x ds) r ∙ is_available))

  by_history_rest :
      (sender s : Text) (ss ds : List Text) (cm : ChannelManager)
      → destination_by_history history sender (s ∷ ss) ds cm ≡ none
      → destination_by_history history sender ss ds cm ≡ none
  by_history_rest sender s ss ds cm h = elim (Bool-cases (has_history (history s sender))) [
    | inr e ↦ sym (by_history-skip sender s ss ds cm e) ∙ h
    | inl e ↦
        (or_else-none (available_destination (get_signal_destination s cm) ds)
          (destination_by_history history sender ss ds cm)
          (sym (by_history-take sender s ss ds cm e) ∙ h)).1
  ]

  pub by_history_complete :
      (sender : Text) (ss ds : List Text) (cm : ChannelManager) (s d : Text)
      → destination_by_history history sender ss ds cm ≡ none
      → any (same d) ds ≡ true
      → Routes cm s d
      → In s ss
      → history s sender ≢ some true
  by_history_complete sender [] ds cm s d h a r m = elim m [ ]
  by_history_complete sender (t ∷ ss) ds cm s d h a r here =
      by_history_first sender t ss ds cm d h a r
  by_history_complete sender (t ∷ ss) ds cm s d h a r (there m) =
      by_history_complete sender ss ds cm s d (by_history_rest sender t ss ds cm h) a r m
