-- ===== src/Dispatch/Routing.antt =====
-- Where a Signal message goes.
use mathlib.Core.Option.{some-injective}
use whatsignal.Base.{
  ◌≡◌, ◌≢◌, ◌⊎◌, inl, inr, ap, Bool, true, List, [], ◌∷◌, Option, none, some, any, In, arith,
}
use whatsignal.Base.Text.{Text, same, same_iff}
use whatsignal.Channels.{ChannelManager, get_all_signal_destinations, get_all_whatsapp_sessions}
use whatsignal.Dispatch.{
  own_destination, destination_by_history, determine_destination, choose_among, choose_destination,
}
use whatsignal.Dispatch.Histories.{
  Routes, or_else-some, or_else-none, own_destination_found, Reached, by_history_found,
  by_history_complete,
}

module _ (history : Text → Text → Option Bool) where
  Reason : Text → List Text → ChannelManager → Text → Type 0
  Reason sender ds cm d =
      (any (same d) ds ≡ true)
      × ((ds ≡ d ∷ [])
          ⊎ (sender ≡ d)
          ⊎ ((s : Text) × In s (get_all_whatsapp_sessions cm)
              × (history s sender ≡ some true)
              × Routes cm s d))

  choose_among-some :
      (sender : Text) (ds : List Text) (cm : ChannelManager) (d : Text)
      → choose_among history sender ds cm ≡ some d
      → Reason sender ds cm d
  unfolding choose_among Reason determine_destination Reached
  choose_among-some sender [] cm d h = absurd (cc h)
  choose_among-some sender (e ∷ []) cm d h =
      let q : e ≡ d = some-injective e d h in
      (ground (arith, same_iff d e), inl (ap (λ x. x ∷ []) q))
  choose_among-some sender (e ∷ f ∷ ds) cm d h =
      elim (or_else-some (own_destination sender (e ∷ f ∷ ds) cm)
        (destination_by_history history sender (get_all_whatsapp_sessions cm) (e ∷ f ∷ ds) cm) h) [
          | inl k ↦
              let (q, a) = own_destination_found sender (e ∷ f ∷ ds) cm d k in (a, inr (inl q))
          | inr (n, k) ↦
              let (s, m, e', r, a) =
                by_history_found history sender (get_all_whatsapp_sessions cm) (e ∷ f ∷ ds) cm d
                  k in
              (a, inr (inr (s, m, e', r)))
        ]

  choose_among-none :
      (sender : Text) (ds : List Text) (cm : ChannelManager) (s d : Text)
      → choose_among history sender ds cm ≡ none
      → In s (get_all_whatsapp_sessions cm)
      → any (same d) ds ≡ true
      → Routes cm s d
      → history s sender ≢ some true
  unfolding choose_among determine_destination
  choose_among-none sender [] cm s d h m a r = absurd (cc a)
  choose_among-none sender (e ∷ []) cm s d h m a r = absurd (cc h)
  choose_among-none sender (e ∷ f ∷ ds) cm s d h m a r =
      by_history_complete history sender (get_all_whatsapp_sessions cm) (e ∷ f ∷ ds) cm s d
        (or_else-none (own_destination sender (e ∷ f ∷ ds) cm)
          (destination_by_history history sender (get_all_whatsapp_sessions cm) (e ∷ f ∷ ds) cm)
          h).1
        a r m

  -- Routing to a destination: a message of this sender goes to d only if d is a destination of the
  -- channel manager, and is its only one, or is the sender, or is the destination of a session that
  -- has a history with the sender.
  pub choose_destination-some :
      (sender : Text) (cm : ChannelManager) (d : Text)
      → choose_destination history sender cm ≡ some d
      → (any (same d) (get_all_signal_destinations cm) ≡ true)
        × ((get_all_signal_destinations cm ≡ d ∷ [])
            ⊎ (sender ≡ d)
            ⊎ ((s : Text) × In s (get_all_whatsapp_sessions cm)
                × (history s sender ≡ some true)
                × Routes cm s d))
  unfolding choose_destination Reason
  choose_destination-some sender cm d h =
      choose_among-some sender (get_all_signal_destinations cm) cm d h

  -- Routing to none: if a message of this sender has no destination, then no session whose
  -- destination is one of the channel manager has a history with the sender.
  pub choose_destination-none :
      (sender : Text) (cm : ChannelManager) (s d : Text)
      → choose_destination history sender cm ≡ none
      → In s (get_all_whatsapp_sessions cm)
      → any (same d) (get_all_signal_destinations cm) ≡ true
      → Routes cm s d
      → history s sender ≢ some true
  unfolding choose_destination
  choose_destination-none sender cm s d h m a r =
      choose_among-none sender (get_all_signal_destinations cm) cm s d h m a r
