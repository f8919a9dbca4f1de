-- ===== src/Channels/Accepted.antt =====
-- Which configurations NewChannelManager accepts.
use whatsignal.Base.{
  ◌≡◌, ◌≢◌, ◌↔◌, refl, ap, ◌∙◌, false, List, [], ◌∷◌, ◌++◌, none, some, All, In, length, ◌==◌, here,
  there, arith,
}
use whatsignal.Base.Text.{Text, is_empty, same_iff, same_refl}
use whatsignal.Base.Dict.{lookup, insert, lookup-insert}
use whatsignal.Channels.{
  Channel, ChannelManager, ok, no_manager, add_channel, add_channels, new_channel_manager,
  require_channel, get_signal_destination, get_whatsapp_session,
}
use whatsignal.Channels.Bijection.{
  add_channels-cons, new_channel_manager-ok, get_whatsapp_session-get_signal_destination,
}

-- The session and destination of a channel are named and not in use yet.
abbrev pub Free : ChannelManager → Channel → Type 0
Free cm c =
    (is_empty c.session_name ≡ false)
    × (is_empty c.destination ≡ false)
    × (lookup c.session_name cm.channels ≡ none)
    × (lookup c.destination cm.reverse ≡ none)

abbrev pub Differs : Channel → Channel → Type 0
Differs c c' = (c.session_name ≢ c'.session_name) × (c.destination ≢ c'.destination)

abbrev pub Unique : List Channel → Type 0
Unique [] = Unit
Unique (c ∷ cs) = All (Differs c) cs × Unique cs

abbrev pub IsNamed : Channel → Type 0
IsNamed c = (is_empty c.session_name ≡ false) × (is_empty c.destination ≡ false)

added : Channel → ChannelManager → ChannelManager
added c cm = record {
  channels = insert c.session_name c.destination cm.channels;
  reverse = insert c.destination c.session_name cm.reverse;
  ordered_names = cm.ordered_names ++ c.session_name ∷ [];
}

add_channel-Free :
    (c : Channel) (cm : ChannelManager) → Free cm c → add_channel c cm ≡ ok (added c cm)
unfolding add_channel added
add_channel-Free c cm f = ground arith

Free-add_channel :
    (c : Channel) (cm : ChannelManager) {next : ChannelManager}
    → add_channel c cm ≡ ok next
    → Free cm c × (added c cm ≡ next)
unfolding add_channel added
Free-add_channel c cm h = ground arith

Free-added :
    (c c' : Channel) (cm : ChannelManager) → Free (added c cm) c' ↔ (Free cm c' × Differs c c')
unfolding added
Free-added c c' cm = ground (
  arith,
  lookup-insert c.session_name c'.session_name c.destination cm.channels,
  lookup-insert c.destination c'.destination c.session_name cm.reverse,
  same_iff c.session_name c'.session_name,
  same_iff c.destination c'.destination,
)

All-Free-added :
    (c : Channel) (cs : List Channel) (cm : ChannelManager)
    → All (Free (added c cm)) cs ↔ (All (Free cm) cs × All (Differs c) cs)
All-Free-added c [] cm = (λ _. (tt, tt), λ _. tt)
All-Free-added c (c' ∷ cs) cm =
    let one = Free-added c c' cm in
    let more = All-Free-added c cs cm in
    (
      λ h. (((one.0 h.0).0, (more.0 h.1).0), ((one.0 h.0).1, (more.0 h.1).1)),
      λ h. (one.1 (h.0.0, h.1.0), more.1 (h.0.1, h.1.1)),
    )

add_channels_complete :
    (cs : List Channel) (cm : ChannelManager)
    → All (Free cm) cs
    → Unique cs
    → (cm' : ChannelManager) × (add_channels cs cm ≡ ok cm')
add_channels_complete [] cm f u = (cm, unfold add_channels in refl)
add_channels_complete (c ∷ cs) cm (f, fs) (d, u) =
    let (cm', e) = add_channels_complete cs (added c cm) ((All-Free-added c cs cm).1 (fs, d)) u in
    (cm', add_channels_next c cs cm (add_channel-Free c cm f) ∙ e)
  where
    add_channels_next :
        (c : Channel) (cs : List Channel) (cm : ChannelManager) {next : ChannelManager}
        → add_channel c cm ≡ ok next
        → add_channels (c ∷ cs) cm ≡ add_channels cs next
    add_channels_next c cs cm e = unfold add_channels in rw (e, add_channels)

add_channels_sound :
    (cs : List Channel) (cm cm' : ChannelManager)
    → add_channels cs cm ≡ ok cm'
    → All (Free cm) cs × Unique cs
add_channels_sound [] cm cm' h = (tt, tt)
add_channels_sound (c ∷ cs) cm cm' h =
    let (next, first, rest) = add_channels-cons c cs cm h in
    let (f, e) = Free-add_channel c cm first in
    let (fs, u) = add_channels_sound cs (added c cm) cm' (rw e rest) in
    let (free, differ) = (All-Free-added c cs cm).0 fs in ((f, free), (differ, u))

-- Routes stay when channels are added.
add_channels-lookup :
    (cs : List Channel) (cm cm' : ChannelManager) (c : Channel)
    → add_channels cs cm ≡ ok cm'
    → lookup c.session_name cm.channels ≡ some c.destination
    → lookup c.session_name cm'.channels ≡ some c.destination
add_channels-lookup [] cm cm' c h e = let q : cm ≡ cm' = unfold add_channels in cc h in rw (← q) e
add_channels-lookup (b ∷ cs) cm cm' c h e =
    let (next, first, rest) = add_channels-cons b cs cm h in
    let (f, q) = Free-add_channel b cm first in
    add_channels-lookup cs next cm' c rest (rw (← q) (kept f))
  where
    kept : Free cm b → lookup c.session_name (added b cm).channels ≡ some c.destination
    kept f =
        unfold added in
        ground (
          arith,
          f,
          e,
          lookup-insert b.session_name c.session_name b.destination cm.channels,
          same_iff b.session_name c.session_name,
        )

Free-no_manager : (cs : List Channel) → All (Free no_manager) cs ↔ All IsNamed cs
Free-no_manager [] = (λ _. tt, λ _. tt)
Free-no_manager (c ∷ cs) =
    let more = Free-no_manager cs in
    (
      λ h. ((h.0.0, h.0.1), more.0 h.1),
      λ h. ((h.0.0, h.0.1, unfold lookup in refl, unfold lookup in refl), more.1 h.1),
    )

head_routed :
    (c : Channel) (cs : List Channel) (cm cm' : ChannelManager)
    → add_channels (c ∷ cs) cm ≡ ok cm'
    → lookup c.session_name cm'.channels ≡ some c.destination
head_routed c cs cm cm' h =
    let (next, first, rest) = add_channels-cons c cs cm h in
    let (f, e) = Free-add_channel c cm first in
    add_channels-lookup cs next cm' c rest (rw (← e) here_now)
  where
    here_now : lookup c.session_name (added c cm).channels ≡ some c.destination
    here_now =
        unfold added in
        lookup-insert c.session_name c.session_name c.destination cm.channels
        ∙ rw (same_refl c.session_name)

In-lookup :
    (c : Channel) (cs : List Channel) (cm cm' : ChannelManager)
    → In c cs
    → add_channels cs cm ≡ ok cm'
    → lookup c.session_name cm'.channels ≡ some c.destination
In-lookup c [] cm cm' m h = elim m [ ]
In-lookup c (b ∷ cs) cm cm' here h = head_routed b cs cm cm' h
In-lookup c (b ∷ cs) cm cm' (there m) h =
    let (next, first, rest) = add_channels-cons b cs cm h in In-lookup c cs next cm' m rest

length_of_lookup :
    (k d : Text) (m : List (Text × Text)) → lookup k m ≡ some d → (length m == 0) ≡ false
length_of_lookup k d [] h = unfold lookup in cc h
length_of_lookup k d (x ∷ m) h = ground arith

accepted :
    (c : Channel) (cs : List Channel) (cm : ChannelManager)
    → add_channels cs no_manager ≡ ok cm
    → lookup c.session_name cm.channels ≡ some c.destination
    → new_channel_manager cs ≡ ok cm
accepted c cs cm e r = opened ∙ ap require_channel e ∙ some_channel
  where
    opened : new_channel_manager cs ≡ require_channel (add_channels cs no_manager)
    opened = unfold new_channel_manager in refl

    some_channel : require_channel (ok cm) ≡ ok cm
    some_channel =
        unfold require_channel in rw (length_of_lookup c.session_name c.destination cm.channels r)

-- NewChannelManager accepts a configuration exactly when it has a channel, every channel names
-- its session and its destination, and no session and no destination stands twice.
pub new_channel_manager_iff :
    (cs : List Channel)
    → ((cm : ChannelManager) × (new_channel_manager cs ≡ ok cm))
      ↔ (All IsNamed cs × Unique cs × (cs ≢ []))
new_channel_manager_iff cs = (to cs, from cs)
  where
    to :
        (cs : List Channel)
        → (cm : ChannelManager) × (new_channel_manager cs ≡ ok cm)
        → All IsNamed cs × Unique cs × (cs ≢ [])
    to [] (cm, h) =
        let (e, ne) = new_channel_manager-ok [] h in absurd (ne (unfold add_channels in cc e))
    to (c ∷ cs) (cm, h) =
        let (e, _) = new_channel_manager-ok (c ∷ cs) h in
        let (f, u) = add_channels_sound (c ∷ cs) no_manager cm e in
        ((Free-no_manager (c ∷ cs)).0 f, u, λ q. cc)

    from :
        (cs : List Channel)
        → All IsNamed cs × Unique cs × (cs ≢ [])
        → (cm : ChannelManager) × (new_channel_manager cs ≡ ok cm)
    from [] (n, u, ne) = absurd (ne refl)
    from (c ∷ cs) (n, u, ne) =
        let (cm, e) =
          add_channels_complete (c ∷ cs) no_manager ((Free-no_manager (c ∷ cs)).1 n) u in
        (cm, accepted c (c ∷ cs) cm e (head_routed c cs no_manager cm e))

-- An accepted configuration is routed as it is written: every channel's session has the channel's
-- destination, and the destination has the session.
pub new_channel_manager-routes :
    (cs : List Channel) (cm : ChannelManager) (c : Channel)
    → new_channel_manager cs ≡ ok cm
    → In c cs
    → (get_signal_destination c.session_name cm ≡ ok c.destination)
      × (get_whatsapp_session c.destination cm ≡ ok c.session_name)
new_channel_manager-routes cs cm c h m =
    let r = In-lookup c cs no_manager cm m (new_channel_manager-ok cs h).0 in
    let there_ : get_signal_destination c.session_name cm ≡ ok c.destination =
      unfold get_signal_destination in rw (r, get_signal_destination) in
    (
      there_,
      (get_whatsapp_session-get_signal_destination cs cm c.session_name c.destination h).0 there_,
    )
