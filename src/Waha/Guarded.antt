-- ===== src/Waha/Guarded.antt =====
-- Sends wait for a working session.
use mathlib.Core.List.{append_assoc}
use whatsignal.Base.{
  ℕ, ◌+◌, ◌≤◌, ◌≡◌, ◌⊎◌, refl, sym, ap, ◌∙◌, Bool, true, false, [], ◌∷◌, ◌++◌, Option, none, some,
  all, length, length-append, ltb, arith, inl, inr, if◌then◌else◌,
}
use whatsignal.Base.Text.{Text}
use whatsignal.Paths.{FilePaths, validate_file_path}
use whatsignal.Waha.{
  Request, send_text, send_media, react, start_typing, stop_typing, get_version, World, State,
  do_request,
}
use whatsignal.Waha.Sessions.{Rounds, Waited, ready, failed, unfinished, validate_session_status}
use whatsignal.Waha.Sends.{
  Sent, MediaKind, image, file, voice, video, endpoint, or_own, send_request, when_ready, typed,
  send_text_with_session, check_video_support, sent_kind, send_file, send_media_with_session,
  send_reaction_with_session,
}
use whatsignal.Waha.Working.{
  Log, is_poll, do_request-log, answers_working, IsChecked, validate_session_status-IsChecked,
}

-- At most so many requests were added.
pub record Adds (k : ℕ) (s t : State) : Type 0 where
  pub sends : Log
  pub grown : t.log ≡ sends ++ s.log
  pub few : length sends ≤ k

Adds-none : (k : ℕ) (s : State) → Adds k s s
Adds-none k s = record { sends = []; grown = refl; few = omega arith }

Adds-trans : (a b : ℕ) (s t u : State) → Adds a s t → Adds b t u → Adds (a + b) s u
Adds-trans a b s t u x y = record {
  sends = y.sends ++ x.sends;
  grown = y.grown ∙ ap (λ l. y.sends ++ l) x.grown ∙ sym (append_assoc y.sends x.sends s.log);
  few = omega (arith, length-append {0} y.sends x.sends, x.few, y.few);
}

-- The polls before a send, and the requests of the send, if an answer said that the session works.
pub record IsGuarded (w : World) (name : Text) (k : ℕ) (s t : State) : Type 0 where
  pub polls : Log
  pub sends : Log
  pub grown : t.log ≡ sends ++ (polls ++ s.log)
  pub only_polls : all is_poll polls ≡ true
  pub few : length sends ≤ k
  pub guarded : (sends ≡ []) ⊎ (answers_working w name polls ≡ true)

module _ (w : World) where
  do_request-Adds : (q : Request) (s : State) → Adds 1 s (do_request w q s).0
  do_request-Adds q s = elim (do_request-log w q s) [
    | inl (e, n) ↦ record { sends = []; grown = e; few = omega arith }
    | inr e ↦ record { sends = (q, (do_request w q s).1) ∷ []; grown = e; few = omega arith }
  ]

  send_request-Adds : (q : Request) (s : State) → Adds 1 s (send_request w q s).0
  unfolding send_request
  send_request-Adds q s = do_request-Adds q s

  typed-Adds :
      (chat session : Text) (q : Request) (s : State) → Adds 3 s (typed w chat session q s).0
  unfolding typed
  typed-Adds chat session q s =
      let s1 = (do_request w (start_typing chat session) s).0 in
      let s2 = (send_request w q s1).0 in
      let s3 = (do_request w (stop_typing chat session) s2).0 in
      Adds-trans 2 1 s s2 s3
        (Adds-trans 1 1 s s1 s2 (do_request-Adds (start_typing chat session) s)
          (send_request-Adds q s1))
        (do_request-Adds (stop_typing chat session) s2)

  option-Adds {ℓ} :
      {A : Type ℓ} {B : Type 0} (k : ℕ) (s : State) (o : Option A) (x : State × B)
      (y : A → State × B)
      → Adds k s x.0
      → ((a : A) → Adds k s (y a).0)
      → Adds k s (elim o as (λ z. State × B) [ none ↦ x | some a ↦ y a ]).0
  option-Adds k s none x y hx hy = hx
  option-Adds k s (some a) x y hx hy = hy a

  if-Adds :
      (k : ℕ) (s : State) (b : Bool) (x y : State × Sent)
      → Adds k s x.0
      → Adds k s y.0
      → Adds k s (if b then x else y).0
  if-Adds k s true x y hx hy = hx
  if-Adds k s false x y hx hy = hy

  video_support-Adds : (s : State) → Adds 1 s (check_video_support w s).0
  unfolding check_video_support
  video_support-Adds s =
      let x = do_request-Adds get_version s in
      option-Adds 1 s s.supports_video _ _
        (record { sends = x.sends; grown = x.grown; few = x.few }) (λ b. Adds-none 1 s)

  sent_kind-Adds : (kind : MediaKind) (s : State) → Adds 1 s (sent_kind w kind s).0
  unfolding sent_kind
  sent_kind-Adds image s = Adds-none 1 s
  sent_kind-Adds file s = Adds-none 1 s
  sent_kind-Adds voice s = Adds-none 1 s
  sent_kind-Adds video s = video_support-Adds s

  send_file-Adds :
      (paths : FilePaths) (size : Text → Option ℕ) (chat path caption : Text) (kind : MediaKind)
      (reply_to session : Text) (s : State)
      → Adds 2 s (send_file w paths size chat path caption kind reply_to session s).0
  unfolding send_file
  send_file-Adds paths size chat path caption kind reply_to session s =
      let k = sent_kind w kind s in
      let q = send_media (endpoint k.1) chat path caption reply_to session in
      option-Adds 2 s (validate_file_path paths path) _ _
        (option-Adds 2 s (size path) _ _ (Adds-none 2 s) (λ n.
          if-Adds 2 s (ltb 52428800 n) _ _ (Adds-none 2 s) (
            Adds-trans 1 1 s k.0 (send_request w q k.0).0 (sent_kind-Adds kind s)
              (send_request-Adds q k.0))))
        (λ e. Adds-none 2 s)

  when_ready-IsGuarded :
      (name : Text) (k : ℕ) (s : State) (out : State × Waited) (send : State → State × Sent)
      → IsChecked w name s out
      → ((t : State) → Adds k t (send t).0)
      → IsGuarded w name k s (when_ready w out send).0
  unfolding when_ready
  when_ready-IsGuarded name k s (t, ready) send c a =
      let x = a t in
      record {
        polls = c.polls;
        sends = x.sends;
        grown = x.grown ∙ ap (λ l. x.sends ++ l) c.grown;
        only_polls = c.only_polls;
        few = x.few;
        guarded = inr (c.working refl);
      }
  when_ready-IsGuarded name k s (t, failed e) send c a = record {
    polls = c.polls;
    sends = [];
    grown = c.grown;
    only_polls = c.only_polls;
    few = omega arith;
    guarded = inl refl;
  }
  when_ready-IsGuarded name k s (t, unfinished) send c a = record {
    polls = c.polls;
    sends = [];
    grown = c.grown;
    only_polls = c.only_polls;
    few = omega arith;
    guarded = inl refl;
  }

-- Sends are guarded: a text, a file and a reaction make only requests for the sessions at first, and
-- no more unless one of these was answered with the session as WORKING; then at most three requests
-- for a text, two for a file and one for a reaction.
pub send_with_session-IsGuarded :
    (w : World) (rs : Rounds) (paths : FilePaths) (size : Text → Option ℕ) (kind : MediaKind)
    (own chat body caption reply_to session : Text) (s : State)
    → IsGuarded w
        (or_own own session)
        3
        s
        (send_text_with_session w rs own chat body reply_to session s).0
      × IsGuarded w
          (or_own own session)
          2
          s
          (send_media_with_session w rs paths size own chat body caption kind reply_to session s).0
      × IsGuarded w
          (or_own own session)
          1
          s
          (send_reaction_with_session w rs own chat body session s).0
unfolding send_text_with_session send_media_with_session send_reaction_with_session
send_with_session-IsGuarded w rs paths size kind own chat body caption reply_to session s =
    let name = or_own own session in
    let out = validate_session_status w name rs s in
    let checked = validate_session_status-IsChecked w name rs s in
    (
      when_ready-IsGuarded w name 3 s out _ checked
          (typed-Adds w chat session (send_text chat body reply_to session)),
      when_ready-IsGuarded w name 2 s out _ checked
          (send_file-Adds w paths size chat body caption kind reply_to session),
      when_ready-IsGuarded w name 1 s out _ checked
          (λ t. do_request-Adds w (react session chat body) t),
    )
