-- ===== src/Server/Hooks.antt =====
-- handleWhatsAppWebhook of cmd/whatsignal/server.go: authentication, replays, and the events.
use whatsignal.Base.{
  ℕ, ◌+◌, ◌*◌, Bool, false, not, ◌&&◌, ◌||◌, Option, none, some, ltb, if◌then◌else◌,
}
use whatsignal.Base.Text.{Text, codes, same, is_empty}
use whatsignal.Webhook.{
  Request, ok, err, WebhookError, read_failed, secret_required, missing_signature,
  missing_timestamp, invalid_timestamp, out_of_range, signature_mismatch, invalid_format,
  ReplayCache, waha_header, timestamp_header, verify, check_and_store,
}
use whatsignal.Bridge.{Services, State, Conditions}
use whatsignal.Server.{
  Payload, Library, EventError, invalid, failed, Status, ok_200, bad_request_400, unauthorized_401,
  conflict_409, too_large_413, internal_error_500, Server,
}
use whatsignal.Server.Events.{
  handle_message, handle_wa_reaction, handle_edited, handle_ack, handle_waiting,
}

-- What the configuration says of webhooks, and what a request meets: the clock in nanoseconds, and
-- whether the body is over the limit. The skew is the configured one, or 120 seconds for 0.
pub record Hook : Type 0 where
  pub secret : Text
  pub secure : Bool
  pub max_skew_sec : ℕ
  pub now : ℕ
  pub too_large : Bool

abbrev pub max_skew : ℕ → ℕ
max_skew sec = (if ltb 0 sec then sec else 120) * 1_000_000_000

abbrev pub replay_ttl : ℕ → ℕ
replay_ttl sec = max_skew sec + 30 * 1_000_000_000

abbrev pub status_of : Option EventError → Status
status_of none = ok_200
status_of (some invalid) = bad_request_400
status_of (some failed) = internal_error_500

abbrev pub refusal : WebhookError → Bool → Status
refusal read_failed too_large = if too_large then too_large_413 else unauthorized_401
refusal secret_required too_large = unauthorized_401
refusal missing_signature too_large = unauthorized_401
refusal missing_timestamp too_large = unauthorized_401
refusal invalid_timestamp too_large = unauthorized_401
refusal out_of_range too_large = unauthorized_401
refusal signature_mismatch too_large = unauthorized_401
refusal invalid_format too_large = unauthorized_401

-- The events of one's own messages that are handled.
abbrev pub is_own_event : Text → Bool
is_own_event event = same event (codes "message.ack") || same event (codes "message.waiting")

module _ (v : Services) (l : Library) where
  -- The switch over the events; none for an event that is skipped.
  unfoldable pub handle_event : Conditions → Payload → State → State × Option EventError
  unfolding same handle_message handle_wa_reaction handle_edited handle_ack handle_waiting
  handle_event c p s =
      if same p.event (codes "message")
      then handle_message v l c p s
      else if same p.event (codes "message.reaction")
      then handle_wa_reaction v c p s
      else if same p.event (codes "message.edited")
      then handle_edited v c p s
      else if same p.event (codes "message.ack")
      then handle_ack l c p s
      else if same p.event (codes "message.waiting")
      then handle_waiting v c p s
      else (s, none)

  -- From the decoded payload on.
  unfoldable pub handle_payload : Conditions → Option Payload → State → State × Status
  unfolding same handle_event
  handle_payload c none s = (s, bad_request_400)
  handle_payload c (some p) s =
      if p.from_me && not (is_own_event p.event)
      then (s, ok_200)
      else let (s', e) = handle_event c p s in (s', status_of e)

  -- The replay cache, which is asked when the request has a timestamp: its new state, and whether
  -- the request is a replay.
  unfoldable pub check_replay : Hook → Text → Text → ReplayCache → ReplayCache × Bool
  unfolding check_and_store
  check_replay h timestamp body cache =
      if is_empty timestamp
      then (cache, false)
      else check_and_store l.sha256 h.now (replay_ttl h.max_skew_sec) body timestamp cache

  -- From the verified body on.
  unfoldable pub handle_body : Hook → Conditions → Text → Text → Server → Server × Status
  unfolding check_replay handle_payload
  handle_body h c timestamp body s =
      let (cache, replayed) = check_replay h timestamp body s.replay in
      let (bridge, status) = handle_payload c (l.decode body) s.bridge in
      if replayed
      then (record s { replay = cache }, conflict_409)
      else (record { bridge = bridge; replay = cache }, status)

  -- handleWhatsAppWebhook
  unfoldable pub handle_webhook : Hook → Conditions → Request → Server → Server × Status
  unfolding verify handle_body
  handle_webhook h c r s =
      elim (verify l.hmac_sha256 l.hmac_sha512 h.now (max_skew h.max_skew_sec) h.secure h.secret
        waha_header r) [
          | err e ↦ (s, refusal e h.too_large)
          | ok body ↦ handle_body h c (r.header timestamp_header) body s
        ]
