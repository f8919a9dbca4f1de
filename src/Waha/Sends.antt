-- ===== src/Waha/Sends.antt =====
-- The sends of pkg/whatsapp/client.go.
use whatsignal.Base.{ℕ, Bool, false, ◌&&◌, ◌||◌, [], Option, none, some, ltb, ◌==◌, if◌then◌else◌}
use whatsignal.Base.Text.{Text, codes, same, is_empty, contains}
use whatsignal.Paths.{FilePaths, validate_file_path}
use whatsignal.Waha.{
  Request, get_version, start_typing, stop_typing, send_seen, send_text, send_media, react, delete,
  Response, World, State, ClientError, request_failed, unreadable, undecodable, bad_status, no_chat,
  no_message, bad_path, missing_file, too_large, do_request, decoded, is_accepted, body_text,
  json_error,
}
use whatsignal.Waha.Sessions.{Rounds, Waited, ready, failed, unfinished, validate_session_status}

-- SendMessageResponse: sent, with its ID, which may be empty, or an error. The last says that the
-- rounds of a wait ran out.
pub data Sent : Type 0 where
  sent : Text → Sent
  not_sent : ClientError → Sent
  unfinished_wait : Sent

pub data MediaKind : Type 0 where
  image file voice video : MediaKind

-- The endpoint of a kind.
abbrev pub endpoint : MediaKind → Text
endpoint image = codes "/api/sendImage"
endpoint file = codes "/api/sendFile"
endpoint voice = codes "/api/sendVoice"
endpoint video = codes "/api/sendVideo"

abbrev pub error_or : Text → Option Text → Text
error_or body none = body
error_or body (some e) = if is_empty e then body else e

-- The first of the two IDs that is there.
abbrev pub chosen_id : Option (Text × Text) → Text
chosen_id none = []
chosen_id (some (id, data_id)) = if is_empty id then data_id else id

-- The session to wait for: that of the client where none is given.
abbrev pub or_own : Text → Text → Text
or_own own session = if is_empty session then own else session

module _ (w : World) where
  -- sendRequest after the request
  unfoldable pub read_answer : Option Response → Sent
  read_answer none = not_sent request_failed
  read_answer (some r) = elim r.body [
    | none ↦ not_sent unreadable
    | some body ↦
        if is_accepted r.status
        then (if is_empty body then sent [] else sent (chosen_id (w.json.message_ids body)))
        else not_sent (bad_status r.status (error_or body (w.json.error_text body)))
  ]

  -- sendRequest
  unfoldable pub send_request : Request → State → State × Sent
  unfolding do_request read_answer
  send_request q s = let (s', r) = do_request w q s in (s', read_answer r)

  -- The sends wait until the session is ready, but not in test mode.
  unfoldable pub when_ready : State × Waited → (State → State × Sent) → State × Sent
  when_ready (s, ready) send = send s
  when_ready (s, failed e) send = (s, not_sent e)
  when_ready (s, unfinished) send = (s, unfinished_wait)

  -- The typing notices around a text, whose answers are not looked at.
  unfoldable pub typed : Text → Text → Request → State → State × Sent
  unfolding send_request do_request
  typed chat session q s =
      let (s1, _) = do_request w (start_typing chat session) s in
      let (s2, answer) = send_request q s1 in
      let (s3, _) = do_request w (stop_typing chat session) s2 in (s3, answer)

  -- SendTextWithSession, outside test mode; `own` is the session of the client
  unfoldable pub send_text_with_session :
      Rounds → Text → Text → Text → Text → Text → State → State × Sent
  unfolding validate_session_status when_ready typed
  send_text_with_session rs own chat text reply_to session s =
      when_ready (validate_session_status w (or_own own session) rs s)
        (typed chat session (send_text chat text reply_to session))

  -- checkVideoSupport, whose answer is kept
  unfoldable pub check_video_support : State → State × Bool
  unfolding do_request contains same
  check_video_support s = elim s.supports_video [
    | some b ↦ (s, b)
    | none ↦
        let (s', r) = do_request w get_version s in
        let b = has_video (decoded w w.json.version r) in (record s' { supports_video = some b }, b)
  ]
    where
      has_video : Option (Text × Text) → Bool
      has_video none = false
      has_video (some (tier, browser)) =
          same tier (codes "PLUS") && contains browser (codes "google-chrome")

  -- The kind under which a video is sent.
  unfoldable pub sent_kind : MediaKind → State → State × MediaKind
  unfolding check_video_support
  sent_kind video s = let (s', b) = check_video_support s in (s', if b then video else file)
  sent_kind image s = (s, image)
  sent_kind voice s = (s, voice)
  sent_kind file s = (s, file)

  -- SendMediaWithSession once the session is ready; `size` is that of the file, if it is there.
  -- Files up to MaxRecommendedFileSizeBytes can be read.
  unfoldable pub send_file :
      FilePaths
      → (Text → Option ℕ)
      → Text
      → Text
      → Text
      → MediaKind
      → Text
      → Text
      → State
      → State × Sent
  unfolding validate_file_path sent_kind send_request
  send_file paths size chat path caption kind reply_to session s =
      elim (validate_file_path paths path) [
        | some e ↦ (s, not_sent bad_path)
        | none ↦ elim (size path) [
          | none ↦ (s, not_sent missing_file)
          | some n ↦
              if ltb 52428800 n
              then (s, not_sent too_large)
              else let (s', k) = sent_kind kind s in
                send_request (send_media (endpoint k) chat path caption reply_to session) s'
        ]
      ]

  -- SendMediaWithSession, outside test mode
  unfoldable pub send_media_with_session :
      Rounds
      → FilePaths
      → (Text → Option ℕ)
      → Text
      → Text
      → Text
      → Text
      → MediaKind
      → Text
      → Text
      → State
      → State × Sent
  unfolding validate_session_status when_ready send_file
  send_media_with_session rs paths size own chat path caption kind reply_to session s =
      when_ready (validate_session_status w (or_own own session) rs s)
        (send_file paths size chat path caption kind reply_to session)

  -- sendReactionRequest after the request: an empty answer is a success, any other must decode.
  unfoldable pub read_reaction : Option Response → Sent
  read_reaction none = not_sent request_failed
  read_reaction (some r) =
      if is_accepted r.status
      then elim r.body [
        | none ↦ not_sent unreadable
        | some body ↦ if is_empty body then sent [] else elim (w.json.send_response body) [
          | none ↦ not_sent undecodable
          | some (id, error) ↦ sent id
        ]
      ]
      else not_sent (bad_status r.status (reaction_error (w.json.send_response (body_text r.body))))
    where
      reaction_error : Option (Text × Text) → Text
      reaction_error none = []
      reaction_error (some (id, error)) = error

  -- SendReactionWithSession, outside test mode
  unfoldable pub send_reaction_with_session :
      Rounds → Text → Text → Text → Text → State → State × Sent
  unfolding validate_session_status when_ready do_request read_reaction
  send_reaction_with_session rs own message_id reaction session s =
      when_ready (validate_session_status w (or_own own session) rs s) (λ s'.
        let (t, r) = do_request w (react session message_id reaction) s' in (t, read_reaction r))

  -- DeleteMessage, in the client's own session
  unfoldable pub delete_message : Text → Text → Text → State → State × Option ClientError
  unfolding do_request
  delete_message own_session chat message_id s =
      if is_empty chat
      then (s, some no_chat)
      else if is_empty message_id
      then (s, some no_message)
      else let (s', r) = do_request w (delete own_session chat message_id) s in
        (
          s',
          elim r [
            | none ↦ some request_failed
            | some a ↦
                if a.status == 200 || a.status == 204
                then none
                else some (bad_status a.status (json_error w a.body))
          ],
        )

  -- AckMessage
  unfoldable pub ack_message : Text → Text → State → State × Sent
  unfolding send_request
  ack_message chat session s = send_request (send_seen chat session) s
