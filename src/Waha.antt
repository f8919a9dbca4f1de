-- ===== src/Waha.antt =====
-- pkg/whatsapp/client.go: the requests to WAHA through the circuit breaker, the wait for a session
-- (Waha/Sessions) and the sends (Waha/Sends). The transport, JSON and the clock are arguments: what
-- the n-th request of a client is answered, and when. Requests that reach WAHA are a log in the
-- state, the newest first, each with its answer. Headers, such as the API key, are left out.
pub mod Sessions
pub mod Sends
pub mod Waits
pub mod Working
pub mod Guarded
mod Tests
use whatsignal.Base.{
  ℕ, ◌+◌, Bool, true, false, ◌||◌, List, [], ◌∷◌, Option, none, some, ◌==◌, if◌then◌else◌,
}
use whatsignal.Base.Text.{Text, codes, same, is_empty}
use whatsignal.Breaker.{CircuitBreaker, Outcome, refused, returned, execute}

-- The payloads of the requests; a file is named by its path.
pub data Request : Type 0 where
  get_sessions get_version : Request
  restart : Text → Request
  start_typing stop_typing send_seen : Text → Text → Request
  send_text : Text → Text → Text → Text → Request
  send_media : Text → Text → Text → Text → Text → Text → Request
  react : Text → Text → Text → Request
  delete : Text → Text → Text → Request

-- The body is none if it cannot be read.
pub record Response : Type 0 where
  pub status : ℕ
  pub body : Option Text

-- What JSON decodes: the names and statuses of sessions that are texts, the message IDs in the two
-- places of an answer to a send, the ID and the error of an answer to a reaction, the error of an
-- answer, as a structure and as a map, and the tier and browser of the server.
pub record Json : Type 0 where
  pub sessions : Text → Option (List (Option Text × Option Text))
  pub message_ids : Text → Option (Text × Text)
  pub send_response : Text → Option (Text × Text)
  pub error_text : Text → Option Text
  pub error_field : Text → Option Text
  pub version : Text → Option (Text × Text)

pub record World : Type 0 where
  pub json : Json
  pub answers : ℕ → Request → Option Response
  pub before : ℕ → ℕ
  pub after : ℕ → ℕ

pub record State : Type 0 where
  pub breaker : CircuitBreaker
  pub calls : ℕ
  pub log : List (Request × Option Response)
  pub supports_video : Option Bool

pub data ClientError : Type 0 where
  request_failed unreadable undecodable not_found no_session : ClientError
  bad_status : ℕ → Text → ClientError
  permanent : Text → ClientError
  timed_out cancelled no_chat no_message : ClientError
  bad_path missing_file too_large : ClientError

abbrev pub failure : Option Response → Option ClientError
failure none = some request_failed
failure (some r) = none

abbrev pub passed_on : Outcome ClientError → Option Response → Option Response
passed_on (refused name state) r = none
passed_on (returned e) r = r

abbrev pub logged :
    Outcome ClientError
    → Request
    → Option Response
    → List (Request × Option Response)
    → List (Request × Option Response)
logged (refused name state) q r log = log
logged (returned e) q r log = (q, r) ∷ log

abbrev pub is_accepted : ℕ → Bool
is_accepted status = status == 200 || status == 201

abbrev pub body_text : Option Text → Text
body_text none = []
body_text (some t) = t

module _ (w : World) where
  -- doRequestWithCircuitBreaker: the answer, or none if the request failed or was refused
  unfoldable pub do_request : Request → State → State × Option Response
  unfolding execute
  do_request q s =
      let answer = w.answers s.calls q in
      let (breaker, outcome) =
        execute (w.before s.calls) (w.after s.calls) (failure answer) s.breaker in
      (
        record s { breaker = breaker; calls = s.calls + 1; log = logged outcome q answer s.log },
        passed_on outcome answer,
      )

  -- doGetJSON after the request: the decoded answer
  abbrev pub decoded {ℓ} : {A : Type ℓ} → (Text → Option A) → Option Response → Option A
  decoded decode none = none
  decoded decode (some r) =
      if r.status == 200 then elim r.body [ none ↦ none | some t ↦ decode t ] else none

  -- The error of doGetJSON where nothing was decoded.
  abbrev pub get_error : Option Response → ClientError
  get_error none = request_failed
  get_error (some r) =
      if r.status == 404
      then not_found
      else if r.status == 200
      then undecodable
      else bad_status r.status []

  abbrev pub json_error : Option Text → Text
  json_error none = []
  json_error (some t) = body_text (w.json.error_field t)

  -- RestartSessionByName, for a session with a name
  unfoldable pub restart_session_by_name : Text → State → State × Option ClientError
  unfolding do_request
  restart_session_by_name name s =
      let (s', r) = do_request (restart name) s in
      elim r [
        | none ↦ (s', some request_failed)
        | some r ↦ (
          s',
          if is_accepted r.status then none else some (bad_status r.status (json_error r.body)),
        )
      ]
