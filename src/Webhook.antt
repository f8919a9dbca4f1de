-- ===== src/Webhook.antt =====
-- The webhook checks of cmd/whatsignal/security.go: verifySignatureWithSkew, the replay cache, and
-- the admin token. The keyed hashes and SHA-256, with hex.EncodeToString after them, are
-- parameters; hmac.Equal is equality of the bytes. Times and durations are nanoseconds, the clock
-- is an argument. A missing header is the empty text, as Header.Get returns it.
pub mod Fields
pub mod Fresh
pub mod Scheme
pub mod Signature
pub mod Replay
pub mod Admin
mod Tests
use whatsignal.Base.{
  ℕ, ◌+◌, ◌-◌, ◌*◌, Bool, true, false, not, ◌&&◌, ◌||◌, List, [], ◌∷◌, ◌++◌, Option, none, some,
  ltb, leb, ◌==◌, if◌then◌else◌,
}
use whatsignal.Base.Text.{Text, codes, same, is_empty, to_lower, has_prefix, trim_prefix}
use whatsignal.Base.Dict.{lookup, insert}

-- An int64 by its sign; `minus 0` is 0.
pub data Int64 : Type 0 where
  plus minus : ℕ → Int64

pub data WebhookError : Type 0 where
  read_failed secret_required missing_signature missing_timestamp invalid_timestamp out_of_range
        signature_mismatch invalid_format :
      WebhookError

pub data Verified : Type 0 where
  ok : Text → Verified
  err : WebhookError → Verified

-- The body, or none when reading it fails, and Header.Get.
pub record Request : Type 0 where
  pub body : Option Text
  pub header : Text → Text

abbrev pub is_digit : ℕ → Bool
is_digit c = leb b'0' c && leb c b'9'

-- The number that a text of decimal digits spells, on from n.
unfoldable pub parse_digits : ℕ → Text → Option ℕ
parse_digits n [] = some n
parse_digits n (c ∷ cs) = if is_digit c then parse_digits (10 * n + (c - b'0')) cs else none

-- The range of int64, and the sign.
abbrev pub in_range : ℕ → Option ℕ → (ℕ → Int64) → Option Int64
in_range max none sign = none
in_range max (some n) sign = if leb n max then some (sign n) else none

abbrev pub parse_unsigned : ℕ → Text → (ℕ → Int64) → Option Int64
parse_unsigned max [] sign = none
parse_unsigned max (c ∷ cs) sign = in_range max (parse_digits 0 (c ∷ cs)) sign

-- strconv.ParseInt(s, 10, 64)
unfoldable pub parse_int : Text → Option Int64
parse_int [] = none
parse_int (c ∷ cs) =
    if c == b'+'
    then parse_unsigned 9_223_372_036_854_775_807 cs plus
    else if c == b'-'
    then parse_unsigned 9_223_372_036_854_775_808 cs minus
    else parse_unsigned 9_223_372_036_854_775_807 (c ∷ cs) plus

-- eventTime, of ts milliseconds, is before now - max_skew or after now + max_skew.
unfoldable pub out_of_skew : ℕ → ℕ → Int64 → Bool
out_of_skew now max_skew (plus ts) =
    ltb (ts * 1_000_000 + max_skew) now || ltb (now + max_skew) (ts * 1_000_000)
out_of_skew now max_skew (minus ts) = ltb max_skew (now + ts * 1_000_000)

abbrev pub cons_left : ℕ → Option (Text × Text) → Option (Text × Text)
cons_left c none = none
cons_left c (some (before, after)) = some (c ∷ before, after)

-- strings.SplitN(s, sep, 2), which has two parts if sep occurs
unfoldable pub split_once : ℕ → Text → Option (Text × Text)
split_once sep [] = none
split_once sep (c ∷ cs) = if c == sep then some ([], cs) else cons_left c (split_once sep cs)

abbrev pub waha_header : Text
waha_header = codes "X-Webhook-Hmac"

abbrev pub timestamp_header : Text
timestamp_header = codes "X-Webhook-Timestamp"

-- The last test of both branches: the presented signature against the computed one.
unfoldable pub check_signature : Text → Text → Text → Verified
unfolding same
check_signature computed presented body =
    if same computed presented then ok body else err signature_mismatch

module _ (hmac_sha256 hmac_sha512 : Text → Text → Text) where
  -- The branch of the WAHA header, after the timestamp is parsed.
  unfoldable pub check_fresh : ℕ → ℕ → Text → Text → Text → Option Int64 → Verified
  unfolding out_of_skew
  check_fresh now max_skew secret signature body none = err invalid_timestamp
  check_fresh now max_skew secret signature body (some ts) =
      if out_of_skew now max_skew ts
      then err out_of_range
      else check_signature (hmac_sha512 secret body) signature body

  unfoldable pub verify_waha : ℕ → ℕ → Text → Text → Text → Text → Verified
  unfolding parse_int check_fresh
  verify_waha now max_skew secret signature timestamp body =
      if is_empty timestamp
      then err missing_timestamp
      else check_fresh now max_skew secret signature body (parse_int timestamp)

  -- The branch of every other header, after it is split.
  unfoldable pub verify_scheme : Text → Text → Option (Text × Text) → Verified
  unfolding to_lower
  verify_scheme secret body none = err invalid_format
  verify_scheme secret body (some (scheme, signature)) =
      if same (to_lower scheme) (codes "sha256")
      then check_signature (hmac_sha256 secret body) signature body
      else err invalid_format

  unfoldable pub verify_body : ℕ → ℕ → Bool → Text → Text → Request → Text → Verified
  unfolding verify_waha verify_scheme split_once
  verify_body now max_skew secure secret name r body =
      if is_empty secret
      then (if secure then err secret_required else ok body)
      else if is_empty (r.header name)
      then err missing_signature
      else if same name waha_header
      then verify_waha now max_skew secret (r.header name) (r.header timestamp_header) body
      else verify_scheme secret body (split_once b'=' (r.header name))

  -- verifySignatureWithSkew
  unfoldable pub verify : ℕ → ℕ → Bool → Text → Text → Request → Verified
  unfolding verify_body
  verify now max_skew secure secret name r = elim r.body [
    | none ↦ err read_failed
    | some body ↦ verify_body now max_skew secure secret name r body
  ]

-- requireProductionAdminToken: whether the request may pass
unfoldable pub require_admin_token : Bool → Text → Text → Bool
unfolding has_prefix trim_prefix same
require_admin_token secure admin_token authorization =
    if not secure && is_empty admin_token
    then true
    else if is_empty admin_token || not (has_prefix authorization (codes "Bearer "))
    then false
    else same (trim_prefix authorization (codes "Bearer ")) admin_token

-- WebhookReplayCache: each key with its time of expiry
abbrev pub ReplayCache : Type 0
ReplayCache = List (Text × ℕ)

-- The loop that deletes expired entries.
unfoldable pub expire : ℕ → ReplayCache → ReplayCache
expire now [] = []
expire now ((key, expires_at) ∷ c) =
    if ltb now expires_at then (key, expires_at) ∷ expire now c else expire now c

-- `expiresAt, exists := c.entries[key]; exists && expiresAt.After(now)`
unfoldable pub is_held : ℕ → Option ℕ → Bool
is_held now none = false
is_held now (some expires_at) = ltb now expires_at

module _ (sha256 : Text → Text) where
  unfoldable pub webhook_replay_key : Text → Text → Text
  webhook_replay_key body timestamp = sha256 body ++ b':' ∷ timestamp

  unfoldable pub check_and_store : ℕ → ℕ → Text → Text → ReplayCache → ReplayCache × Bool
  unfolding expire is_held webhook_replay_key lookup insert
  check_and_store now ttl body timestamp c =
      let key = webhook_replay_key body timestamp in
      let live = expire now c in
      if is_held now (lookup key live) then (live, true) else (insert key (now + ttl) live, false)
