-- ===== src/Masking.antt =====
-- internal/privacy/masking.go. Strings are lists of bytes, which is how the code measures and cuts
-- them.
pub mod Length
pub mod Hiding
mod Tests
use whatsignal.Base.{
  ℕ, zero, suc, ◌+◌, ◌-◌, Bool, true, false, ◌&&◌, ◌||◌, List, [], ◌∷◌, ◌++◌, length, drop,
  replicate, any, all, leb, ltb, ◌==◌, if◌then◌else◌,
}
use whatsignal.Base.Text.{Text, codes, same, has_prefix, contains, is_empty}

-- strings.Repeat("*", n)
abbrev pub stars : ℕ → Text
stars n = replicate n b'*'

abbrev pub starts_part : ℕ → List Text → List Text
starts_part c [] = (c ∷ []) ∷ []
starts_part c (p ∷ ps) = (c ∷ p) ∷ ps

-- strings.Split by one byte
unfoldable pub split : ℕ → Text → List Text
split sep [] = [] ∷ []
split sep (c ∷ cs) = if c == sep then [] ∷ split sep cs else starts_part c (split sep cs)

-- strings.Join by one byte
unfoldable pub join : ℕ → List Text → Text
join sep [] = []
join sep (p ∷ []) = p
join sep (p ∷ q ∷ ps) = p ++ sep ∷ join sep (q ∷ ps)

-- maskString
unfoldable pub mask_string : Text → ℕ → Text
mask_string s keep_last =
    if is_empty s
    then []
    else if leb (length s) keep_last
    then stars (length s)
    else stars (length s - keep_last) ++ drop (length s - keep_last) s

-- MaskPhoneNumber
unfoldable pub mask_phone_number : Text → Text
unfolding has_prefix
mask_phone_number phone =
    if is_empty phone
    then []
    else if has_prefix phone (codes "+")
    then (if length phone == 1
        then phone
        else if leb (length phone) 5
        then b'+' ∷ stars (length phone - 1)
        else b'+' ∷ (stars (length phone - 5) ++ drop (length phone - 4) phone))
    else (if leb (length phone) 4
        then stars (length phone)
        else stars (length phone - 4) ++ drop (length phone - 4) phone)

-- The number part of a chat ID, and a chat ID of another format.
unfoldable pub mask_all_but_four : Text → Text
mask_all_but_four s =
    if leb (length s) 4 then stars (length s) else stars (length s - 4) ++ drop (length s - 4) s

-- The parts of a chat ID with an @.
unfoldable pub mask_chat_parts : Text → List Text → Text
mask_chat_parts chat_id (number ∷ q ∷ qs) = mask_all_but_four number ++ b'@' ∷ join b'@' (q ∷ qs)
mask_chat_parts chat_id parts = mask_all_but_four chat_id

-- MaskChatID
unfoldable pub mask_chat_id : Text → Text
mask_chat_id chat_id =
    if is_empty chat_id
    then []
    else if contains chat_id (codes "@")
    then mask_chat_parts chat_id (split b'@' chat_id)
    else mask_all_but_four chat_id

-- The parts of a message ID with a _.
unfoldable pub mask_message_parts : Text → List Text → Text
mask_message_parts message_id (prefix ∷ chat ∷ m ∷ ms) =
    prefix ++ b'_' ∷ (mask_chat_id chat ++ b'_' ∷ mask_string (join b'_' (m ∷ ms)) 4)
mask_message_parts message_id parts = mask_string message_id 8

-- MaskMessageID
unfoldable pub mask_message_id : Text → Text
mask_message_id message_id =
    if is_empty message_id
    then []
    else if contains message_id (codes "_")
    then mask_message_parts message_id (split b'_' message_id)
    else mask_string message_id 8

-- MaskUserID
unfoldable pub mask_user_id : Text → Text
mask_user_id user_id = if is_empty user_id then [] else mask_string user_id 4

-- isNumeric
unfoldable pub is_numeric : Text → Bool
is_numeric s = all (λ c. leb b'0' c && leb c b'9') s && ltb 0 (length s)

-- MaskContactID
unfoldable pub mask_contact_id : Text → Text
mask_contact_id contact_id =
    if is_empty contact_id
    then []
    else if has_prefix contact_id (codes "+")
        || (leb 10 (length contact_id) && is_numeric contact_id)
    then mask_phone_number contact_id
    else mask_string contact_id 4

-- The loop over the parts after the first: stars for each but the last.
unfoldable pub mask_session_rest : List Text → Text
mask_session_rest [] = []
mask_session_rest (p ∷ []) = b'-' ∷ mask_string p 3
mask_session_rest (p ∷ q ∷ ps) = b'-' ∷ (stars (length p) ++ mask_session_rest (q ∷ ps))

unfoldable pub mask_session_parts : Text → List Text → Text
mask_session_parts session_name (p ∷ q ∷ ps) = p ++ mask_session_rest (q ∷ ps)
mask_session_parts session_name parts = mask_string session_name 3

-- MaskSessionName
unfoldable pub mask_session_name : Text → Text
mask_session_name session_name =
    if is_empty session_name
    then []
    else if contains session_name (codes "-")
    then mask_session_parts session_name (split b'-' session_name)
    else mask_string session_name 3

-- An interface{}: a string, or something else.
pub data Value {ℓ} (A : Type ℓ) : Type ℓ where
  text : Text → Value A
  other : A → Value A

abbrev pub one_of : List Text → Text → Bool
one_of names k = any (same k) names

abbrev pub phone_keys : List Text
phone_keys = codes "phone" ∷ codes "phone_number" ∷ codes "from" ∷ codes "to" ∷ []

abbrev pub chat_keys : List Text
chat_keys = codes "chat_id" ∷ codes "chatId" ∷ codes "chat" ∷ []

abbrev pub message_keys : List Text
message_keys = codes "message_id" ∷ codes "messageId" ∷ codes "msg_id" ∷ []

abbrev pub contact_keys : List Text
contact_keys = codes "user_id" ∷ codes "userId" ∷ codes "contact_id" ∷ codes "contactId" ∷ []

abbrev pub session_keys : List Text
session_keys = codes "session" ∷ codes "session_name" ∷ codes "sessionName" ∷ []

-- The switch of MaskSensitiveFields, for a string.
unfoldable pub mask_field : Text → Text → Text
unfolding same
mask_field k s =
    if one_of phone_keys k
    then mask_phone_number s
    else if one_of chat_keys k
    then mask_chat_id s
    else if one_of message_keys k
    then mask_message_id s
    else if one_of contact_keys k
    then mask_contact_id s
    else if one_of session_keys k
    then mask_session_name s
    else s

module _ {ℓ} {A : Type ℓ} where
  abbrev pub mask_value : Text → Value A → Value A
  mask_value k (text s) = text (mask_field k s)
  mask_value k (other a) = other a

  -- MaskSensitiveFields, for a map that is not nil
  unfoldable pub mask_sensitive_fields : List (Text × Value A) → List (Text × Value A)
  mask_sensitive_fields [] = []
  mask_sensitive_fields ((k, v) ∷ fields) = (k, mask_value k v) ∷ mask_sensitive_fields fields
