-- ===== src/Bridge/Resolving.antt =====
-- Where a Signal message goes: resolveMessageMapping, extractMappingFromQuotedText,
-- resolveGroupMessageMapping and processSignalAttachments of internal/service/bridge.go. Texts are
-- bytes; a byte over 127 stands for a letter that is not ASCII, as in the code's test on runes.
use whatsignal.Base.{
  ℕ, Bool, true, false, ◌&&◌, ◌||◌, List, [], ◌∷◌, ◌++◌, Option, none, some, any, keep, drop,
  length, ltb, leb, if◌then◌else◌,
}
use whatsignal.Base.Text.{Text, codes, is_empty, has_prefix, has_suffix, trim_prefix}
use whatsignal.Mappings.{
  MessageMapping, Table, find_either, latest_of_session, latest_group_of_session,
}
use whatsignal.Bridge.{
  Services, Conditions, BridgeError, lookup_failed, no_mapping, no_group_context,
}

pub record Quote : Type 0 where
  pub id : Text
  pub text : Text

pub record Reaction : Type 0 where
  pub emoji : Text
  pub target_timestamp : ℕ
  pub is_remove : Bool

pub record Deletion : Type 0 where
  pub target_message_id : Text
  pub target_timestamp : ℕ

pub record Receipt : Type 0 where
  pub target_timestamp : ℕ
  pub is_delivery : Bool
  pub is_read : Bool
  pub is_viewed : Bool

-- SignalMessage, without the fields that the bridge only logs; timestamps are not negative.
pub record SignalMessage : Type 0 where
  pub timestamp : ℕ
  pub sender : Text
  pub message_id : Text
  pub message : Text
  pub attachments : List Text
  pub quoted : Option Quote
  pub reaction : Option Reaction
  pub deletion : Option Deletion
  pub receipt : Option Receipt

-- A mapping, and whether it is the fallback.
pub data Resolved : Type 0 where
  to_mapping : MessageMapping → Bool → Resolved
  unmapped : Resolved
  unresolved : BridgeError → Resolved

abbrev after_first : ℕ → Option (Text × Text) → Option (Text × Text)
after_first x none = none
after_first x (some (before, rest)) = some (x ∷ before, rest)

-- strings.SplitN(s, sep, 2), or none when the separator does not occur
unfoldable pub split_once : Text → Text → Option (Text × Text)
unfolding has_prefix
split_once [] sep = if has_prefix [] sep then some ([], []) else none
split_once (x ∷ xs) sep =
    let rest = split_once xs sep in
    if has_prefix (x ∷ xs) sep then some ([], drop (length sep) (x ∷ xs)) else after_first x rest

-- The sender's part of "Sender in Group"; a separator at the start does not count.
abbrev cut_text : Text → Option (Text × Text) → Text
cut_text s none = s
cut_text s (some ([], rest)) = s
cut_text s (some (x ∷ before, rest)) = x ∷ before

unfoldable pub before_group : Text → Text
unfolding split_once
before_group sender_info = cut_text sender_info (split_once sender_info (codes " in "))

abbrev is_digit : ℕ → Bool
is_digit b = leb 48 b && leb b 57

-- The loop that collects the phone number.
unfoldable pub digits : Text → Text
digits s = keep is_digit s

-- The loop that sets hasLetter.
unfoldable pub has_letter : Text → Bool
has_letter s = any (λ b. leb 65 b && leb b 90 || (leb 97 b && leb b 122) || ltb 127 b) s

-- The bytes of the telephone sign and a space.
abbrev pub phone_sign : Text
phone_sign = 240 ∷ 159 ∷ 147 ∷ 177 ∷ 32 ∷ []

abbrev min_phone_number_length : ℕ
min_phone_number_length = 10

-- A mapping that has a chat only.
abbrev pub chat_only : Text → MessageMapping
chat_only chat_id = record {
  chat_id = chat_id;
  whatsapp_id = [];
  signal_id = [];
  signal_timestamp = 0;
  forwarded_at = 0;
  status = [];
  media_path = none;
  session = [];
  media_type = [];
  created_at = 0;
}

unfoldable pub chat_of_phone : Text → Text
unfolding has_suffix
chat_of_phone phone = if has_suffix phone (codes "@c.us") then phone else phone ++ codes "@c.us"

-- The contact that has the name, when it has a phone number.
unfoldable pub chat_of_contact : Option (Option Text) → Option MessageMapping
unfolding chat_of_phone
chat_of_contact none = none
chat_of_contact (some none) = none
chat_of_contact (some (some phone)) =
    if is_empty phone then none else some (chat_only (chat_of_phone phone))

module _ (v : Services) where
  -- extractMappingFromQuotedText, from the sender's part of the quote on
  unfoldable pub chat_of_quoted_sender : Text → Option MessageMapping
  unfolding before_group digits has_letter chat_of_contact trim_prefix
  chat_of_quoted_sender part =
      let sender_info = before_group (trim_prefix part phone_sign) in
      let phone = digits sender_info in
      if leb min_phone_number_length (length phone)
      then some (chat_only (phone ++ codes "@c.us"))
      else if has_letter sender_info
      then chat_of_contact (v.contact_by_name sender_info)
      else none

  abbrev pub chat_of_split : Option (Text × Text) → Option MessageMapping
  chat_of_split none = none
  chat_of_split (some (sender_part, rest)) = chat_of_quoted_sender sender_part

  -- extractMappingFromQuotedText
  unfoldable pub extract_from_quote : Text → Option MessageMapping
  unfolding split_once chat_of_quoted_sender
  extract_from_quote text = chat_of_split (split_once text (codes ": "))

  abbrev pub quoted_or : Quote → Option MessageMapping → Option MessageMapping → Resolved
  quoted_or q (some m) extracted = to_mapping m false
  quoted_or q none (some m) = to_mapping m false
  quoted_or q none none = unresolved (no_mapping q.id)

  abbrev pub fallback : Option MessageMapping → Resolved
  fallback none = unmapped
  fallback (some m) = to_mapping m true

  abbrev pub session_fallback : Text → Table → Resolved
  session_fallback session ms =
      if is_empty session then unresolved lookup_failed else fallback (latest_of_session session ms)

  -- resolveMessageMapping
  unfoldable pub resolve : Conditions → Option Quote → Text → Table → Resolved
  unfolding find_either latest_of_session extract_from_quote
  resolve c quoted session ms =
      if c.reads 1
      then elim quoted [
        | none ↦ session_fallback session ms
        | some q ↦ quoted_or q (find_either q.id ms) (extract_from_quote q.text)
      ]
      else unresolved lookup_failed

-- constants.DefaultGroupMappingLookbackLimit
abbrev pub group_lookback : ℕ
group_lookback = 25

abbrev pub quoted_group : Quote → Option MessageMapping → Resolved
quoted_group q none = unresolved (no_mapping q.id)
quoted_group q (some m) = to_mapping m false

abbrev pub fallback_group : Text → Option MessageMapping → Resolved
fallback_group session none = unresolved (no_group_context session)
fallback_group session (some m) = to_mapping m true

-- resolveGroupMessageMapping
unfoldable pub resolve_group : Conditions → Option Quote → Text → Table → Resolved
unfolding find_either latest_group_of_session
resolve_group c quoted session ms =
    if c.reads 1
    then elim quoted [
      | none ↦
          if is_empty session
          then unresolved lookup_failed
          else fallback_group session (latest_group_of_session session group_lookback ms)
      | some q ↦ quoted_group q (find_either q.id ms)
    ]
    else unresolved lookup_failed

abbrev add_processed : Option Text → List Text → List Text
add_processed none processed = processed
add_processed (some path) processed = path ∷ processed

-- processSignalAttachments, which skips what cannot be processed
unfoldable pub process_attachments : (Text → Option Text) → List Text → List Text
process_attachments media [] = []
process_attachments media (a ∷ rest) = add_processed (media a) (process_attachments media rest)
