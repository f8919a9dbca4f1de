-- ===== src/Mappings.antt =====
-- The table message_mappings as its callers see it: the rows of plain mappings in the order of their
-- insertion, and what each operation of internal/database/database.go does to them.
pub mod Lookups
use whatsignal.Base.{
  ℕ, zero, suc, Bool, true, false, not, ◌&&◌, List, [], ◌∷◌, ◌++◌, Option, none, some, any, keep,
  take, ltb, leb, if◌then◌else◌,
}
use whatsignal.Base.Text.{Text, codes, same, is_empty, has_suffix}

-- models.MessageMapping, without the row number; times are nanoseconds
pub record MessageMapping : Type 0 where
  pub chat_id : Text
  pub whatsapp_id : Text
  pub signal_id : Text
  pub signal_timestamp : ℕ
  pub forwarded_at : ℕ
  pub status : Text
  pub media_path : Option Text
  pub session : Text
  pub media_type : Text
  pub created_at : ℕ

module _ {ℓ} {A : Type ℓ} where
  -- QueryRow: the first row that fits
  abbrev pub find : (A → Bool) → List A → Option A
  find p [] = none
  find p (x ∷ xs) = if p x then some x else find p xs

  -- UPDATE of the rows that fit
  abbrev pub change : (A → Bool) → (A → A) → List A → List A
  change p f [] = []
  change p f (x ∷ xs) = (if p x then f x else x) ∷ change p f xs

  -- ORDER BY a column DESC; the later row comes first among equals, whose order SQL leaves open
  abbrev pub insert_newest : (A → ℕ) → A → List A → List A
  insert_newest time x [] = x ∷ []
  insert_newest time x (y ∷ ys) =
      if ltb (time y) (time x) then x ∷ y ∷ ys else y ∷ insert_newest time x ys

  abbrev pub newest_first : (A → ℕ) → List A → List A
  newest_first time [] = []
  newest_first time (x ∷ xs) = insert_newest time x (newest_first time xs)

  abbrev pub first : List A → Option A
  first [] = none
  first (x ∷ xs) = some x

pub data StoreError : Type 0 where
  session_required message_not_found undecipherable : StoreError

pub data Action : Type 0 where
  save : MessageMapping → Action
  set_signal_id : Text → Text → ℕ → Text → Action
  set_status : Text → Text → Action
  delete_before : ℕ → Action
  by_whatsapp_id by_signal_id by_either_id latest : Text → Action
  latest_group : Text → ℕ → Action
  has_history : Text → Text → Action

pub data Answer : Type 0 where
  done : Answer
  refused : StoreError → Answer
  found : Option MessageMapping → Answer
  exists : Bool → Answer

abbrev pub Table : Type 0
Table = List MessageMapping

-- GetMessageMappingByWhatsAppID
unfoldable pub find_whatsapp : Text → Table → Option MessageMapping
unfolding same
find_whatsapp id ms = find (λ m. same m.whatsapp_id id) ms

-- GetMessageMappingBySignalID
unfoldable pub find_signal : Text → Table → Option MessageMapping
unfolding same
find_signal id ms = find (λ m. same m.signal_id id) ms

abbrev pub or_find {ℓ} : {A : Type ℓ} → Option A → Option A → Option A
or_find none o = o
or_find (some m) o = some m

-- GetMessageMapping
unfoldable pub find_either : Text → Table → Option MessageMapping
unfolding find_whatsapp find_signal
find_either id ms = or_find (find_whatsapp id ms) (find_signal id ms)

-- SaveMessageMapping, when the session is not empty
unfoldable pub append_mapping : MessageMapping → Table → Table
append_mapping m ms = ms ++ m ∷ []

-- UpdateSignalIDByWhatsAppID, which affects no row and returns nil where there is none
unfoldable pub replace_signal_id : Text → Text → ℕ → Text → Table → Table
unfolding same
replace_signal_id id signal_id at status ms =
    change (λ m. same m.whatsapp_id id)
      (λ m. record m { signal_id = signal_id; signal_timestamp = at; status = status }) ms

-- UpdateDeliveryStatus: by WhatsApp ID, or else by Signal ID
unfoldable pub replace_status : Text → Text → Table → Option Table
unfolding same
replace_status id status ms =
    if any (λ m. same m.whatsapp_id id) ms
    then some (change (λ m. same m.whatsapp_id id) (λ m. record m { status = status }) ms)
    else if any (λ m. same m.signal_id id) ms
    then some (change (λ m. same m.signal_id id) (λ m. record m { status = status }) ms)
    else none

-- GetLatestMessageMappingBySession
unfoldable pub latest_of_session : Text → Table → Option MessageMapping
unfolding same
latest_of_session session ms =
    first (newest_first (λ m. m.forwarded_at) (keep (λ m. same m.session session) ms))

abbrev pub is_group : Text → Bool
is_group chat_id = has_suffix chat_id (codes "@g.us")

abbrev pub search_limit : ℕ → ℕ
search_limit zero = 10
search_limit (suc n) = suc n

-- GetLatestGroupMessageMappingBySession
unfoldable pub latest_group_of_session : Text → ℕ → Table → Option MessageMapping
unfolding same has_suffix
latest_group_of_session session limit ms =
    find (λ m. is_group m.chat_id)
      (take (search_limit limit)
        (newest_first (λ m. m.forwarded_at) (keep (λ m. same m.session session) ms)))

abbrev pub settled : Option Table → Table → Table × Answer
settled none ms = (ms, refused message_not_found)
settled (some ms') ms = (ms', done)

-- The chat ID that stands for a Signal sender.
unfoldable pub chat_of_sender : Text → Text
unfolding has_suffix
chat_of_sender sender =
    if has_suffix sender (codes "@c.us") then sender else sender ++ codes "@c.us"

-- One call.
unfoldable pub step : Action → Table → Table × Answer
unfolding find_whatsapp find_signal find_either append_mapping replace_signal_id replace_status
    latest_of_session latest_group_of_session chat_of_sender same
step (save m) ms =
    if is_empty m.session then (ms, refused session_required) else (append_mapping m ms, done)
step (set_signal_id id signal_id at status) ms = (replace_signal_id id signal_id at status ms, done)
step (set_status id status) ms = settled (replace_status id status ms) ms
step (delete_before cutoff) ms = (keep (λ m. leb cutoff m.created_at) ms, done)
step (by_whatsapp_id id) ms = (ms, found (find_whatsapp id ms))
step (by_signal_id id) ms = (ms, found (find_signal id ms))
step (by_either_id id) ms = (ms, found (find_either id ms))
step (latest session) ms =
    if is_empty session
    then (ms, refused session_required)
    else (ms, found (latest_of_session session ms))
step (latest_group session limit) ms =
    if is_empty session
    then (ms, refused session_required)
    else (ms, found (latest_group_of_session session limit ms))
step (has_history session sender) ms =
    if is_empty session then (ms, refused session_required) else (
      ms,
      exists (any (λ m. same m.session session && same m.chat_id (chat_of_sender sender)) ms),
    )

-- The answers to calls made one after the other.
unfoldable pub answers {ℓ κ μ} :
    {A : Type ℓ} {S : Type κ} {B : Type μ} → (A → S → S × B) → List A → S → List B
answers call [] s = []
answers call (a ∷ rest) s = let (s', b) = call a s in b ∷ answers call rest s'
