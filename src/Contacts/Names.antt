-- ===== src/Contacts/Names.antt =====
-- ContactService of internal/service/contact_service.go: GetContactDisplayName and RefreshContact,
-- with the circuit breaker of Breaker around the calls of WAHA.
use whatsignal.Base.{
  ℕ, Bool, true, false, ◌&&◌, ◌||◌, List, ◌++◌, Option, none, some, if◌then◌else◌,
}
use whatsignal.Base.Text.{Text, codes, same, contains, has_suffix, trim_suffix}
use whatsignal.Breaker.{CircuitBreaker, Outcome, refused, returned, execute}
use whatsignal.Contacts.{
  WaContact, Contact, contact_name, wa_contact_name, from_wa_contact, save_contact,
  get_contact_by_phone, is_valid,
}

-- An error of WAHA's client: its text, and whether its code is INTERNAL_ERROR.
pub record ApiError : Type 0 where
  pub text : Text
  pub is_internal : Bool

-- What a call of WAHA gives: an error, nothing, or a value.
pub data Fetched {ℓ} (A : Type ℓ) : Type ℓ where
  failed : ApiError → Fetched A
  absent : Fetched A
  present : A → Fetched A

abbrev pub fetch_error {ℓ} : {A : Type ℓ} → Fetched A → Option ApiError
fetch_error (failed e) = some e
fetch_error absent = none
fetch_error (present a) = none

-- What a lookup meets: the time when it begins and when WAHA has answered, whether the cache can be
-- read and written, and WAHA's answer.
pub record Lookup {ℓ} (A : Type ℓ) : Type ℓ where
  pub before : ℕ
  pub after : ℕ
  pub reads : Bool
  pub writes : Bool
  pub fetched : Fetched A

-- The error of the service's Execute when the breaker refuses a call, and the text that AppError
-- gives it: its code and its message.
abbrev pub open_text : Text
open_text = codes "circuit breaker is open"

abbrev pub refused_error : ApiError
refused_error = record { text = codes "INTERNAL_ERROR: " ++ open_text; is_internal = true }

-- Execute of the service's circuit breaker
unfoldable pub execute_error : Outcome ApiError → Option ApiError
execute_error (refused name state) = some refused_error
execute_error (returned result) = result

-- The test for an open breaker.
unfoldable pub is_open_error : ApiError → Bool
unfolding same
is_open_error e = e.is_internal && same e.text open_text

pub record ContactService : Type 0 where
  pub contacts : List Contact
  pub cache_hours : ℕ
  pub breaker : CircuitBreaker
  pub degraded : Bool

-- Without an answer: the cached name, however old, or the phone number.
abbrev pub name_or : Option Contact → Text → Text
name_or none phone = phone
name_or (some c) phone = contact_name c

abbrev pub cached_if : Bool → Option Contact → Option Contact
cached_if false c = none
cached_if true c = c

-- After the call of WAHA.
unfoldable pub answer_contact :
    Option ApiError
    → Fetched WaContact
    → Option Contact
    → Bool
    → ℕ
    → Text
    → ContactService
    → ContactService × Text
unfolding is_open_error contact_name wa_contact_name from_wa_contact save_contact
answer_contact (some e) fetched cached writes now phone s =
    (record s { degraded = is_open_error e || s.degraded }, name_or cached phone)
answer_contact none (failed e) cached writes now phone s = (s, phone)
answer_contact none absent cached writes now phone s = (s, phone)
answer_contact none (present c) cached writes now phone s =
    if writes
    then (
      record s { contacts = save_contact now (from_wa_contact c) s.contacts },
      wa_contact_name c,
    )
    else (s, wa_contact_name c)

-- The call of WAHA, through the breaker.
unfoldable pub fetch_contact :
    Lookup WaContact → Text → Option Contact → ContactService → ContactService × Text
unfolding execute execute_error answer_contact
fetch_contact l phone cached s =
    let (breaker, outcome) = execute l.before l.after (fetch_error l.fetched) s.breaker in
    answer_contact (execute_error outcome) l.fetched cached l.writes l.after phone
      (record s { breaker = breaker })

abbrev pub is_fresh : ℕ → ℕ → Option Contact → Bool
is_fresh now hours none = false
is_fresh now hours (some c) = is_valid now hours c.cached_at

-- GetContactDisplayName
unfoldable pub get_contact_display_name :
    Lookup WaContact → Text → ContactService → ContactService × Text
unfolding has_suffix contains trim_suffix get_contact_by_phone is_valid fetch_contact contact_name
get_contact_display_name l phone s =
    let cached = cached_if l.reads (get_contact_by_phone phone s.contacts) in
    let asked = fetch_contact l phone cached s in
    if has_suffix phone (codes "@g.us") || contains phone (codes "@g.us")
    then (s, phone)
    else if has_suffix phone (codes "@lid")
    then (s, trim_suffix phone (codes "@lid"))
    else if is_fresh l.before s.cache_hours cached
    then (s, name_or cached phone)
    else asked

-- RefreshContact; the result says whether a contact was found and saved
unfoldable pub refresh_contact : Lookup WaContact → ContactService → ContactService × Bool
unfolding from_wa_contact save_contact
refresh_contact l s = elim l.fetched [
  | failed e ↦ (s, false)
  | absent ↦ (s, false)
  | present c ↦
      if l.writes
      then (record s { contacts = save_contact l.after (from_wa_contact c) s.contacts }, true)
      else (s, false)
]
