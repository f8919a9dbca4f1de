-- ===== src/Contacts.antt =====
-- The caches of contact and group names: internal/service/contact_service.go and
-- internal/service/group_service.go, internal/models/contact.go and internal/models/group.go, and
-- the tables contacts and groups of internal/database/database.go, in the plain form that the
-- encryption of Store keeps. WAHA's answers, the clock, and whether a statement of the database
-- succeeds are arguments; CURRENT_TIMESTAMP is the whole seconds of that clock. Row numbers and the group's members are left out.
pub mod Names
pub mod Groups
pub mod Cached
pub mod Sync
pub mod Synced
mod Tests
use whatsignal.Base.{
  ℕ, zero, suc, ◌+◌, ◌*◌, ◌/◌, Bool, true, false, ◌&&◌, ◌||◌, not, List, [], ◌∷◌, ◌++◌, Option,
  none, some, keep, ltb, leb, if◌then◌else◌,
}
use whatsignal.Base.Text.{Text, codes, same, is_empty, has_suffix}
use whatsignal.Mappings.{find}

-- What WAHA answers for a contact, and what a row keeps of it.
pub record WaContact : Type 0 where
  pub id : Text
  pub number : Text
  pub name : Text
  pub push_name : Text
  pub short_name : Text
  pub is_blocked : Bool
  pub is_group : Bool
  pub is_my_contact : Bool

pub record Contact : Type 0 where
  pub contact_id : Text
  pub phone_number : Text
  pub name : Text
  pub push_name : Text
  pub short_name : Text
  pub is_blocked : Bool
  pub is_group : Bool
  pub is_my_contact : Bool
  pub cached_at : ℕ

-- The choice in both methods GetDisplayName.
unfoldable pub best_name : Text → Text → Text → Text
best_name name push_name number =
    if is_empty name then (if is_empty push_name then number else push_name) else name

-- Contact.GetDisplayName
unfoldable pub contact_name : Contact → Text
unfolding best_name
contact_name c = best_name c.name c.push_name c.phone_number

-- types.Contact.GetDisplayName
unfoldable pub wa_contact_name : WaContact → Text
unfolding best_name
wa_contact_name c = best_name c.name c.push_name c.number

-- FromWAContact, which leaves the time as it is, zero
unfoldable pub from_wa_contact : WaContact → Contact
from_wa_contact c = record {
  contact_id = c.id;
  phone_number = c.number;
  name = c.name;
  push_name = c.push_name;
  short_name = c.short_name;
  is_blocked = c.is_blocked;
  is_group = c.is_group;
  is_my_contact = c.is_my_contact;
  cached_at = 0;
}

module _ {ℓ} {A : Type ℓ} where
  -- INSERT ... ON CONFLICT DO UPDATE: the row with the same key is replaced.
  unfoldable pub upsert : (A → A → Bool) → A → List A → List A
  upsert same_key a [] = a ∷ []
  upsert same_key a (b ∷ rest) = if same_key a b then a ∷ rest else b ∷ upsert same_key a rest

  -- DELETE of the rows that were cached before the cutoff
  unfoldable pub delete_cached_before : (A → ℕ) → ℕ → List A → List A
  delete_cached_before cached_at cutoff rows = keep (λ a. leb cutoff (cached_at a)) rows

-- CURRENT_TIMESTAMP of SQLite: the whole seconds of the clock, here as nanoseconds.
abbrev pub current_timestamp : ℕ → ℕ
current_timestamp now = now / 1000000000 * 1000000000

-- SaveContact, at this time of the clock
unfoldable pub save_contact : ℕ → Contact → List Contact → List Contact
unfolding upsert same
save_contact now c rows =
    upsert (λ a b. same b.contact_id a.contact_id) (record c { cached_at = current_timestamp now })
      rows

-- GetContact
unfoldable pub get_contact : Text → List Contact → Option Contact
unfolding same
get_contact id rows = find (λ c. same c.contact_id id) rows

-- The contact ID of a phone number.
unfoldable pub contact_id_of : Text → Text
unfolding has_suffix
contact_id_of phone = if has_suffix phone (codes "@c.us") then phone else phone ++ codes "@c.us"

-- GetContactByPhone
unfoldable pub get_contact_by_phone : Text → List Contact → Option Contact
unfolding get_contact contact_id_of
get_contact_by_phone phone rows = get_contact (contact_id_of phone) rows

-- GetContactByName
unfoldable pub get_contact_by_name : Text → List Contact → Option Contact
unfolding same
get_contact_by_name name rows =
    find (λ c. same c.name name || same c.push_name name || same c.short_name name) rows

-- CleanupOldContacts
unfoldable pub cleanup_old_contacts : ℕ → List Contact → List Contact
unfolding delete_cached_before
cleanup_old_contacts cutoff rows = delete_cached_before (λ c. c.cached_at) cutoff rows

-- The constructor's default for a number of hours that is not positive, given as 0.
unfoldable pub cache_valid_hours : ℕ → ℕ
cache_valid_hours zero = 24
cache_valid_hours (suc hours) = suc hours

-- Nanoseconds of the hours.
abbrev pub hours_long : ℕ → ℕ
hours_long hours = hours * 3600000000000

-- time.Since(cachedAt) < cacheValidDuration, with the subtraction moved to the other side
unfoldable pub is_valid : ℕ → ℕ → ℕ → Bool
is_valid now hours cached_at = ltb now (cached_at + hours_long hours)
