-- ===== src/Contacts/Cached.antt =====
-- Lookups of a contact after it was fetched, and the flag for an open breaker.
use whatsignal.Base.{
  ℕ, ◌+◌, ◌<◌, ◌≡◌, refl, sym, ap, ◌∙◌, Bool, true, false, ◌||◌, not, List, [], ◌∷◌, Option, none,
  some, arith, lt→ltb, Bool-cases, inl, inr,
}
use whatsignal.Base.Text.{Text, codes, same, same_refl, contains, has_suffix}
use whatsignal.Breaker.{CircuitBreaker, returned, execute}
use whatsignal.Breaker.Runs.{execute_cases}
use whatsignal.Contacts.{
  WaContact, Contact, contact_name, wa_contact_name, from_wa_contact, upsert, save_contact,
  current_timestamp, get_contact, get_contact_by_phone, contact_id_of, hours_long, is_valid,
}
use whatsignal.Contacts.Names.{
  ApiError, Fetched, failed, absent, present, fetch_error, Lookup, refused_error, execute_error,
  is_open_error, ContactService, cached_if, answer_contact, fetch_contact, is_fresh,
  get_contact_display_name,
}

-- A phone number, and not the ID of a group or a linked ID.
pub record IsPhone (phone : Text) : Type 0 where
  pub no_group_suffix : has_suffix phone (codes "@g.us") ≡ false
  pub no_group : contains phone (codes "@g.us") ≡ false
  pub no_lid : has_suffix phone (codes "@lid") ≡ false

-- The row of a contact that is saved at this time.
abbrev pub row_at : ℕ → Contact → Contact
row_at now c = record c { cached_at = current_timestamp now }

pub get_contact-save_contact :
    (now : ℕ) (c : Contact) (rows : List Contact)
    → get_contact c.contact_id (save_contact now c rows) ≡ some (row_at now c)
unfolding get_contact save_contact upsert
get_contact-save_contact now c [] = rw (same_refl c.contact_id) refl
get_contact-save_contact now c (d ∷ rows) = elim (Bool-cases (same d.contact_id c.contact_id)) [
  | inl e ↦ rw (e, same_refl c.contact_id) refl
  | inr e ↦ rw (e, e) (get_contact-save_contact now c rows)
]

cached-name :
    (k : Lookup WaContact) (phone : Text) (c : Contact) (s : ContactService)
    → IsPhone phone
    → k.reads ≡ true
    → get_contact_by_phone phone s.contacts ≡ some c
    → k.before < c.cached_at + hours_long s.cache_hours
    → get_contact_display_name k phone s ≡ (s, contact_name c)
unfolding get_contact_display_name is_valid
cached-name k phone c s p h e v =
    rw (p.no_group_suffix, p.no_group, p.no_lid, h, e, lt→ltb _ _ v, get_contact_display_name) refl

-- The cached contact as the lookup sees it is missing or too old.
abbrev misses : Lookup WaContact → Text → ContactService → Bool
misses l phone s =
    not
      (is_fresh l.before s.cache_hours (cached_if l.reads (get_contact_by_phone phone s.contacts)))

missed-fetch_contact :
    (l : Lookup WaContact) (phone : Text) (s : ContactService)
    → IsPhone phone
    → misses l phone s ≡ true
    → get_contact_display_name l phone s
      ≡ fetch_contact l phone (cached_if l.reads (get_contact_by_phone phone s.contacts)) s
unfolding get_contact_display_name
missed-fetch_contact l phone s p h =
    let stale : is_fresh l.before s.cache_hours
          (cached_if l.reads (get_contact_by_phone phone s.contacts))
        ≡ false =
      ground (arith, h) in
    rw (p.no_group_suffix, p.no_group, p.no_lid, stale, get_contact_display_name) refl

-- The state after a fetch that is saved.
fetched : Lookup WaContact → WaContact → ContactService → ContactService
fetched l c s = record s {
  breaker = (execute {E = ApiError} l.before l.after none s.breaker).0;
  contacts = save_contact l.after (from_wa_contact c) s.contacts;
}

fetch_contact-present :
    (l : Lookup WaContact) (phone : Text) (cached : Option Contact) (c : WaContact)
    (s : ContactService)
    → l.fetched ≡ present c
    → l.writes ≡ true
    → (execute {E = ApiError} l.before l.after none s.breaker).1 ≡ returned none
    → fetch_contact l phone cached s ≡ (fetched l c s, wa_contact_name c)
unfolding fetch_contact answer_contact execute_error fetched
fetch_contact-present l phone cached c s f w e = rw (f, w, e) refl

get_contact_by_phone-fetched :
    (l : Lookup WaContact) (phone : Text) (c : WaContact) (s : ContactService)
    → c.id ≡ contact_id_of phone
    → get_contact_by_phone phone (fetched l c s).contacts
      ≡ some (row_at l.after (from_wa_contact c))
unfolding get_contact_by_phone fetched from_wa_contact
get_contact_by_phone-fetched l phone c s h =
    ap (λ id. get_contact id (fetched l c s).contacts) (sym h)
    ∙ get_contact-save_contact l.after (from_wa_contact c) s.contacts

-- A contact's name: after a lookup of a phone number that missed the cache, was let through by the
-- breaker, got from WAHA the contact whose ID is that of the number, and saved it, every lookup of
-- the number that can read the cache and begins before the cache's hours are over, counted from the
-- whole second of the save, gives the same name and changes nothing, so it does not ask WAHA.
pub get_contact_display_name-cached :
    (l k : Lookup WaContact) (phone : Text) (c : WaContact) (s : ContactService)
    → IsPhone phone
    → misses l phone s ≡ true
    → l.fetched ≡ present c
    → l.writes ≡ true
    → (execute {E = ApiError} l.before l.after none s.breaker).1 ≡ returned none
    → c.id ≡ contact_id_of phone
    → k.reads ≡ true
    → k.before < current_timestamp l.after + hours_long s.cache_hours
    → let r = get_contact_display_name l phone s in
      (r.1 ≡ wa_contact_name c) × (get_contact_display_name k phone r.0 ≡ (r.0, wa_contact_name c))
unfolding contact_name wa_contact_name from_wa_contact fetched
get_contact_display_name-cached l k phone c s p m f w e i h t =
    let first_result =
      missed-fetch_contact l phone s p m
      ∙ fetch_contact-present l phone (cached_if l.reads (get_contact_by_phone phone s.contacts)) c
          s f w e in
    let again =
      cached-name k phone (row_at l.after (from_wa_contact c)) (fetched l c s) p h
        (get_contact_by_phone-fetched l phone c s i) t in
    rw first_result (refl, again)

-- No error is that of an open breaker.
abbrev NotOpen : Option ApiError → Type 0
NotOpen error = (e : ApiError) → error ≡ some e → is_open_error e ≡ false

answer_contact-degraded :
    (error : Option ApiError) (fetched : Fetched WaContact) (cached : Option Contact)
    (writes : Bool) (now : ℕ) (phone : Text) (s : ContactService)
    → NotOpen error
    → (answer_contact error fetched cached writes now phone s).0.degraded ≡ s.degraded
unfolding answer_contact
answer_contact-degraded (some e) fetched cached writes now phone s h = rw (h e refl) refl
answer_contact-degraded none (failed e) cached writes now phone s h = refl
answer_contact-degraded none absent cached writes now phone s h = refl
answer_contact-degraded none (present c) cached true now phone s h = refl
answer_contact-degraded none (present c) cached false now phone s h = refl

refused-NotOpen : NotOpen (some refused_error)
unfolding is_open_error same
refused-NotOpen e h = ap (or_false) (sym h)
  where
    or_false : Option ApiError → Bool
    or_false none = false
    or_false (some e) = is_open_error e

execute-NotOpen :
    (before after : ℕ) (result : Option ApiError) (cb : CircuitBreaker)
    → NotOpen result
    → NotOpen (execute_error (execute before after result cb).1)
unfolding execute_error
execute-NotOpen before after result cb h = elim (execute_cases before after result cb) [
  | inl (name, state, e) ↦ rw e refused-NotOpen
  | inr e ↦ rw e h
]

fetch_contact-degraded :
    (l : Lookup WaContact) (phone : Text) (cached : Option Contact) (s : ContactService)
    → NotOpen (fetch_error l.fetched)
    → (fetch_contact l phone cached s).0.degraded ≡ s.degraded
unfolding fetch_contact
fetch_contact-degraded l phone cached s h =
    let r = execute l.before l.after (fetch_error l.fetched) s.breaker in
    answer_contact-degraded (execute_error r.1) l.fetched cached l.writes l.after phone
      (record s { breaker = r.0 })
      (execute-NotOpen l.before l.after (fetch_error l.fetched) s.breaker h)

-- Degraded mode is not entered: unless an error of WAHA's client has itself the code and the text
-- of an open breaker, a lookup leaves the flag as it is, also when the breaker refuses the call.
pub get_contact_display_name-degraded :
    (l : Lookup WaContact) (phone : Text) (s : ContactService)
    → NotOpen (fetch_error l.fetched)
    → (get_contact_display_name l phone s).0.degraded ≡ s.degraded
unfolding get_contact_display_name
get_contact_display_name-degraded l phone s h =
    let cached = cached_if l.reads (get_contact_by_phone phone s.contacts) in
    let is_group_id = has_suffix phone (codes "@g.us") || contains phone (codes "@g.us") in
    elim (Bool-cases is_group_id) [
      | inl a ↦ rw (a, get_contact_display_name) refl
      | inr a ↦ elim (Bool-cases (has_suffix phone (codes "@lid"))) [
        | inl b ↦ rw (a, b, get_contact_display_name) refl
        | inr b ↦ elim (Bool-cases (is_fresh l.before s.cache_hours cached)) [
          | inl d ↦ rw (a, b, d, get_contact_display_name) refl
          | inr d ↦
              rw (a, b, d, get_contact_display_name) (fetch_contact-degraded l phone cached s h)
        ]
      ]
    ]
