-- ===== src/Contacts/Tests.antt =====
-- Lookups and a sync at concrete inputs.
use whatsignal.Base.{ℕ, ◌≡◌, refl, Bool, [], ◌∷◌, ◌++◌, none, some, take, drop, arith, true, false}
use whatsignal.Base.Text.{codes, same, contains, has_prefix, has_suffix}
use whatsignal.Breaker.{new, execute, returned, open_circuit}
use whatsignal.Contacts.{
  WaContact, from_wa_contact, get_contact, get_contact_by_phone, contact_id_of, wa_contact_name,
}
use whatsignal.Contacts.Names.{
  ApiError, Fetched, absent, present, Lookup, ContactService, get_contact_display_name,
}
use whatsignal.Contacts.Cached.{
  row_at, IsPhone, get_contact_display_name-cached, get_contact_display_name-degraded,
}
use whatsignal.Contacts.Synced.{sync_save, sync_loop-get_contact}
use whatsignal.Contacts.Sync.{batch_size, synced, sync_loop}

abbrev ann : WaContact
ann = record {
  id = codes "15550001@c.us";
  number = codes "15550001";
  name = [];
  push_name = codes "Ann";
  short_name = [];
  is_blocked = false;
  is_group = false;
  is_my_contact = true;
}

abbrev service : ContactService
service = record {
  contacts = [];
  cache_hours = 24;
  breaker = new (codes "whatsapp-contact-api") 5 30000000000;
  degraded = false;
}

abbrev lookup_at : ℕ → Fetched WaContact → Lookup WaContact
lookup_at now answer = record {
  before = now;
  after = now;
  reads = true;
  writes = true;
  fetched = answer;
}

ann-IsPhone : IsPhone (codes "15550001")
unfolding has_suffix contains has_prefix same
ann-IsPhone = record { no_group_suffix = refl; no_group = refl; no_lid = refl }

lets_through : (execute {E = ApiError} 10 10 none service.breaker).1 ≡ returned none
unfolding execute new
lets_through = refl

ann_id : ann.id ≡ contact_id_of (codes "15550001")
unfolding contact_id_of has_suffix same
ann_id = refl

get_contact_display_name-cached_example :
    ((get_contact_display_name (lookup_at 10 (present ann)) (codes "15550001") service).1
      ≡ wa_contact_name ann)
    × (get_contact_display_name
          (lookup_at 3600000000000 absent)
          (codes "15550001")
          (get_contact_display_name (lookup_at 10 (present ann)) (codes "15550001") service).0
        ≡ (
          (get_contact_display_name (lookup_at 10 (present ann)) (codes "15550001") service).0,
          wa_contact_name ann,
        ))
unfolding get_contact_by_phone get_contact
get_contact_display_name-cached_example =
    get_contact_display_name-cached (lookup_at 10 (present ann)) (lookup_at 3600000000000 absent)
      (codes "15550001") ann service ann-IsPhone refl refl refl lets_through ann_id refl
      (omega arith)

-- An open breaker, and a lookup that it refuses.
abbrev tripped : ContactService
tripped = record service { breaker = record service.breaker { state = open_circuit } }

get_contact_display_name-degraded_example :
    (get_contact_display_name (lookup_at 10 absent) (codes "15550001") tripped).0.degraded ≡ false
get_contact_display_name-degraded_example =
    get_contact_display_name-degraded (lookup_at 10 absent) (codes "15550001") tripped
      (λ e h. absurd (ground (arith, h)))

abbrev bob : WaContact
bob = record ann { id = codes "2@c.us"; name = codes "Bob" }

-- The save of Bob fails.
abbrev saves_ann : WaContact → Bool
saves_ann c = same c.name []

sync_loop-get_contact_example :
    let out =
      sync_loop
        (sync_save (λ c. 5) saves_ann)
        (λ o. some (take batch_size (drop o ([] ++ ann ∷ bob ∷ []))))
        (λ o. false)
        1
        0
        [] in
    (out.1 ≡ synced) × (get_contact ann.id out.0 ≡ some (row_at 5 (from_wa_contact ann)))
unfolding same
sync_loop-get_contact_example =
    sync_loop-get_contact (λ c. 5) saves_ann [] (bob ∷ []) ann 1 [] (omega arith) refl refl
