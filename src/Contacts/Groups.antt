-- ===== src/Contacts/Groups.antt =====
-- GroupService of internal/service/group_service.go: GetGroupName and RefreshGroup, over the table
-- groups of internal/database/database.go.
use whatsignal.Base.{ℕ, Bool, true, false, ◌&&◌, ◌||◌, List, Option, none, some, if◌then◌else◌}
use whatsignal.Base.Text.{Text, codes, same, is_empty, has_suffix}
use whatsignal.Breaker.{CircuitBreaker, execute}
use whatsignal.Mappings.{find}
use whatsignal.Contacts.{current_timestamp, upsert, delete_cached_before, is_valid}
use whatsignal.Contacts.Names.{
  ApiError, Fetched, failed, absent, present, fetch_error, Lookup, execute_error, is_open_error,
}

pub record WaGroup : Type 0 where
  pub id : Text
  pub subject : Text
  pub description : Text
  pub participants : ℕ

pub record Group : Type 0 where
  pub group_id : Text
  pub subject : Text
  pub description : Text
  pub participant_count : ℕ
  pub session_name : Text
  pub cached_at : ℕ

-- The choice in both methods GetDisplayName.
unfoldable pub best_subject : Text → Text → Text
best_subject subject id = if is_empty subject then id else subject

-- FromWAGroup, which leaves the time as it is, zero
unfoldable pub from_wa_group : Text → WaGroup → Group
from_wa_group session g = record {
  group_id = g.id;
  subject = g.subject;
  description = g.description;
  participant_count = g.participants;
  session_name = session;
  cached_at = 0;
}

-- SaveGroup, at this time of the clock
unfoldable pub save_group : ℕ → Group → List Group → List Group
unfolding upsert same
save_group now g rows =
    upsert (λ a b. same b.group_id a.group_id && same b.session_name a.session_name)
      (record g { cached_at = current_timestamp now }) rows

-- GetGroup
unfoldable pub get_group : Text → Text → List Group → Option Group
unfolding same
get_group id session rows = find (λ g. same g.group_id id && same g.session_name session) rows

-- CleanupOldGroups
unfoldable pub cleanup_old_groups : ℕ → List Group → List Group
unfolding delete_cached_before
cleanup_old_groups cutoff rows = delete_cached_before (λ g. g.cached_at) cutoff rows

pub record GroupService : Type 0 where
  pub groups : List Group
  pub cache_hours : ℕ
  pub breaker : CircuitBreaker
  pub degraded : Bool

abbrev pub subject_or : Option Group → Text → Text
subject_or none id = id
subject_or (some g) id = best_subject g.subject g.group_id

abbrev pub cached_group_if : Bool → Option Group → Option Group
cached_group_if false g = none
cached_group_if true g = g

-- After the call of WAHA.
unfoldable pub answer_group :
    Option ApiError
    → Fetched WaGroup
    → Option Group
    → Bool
    → ℕ
    → Text
    → Text
    → GroupService
    → GroupService × Text
unfolding is_open_error best_subject from_wa_group save_group
answer_group (some e) fetched cached writes now id session s =
    (record s { degraded = is_open_error e || s.degraded }, subject_or cached id)
answer_group none (failed e) cached writes now id session s = (s, id)
answer_group none absent cached writes now id session s = (s, id)
answer_group none (present g) cached writes now id session s =
    if writes
    then (
      record s { groups = save_group now (from_wa_group session g) s.groups },
      best_subject g.subject g.id,
    )
    else (s, best_subject g.subject g.id)

-- The call of WAHA, through the breaker.
unfoldable pub fetch_group :
    Lookup WaGroup → Text → Text → Option Group → GroupService → GroupService × Text
unfolding execute execute_error answer_group
fetch_group l id session cached s =
    let (breaker, outcome) = execute l.before l.after (fetch_error l.fetched) s.breaker in
    answer_group (execute_error outcome) l.fetched cached l.writes l.after id session
      (record s { breaker = breaker })

abbrev pub is_fresh_group : ℕ → ℕ → Option Group → Bool
is_fresh_group now hours none = false
is_fresh_group now hours (some g) = is_valid now hours g.cached_at

-- GetGroupName
unfoldable pub get_group_name : Lookup WaGroup → Text → Text → GroupService → GroupService × Text
unfolding has_suffix get_group is_valid fetch_group best_subject
get_group_name l id session s =
    let cached = cached_group_if l.reads (get_group id session s.groups) in
    let asked = fetch_group l id session cached s in
    if has_suffix id (codes "@g.us")
    then if is_fresh_group l.before s.cache_hours cached then (s, subject_or cached id) else asked
    else (s, id)

-- RefreshGroup; the result says whether a group was found and saved
unfoldable pub refresh_group : Lookup WaGroup → Text → Text → GroupService → GroupService × Bool
unfolding has_suffix from_wa_group save_group
refresh_group l id session s =
    if has_suffix id (codes "@g.us")
    then elim l.fetched [
      | failed e ↦ (s, false)
      | absent ↦ (s, false)
      | present g ↦
          if l.writes
          then (record s { groups = save_group l.after (from_wa_group session g) s.groups }, true)
          else (s, false)
    ]
    else (s, false)
