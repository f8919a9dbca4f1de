-- ===== src/Store/Refinement.antt =====
-- The encrypted table of Store beside the plain table of Mappings.
use whatsignal.Base.{
  ℕ, ◌≡◌, refl, ap, Bool, List, [], ◌∷◌, map, Option, none, some, any, keep, Bool-cases, inl, inr,
}
use whatsignal.Base.Text.{Text, same, is_empty}
use whatsignal.Mappings.{
  MessageMapping, change, newest_first, Action, save, set_signal_id, set_status, delete_before,
  by_whatsapp_id, by_signal_id, by_either_id, latest, latest_group, has_history, Answer, found,
  exists, search_limit, chat_of_sender, Table, find_whatsapp, find_signal, find_either,
  append_mapping, replace_signal_id, replace_status, latest_of_session, latest_group_of_session,
  step, answers, or_find,
}
use whatsignal.Store.{
  Crypto, Nonces, Row, encode_mapping, select_whatsapp, select_signal, or_select, select_either,
  update_signal_id, update_status, recent, select_latest, select_latest_group, run_call,
}
use whatsignal.Store.Cipher.{IsSound, AreNonces}
use whatsignal.Store.Rows.{
  Rows, empty, Agree, any-Agree, keep-Rows, change-Rows, append-Rows, newest_first-Rows, take-Rows,
  scanned-find, scanned-first, scan_groups-find,
}
use whatsignal.Store.Encoded.{
  encode_mapping-Stores, set_signal-Stores, set_status-Stores, whatsapp-Agree, signal-Agree,
  session-Agree, chat-Agree, created-Agree,
}

-- Every call of the list draws nonces of the right size.
abbrev pub DrawNonces : List (Action × Nonces) → Type 0
DrawNonces [] = Unit
DrawNonces ((a, n) ∷ calls) = AreNonces n × DrawNonces calls

module _ (c : Crypto) (sound : IsSound c) (salt : Text) where
  module _ {rs : List Row} {ms : Table} (h : Rows c rs ms) where
    recent-Rows :
        (session : Text)
        → Rows c
            (recent session rs)
            (newest_first (λ m. m.forwarded_at) (keep (λ m. same m.session session) ms))
    recent-Rows session =
        newest_first-Rows c (keep-Rows c _ _ (session-Agree c sound salt session) h)

    select_whatsapp-find : (id : Text) → select_whatsapp c id rs ≡ found (find_whatsapp id ms)
    unfolding select_whatsapp find_whatsapp
    select_whatsapp-find id = scanned-find c _ _ (whatsapp-Agree c sound salt id) h

    select_signal-find : (id : Text) → select_signal c id rs ≡ found (find_signal id ms)
    unfolding select_signal find_signal
    select_signal-find id = scanned-find c _ _ (signal-Agree c sound salt id) h

    select_either-find : (id : Text) → select_either c id rs ≡ found (find_either id ms)
    unfolding select_either find_either
    select_either-find id =
        rw (select_whatsapp-find id, select_signal-find id)
          (or_select-found (find_whatsapp id ms) (find_signal id ms))
      where
        or_select-found :
            (x y : Option MessageMapping) → or_select (found x) (found y) ≡ found (or_find x y)
        or_select-found none y = refl
        or_select-found (some x) y = refl

    select_latest-find :
        (session : Text) → select_latest c session rs ≡ found (latest_of_session session ms)
    unfolding select_latest latest_of_session
    select_latest-find session = scanned-first c (recent-Rows session)

    select_latest_group-find :
        (session : Text) (limit : ℕ)
        → select_latest_group c session limit rs ≡ found (latest_group_of_session session limit ms)
    unfolding select_latest_group latest_group_of_session
    select_latest_group-find session limit =
        scan_groups-find c (take-Rows c (search_limit limit) (recent-Rows session))

  -- Two tables with the same answer, and rows that hold the mappings.
  abbrev Simulates : List Row × Answer → Table × Answer → Type 0
  Simulates (rs, x) (ms, y) = (x ≡ y) × Rows c rs ms

  change-status :
      (status : Text) (p : Row → Bool) (q : MessageMapping → Bool) {rs : List Row} {ms : Table}
      → Agree c p q
      → Rows c rs ms
      → Rows c
          (change p (λ r. record r { status = status }) rs)
          (change q (λ m. record m { status = status }) ms)
  change-status status p q a h =
      change-Rows c p q (λ r. record r { status = status }) (λ m. record m { status = status }) a
        (set_status-Stores c sound salt status) h

  update_status-Simulates :
      (id status : Text) (n : Nonces) {rs : List Row} {ms : Table}
      → Rows c rs ms
      → Simulates (run_call c salt (set_status id status, n) rs) (step (set_status id status) ms)
  unfolding run_call step update_status replace_status
  update_status-Simulates id status n {rs} {ms} h =
      let p = whatsapp-Agree c sound salt id in
      let q = signal-Agree c sound salt id in
      rw (any-Agree c _ _ p h, any-Agree c _ _ q h)
        elim (Bool-cases (any (λ m. same m.whatsapp_id id) ms)) [
          | inl e ↦ rw e (refl, change-status status _ _ p h)
          | inr e ↦ elim (Bool-cases (any (λ m. same m.signal_id id) ms)) [
            | inl f ↦ rw (e, f) (refl, change-status status _ _ q h)
            | inr f ↦ rw (e, f) (refl, h)
          ]
        ]

  -- One call on the rows answers as the call on the mappings, and the rows still hold them.
  run_call-Simulates :
      (a : Action) (n : Nonces) {rs : List Row} {ms : Table}
      → AreNonces n
      → Rows c rs ms
      → Simulates (run_call c salt (a, n) rs) (step a ms)
  unfolding run_call step append_mapping update_signal_id replace_signal_id
  run_call-Simulates (save m) n k h = elim (Bool-cases (is_empty m.session)) [
    | inl e ↦ rw e (refl, h)
    | inr e ↦
        rw e (
          refl,
          append-Rows c (encode_mapping c n m) m h (encode_mapping-Stores c sound salt n m k),
        )
  ]
  run_call-Simulates (set_signal_id id signal_id at status) n k h = (
    refl,
    change-Rows c _ _ _ _ (whatsapp-Agree c sound salt id)
        (set_signal-Stores c sound salt signal_id status at) h,
  )
  run_call-Simulates (set_status id status) n k h = update_status-Simulates id status n h
  run_call-Simulates (delete_before cutoff) n k h =
      (refl, keep-Rows c _ _ (created-Agree c sound salt cutoff) h)
  run_call-Simulates (by_whatsapp_id id) n k h = (select_whatsapp-find h id, h)
  run_call-Simulates (by_signal_id id) n k h = (select_signal-find h id, h)
  run_call-Simulates (by_either_id id) n k h = (select_either-find h id, h)
  run_call-Simulates (latest session) n k h = elim (Bool-cases (is_empty session)) [
    | inl e ↦ rw e (refl, h)
    | inr e ↦ rw e (select_latest-find h session, h)
  ]
  run_call-Simulates (latest_group session limit) n k h = elim (Bool-cases (is_empty session)) [
    | inl e ↦ rw e (refl, h)
    | inr e ↦ rw e (select_latest_group-find h session limit, h)
  ]
  run_call-Simulates (has_history session sender) n k h = elim (Bool-cases (is_empty session)) [
    | inl e ↦ rw e (refl, h)
    | inr e ↦ rw e (
      ap exists (
          any-Agree c _ _
            (λ r m s. rw (
              session-Agree c sound salt session r m s,
              chat-Agree c sound salt (chat_of_sender sender) r m s,
            ))
            h),
      h,
    )
  ]

  answers-Simulates :
      (calls : List (Action × Nonces)) {rs : List Row} {ms : Table}
      → DrawNonces calls
      → Rows c rs ms
      → answers (run_call c salt) calls rs ≡ answers step (map (λ call. call.0) calls) ms
  unfolding answers
  answers-Simulates [] k h = refl
  answers-Simulates ((a, n) ∷ calls) (k, ks) h =
      let (same_answer, h') = run_call-Simulates a n k h in
      rw (same_answer, answers-Simulates calls ks h')

-- The message store: over any sequence of calls that draw nonces of 12 bytes, and with sound
-- cryptography, the encrypted table gives the answers of the plain table of mappings.
pub answers-run_call :
    (c : Crypto) (salt : Text) (calls : List (Action × Nonces))
    → IsSound c
    → DrawNonces calls
    → answers (run_call c salt) calls [] ≡ answers step (map (λ call. call.0) calls) []
answers-run_call c salt calls sound k = answers-Simulates c sound salt calls k empty
