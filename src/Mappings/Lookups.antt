-- ===== src/Mappings/Lookups.antt =====
-- What a lookup finds after an insertion or an update of the message table.
use whatsignal.Base.{
  ℕ, ◌≡◌, refl, Bool, true, false, [], ◌∷◌, ◌++◌, Option, none, some, any, arith, Bool-cases, inl,
  inr, if◌then◌else◌,
}
use whatsignal.Base.Text.{Text, same, same_refl}
use whatsignal.Mappings.{
  MessageMapping, Table, find, change, find_whatsapp, find_signal, find_either, or_find,
  append_mapping, replace_signal_id,
}

-- Some mapping has the WhatsApp ID.
unfoldable pub is_mapped : Text → Table → Bool
unfolding same
is_mapped id ms = any (λ m. same m.whatsapp_id id) ms

find-any :
    (p : MessageMapping → Bool) (ms : Table)
    → any p ms ≡ true
    → (m : MessageMapping) × (find p ms ≡ some m)
find-any p [] h = absurd (ground arith)
find-any p (m ∷ ms) h = elim (Bool-cases (p m)) [
  | inl e ↦ (m, rw e refl)
  | inr e ↦ let (n, found_later) = find-any p ms (ground (arith, h, e)) in (n, rw e found_later)
]

pub find_either-is_mapped :
    (id : Text) (ms : Table)
    → is_mapped id ms ≡ true
    → (m : MessageMapping) × (find_either id ms ≡ some m)
unfolding find_either find_whatsapp find_signal is_mapped
find_either-is_mapped id ms h =
    let (m, e) = find-any (λ m. same m.whatsapp_id id) ms h in (m, rw e refl)

any-append :
    (p : MessageMapping → Bool) (m : MessageMapping) (ms : Table)
    → p m ≡ true
    → any p (ms ++ m ∷ []) ≡ true
any-append p m [] h = ground (arith, h)
any-append p m (n ∷ ms) h = ground (arith, any-append p m ms h)

pub is_mapped-append_mapping :
    (m : MessageMapping) (ms : Table) → is_mapped m.whatsapp_id (append_mapping m ms) ≡ true
unfolding is_mapped append_mapping
is_mapped-append_mapping m ms =
    any-append (λ n. same n.whatsapp_id m.whatsapp_id) m ms (same_refl m.whatsapp_id)

pub is_mapped_later :
    (id : Text) (m : MessageMapping) (ms : Table)
    → is_mapped id ms ≡ true
    → is_mapped id (append_mapping m ms) ≡ true
unfolding is_mapped append_mapping
is_mapped_later id m [] h = absurd (ground arith)
is_mapped_later id m (n ∷ ms) h = ground (arith, is_mapped_later id m ms, h)

pub is_mapped-replace_signal_id :
    (id other signal_id status : Text) (at : ℕ) (ms : Table)
    → is_mapped id (replace_signal_id other signal_id at status ms) ≡ is_mapped id ms
unfolding is_mapped replace_signal_id
is_mapped-replace_signal_id id other signal_id status at [] = refl
is_mapped-replace_signal_id id other signal_id status at (m ∷ ms) =
    let rest = is_mapped-replace_signal_id id other signal_id status at ms in
    elim (Bool-cases (same m.whatsapp_id other)) [
      | inl e ↦ rw (e, rest) refl
      | inr e ↦ rw (e, rest) refl
    ]

change-append :
    (p : MessageMapping → Bool) (f : MessageMapping → MessageMapping) (m : MessageMapping)
    (ms : Table)
    → any p ms ≡ false
    → p m ≡ true
    → change p f (ms ++ m ∷ []) ≡ ms ++ f m ∷ []
change-append p f m [] h k = rw k refl
change-append p f m (n ∷ ms) h k =
    let unfit : p n ≡ false = ground (arith, h) in
    let later : any p ms ≡ false = ground (arith, h) in
    rw (unfit, change-append p f m ms later k) refl

-- The update of a mapping that was just inserted, and is the only one with its WhatsApp ID.
pub replace_signal_id-append_mapping :
    (m : MessageMapping) (signal_id status : Text) (at : ℕ) (ms : Table)
    → is_mapped m.whatsapp_id ms ≡ false
    → replace_signal_id m.whatsapp_id signal_id at status (append_mapping m ms)
      ≡ append_mapping
          (record m { signal_id = signal_id; signal_timestamp = at; status = status })
          ms
unfolding replace_signal_id append_mapping is_mapped
replace_signal_id-append_mapping m signal_id status at ms h =
    change-append (λ n. same n.whatsapp_id m.whatsapp_id)
      (λ n. record n { signal_id = signal_id; signal_timestamp = at; status = status }) m ms h
      (same_refl m.whatsapp_id)

find-append :
    (p : MessageMapping → Bool) (m : MessageMapping) (ms : Table)
    → find p ms ≡ none
    → find p (ms ++ m ∷ []) ≡ (if p m then some m else none)
find-append p m [] h = refl
find-append p m (n ∷ ms) h = ground (arith, h, find-append p m ms)

-- An ID that no mapping has finds the inserted mapping if that has it as its Signal ID.
pub find_either-append_mapping :
    (id : Text) (m : MessageMapping) (ms : Table)
    → find_either id ms ≡ none
    → same m.whatsapp_id id ≡ false
    → find_either id (append_mapping m ms) ≡ (if same m.signal_id id then some m else none)
unfolding find_either find_whatsapp find_signal append_mapping
find_either-append_mapping id m ms h k =
    let (w, s) = neither (find_whatsapp id ms) (find_signal id ms) h in
    rw
      (
        find-append (λ n. same n.whatsapp_id id) m ms w,
        find-append (λ n. same n.signal_id id) m ms s,
        k,
      )
      refl
  where
    neither : (x y : Option MessageMapping) → or_find x y ≡ none → (x ≡ none) × (y ≡ none)
    neither none y e = (refl, e)
    neither (some m) y e = absurd (ground (arith, e))
