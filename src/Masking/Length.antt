-- ===== src/Masking/Length.antt =====
-- Masking keeps the length of what it masks.
use whatsignal.Base.{
  ==_iff, ℕ, suc, ◌+◌, ◌-◌, ◌≡◌, refl, ap, ◌∙◌, List, [], ◌∷◌, ◌++◌, length, drop, arith,
  length-append, length-drop, length-replicate, ◌==◌, Bool-cases, inl, inr,
}
use whatsignal.Base.Text.{Text}
use whatsignal.Masking.{
  stars, starts_part, split, join, mask_string, mask_phone_number, mask_all_but_four,
  mask_chat_parts, mask_chat_id, mask_message_parts, mask_message_id, mask_contact_id,
  mask_session_rest, mask_session_parts, mask_session_name, mask_field,
}

length-stars : (n : ℕ) → length (stars n) ≡ n
length-stars n = length-replicate {A = ℕ} n b'*'

length-masked :
    (s : Text) (n : ℕ) → length (stars (length s - n) ++ drop (length s - n) s) ≡ length s
length-masked s n = omega (
  arith,
  length-append (stars (length s - n)) (drop (length s - n) s),
  length-drop (length s - n) s,
  length-stars (length s - n),
)

length-mask_string : (s : Text) (n : ℕ) → length (mask_string s n) ≡ length s
unfolding mask_string
length-mask_string [] n = refl
length-mask_string (c ∷ s) n =
    ground (arith, length-masked (c ∷ s) n, length-stars (length (c ∷ s)))

length-mask_all_but_four : (s : Text) → length (mask_all_but_four s) ≡ length s
unfolding mask_all_but_four
length-mask_all_but_four s = ground (arith, length-masked s 4, length-stars (length s))

length-mask_phone_number : (s : Text) → length (mask_phone_number s) ≡ length s
unfolding mask_phone_number
length-mask_phone_number [] = refl
length-mask_phone_number (c ∷ s) =
    let n = length (c ∷ s) in
    ground (
      arith,
      length-masked (c ∷ s) 4,
      length-stars n,
      length-stars (n - 1),
      length-stars (n - 5),
      length-append (stars (n - 5)) (drop (n - 4) (c ∷ s)),
      length-drop (n - 4) (c ∷ s),
    )

-- strings.Join undoes strings.Split.
join-starts_part :
    (sep c : ℕ) (p : Text) (ps : List Text)
    → join sep (starts_part c (p ∷ ps)) ≡ c ∷ join sep (p ∷ ps)
unfolding join
join-starts_part sep c p [] = refl
join-starts_part sep c p (q ∷ ps) = refl

join-nil-cons :
    (sep : ℕ) (p : Text) (ps : List Text) → join sep ([] ∷ p ∷ ps) ≡ sep ∷ join sep (p ∷ ps)
unfolding join
join-nil-cons sep p ps = refl

pub split_parts : (sep : ℕ) (s : Text) → (p : Text) × (ps : List Text) × (split sep s ≡ p ∷ ps)
unfolding split
split_parts sep [] = ([], [], refl)
split_parts sep (c ∷ cs) = elim (Bool-cases (c == sep)) [
  | inl e ↦ ([], split sep cs, rw e)
  | inr e ↦ let (p, ps, q) = split_parts sep cs in (c ∷ p, ps, rw (e, q))
]

pub join-split : (sep : ℕ) (s : Text) → join sep (split sep s) ≡ s
unfolding split
join-split sep [] = unfold join in refl
join-split sep (c ∷ cs) =
    let (p, ps, q) = split_parts sep cs in
    let ih : join sep (p ∷ ps) ≡ cs = rw (← q) (join-split sep cs) in
    elim (Bool-cases (c == sep)) [
      | inl e ↦
          let same : c ≡ sep = (==_iff c sep).0 e in
          rw (e, q) (join-nil-cons sep p ps ∙ cc (same, ih))
      | inr e ↦ rw (e, q) (join-starts_part sep c p ps ∙ ap (◌∷◌ c) ih)
    ]

length-join-cons :
    (sep : ℕ) (p q : Text) (ps : List Text)
    → length (join sep (p ∷ q ∷ ps)) ≡ length p + suc (length (join sep (q ∷ ps)))
length-join-cons sep p q ps = unfold join in length-append p (sep ∷ join sep (q ∷ ps))

length-mask_chat_parts :
    (s : Text) (parts : List Text)
    → length (join b'@' parts) ≡ length s
    → length (mask_chat_parts s parts) ≡ length s
unfolding mask_chat_parts
length-mask_chat_parts s [] h = length-mask_all_but_four s
length-mask_chat_parts s (p ∷ []) h = length-mask_all_but_four s
length-mask_chat_parts s (p ∷ q ∷ ps) h =
    length-append (mask_all_but_four p) (b'@' ∷ join b'@' (q ∷ ps))
    ∙ omega (arith, length-mask_all_but_four p, length-join-cons b'@' p q ps)

pub length-mask_chat_id : (s : Text) → length (mask_chat_id s) ≡ length s
length-mask_chat_id [] = unfold mask_chat_id in refl
length-mask_chat_id (c ∷ s) =
    unfold mask_chat_id in
    ground (
      arith,
      length-mask_all_but_four (c ∷ s),
      length-mask_chat_parts (c ∷ s) (split b'@' (c ∷ s)) (ap length (join-split b'@' (c ∷ s))),
    )

length-mask_message_parts :
    (s : Text) (parts : List Text)
    → length (join b'_' parts) ≡ length s
    → length (mask_message_parts s parts) ≡ length s
unfolding mask_message_parts
length-mask_message_parts s [] h = length-mask_string s 8
length-mask_message_parts s (p ∷ []) h = length-mask_string s 8
length-mask_message_parts s (p ∷ q ∷ []) h = length-mask_string s 8
length-mask_message_parts s (p ∷ q ∷ m ∷ ms) h = omega (
  arith,
  h,
  length-append p (b'_' ∷ (mask_chat_id q ++ b'_' ∷ mask_string (join b'_' (m ∷ ms)) 4)),
  length-append (mask_chat_id q) (b'_' ∷ mask_string (join b'_' (m ∷ ms)) 4),
  length-mask_chat_id q,
  length-mask_string (join b'_' (m ∷ ms)) 4,
  length-join-cons b'_' p q (m ∷ ms),
  length-join-cons b'_' q m ms,
)

length-mask_message_id : (s : Text) → length (mask_message_id s) ≡ length s
length-mask_message_id [] = unfold mask_message_id in refl
length-mask_message_id (c ∷ s) =
    unfold mask_message_id in
    ground (
      arith,
      length-mask_string (c ∷ s) 8,
      length-mask_message_parts (c ∷ s) (split b'_' (c ∷ s)) (ap length (join-split b'_' (c ∷ s))),
    )

length-mask_session_rest :
    (p : Text) (ps : List Text)
    → length (mask_session_rest (p ∷ ps)) ≡ suc (length (join b'-' (p ∷ ps)))
unfolding mask_session_rest
length-mask_session_rest p [] = unfold join in ap suc (length-mask_string p 3)
length-mask_session_rest p (q ∷ ps) = omega (
  arith,
  length-append (stars (length p)) (mask_session_rest (q ∷ ps)),
  length-stars (length p),
  length-mask_session_rest q ps,
  length-join-cons b'-' p q ps,
)

length-mask_session_parts :
    (s : Text) (parts : List Text)
    → length (join b'-' parts) ≡ length s
    → length (mask_session_parts s parts) ≡ length s
unfolding mask_session_parts
length-mask_session_parts s [] h = length-mask_string s 3
length-mask_session_parts s (p ∷ []) h = length-mask_string s 3
length-mask_session_parts s (p ∷ q ∷ ps) h = omega (
  arith,
  h,
  length-append p (mask_session_rest (q ∷ ps)),
  length-mask_session_rest q ps,
  length-join-cons b'-' p q ps,
)

length-mask_session_name : (s : Text) → length (mask_session_name s) ≡ length s
length-mask_session_name [] = unfold mask_session_name in refl
length-mask_session_name (c ∷ s) =
    unfold mask_session_name in
    ground (
      arith,
      length-mask_string (c ∷ s) 3,
      length-mask_session_parts (c ∷ s) (split b'-' (c ∷ s)) (ap length (join-split b'-' (c ∷ s))),
    )

length-mask_contact_id : (s : Text) → length (mask_contact_id s) ≡ length s
length-mask_contact_id [] = unfold mask_contact_id in refl
length-mask_contact_id (c ∷ s) =
    unfold mask_contact_id in
    ground (arith, length-mask_string (c ∷ s) 4, length-mask_phone_number (c ∷ s))

-- Masking a log field keeps its length, whatever the key and the text: no byte is lost or added for
-- phone numbers, chat, message, user and contact IDs and session names.
pub length-mask_field : (k s : Text) → length (mask_field k s) ≡ length s
length-mask_field k s =
    unfold mask_field in
    ground (
      arith,
      length-mask_phone_number s,
      length-mask_chat_id s,
      length-mask_message_id s,
      length-mask_contact_id s,
      length-mask_session_name s,
    )
