-- ===== src/Masking/Hiding.antt =====
-- What a masked text does not tell.
use whatsignal.Base.{
  ℕ, ◌-◌, ◌≡◌, ◌≢◌, refl, sym, ap, ◌∙◌, Bool, true, [], ◌∷◌, ◌++◌, length, drop, All, ◌==◌,
  if◌then◌else◌, leb, arith,
}
use whatsignal.Base.Text.{Text, codes, has_prefix, contains}
use whatsignal.Masking.{
  stars, split, join, mask_phone_number, mask_all_but_four, mask_chat_parts, mask_chat_id,
}
use whatsignal.Masking.Length.{join-split, split_parts}

-- The mask as a function of what it may tell.
shape : ℕ → Bool → Text → Text
shape n plus tail =
    if n == 0
    then []
    else if plus
    then (if n == 1
        then b'+' ∷ []
        else if leb n 5
        then b'+' ∷ stars (n - 1)
        else b'+' ∷ (stars (n - 5) ++ tail))
    else (if leb n 4 then stars n else stars (n - 4) ++ tail)

mask_phone_number-shape :
    (s : Text)
    → mask_phone_number s ≡ shape (length s) (has_prefix s (codes "+")) (drop (length s - 4) s)
unfolding mask_phone_number shape
mask_phone_number-shape [] = refl
mask_phone_number-shape (c ∷ []) = ground arith
mask_phone_number-shape (c ∷ d ∷ s) = ground arith

-- Two phone numbers of one length, both with a + or both without, that end in the same four bytes
-- have the same mask: it tells nothing else of a number.
pub mask_phone_number_hides :
    (a b : Text)
    → length a ≡ length b
    → has_prefix a (codes "+") ≡ has_prefix b (codes "+")
    → drop (length a - 4) a ≡ drop (length b - 4) b
    → mask_phone_number a ≡ mask_phone_number b
mask_phone_number_hides a b n p d =
    mask_phone_number-shape a ∙ cc (n, p, d) ∙ sym (mask_phone_number-shape b)

contains_at : (n d : Text) → contains (n ++ b'@' ∷ d) (codes "@") ≡ true
unfolding contains
contains_at [] d = refl
contains_at (c ∷ n) d = ground (arith, contains_at n d)

split_at :
    (sep : ℕ) (n d : Text) → All (λ c. c ≢ sep) n → split sep (n ++ sep ∷ d) ≡ n ∷ split sep d
unfolding split
split_at sep [] d h = ground arith
split_at sep (c ∷ n) d (ne, h) = ground (arith, split_at sep n d h)

mask_chat_id-parts :
    (s : Text) → contains s (codes "@") ≡ true → mask_chat_id s ≡ mask_chat_parts s (split b'@' s)
mask_chat_id-parts [] h = unfold contains in cc h
mask_chat_id-parts (c ∷ s) h = unfold mask_chat_id in rw h

-- Of a chat ID only the part before its first @ is masked, all but its last four bytes, which
-- leaves the domain to be read.
pub mask_chat_id_lem :
    (number domain : Text)
    → All (λ c. c ≢ b'@') number
    → mask_chat_id (number ++ b'@' ∷ domain) ≡ mask_all_but_four number ++ b'@' ∷ domain
unfolding mask_chat_parts
mask_chat_id_lem number domain h =
    let (q, qs, e) = split_parts b'@' domain in
    mask_chat_id-parts (number ++ b'@' ∷ domain) (contains_at number domain)
    ∙ ap (mask_chat_parts (number ++ b'@' ∷ domain))
        (split_at b'@' number domain h ∙ ap (◌∷◌ number) e)
    ∙ ap (λ t. mask_all_but_four number ++ b'@' ∷ t)
        (ap (join b'@') (sym e) ∙ join-split b'@' domain)
