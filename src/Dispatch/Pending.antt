-- ===== src/Dispatch/Pending.antt =====
-- What ProcessPendingMessages leaves in the table.
use mathlib.Core.List.{append_assoc}
use whatsignal.Base.{
  ℕ, zero, suc, ◌+◌, ◌≡◌, refl, sym, ap, ◌∙◌, Bool, true, false, not, ◌&&◌, List, [], ◌∷◌, ◌++◌,
  any, take, drop, arith, if◌then◌else◌,
}
use whatsignal.Base.Text.{same_iff}
use whatsignal.Dispatch.{
  PendingMessage, has_key, delete_pending, increment_retry_count, Fate, process_one, process_each,
  process_pending_messages,
}

abbrev pub same_key : PendingMessage → PendingMessage → Bool
same_key p q = has_key p.message_id p.destination q

-- The key of each row is its own: the table's UNIQUE constraint.
abbrev pub Unique : List PendingMessage → Type 0
Unique [] = Unit
Unique (p ∷ ps) = (any (same_key p) ps ≡ false) × Unique ps

abbrev pub retried : PendingMessage → PendingMessage
retried p = record p { retry_count = p.retry_count + 1 }

same_key_refl : (p : PendingMessage) → same_key p p ≡ true
unfolding has_key
same_key_refl p =
    ground (arith, same_iff p.message_id p.message_id, same_iff p.destination p.destination)

same_key_sym : (p q : PendingMessage) → same_key p q ≡ same_key q p
unfolding has_key
same_key_sym p q = ground (
  arith,
  same_iff p.message_id q.message_id,
  same_iff p.destination q.destination,
  same_iff q.message_id p.message_id,
  same_iff q.destination p.destination,
)

delete_pending_absent :
    (p : PendingMessage) (rows : List PendingMessage)
    → any (same_key p) rows ≡ false
    → delete_pending p.message_id p.destination rows ≡ rows
unfolding delete_pending
delete_pending_absent p [] h = refl
delete_pending_absent p (q ∷ rows) h = ground (arith, delete_pending_absent p rows)

increment_retry_count_absent :
    (p : PendingMessage) (rows : List PendingMessage)
    → any (same_key p) rows ≡ false
    → increment_retry_count p.message_id p.destination rows ≡ rows
unfolding increment_retry_count
increment_retry_count_absent p [] h = refl
increment_retry_count_absent p (q ∷ rows) h = ground (arith, increment_retry_count_absent p rows)

take-drop : (n : ℕ) (rows : List PendingMessage) → take n rows ++ drop n rows ≡ rows
take-drop zero rows = refl
take-drop (suc n) [] = refl
take-drop (suc n) (p ∷ rows) = ap (λ ps. p ∷ ps) (take-drop n rows)

module _ (w : Fate) where
  -- What is left of the row of a message that was processed.
  abbrev pub left_of : PendingMessage → List PendingMessage
  left_of p =
      if w.writes p
      then if w.decodes p && not (w.succeeds p) then retried p ∷ [] else []
      else p ∷ []

  abbrev pub left_of_all : List PendingMessage → List PendingMessage
  left_of_all [] = []
  left_of_all (p ∷ ps) = left_of p ++ left_of_all ps

  process_one-head :
      (p : PendingMessage) (rows : List PendingMessage)
      → any (same_key p) rows ≡ false
      → process_one w p (p ∷ rows) ≡ left_of p ++ rows
  unfolding process_one delete_pending increment_retry_count
  process_one-head p rows h = ground (
    arith,
    same_key_refl p,
    delete_pending_absent p rows h,
    increment_retry_count_absent p rows h,
  )

  process_one-cons :
      (p q : PendingMessage) (rows : List PendingMessage)
      → same_key p q ≡ false
      → process_one w p (q ∷ rows) ≡ q ∷ process_one w p rows
  unfolding process_one delete_pending increment_retry_count
  process_one-cons p q rows h = ground arith

  process_each-cons :
      (ps : List PendingMessage) (q : PendingMessage) (rows : List PendingMessage)
      → any (same_key q) ps ≡ false
      → process_each w ps (q ∷ rows) ≡ q ∷ process_each w ps rows
  unfolding process_each
  process_each-cons [] q rows h = refl
  process_each-cons (p ∷ ps) q rows h =
      ap (process_each w ps) (process_one-cons p q rows (ground (arith, same_key_sym q p)))
      ∙ process_each-cons ps q (process_one w p rows) (ground arith)

  process_each-left_of :
      (ps : List PendingMessage) (p : PendingMessage) (rows : List PendingMessage)
      → any (same_key p) ps ≡ false
      → process_each w ps (left_of p ++ rows) ≡ left_of p ++ process_each w ps rows
  process_each-left_of ps p rows h =
      ground (arith, process_each-cons ps p rows h, process_each-cons ps (retried p) rows h)

  any-append_false :
      (p : PendingMessage) (ps rest : List PendingMessage)
      → any (same_key p) (ps ++ rest) ≡ false
      → any (same_key p) ps ≡ false
  any-append_false p [] rest h = refl
  any-append_false p (q ∷ ps) rest h = ground (arith, any-append_false p ps rest)

  process_each-append :
      (ps rest : List PendingMessage)
      → Unique (ps ++ rest)
      → process_each w ps (ps ++ rest) ≡ left_of_all ps ++ rest
  unfolding process_each
  process_each-append [] rest u = refl
  process_each-append (p ∷ ps) rest (new, u) =
      ap (process_each w ps) (process_one-head p (ps ++ rest) new)
      ∙ process_each-left_of ps p (ps ++ rest) (any-append_false p ps rest new)
      ∙ ap (λ rows. left_of p ++ rows) (process_each-append ps rest u)
      ∙ sym (append_assoc (left_of p) (left_of_all ps) rest)

  -- Pending messages: with the unique keys of the table, a run of ProcessPendingMessages drops,
  -- among the first 100 rows, those that were forwarded or cannot be read, and keeps every other
  -- one in its place: with one more retry if the bridge failed, and as it was if the database did.
  -- The rows after them stay.
  pub process_pending_messages_lem :
      (rows : List PendingMessage)
      → Unique rows
      → process_pending_messages w rows ≡ left_of_all (take 100 rows) ++ drop 100 rows
  unfolding process_pending_messages
  process_pending_messages_lem rows u =
      ap (process_each w (take 100 rows)) (sym (take-drop 100 rows))
      ∙ process_each-append (take 100 rows) (drop 100 rows) (rw (take-drop 100 rows) u)
