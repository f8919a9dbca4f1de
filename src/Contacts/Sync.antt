-- ===== src/Contacts/Sync.antt =====
-- SyncAllContacts and SyncAllGroups: the loop over batches, and what it comes to.
use Prim.Native.Nat.{min}
use whatsignal.Base.{
  ltb→lt, ℕ, zero, suc, ◌+◌, ◌*◌, ◌≤◌, ◌<◌, ◌≡◌, refl, sym, ap, ◌∙◌, Bool, false, List, [], ◌∷◌,
  Option, none, some, length, take, drop, ltb, if◌then◌else◌, arith, length-take, length-drop,
  Bool-cases, inl, inr,
}

pub data SyncEnd : Type 0 where
  synced fetch_failed cancelled out_of_rounds : SyncEnd

-- DefaultContactSyncBatchSize
abbrev pub batch_size : ℕ
batch_size = 100

module _ {ℓ κ} {A : Type ℓ} {T : Type κ} (save : A → T → T) where
  -- The loop over a batch; a save that fails is one that keeps the table.
  unfoldable pub save_all : List A → T → T
  save_all [] t = t
  save_all (a ∷ rest) t = save_all rest (save a t)

  -- What follows a batch that was fetched: it is saved, and the next one follows a full one.
  abbrev after_batch : Bool → (T → T × SyncEnd) → List A → T → T × SyncEnd
  after_batch stop next [] t = (t, synced)
  after_batch stop next (a ∷ rest) t =
      let t' = save_all (a ∷ rest) t in
      if ltb (length (a ∷ rest)) batch_size
      then (t', synced)
      else if stop
      then (t', cancelled)
      else next t'

  -- The loop, with the rounds left and the offset: what WAHA answers at an offset, none for an
  -- error, and whether the context is done in the wait after it.
  unfoldable pub sync_loop : (ℕ → Option (List A)) → (ℕ → Bool) → ℕ → ℕ → T → T × SyncEnd
  sync_loop fetch done zero offset t = (t, out_of_rounds)
  sync_loop fetch done (suc rounds) offset t =
      let next = sync_loop fetch done rounds (offset + batch_size) in
      elim (fetch offset) [
        | none ↦ (t, fetch_failed)
        | some batch ↦ after_batch (done offset) next batch t
      ]

  save_all-take-drop :
      (n : ℕ) (xs : List A) (t : T) → save_all (drop n xs) (save_all (take n xs) t) ≡ save_all xs t
  unfolding save_all
  save_all-take-drop zero xs t = refl
  save_all-take-drop (suc n) [] t = refl
  save_all-take-drop (suc n) (x ∷ xs) t = save_all-take-drop n xs (save x t)

  drop-short : (n : ℕ) (xs : List A) → length xs ≤ n → drop n xs ≡ []
  drop-short zero [] h = refl
  drop-short zero (x ∷ xs) h = absurd (omega arith)
  drop-short (suc n) [] h = refl
  drop-short (suc n) (x ∷ xs) h = drop-short n xs (omega arith)

  drop_same : (m n : ℕ) (xs : List A) → m ≡ n → drop m xs ≡ drop n xs
  drop_same m n xs h = ap (λ k. drop k xs) h

  drop-nil : (n : ℕ) → drop {A = A} n [] ≡ []
  drop-nil zero = refl
  drop-nil (suc n) = refl

  drop-drop : (m n : ℕ) (xs : List A) → drop (m + n) xs ≡ drop n (drop m xs)
  drop-drop zero n xs = drop_same (0 + n) n xs (omega arith)
  drop-drop (suc m) n [] = drop-nil (suc m + n) ∙ sym (drop-nil n)
  drop-drop (suc m) n (x ∷ xs) =
      drop_same (suc m + n) (suc (m + n)) (x ∷ xs) (omega arith) ∙ drop-drop m n xs

  save_all-short :
      (xs : List A) (t : T)
      → length xs ≤ batch_size
      → save_all (take batch_size xs) t ≡ save_all xs t
  unfolding save_all
  save_all-short xs t h =
      ap (λ rest. save_all rest (save_all (take batch_size xs) t))
        (sym (drop-short batch_size xs h))
      ∙ save_all-take-drop batch_size xs t

  after_batch-listed :
      (next : T → T × SyncEnd) (xs : List A) (t : T)
      → (batch_size ≤ length xs
          → next (save_all (take batch_size xs) t)
            ≡ (save_all (drop batch_size xs) (save_all (take batch_size xs) t), synced))
      → after_batch false next (take batch_size xs) t ≡ (save_all xs t, synced)
  unfolding save_all
  after_batch-listed next [] t h = refl
  after_batch-listed next (x ∷ xs) t h =
      elim (Bool-cases (ltb (length (take batch_size (x ∷ xs))) batch_size)) [
        | inl e ↦ rw e (
            ap (λ u. (u, synced))
              (save_all-short (x ∷ xs) t (short (length xs) _ (length-take 99 xs) (ltb→lt _ _ e))))
        | inr e ↦ rw e (
            h (long (length xs) _ (length-take 99 xs) e)
            ∙ ap (λ u. (u, synced)) (save_all-take-drop batch_size (x ∷ xs) t))
      ]
    where
      short : (n k : ℕ) → k ≡ min 99 n → suc k < batch_size → suc n ≤ batch_size
      short n k h l = omega (arith, h, l)

      long : (n k : ℕ) → k ≡ min 99 n → ltb (suc k) batch_size ≡ false → batch_size ≤ suc n
      long n k h l = ground (arith, h, l)

  -- WAHA lists all contacts at any offset, and no wait is cut short.
  sync_loop-listed :
      (all : List A) (rounds offset : ℕ) (t : T)
      → length (drop offset all) < rounds * batch_size
      → sync_loop (λ o. some (take batch_size (drop o all))) (λ o. false) rounds offset t
        ≡ (save_all (drop offset all) t, synced)
  unfolding sync_loop
  sync_loop-listed all zero offset t h = absurd (omega (arith, h))
  sync_loop-listed all (suc rounds) offset t h =
      let listed : ℕ → Option (List A) = λ o. some (take batch_size (drop o all)) in
      let next = sync_loop listed (λ o. false) rounds (offset + batch_size) in
      after_batch-listed next (drop offset all) t λ full.
        sync_loop-listed all rounds (offset + batch_size) _ (
          omega (
            arith,
            h,
            full,
            ap length (drop-drop offset batch_size all),
            length-drop batch_size (drop offset all),
          ))
        ∙ ap (λ xs. (save_all xs (save_all (take batch_size (drop offset all)) t), synced))
            (drop-drop offset batch_size all)

-- The contact and group syncs: if WAHA lists the same contacts at every offset, answers every
-- request and the context is not cancelled, the loop over batches ends, with one round more than
-- full batches at most, and has saved every contact in WAHA's order, as one loop over all of them.
pub sync_loop-save_all {ℓ κ} :
    {A : Type ℓ} {T : Type κ} (save : A → T → T) (all : List A) (rounds : ℕ) (t : T)
    → length all < rounds * batch_size
    → sync_loop save (λ o. some (take batch_size (drop o all))) (λ o. false) rounds 0 t
      ≡ (save_all save all t, synced)
sync_loop-save_all save all rounds t h = sync_loop-listed save all rounds 0 t h
