-- ===== src/Contacts/Synced.antt =====
-- SyncAllContacts on the table of contacts.
use whatsignal.Base.{
  ℕ, ◌*◌, ◌<◌, ◌≡◌, refl, ap, ◌∙◌, Bool, true, false, List, [], ◌∷◌, ◌++◌, Option, some, any,
  length, take, drop, arith, Bool-cases, inl, inr, if◌then◌else◌,
}
use whatsignal.Base.Text.{Text, same, same_iff}
use whatsignal.Contacts.{WaContact, Contact, from_wa_contact, upsert, save_contact, get_contact}
use whatsignal.Contacts.Cached.{row_at, get_contact-save_contact}
use whatsignal.Contacts.Sync.{batch_size, synced, save_all, sync_loop, sync_loop-save_all}

module _ (at : WaContact → ℕ) (works : WaContact → Bool) where
  -- The save of one contact in SyncAllContacts, when it is made and whether it works; the loop goes
  -- on if it does not.
  unfoldable pub sync_save : WaContact → List Contact → List Contact
  unfolding save_contact from_wa_contact
  sync_save c rows = if works c then save_contact (at c) (from_wa_contact c) rows else rows

  get_contact-other :
      (now : ℕ) (d : Contact) (id : Text) (rows : List Contact)
      → same d.contact_id id ≡ false
      → get_contact id (save_contact now d rows) ≡ get_contact id rows
  unfolding get_contact save_contact upsert
  get_contact-other now d id [] h = rw h refl
  get_contact-other now d id (e ∷ rows) h = elim (Bool-cases (same e.contact_id d.contact_id)) [
    | inl k ↦
        let other : same e.contact_id id ≡ false =
          ap (λ x. same x id) ((same_iff e.contact_id d.contact_id).0 k) ∙ h in
        rw (k, h, other) refl
    | inr k ↦ rw k (elim (Bool-cases (same e.contact_id id)) [
      | inl f ↦ rw f refl
      | inr f ↦ rw f (get_contact-other now d id rows h)
    ])
  ]

  sync_save-other :
      (d : WaContact) (id : Text) (rows : List Contact)
      → same d.id id ≡ false
      → get_contact id (sync_save d rows) ≡ get_contact id rows
  unfolding sync_save from_wa_contact
  sync_save-other d id rows h = elim (Bool-cases (works d)) [
    | inl e ↦ rw e (get_contact-other (at d) (from_wa_contact d) id rows h)
    | inr e ↦ rw e refl
  ]

  save_all-other :
      (ds : List WaContact) (id : Text) (rows : List Contact)
      → any (λ d. same d.id id) ds ≡ false
      → get_contact id (save_all sync_save ds rows) ≡ get_contact id rows
  unfolding save_all
  save_all-other [] id rows h = refl
  save_all-other (d ∷ ds) id rows h =
      save_all-other ds id (sync_save d rows) (ground (arith, h))
      ∙ sync_save-other d id rows (ground (arith, h))

  save_all-append :
      (xs ys : List WaContact) (rows : List Contact)
      → save_all sync_save (xs ++ ys) rows ≡ save_all sync_save ys (save_all sync_save xs rows)
  unfolding save_all
  save_all-append [] ys rows = refl
  save_all-append (x ∷ xs) ys rows = save_all-append xs ys (sync_save x rows)

  save_all-saved :
      (c : WaContact) (after : List WaContact) (rows : List Contact)
      → works c ≡ true
      → any (λ d. same d.id c.id) after ≡ false
      → get_contact c.id (save_all sync_save (c ∷ after) rows)
        ≡ some (row_at (at c) (from_wa_contact c))
  unfolding save_all sync_save from_wa_contact
  save_all-saved c after rows w h =
      save_all-other after c.id (sync_save c rows) h
      ∙ rw w (get_contact-save_contact (at c) (from_wa_contact c) rows)

-- The contact sync: if WAHA lists the same contacts at every offset, answers every request and the
-- context is not cancelled, the loop over batches ends, with one round more than full batches at
-- most. Afterwards the table has, for each contact whose save works and which no contact with the
-- same ID follows in WAHA's list, the row of that contact at the time of its save, whichever of the
-- other saves fail.
pub sync_loop-get_contact :
    (at : WaContact → ℕ) (works : WaContact → Bool) (before after : List WaContact) (c : WaContact)
    (rounds : ℕ) (rows : List Contact)
    → length (before ++ c ∷ after) < rounds * batch_size
    → works c ≡ true
    → any (λ d. same d.id c.id) after ≡ false
    → let listed : ℕ → Option (List WaContact) =
        λ o. some (take batch_size (drop o (before ++ c ∷ after))) in
      let out = sync_loop (sync_save at works) listed (λ o. false) rounds 0 rows in
      (out.1 ≡ synced) × (get_contact c.id out.0 ≡ some (row_at (at c) (from_wa_contact c)))
sync_loop-get_contact at works before after c rounds rows h w k =
    let all = before ++ c ∷ after in
    let ended = sync_loop-save_all (sync_save at works) all rounds rows h in
    let saved =
      ap (get_contact c.id) (save_all-append at works before (c ∷ after) rows)
      ∙ save_all-saved at works c after (save_all (sync_save at works) before rows) w k in
    (ap (λ x. x.1) ended, ap (λ x. get_contact c.id x.0) ended ∙ saved)
