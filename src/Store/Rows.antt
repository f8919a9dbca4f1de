-- ===== src/Store/Rows.antt =====
-- Rows that hold mappings, and what list operations keep of it.
use whatsignal.Base.{
  ℕ, zero, suc, ◌≡◌, refl, ap, ◌∙◌, Bool, List, [], ◌∷◌, ◌++◌, Option, none, some, any, keep, take,
  arith, ltb, Bool-cases, inl, inr,
}
use whatsignal.Mappings.{
  MessageMapping, find, change, insert_newest, newest_first, first, found, is_group, Table,
}
use whatsignal.Store.{
  Crypto, Row, decrypt, lookup_hash, decode_row, decrypt_media, deciphered, scanned, scan_groups,
}

module _ (c : Crypto) where
  -- The row holds the mapping.
  pub record Stores (r : Row) (m : MessageMapping) : Type 0 where
    pub chat : decrypt c r.chat_cipher ≡ some m.chat_id
    pub whatsapp : decrypt c r.whatsapp_cipher ≡ some m.whatsapp_id
    pub signal : decrypt c r.signal_cipher ≡ some m.signal_id
    pub media : decrypt_media c r.media_cipher ≡ some m.media_path
    pub chat_hashed : r.chat_hash ≡ lookup_hash c m.chat_id
    pub whatsapp_hashed : r.whatsapp_hash ≡ lookup_hash c m.whatsapp_id
    pub signal_hashed : r.signal_hash ≡ lookup_hash c m.signal_id
    pub same_signal_timestamp : r.signal_timestamp ≡ m.signal_timestamp
    pub same_forwarded_at : r.forwarded_at ≡ m.forwarded_at
    pub same_status : r.status ≡ m.status
    pub same_session : r.session ≡ m.session
    pub same_media_type : r.media_type ≡ m.media_type
    pub same_created_at : r.created_at ≡ m.created_at

  pub Stores-decode_row : (r : Row) (m : MessageMapping) → Stores r m → decode_row c r ≡ some m
  unfolding decode_row
  Stores-decode_row r m s =
      rw (s.chat, s.whatsapp, s.signal, s.media) (ground (arith, s.same_status))

  pub data Rows : List Row → Table → Type 0 where
    empty : Rows [] []
    row :
        {r : Row} {m : MessageMapping} {rs : List Row} {ms : Table}
        → Stores r m
        → Rows rs ms
        → Rows (r ∷ rs) (m ∷ ms)

  -- Two tests that agree on a row and its mapping.
  abbrev pub Agree : (Row → Bool) → (MessageMapping → Bool) → Type 0
  Agree p q = (r : Row) (m : MessageMapping) → Stores r m → p r ≡ q m

  pub data Row? : Option Row → Option MessageMapping → Type 0 where
    no_row : Row? none none
    one_row : {r : Row} {m : MessageMapping} → Stores r m → Row? (some r) (some m)

  find-Row? :
      (p : Row → Bool) (q : MessageMapping → Bool) {rs : List Row} {ms : Table}
      → Agree p q
      → Rows rs ms
      → Row? (find p rs) (find q ms)
  find-Row? p q a empty = no_row
  find-Row? p q a (row {r} {m} s h) = elim (Bool-cases (q m)) [
    | inl e ↦ rw (a r m s, e) (one_row s)
    | inr e ↦ rw (a r m s, e) (find-Row? p q a h)
  ]

  pub any-Agree :
      (p : Row → Bool) (q : MessageMapping → Bool) {rs : List Row} {ms : Table}
      → Agree p q
      → Rows rs ms
      → any p rs ≡ any q ms
  any-Agree p q a empty = refl
  any-Agree p q a (row {r} {m} s h) = rw (a r m s, any-Agree p q a h)

  pub keep-Rows :
      (p : Row → Bool) (q : MessageMapping → Bool) {rs : List Row} {ms : Table}
      → Agree p q
      → Rows rs ms
      → Rows (keep p rs) (keep q ms)
  keep-Rows p q a empty = empty
  keep-Rows p q a (row {r} {m} s h) = elim (Bool-cases (q m)) [
    | inl e ↦ rw (a r m s, e) (row s (keep-Rows p q a h))
    | inr e ↦ rw (a r m s, e) (keep-Rows p q a h)
  ]

  pub change-Rows :
      (p : Row → Bool) (q : MessageMapping → Bool) (f : Row → Row)
      (g : MessageMapping → MessageMapping) {rs : List Row} {ms : Table}
      → Agree p q
      → ((r : Row) (m : MessageMapping) → Stores r m → Stores (f r) (g m))
      → Rows rs ms
      → Rows (change p f rs) (change q g ms)
  change-Rows p q f g a k empty = empty
  change-Rows p q f g a k (row {r} {m} s h) = elim (Bool-cases (q m)) [
    | inl e ↦ rw (a r m s, e) (row (k r m s) (change-Rows p q f g a k h))
    | inr e ↦ rw (a r m s, e) (row s (change-Rows p q f g a k h))
  ]

  pub append-Rows :
      {rs : List Row} {ms : Table} (r : Row) (m : MessageMapping)
      → Rows rs ms
      → Stores r m
      → Rows (rs ++ r ∷ []) (ms ++ m ∷ [])
  append-Rows r m empty s = row s empty
  append-Rows r m (row t h) s = row t (append-Rows r m h s)

  same_newer :
      {r x : Row} {m y : MessageMapping}
      → Stores r m
      → Stores x y
      → ltb x.forwarded_at r.forwarded_at ≡ ltb y.forwarded_at m.forwarded_at
  same_newer {r} {y} s t =
      ap (λ n. ltb n r.forwarded_at) t.same_forwarded_at
      ∙ ap (λ n. ltb y.forwarded_at n) s.same_forwarded_at

  insert_newest-Rows :
      (r : Row) (m : MessageMapping) {rs : List Row} {ms : Table}
      → Stores r m
      → Rows rs ms
      → Rows (insert_newest (λ x. x.forwarded_at) r rs) (insert_newest (λ x. x.forwarded_at) m ms)
  insert_newest-Rows r m s empty = row s empty
  insert_newest-Rows r m s (row {r = x} {m = y} t h) =
      elim (Bool-cases (ltb y.forwarded_at m.forwarded_at)) [
        | inl e ↦ rw (same_newer s t, e) (row s (row t h))
        | inr e ↦ rw (same_newer s t, e) (row t (insert_newest-Rows r m s h))
      ]

  pub newest_first-Rows :
      {rs : List Row} {ms : Table}
      → Rows rs ms
      → Rows (newest_first (λ x. x.forwarded_at) rs) (newest_first (λ x. x.forwarded_at) ms)
  newest_first-Rows empty = empty
  newest_first-Rows (row {r} {m} s h) = insert_newest-Rows r m s (newest_first-Rows h)

  pub take-Rows : (n : ℕ) {rs : List Row} {ms : Table} → Rows rs ms → Rows (take n rs) (take n ms)
  take-Rows zero h = empty
  take-Rows (suc n) empty = empty
  take-Rows (suc n) (row s h) = row s (take-Rows n h)

  first-Row? : {rs : List Row} {ms : Table} → Rows rs ms → Row? (first rs) (first ms)
  first-Row? empty = no_row
  first-Row? (row s h) = one_row s

  -- What the code answers of a row is what is held in it.
  scanned-found : {r : Option Row} {m : Option MessageMapping} → Row? r m → scanned c r ≡ found m
  scanned-found no_row = refl
  scanned-found (one_row {r} {m} s) = ap (deciphered c) (Stores-decode_row r m s)

  pub scanned-find :
      (p : Row → Bool) (q : MessageMapping → Bool) {rs : List Row} {ms : Table}
      → Agree p q
      → Rows rs ms
      → scanned c (find p rs) ≡ found (find q ms)
  scanned-find p q a h = scanned-found (find-Row? p q a h)

  pub scanned-first :
      {rs : List Row} {ms : Table} → Rows rs ms → scanned c (first rs) ≡ found (first ms)
  scanned-first h = scanned-found (first-Row? h)

  pub scan_groups-find :
      {rs : List Row} {ms : Table}
      → Rows rs ms
      → scan_groups c rs ≡ found (find (λ m. is_group m.chat_id) ms)
  unfolding scan_groups
  scan_groups-find empty = refl
  scan_groups-find (row {r} {m} s h) = elim (Bool-cases (is_group m.chat_id)) [
    | inl e ↦ rw (Stores-decode_row r m s, e)
    | inr e ↦ rw (Stores-decode_row r m s, e) (scan_groups-find h)
  ]
