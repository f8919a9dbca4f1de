-- ===== src/Webhook/Replay.antt =====
-- The replay cache over a run of webhooks.
use whatsignal.Base.{
  ℕ, ◌+◌, ◌≤◌, ◌≡◌, refl, sym, ap, ◌∙◌, Bool, true, false, ◌&&◌, ◌||◌, List, [], ◌∷◌, none, ltb,
  arith, Bool-cases, inl, inr, if◌then◌else◌,
}
use whatsignal.Base.Text.{Text, same, same_iff}
use whatsignal.Base.Dict.{lookup, insert, lookup-insert, Distinct, insert-Distinct}
use whatsignal.Webhook.{ReplayCache, expire, is_held, webhook_replay_key, check_and_store}

-- Some webhook with this key was accepted less than ttl ago.
abbrev pub accepted_since : ℕ → ℕ → Text → List (ℕ × Text) → Bool
accepted_since now ttl key [] = false
accepted_since now ttl key ((t, k) ∷ log) =
    (same k key && ltb now (t + ttl)) || accepted_since now ttl key log

accepted_since_later :
    (now n ttl : ℕ) (key : Text) (log : List (ℕ × Text))
    → now ≤ n
    → accepted_since now ttl key log ≡ false
    → accepted_since n ttl key log ≡ false
accepted_since_later now n ttl key [] le h = refl
accepted_since_later now n ttl key ((t, k) ∷ log) le h =
    ground (arith, accepted_since_later now n ttl key log le)

expire_missing :
    (now : ℕ) (key : Text) (c : ReplayCache)
    → lookup key c ≡ none
    → lookup key (expire now c) ≡ none
unfolding expire lookup
expire_missing now key [] h = refl
expire_missing now key ((k, e) ∷ c) h = ground (arith, expire_missing now key c)

expire-Distinct : (now : ℕ) (c : ReplayCache) → Distinct c → Distinct (expire now c)
unfolding expire
expire-Distinct now [] d = tt
expire-Distinct now ((k, e) ∷ c) (new, d) = elim (Bool-cases (ltb now e)) [
  | inl f ↦ rw f (expire_missing now k c new, expire-Distinct now c d)
  | inr f ↦ rw f (expire-Distinct now c d)
]

-- Expired entries do not count, now or later.
is_held-expire :
    (now n : ℕ) (key : Text) (c : ReplayCache)
    → now ≤ n
    → Distinct c
    → is_held n (lookup key (expire now c)) ≡ is_held n (lookup key c)
unfolding expire lookup is_held
is_held-expire now n key [] le d = refl
is_held-expire now n key ((k, e) ∷ c) le (new, d) =
    ground (arith, same_iff k key, is_held-expire now n key c le d, expire_missing now k c new)

is_held-insert :
    (n e : ℕ) (k key : Text) (c : ReplayCache)
    → is_held n (lookup key (insert k e c))
      ≡ (if same k key then ltb n e else is_held n (lookup key c))
unfolding is_held
is_held-insert n e k key c = ground (arith, lookup-insert k key e c)

module _ (sha256 : Text → Text) (ttl : ℕ) where
  -- The log after a webhook that was reported as a replay, or accepted.
  abbrev pub logged : Bool → ℕ → Text → List (ℕ × Text) → List (ℕ × Text)
  logged true now key log = log
  logged false now key log = (now, key) ∷ log

  -- The accepted webhooks, the time of the last call, and the cache.
  pub data Run : List (ℕ × Text) → ℕ → ReplayCache → Type 0 where
    begin : (t : ℕ) → Run [] t []
    receive :
        {log : List (ℕ × Text)} {t : ℕ} {c : ReplayCache} (now : ℕ) (body timestamp : Text)
        → Run log t c
        → t ≤ now
        → Run
            (logged
              (check_and_store sha256 now ttl body timestamp c).1
              now
              (webhook_replay_key sha256 body timestamp)
              log)
            now
            (check_and_store sha256 now ttl body timestamp c).0

  record Remembers (log : List (ℕ × Text)) (t : ℕ) (c : ReplayCache) : Type 0 where
    distinct : Distinct c
    agree : (n : ℕ) (key : Text) → t ≤ n → is_held n (lookup key c) ≡ accepted_since n ttl key log

  check_and_store-held :
      (now : ℕ) (body timestamp : Text) (c : ReplayCache)
      → is_held now (lookup (webhook_replay_key sha256 body timestamp) (expire now c)) ≡ true
      → check_and_store sha256 now ttl body timestamp c ≡ (expire now c, true)
  unfolding check_and_store
  check_and_store-held now body timestamp c e = rw e

  check_and_store-new :
      (now : ℕ) (body timestamp : Text) (c : ReplayCache)
      → is_held now (lookup (webhook_replay_key sha256 body timestamp) (expire now c)) ≡ false
      → check_and_store sha256 now ttl body timestamp c
        ≡ (insert (webhook_replay_key sha256 body timestamp) (now + ttl) (expire now c), false)
  unfolding check_and_store
  check_and_store-new now body timestamp c e = rw e

  check_and_store-Remembers :
      (now : ℕ) (body timestamp : Text) {log : List (ℕ × Text)} {t : ℕ} {c : ReplayCache}
      → Remembers log t c
      → t ≤ now
      → Remembers
          (logged
            (check_and_store sha256 now ttl body timestamp c).1
            now
            (webhook_replay_key sha256 body timestamp)
            log)
          now
          (check_and_store sha256 now ttl body timestamp c).0
  check_and_store-Remembers now body timestamp {log} {c} r le =
      elim (Bool-cases (is_held now (lookup key (expire now c)))) [
        | inl e ↦ rw (check_and_store-held now body timestamp c e) (record {
          distinct = expire-Distinct now c r.distinct;
          agree = λ n k h. is_held-expire now n k c h r.distinct ∙ r.agree n k (omega arith);
        })
        | inr e ↦ rw (check_and_store-new now body timestamp c e) (record {
          distinct =
              insert-Distinct key (now + ttl) (expire now c) (expire-Distinct now c r.distinct);
          agree =
              λ n k h. is_held-insert n (now + ttl) key k (expire now c) ∙ stored n k h (held e);
        })
      ]
    where
      key : Text
      key = webhook_replay_key sha256 body timestamp

      held :
          is_held now (lookup key (expire now c)) ≡ false → accepted_since now ttl key log ≡ false
      held e = sym (is_held-expire now now key c (omega arith) r.distinct ∙ r.agree now key le) ∙ e

      stored :
          (n : ℕ) (k : Text)
          → now ≤ n
          → accepted_since now ttl key log ≡ false
          → (if same key k then ltb n (now + ttl) else is_held n (lookup k (expire now c)))
            ≡ accepted_since n ttl k ((now, key) ∷ log)
      stored n k h f = elim (Bool-cases (same key k)) [
        | inl s ↦
            let e : key ≡ k = (same_iff key k).0 s in
            rw s (ground (arith, accepted_since_later now n ttl k log h (rw (← e) f)))
        | inr s ↦ rw s (is_held-expire now n k c h r.distinct ∙ r.agree n k (omega arith))
      ]

  Run-Remembers :
      {log : List (ℕ × Text)} {t : ℕ} {c : ReplayCache} → Run log t c → Remembers log t c
  Run-Remembers (begin t) = record {
    distinct = tt;
    agree = λ n key h. unfold lookup is_held in refl;
  }
  Run-Remembers (receive now body timestamp r le) =
      check_and_store-Remembers now body timestamp (Run-Remembers r) le

  -- Replays: over any run of webhooks under a clock that never goes back, a webhook is reported as a
  -- replay exactly when one with the same replay key was accepted less than the ttl ago.
  pub check_and_store_lem :
      (log : List (ℕ × Text)) (t : ℕ) (c : ReplayCache) (now : ℕ) (body timestamp : Text)
      → Run log t c
      → t ≤ now
      → (check_and_store sha256 now ttl body timestamp c).1
        ≡ accepted_since now ttl (webhook_replay_key sha256 body timestamp) log
  check_and_store_lem log t c now body timestamp run le =
      let r = Run-Remembers run in
      let key = webhook_replay_key sha256 body timestamp in
      let held = is_held-expire now now key c (omega arith) r.distinct ∙ r.agree now key le in
      elim (Bool-cases (is_held now (lookup key (expire now c)))) [
        | inl e ↦ ap (λ p. p.1) (check_and_store-held now body timestamp c e) ∙ sym e ∙ held
        | inr e ↦ ap (λ p. p.1) (check_and_store-new now body timestamp c e) ∙ sym e ∙ held
      ]
