-- ===== src/Dispatch/Polled.antt =====
-- What a poll leaves in the table of pending messages.
use whatsignal.Base.{
  ℕ, ◌≡◌, refl, ap, ◌∙◌, Bool, true, false, not, ◌&&◌, ◌||◌, List, [], ◌∷◌, ◌++◌, Option, none,
  some, any, arith, Bool-cases, Option-cases, inl, inr, if◌then◌else◌,
}
use whatsignal.Base.Text.{Text, same, same_iff}
use whatsignal.Channels.{ChannelManager}
use whatsignal.Bridge.Resolving.{SignalMessage}
use whatsignal.Dispatch.{
  PendingMessage, has_key, delete_pending, increment_retry_count, Outcome, delivered, cancelled,
  exhausted, attempts, settle, work,
}
use whatsignal.Dispatch.Workers.{holds}
use whatsignal.Dispatch.Polling.{
  Assigned, assign, insert_or_ignore, save_each, persist, pending_rows, begin_poll, Fortune, Worker,
  start_workers, run_worker, Finishes, waited, ends,
}

any-append {ℓ} :
    {A : Type ℓ} (p : A → Bool) (xs ys : List A) → any p (xs ++ ys) ≡ (any p xs || any p ys)
any-append p [] ys = refl
any-append p (x ∷ xs) ys = ground (arith, any-append p xs ys)

-- This message, for this destination.
abbrev pub is_message : Text → Text → Assigned → Bool
is_message id d a = same a.msg.message_id id && same a.destination d

abbrev pub is_delivered : Outcome → Bool
is_delivered delivered = true
is_delivered cancelled = false
is_delivered exhausted = false

-- The attempts of the worker end with a message that was forwarded.
abbrev pub forwards : Worker → Bool
forwards w = is_delivered (attempts w.fortune.succeeds w.fortune.cancels 3 0)

-- The worker of this message forwarded it, and its statement succeeded.
abbrev pub removes : Text → Text → Worker → Bool
removes id d w = is_message id d w.assigned && (forwards w && w.fortune.writes)

module _ (id d : Text) where
  holds-delete_other :
      (i e : Text) (rows : List PendingMessage)
      → holds id d (delete_pending i e rows) ≡ (not (same i id && same e d) && holds id d rows)
  unfolding delete_pending has_key
  holds-delete_other i e [] = ground arith
  holds-delete_other i e (p ∷ rows) = ground (
    arith,
    holds-delete_other i e rows,
    same_iff i id,
    same_iff e d,
    same_iff p.message_id i,
    same_iff p.destination e,
    same_iff p.message_id id,
    same_iff p.destination d,
  )

  holds-increment_other :
      (i e : Text) (rows : List PendingMessage)
      → holds id d (increment_retry_count i e rows) ≡ holds id d rows
  unfolding increment_retry_count has_key
  holds-increment_other i e [] = refl
  holds-increment_other i e (p ∷ rows) = ground (arith, holds-increment_other i e rows)

  holds-settle :
      (o : Outcome) (writes : Bool) (i e : Text) (rows : List PendingMessage)
      → holds id d (settle true writes i e o rows)
        ≡ (holds id d rows && not ((same i id && same e d) && (is_delivered o && writes)))
  unfolding settle
  holds-settle delivered true i e rows = ground (arith, holds-delete_other i e rows)
  holds-settle delivered false i e rows = ground arith
  holds-settle cancelled writes i e rows = ground arith
  holds-settle exhausted true i e rows = ground (arith, holds-increment_other i e rows)
  holds-settle exhausted false i e rows = ground arith

  holds-run_worker :
      (w : Worker) (rows : List PendingMessage)
      → holds id d (run_worker true w rows) ≡ (holds id d rows && not (removes id d w))
  unfolding run_worker work
  holds-run_worker w rows =
      holds-settle (attempts w.fortune.succeeds w.fortune.cancels 3 0) w.fortune.writes
        w.assigned.msg.message_id w.assigned.destination rows

  -- In any order, the workers remove the rows of the messages that they forward.
  holds-Finishes :
      {ws : List Worker} {rows rows' : List PendingMessage}
      → Finishes true ws rows rows'
      → holds id d rows' ≡ (holds id d rows && not (any (removes id d) ws))
  holds-Finishes {rows} (waited e f) = rw (e, f) (ground arith)
  holds-Finishes {rows} (ends before w after e f) =
      let ih = holds-Finishes f in
      let step = holds-run_worker w rows in
      rw e (
        ground (
          arith,
          ih,
          step,
          any-append (removes id d) before after,
          any-append (removes id d) before (w ∷ after),
        ))

  holds_known :
      (p : PendingMessage) (rows : List PendingMessage)
      → holds p.message_id p.destination rows ≡ true
      → holds id d rows ≡ (holds id d rows || has_key id d p)
  unfolding has_key
  holds_known p [] h = ground arith
  holds_known p (q ∷ rows) h = ground (
    arith,
    holds_known p rows,
    same_iff p.message_id id,
    same_iff p.destination d,
    same_iff q.message_id id,
    same_iff q.destination d,
    same_iff q.message_id p.message_id,
    same_iff q.destination p.destination,
  )

  holds-insert_or_ignore :
      (p : PendingMessage) (rows : List PendingMessage)
      → holds id d (insert_or_ignore p rows) ≡ (holds id d rows || has_key id d p)
  unfolding insert_or_ignore
  holds-insert_or_ignore p rows = elim (Bool-cases (holds p.message_id p.destination rows)) [
    | inl e ↦ rw e (holds_known p rows e)
    | inr e ↦ rw e (ground (arith, any-append (has_key id d) rows (p ∷ [])))
  ]

  holds-save_each :
      (ps rows : List PendingMessage)
      → holds id d (save_each ps rows) ≡ (holds id d rows || holds id d ps)
  unfolding save_each
  holds-save_each [] rows = ground arith
  holds-save_each (p ∷ ps) rows =
      ground (arith, holds-save_each ps (insert_or_ignore p rows), holds-insert_or_ignore p rows)

-- The message can be encoded.
abbrev pub encodes : (SignalMessage → Option Text) → Assigned → Bool
encodes encode a = is_some (encode a.msg)
  where
    is_some : Option Text → Bool
    is_some none = false
    is_some (some raw) = true

holds-pending_rows :
    (encode : SignalMessage → Option Text) (id d : Text) (assigned : List Assigned)
    → holds id d (pending_rows encode assigned)
      ≡ any (λ a. is_message id d a && encodes encode a) assigned
unfolding pending_rows has_key
holds-pending_rows encode id d [] = refl
holds-pending_rows encode id d (a ∷ as') = elim (Option-cases (encode a.msg)) [
  | inl e ↦ rw e (ground (arith, holds-pending_rows encode id d as'))
  | inr (raw, e) ↦ rw e (ground (arith, holds-pending_rows encode id d as'))
]

persist-rows :
    (saves : Bool) (ps rows : List PendingMessage)
    → (persist saves ps rows).rows
      ≡ (if (persist saves ps rows).persisted then save_each ps rows else rows)
unfolding persist save_each
persist-rows saves [] rows = refl
persist-rows true (p ∷ ps) rows = refl
persist-rows false (p ∷ ps) rows = refl

unpersisted-Finishes :
    {ws : List Worker} {rows rows' : List PendingMessage}
    → Finishes false ws rows rows'
    → rows' ≡ rows
unfolding run_worker work settle
unpersisted-Finishes (waited e f) = f
unpersisted-Finishes {rows} (ends before w after e f) =
    unpersisted-Finishes f ∙ settle_unpersisted (attempts w.fortune.succeeds w.fortune.cancels 3 0)
  where
    settle_unpersisted :
        (o : Outcome)
        → settle false w.fortune.writes w.assigned.msg.message_id w.assigned.destination o rows
          ≡ rows
    settle_unpersisted delivered = refl
    settle_unpersisted cancelled = refl
    settle_unpersisted exhausted = refl

holds-ended :
    (persisted : Bool) (id d : Text) (ps rows start rows' : List PendingMessage) (ws : List Worker)
    → start ≡ (if persisted then save_each ps rows else rows)
    → Finishes persisted ws start rows'
    → holds id d rows' ≡ (
        if persisted
        then (holds id d rows || holds id d ps) && not (any (removes id d) ws)
        else holds id d rows)
holds-ended true id d ps rows start rows' ws e f =
    holds-Finishes id d f
    ∙ ap (λ b. b && not (any (removes id d) ws)) (ap (holds id d) e ∙ holds-save_each id d ps rows)
holds-ended false id d ps rows start rows' ws e f = ap (holds id d) (unpersisted-Finishes f ∙ e)

-- The table after a poll, in whatever order its workers end. If its messages were persisted, then
-- afterwards the table holds a row of a message ID and a destination exactly when it did before the
-- poll or a message with that ID that can be encoded was assigned to that destination, and no worker
-- of such a message both forwarded it and wrote to the table. If they were not persisted, it holds
-- one exactly when it did before, whatever the workers forwarded.
pub holds-begin_poll :
    (encode : SignalMessage → Option Text) (history : Text → Text → Option Bool)
    (cm : ChannelManager) (messages : List SignalMessage) (saves : Bool) (fortunes : ℕ → Fortune)
    (rows rows' : List PendingMessage) (id d : Text)
    → let assigned = assign history cm messages in
      let p = begin_poll encode saves assigned rows in
      let ws = start_workers fortunes 0 assigned in
      Finishes p.persisted ws p.rows rows'
      → holds id d rows' ≡ (
          if p.persisted
          then (holds id d rows || any (λ a. is_message id d a && encodes encode a) assigned)
            && not (any (removes id d) ws)
          else holds id d rows)
unfolding begin_poll
holds-begin_poll encode history cm messages saves fortunes rows rows' id d f =
    let assigned = assign history cm messages in
    let ps = pending_rows encode assigned in
    let p = persist saves ps rows in
    let ws = start_workers fortunes 0 assigned in
    holds-ended p.persisted id d ps rows p.rows rows' ws (persist-rows saves ps rows) f
    ∙ ap
        (λ b.
          if p.persisted
          then (holds id d rows || b) && not (any (removes id d) ws)
          else holds id d rows)
        (holds-pending_rows encode id d assigned)
