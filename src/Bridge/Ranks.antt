-- ===== src/Bridge/Ranks.antt =====
-- What receipts do to the delivery statuses.
use mathlib.Core.Path.{subst}
use mathlib.Core.Option.{some-injective}
use whatsignal.Base.{
  ◌≡◌, ◌≤◌, ◌⊎◌, refl, sym, ap, ◌∙◌, Bool, true, false, not, ◌&&◌, ◌||◌, [], ◌∷◌, Option, none,
  some, inl, inr, arith, Bool-cases, Option-cases, any, all, if◌then◌else◌,
}
use whatsignal.Base.Text.{Text, same, same_iff, same_refl, is_empty}
use whatsignal.Delivery.{delivery_status_rank, should_update}
use whatsignal.Mappings.{
  MessageMapping, Table, find, change, or_find, find_whatsapp, find_signal, find_either,
  replace_status,
}
use whatsignal.Bridge.{Services, State, Conditions, BridgeError, lookup_failed, update_failed}
use whatsignal.Bridge.Resolving.{Receipt}
use whatsignal.Bridge.Receipts.{
  receipt_mapping, receipt_status, receive_status, acknowledge, receive_for, receive_found,
  handle_receipt,
}

-- The same mappings but for their statuses, none with a status of a lower rank.
abbrev pub RanksRise : Table → Table → Type 0
RanksRise [] [] = Unit
RanksRise [] (n ∷ ns) = ⊥
RanksRise (m ∷ ms) [] = ⊥
RanksRise (m ∷ ms) (n ∷ ns) =
    (n ≡ record m { status = n.status })
    × (delivery_status_rank m.status ≤ delivery_status_rank n.status)
    × RanksRise ms ns

-- The mappings with the WhatsApp ID of the one have its status.
unfoldable pub share_status : MessageMapping → Table → Bool
unfolding same
share_status m ms = all (λ n. not (same n.whatsapp_id m.whatsapp_id) || same n.status m.status) ms

-- The mappings with the WhatsApp ID of the one have the status, or one of a higher rank.
unfoldable pub reaches : Text → MessageMapping → Table → Bool
unfolding same should_update
reaches status m ms =
    all (λ n. not (same n.whatsapp_id m.whatsapp_id) || should_update status n.status) ms

RanksRise-refl : (ms : Table) → RanksRise ms ms
RanksRise-refl [] = tt
RanksRise-refl (m ∷ ms) = (refl, omega arith, RanksRise-refl ms)

RanksRise-change :
    (m : MessageMapping) (status : Text) (ms : Table)
    → share_status m ms ≡ true
    → should_update m.status status ≡ true
    → RanksRise ms
        (change (λ n. same n.whatsapp_id m.whatsapp_id) (λ n. record n { status = status }) ms)
unfolding share_status should_update
RanksRise-change m status [] h k = tt
RanksRise-change m status (n ∷ ms) h k =
    let later : share_status m ms ≡ true = ground (arith, h) in
    let rest = RanksRise-change m status ms later k in
    elim (Bool-cases (same n.whatsapp_id m.whatsapp_id)) [
      | inl e ↦
          let shared : same n.status m.status ≡ true = ground (arith, h, e) in
          let status_of = (same_iff n.status m.status).0 shared in
          rw e (refl, rw status_of (ground (arith, k)), rest)
      | inr e ↦ rw e (refl, omega arith, rest)
    ]

reaches-change :
    (m : MessageMapping) (status : Text) (ms : Table)
    → reaches status m
        (change (λ n. same n.whatsapp_id m.whatsapp_id) (λ n. record n { status = status }) ms)
      ≡ true
unfolding reaches should_update
reaches-change m status [] = refl
reaches-change m status (n ∷ ms) =
    let rest = reaches-change m status ms in
    let itself : should_update status status ≡ true = ground arith in
    elim (Bool-cases (same n.whatsapp_id m.whatsapp_id)) [
      | inl e ↦ rw (e, e, itself, rest) refl
      | inr e ↦ rw (e, e, rest) refl
    ]

reaches-higher :
    (m : MessageMapping) (status : Text) (ms : Table)
    → share_status m ms ≡ true
    → should_update m.status status ≡ false
    → reaches status m ms ≡ true
unfolding reaches share_status should_update
reaches-higher m status [] h k = refl
reaches-higher m status (n ∷ ms) h k =
    let later : share_status m ms ≡ true = ground (arith, h) in
    let rest = reaches-higher m status ms later k in
    elim (Bool-cases (same n.whatsapp_id m.whatsapp_id)) [
      | inl e ↦
          let shared : same n.status m.status ≡ true = ground (arith, h, e) in
          let status_of = (same_iff n.status m.status).0 shared in
          let higher : should_update status m.status ≡ true = ground (arith, k) in
          rw (e, status_of, higher, rest) refl
      | inr e ↦ rw (e, rest) refl
    ]

find-any_id :
    (p : MessageMapping → Bool) (m : MessageMapping) (ms : Table)
    → find p ms ≡ some m
    → any (λ n. same n.whatsapp_id m.whatsapp_id) ms ≡ true
find-any_id p m [] h = absurd (ground (arith, h))
find-any_id p m (n ∷ ms) h = elim (Bool-cases (p n)) [
  | inl e ↦
      let found_here : find p (n ∷ ms) ≡ some n = rw e refl in
      let same_mapping = some-injective n m (sym found_here ∙ h) in
      let same_id =
        ap (λ x. same n.whatsapp_id x.whatsapp_id) (sym same_mapping) ∙ same_refl n.whatsapp_id in
      rw same_id refl
  | inr e ↦
      let found_later =
        find-any_id p m ms (sym (ap (λ b. if b then some n else find p ms) e) ∙ h) in
      ground (arith, found_later)
]

-- Some mapping of the table has the mapping's WhatsApp ID.
abbrev Known : Table → MessageMapping → Type 0
Known ms m = any (λ n. same n.whatsapp_id m.whatsapp_id) ms ≡ true

or_find-Known :
    (ms : Table) (x y : Option MessageMapping) (m : MessageMapping)
    → (x ≡ some m → Known ms m)
    → (y ≡ some m → Known ms m)
    → or_find x y ≡ some m
    → Known ms m
or_find-Known ms none y m f g h = g h
or_find-Known ms (some x) y m f g h = f h

receipt_mapping-Known :
    (id : Text) (m : MessageMapping) (ms : Table) → receipt_mapping id ms ≡ some m → Known ms m
unfolding receipt_mapping find_signal find_either find_whatsapp
receipt_mapping-Known id m ms =
    let by_signal = find-any_id (λ n. same n.signal_id id) m ms in
    let by_whatsapp = find-any_id (λ n. same n.whatsapp_id id) m ms in
    or_find-Known ms (find_signal id ms) (find_either id ms) m by_signal
      (or_find-Known ms (find_whatsapp id ms) (find_signal id ms) m by_whatsapp by_signal)

-- What a receipt with that status does to the table.
abbrev pub is_reached : Text → Option MessageMapping → Table → Bool
is_reached status none ms = true
is_reached status (some m) ms = is_empty status || reaches status m ms

pub record IsReceived (status : Text) (o : Option MessageMapping) (s : State)
    (out : State × Option BridgeError) : Type 0 where
  pub rises : RanksRise s.mappings out.0.mappings
  pub reached :
      ((out.1 ≡ some lookup_failed) ⊎ (out.1 ≡ some update_failed))
      ⊎ (is_reached status o out.0.mappings ≡ true)

receive_status-RanksRise :
    (works : Bool) (status : Text) (m : MessageMapping) (s t : State)
    → Known s.mappings m
    → share_status m s.mappings ≡ true
    → receive_status works status m s ≡ some t
    → RanksRise s.mappings t.mappings × (is_reached status (some m) t.mappings ≡ true)
unfolding receive_status replace_status
receive_status-RanksRise works status m s t h k =
    elim (Bool-cases (not (is_empty status) && should_update m.status status)) [
      | inr b ↦
          let same_state =
            λ (e : some s ≡ some t). ap (λ (u : State). u.mappings) (some-injective s t e) in
          rw (b, receive_status)
            λ e. (
              subst (RanksRise s.mappings) (same_state e) (RanksRise-refl s.mappings),
              ap (is_reached status (some m)) (sym (same_state e)) ∙ unchanged b,
            )
      | inl b ↦ elim (Bool-cases works) [
        | inr w ↦ rw (b, w, receive_status) λ e. absurd (ground (arith, e))
        | inl w ↦
            let newer : should_update m.status status ≡ true = ground (arith, b) in
            let named : is_empty status ≡ false = ground (arith, b) in
            rw (b, w, h, receive_status, replace_status)
              λ e.
                let same_state = ap (λ (u : State). u.mappings) (some-injective _ t e) in
                (
                  subst (RanksRise s.mappings) same_state
                      (RanksRise-change m status s.mappings k newer),
                  ap (is_reached status (some m)) (sym same_state)
                      ∙ rw named (reaches-change m status s.mappings),
                )
      ]
    ]
  where
    unchanged :
        not (is_empty status) && should_update m.status status ≡ false
        → is_reached status (some m) s.mappings ≡ true
    unchanged b = elim (Bool-cases (is_empty status)) [
      | inl e ↦ rw e refl
      | inr e ↦
          let older : should_update m.status status ≡ false = ground (arith, b, e) in
          rw e (reaches-higher m status s.mappings k older)
    ]

acknowledge-mappings :
    (v : Services) (c : Conditions) (r : Receipt) (m : MessageMapping) (s : State)
    → (acknowledge v c r m s).0.mappings ≡ s.mappings
unfolding acknowledge
acknowledge-mappings v c r m s = ground arith

receive_for-IsReceived :
    (v : Services) (c : Conditions) (r : Receipt) (m : MessageMapping) (s : State)
    → Known s.mappings m
    → share_status m s.mappings ≡ true
    → IsReceived (receipt_status r) (some m) s (receive_for v c r m s)
unfolding receive_for
receive_for-IsReceived v c r m s h k =
    elim (Option-cases (receive_status c.updates (receipt_status r) m s)) [
      | inl e ↦
          rw (e, receive_for)
            (record { rises = RanksRise-refl s.mappings; reached = inl (inr refl) })
      | inr (t, e) ↦
          let (rises, reached) =
            receive_status-RanksRise c.updates (receipt_status r) m s t h k e in
          let kept = sym (acknowledge-mappings v c r m t) in
          rw (e, receive_for)
            (record {
              rises = subst (RanksRise s.mappings) kept rises;
              reached = inr (ap (is_reached (receipt_status r) (some m)) (sym kept) ∙ reached);
            })
    ]

receive_found-IsReceived :
    (v : Services) (c : Conditions) (r : Receipt) (o : Option MessageMapping) (s : State)
    → ((m : MessageMapping) → o ≡ some m → Known s.mappings m)
    → ((m : MessageMapping) → o ≡ some m → share_status m s.mappings ≡ true)
    → IsReceived (receipt_status r) o s (receive_found v c r o s)
receive_found-IsReceived v c r none s h k = record {
  rises = RanksRise-refl s.mappings;
  reached = inr refl;
}
receive_found-IsReceived v c r (some m) s h k =
    receive_for-IsReceived v c r m s (h m refl) (k m refl)

unread-IsReceived :
    (status : Text) (o : Option MessageMapping) (s : State)
    → IsReceived status o s (s, some lookup_failed)
unread-IsReceived status o s = record {
  rises = RanksRise-refl s.mappings;
  reached = inl (inl refl);
}

-- Receipts: if the mappings that have the WhatsApp ID of the one that the receipt is for also have
-- its status, handling the receipt changes no mapping but for its status, and lowers the rank of
-- none. Unless the lookup or the update is reported to have failed, the mappings with that WhatsApp
-- ID, if there is one for the receipt and the receipt stands for a status, then have that status or
-- one whose rank is not lower.
pub handle_receipt-IsReceived :
    (v : Services) (c : Conditions) (r : Receipt) (s : State)
    → ((m : MessageMapping)
        → receipt_mapping (v.decimal r.target_timestamp) s.mappings ≡ some m
        → share_status m s.mappings ≡ true)
    → IsReceived
        (receipt_status r)
        (receipt_mapping (v.decimal r.target_timestamp) s.mappings)
        s
        (handle_receipt v c r s)
unfolding handle_receipt
handle_receipt-IsReceived v c r s h =
    let id = v.decimal r.target_timestamp in
    let o = receipt_mapping id s.mappings in
    let handled =
      receive_found-IsReceived v c r o s (λ m e. receipt_mapping-Known id m s.mappings e) h in
    either_read (c.reads 1) (c.reads 2) (find_signal id s.mappings) _ _
      (IsReceived (receipt_status r) o s) handled (unread-IsReceived (receipt_status r) o s)
  where
    either_read :
        (a b : Bool) (found : Option MessageMapping) (x y : State × Option BridgeError)
        (P : State × Option BridgeError → Type 0)
        → P x
        → P y
        → P (
            if a
            then (elim found as (λ z. State × Option BridgeError) [
              | some m ↦ x
              | none ↦ if b then x else y
            ])
            else y)
    either_read false b found x y P hx hy = hy
    either_read true b (some m) x y P hx hy = hx
    either_read true true none x y P hx hy = hx
    either_read true false none x y P hx hy = hy
