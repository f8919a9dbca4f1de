-- ===== src/Dispatch/Markers.antt =====
-- The in-flight markers of message_service.go (inProgressMessages), which
-- HandleWhatsAppMessageWithSession and ProcessIncomingSignalMessageWithDestination set and clear.
use whatsignal.Base.{
  ℕ, ◌+◌, ◌-◌, ◌≤◌, ◌<◌, ◌≡◌, ◌↔◌, refl, Bool, true, false, List, [], ◌∷◌, any, arith, Bool-cases,
  inl, inr, if◌then◌else◌,
}
use whatsignal.Base.Text.{Text, same, same_iff}

-- LoadOrStore at the start of a handler; the flag says whether the handler goes on.
unfoldable pub enter : Text → List Text → List Text × Bool
unfolding same
enter id in_progress =
    if any (same id) in_progress then (in_progress, false) else (id ∷ in_progress, true)

-- The deferred Delete.
unfoldable pub leave : Text → List Text → List Text
unfolding same
leave id [] = []
leave id (x ∷ xs) = if same id x then leave id xs else x ∷ leave id xs

-- How many handlers of a message are running.
abbrev pub count : Text → List Text → ℕ
count id [] = 0
count id (x ∷ xs) = if same id x then count id xs + 1 else count id xs

abbrev pub remove_first : Text → List Text → List Text
remove_first id [] = []
remove_first id (x ∷ xs) = if same id x then xs else x ∷ remove_first id xs

abbrev pub joined : Bool → Text → List Text → List Text
joined true id active = id ∷ active
joined false id active = active

-- Any interleaving of handlers: the messages with a running handler, and the markers.
pub data Run : List Text → List Text → Type 0 where
  begin : Run [] []
  arrive :
      {active markers : List Text} (id : Text)
      → Run active markers
      → Run (joined (enter id markers).1 id active) (enter id markers).0
  finish :
      {active markers : List Text} (id : Text)
      → Run active markers
      → 0 < count id active
      → Run (remove_first id active) (leave id markers)

marks : Text → List Text → ℕ
marks id markers = if any (same id) markers then 1 else 0

count-enter :
    (id j : Text) (active markers : List Text)
    → count id active ≡ marks id markers
    → count j active ≡ marks j markers
    → count j (joined (enter id markers).1 id active) ≡ marks j (enter id markers).0
unfolding enter marks
count-enter id j active markers hi hj = elim (Bool-cases (any (same id) markers)) [
  | inl e ↦ rw e hj
  | inr e ↦ rw e (ground (arith, same_iff j id))
]

count-remove_first :
    (id j : Text) (active : List Text)
    → count j (remove_first id active) ≡ (if same id j then count j active - 1 else count j active)
count-remove_first id j [] = ground arith
count-remove_first id j (x ∷ xs) =
    ground (arith, count-remove_first id j xs, same_iff id j, same_iff id x, same_iff j x)

any-leave :
    (id j : Text) (markers : List Text)
    → any (same j) (leave id markers) ≡ (if same id j then false else any (same j) markers)
unfolding leave
any-leave id j [] = ground arith
any-leave id j (x ∷ xs) =
    ground (arith, any-leave id j xs, same_iff id j, same_iff id x, same_iff j x)

Run-count :
    {active markers : List Text}
    → Run active markers
    → (id : Text) → count id active ≡ marks id markers
unfolding marks
Run-count begin id = refl
Run-count (arrive {active} {markers} j r) id =
    unfold marks in count-enter j id active markers (Run-count r j) (Run-count r id)
Run-count (finish {active} {markers} j r h) id =
    ground (arith, Run-count r id, count-remove_first j id active, any-leave j id markers)

-- Handlers: over any interleaving of arrivals and ends of handlers, no message has two handlers that
-- run at once, and a message that arrives is handled exactly when it has no running handler.
pub enter_iff :
    (active markers : List Text) (id : Text)
    → Run active markers
    → (count id active ≤ 1) × (((enter id markers).1 ≡ true) ↔ (count id active ≡ 0))
unfolding enter marks
enter_iff active markers id r = ground (arith, Run-count r id)
