-- ===== src/Base/Dict.antt =====
-- Go maps with text keys as association lists, at most one entry per key.
use mathlib.Core.Path.{◌≡◌, refl}
use mathlib.Core.Logic.{inl, inr}
use mathlib.Core.Bool.{false}
use mathlib.Core.Option.{Option, none, some}
use mathlib.Core.List.{List, [], ◌∷◌}
use native.Mathlib.Omega.{arith}
use whatsignal.Base.Tests.{if◌then◌else◌, Bool-cases}
use whatsignal.Base.Text.{Text, same, same_iff}

module _ {ℓ} {V : Type ℓ} where
  -- `v, exists := m[k]`
  unfoldable pub lookup : Text → List (Text × V) → Option V
  unfolding same
  lookup k [] = none
  lookup k ((j, v) ∷ m) = if same j k then some v else lookup k m

  -- `m[k] = v`
  unfoldable pub insert : Text → V → List (Text × V) → List (Text × V)
  unfolding same
  insert k v [] = (k, v) ∷ []
  insert k v ((j, w) ∷ m) = if same j k then (k, v) ∷ m else (j, w) ∷ insert k v m

  -- `delete(m, k)`
  unfoldable pub erase : Text → List (Text × V) → List (Text × V)
  unfolding same
  erase k [] = []
  erase k ((j, w) ∷ m) = if same j k then erase k m else (j, w) ∷ erase k m

  pub lookup-insert :
      (k j : Text) (v : V) (m : List (Text × V))
      → lookup j (insert k v m) ≡ (if same k j then some v else lookup j m)
  unfolding lookup insert
  lookup-insert k j v [] = refl
  lookup-insert k j v ((i, w) ∷ m) =
      ground (arith, same_iff k j, same_iff i k, same_iff i j, lookup-insert k j v m)

  pub lookup-erase :
      (k j : Text) (m : List (Text × V))
      → lookup j (erase k m) ≡ (if same k j then none else lookup j m)
  unfolding lookup erase
  lookup-erase k j [] = ground arith
  lookup-erase k j ((i, w) ∷ m) =
      ground (arith, same_iff k j, same_iff i k, same_iff i j, lookup-erase k j m)

  pub lookup-insert_self :
      (k : Text) (v : V) (m : List (Text × V)) → lookup k (insert k v m) ≡ some v
  lookup-insert_self k v m = ground (arith, lookup-insert k k v m, same_iff k k)

  pub lookup-erase_self : (k : Text) (m : List (Text × V)) → lookup k (erase k m) ≡ none
  lookup-erase_self k m = ground (arith, lookup-erase k k m, same_iff k k)

  -- No key stands twice.
  abbrev pub Distinct : List (Text × V) → Type ℓ
  Distinct [] = Unit
  Distinct ((k, v) ∷ m) = (lookup k m ≡ none) × Distinct m

  pub lookup-insert_missing :
      (k j : Text) (v : V) (m : List (Text × V))
      → same k j ≡ false
      → lookup j m ≡ none
      → lookup j (insert k v m) ≡ none
  lookup-insert_missing k j v m ne h = rw (lookup-insert k j v m, ne) h

  pub insert-Distinct :
      (k : Text) (v : V) (m : List (Text × V)) → Distinct m → Distinct (insert k v m)
  unfolding insert
  insert-Distinct k v [] d = (unfold lookup in refl, tt)
  insert-Distinct k v ((j, w) ∷ m) (new, d) = elim (Bool-cases (same j k)) [
    | inl e ↦ let e' : j ≡ k = (same_iff j k).0 e in rw e (rw (← e') new, d)
    | inr e ↦ rw e (
      lookup-insert_missing k j v m (ground (arith, same_iff k j, same_iff j k)) new,
      insert-Distinct k v m d,
    )
  ]

  pub erase-Distinct : (k : Text) (m : List (Text × V)) → Distinct m → Distinct (erase k m)
  unfolding erase
  erase-Distinct k [] d = tt
  erase-Distinct k ((j, w) ∷ m) (new, d) = elim (Bool-cases (same j k)) [
    | inl e ↦ rw e (erase-Distinct k m d)
    | inr e ↦ rw e (ground (arith, lookup-erase k j m), erase-Distinct k m d)
  ]
