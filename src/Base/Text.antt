-- ===== src/Base/Text.antt =====
-- Go strings as lists of numbers (bytes, or code points where the module says so), and the
-- functions of package strings that the code calls.
use Prim.Native.Nat.{ℕ, ◌+◌, ◌-◌}
use Prim.Native.Char.{code}
use Prim.Native.String.{String}
use mathlib.Core.Path.{◌≡◌, refl}
use mathlib.Core.Logic.{◌↔◌}
use mathlib.Core.Bool.{Bool, true, false, ◌&&◌, ◌||◌}
use mathlib.Core.List.{List, [], ◌∷◌, ◌++◌, map}
use native.Mathlib.Omega.{arith}
use whatsignal.Base.Tests.{leb, ◌==◌, if◌then◌else◌}
use whatsignal.Base.Lists.{length, take, drop}

abbrev pub Text : Type 0
Text = List ℕ

-- The code points of a literal: its bytes, since every literal of the model is ASCII.
abbrev pub codes : String → Text
codes String.[] = []
codes (String.◌∷◌ c s) = code c ∷ codes s

-- ==
unfoldable pub same : Text → Text → Bool
same [] [] = true
same [] (y ∷ ys) = false
same (x ∷ xs) [] = false
same (x ∷ xs) (y ∷ ys) = x == y && same xs ys

pub same_iff : (s t : Text) → (same s t ≡ true) ↔ (s ≡ t)
unfolding same
same_iff [] [] = ground arith
same_iff [] (y ∷ ys) = ground arith
same_iff (x ∷ xs) [] = ground arith
same_iff (x ∷ xs) (y ∷ ys) = ground (arith, same_iff xs ys)

pub same_refl : (s : Text) → same s s ≡ true
same_refl s = (same_iff s s).1 refl

abbrev pub is_empty : Text → Bool
is_empty [] = true
is_empty (x ∷ xs) = false

-- strings.HasPrefix
unfoldable pub has_prefix : Text → Text → Bool
has_prefix s [] = true
has_prefix [] (y ∷ ys) = false
has_prefix (x ∷ xs) (y ∷ ys) = x == y && has_prefix xs ys

-- strings.HasSuffix
unfoldable pub has_suffix : Text → Text → Bool
unfolding same
has_suffix s suffix =
    leb (length suffix) (length s) && same (drop (length s - length suffix) s) suffix

-- strings.TrimPrefix
unfoldable pub trim_prefix : Text → Text → Text
unfolding has_prefix
trim_prefix s prefix = if has_prefix s prefix then drop (length prefix) s else s

-- strings.TrimSuffix
unfoldable pub trim_suffix : Text → Text → Text
unfolding has_suffix
trim_suffix s suffix = if has_suffix s suffix then take (length s - length suffix) s else s

-- strings.Contains
unfoldable pub contains : Text → Text → Bool
unfolding has_prefix
contains [] sub = has_prefix [] sub
contains (x ∷ xs) sub = has_prefix (x ∷ xs) sub || contains xs sub

-- strings.ToLower on ASCII letters; other bytes are kept.
unfoldable pub to_lower : Text → Text
to_lower = map (λ c. if leb b'A' c && leb c b'Z' then c + 32 else c)

pub has_prefix-append : (prefix s : Text) → has_prefix (prefix ++ s) prefix ≡ true
unfolding has_prefix
has_prefix-append [] [] = refl
has_prefix-append [] (x ∷ xs) = refl
has_prefix-append (y ∷ ys) s = ground (arith, has_prefix-append ys s)

pub has_prefix_split :
    (s prefix : Text) → has_prefix s prefix ≡ true → s ≡ prefix ++ drop (length prefix) s
unfolding has_prefix
has_prefix_split s [] h = refl
has_prefix_split [] (y ∷ ys) h = ground arith
has_prefix_split (x ∷ xs) (y ∷ ys) h = ground (arith, has_prefix_split xs ys)

drop-append : (prefix s : Text) → drop (length prefix) (prefix ++ s) ≡ s
drop-append [] s = refl
drop-append (y ∷ ys) s = drop-append ys s

pub trim_prefix-append : (prefix s : Text) → trim_prefix (prefix ++ s) prefix ≡ s
unfolding trim_prefix
trim_prefix-append prefix s = rw (has_prefix-append prefix s) (drop-append prefix s)

pub trim_prefix_found :
    (s prefix : Text) → has_prefix s prefix ≡ true → s ≡ prefix ++ trim_prefix s prefix
unfolding trim_prefix
trim_prefix_found s prefix h = rw h (has_prefix_split s prefix h)
