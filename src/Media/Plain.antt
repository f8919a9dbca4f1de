-- ===== src/Media/Plain.antt =====
-- Extensions of files hold no slash.
use whatsignal.Base.{
  ℕ, zero, suc, ◌≡◌, refl, Bool, true, false, not, ◌&&◌, List, [], ◌∷◌, Option, none, some, all,
  drop, take, length, leb, ◌==◌, arith, Bool-cases, inl, inr, if◌then◌else◌,
}
use whatsignal.Base.Text.{Text, codes, same, is_empty, to_lower, trim_prefix, has_prefix, contains}
use whatsignal.Base.Dict.{lookup}
use whatsignal.Media.Files.{
  file_signatures, has_signature, by_signature, by_bytes, or_text, detect_by_file_signature,
  content_types, by_partial, by_content_type, detect_file_type, extension_from_response,
}
use whatsignal.Media.Cache.{Handler, Response, file_extension, answer_extension}

abbrev pub is_plain : Text → Bool
is_plain t = all (λ c. not (c == b'/')) t

-- What path/filepath and mime return as extensions holds no slash.
pub record IsPlain (h : Handler) : Type 0 where
  pub ext : (path : Text) → is_plain (h.ext path) ≡ true
  pub types : (content_type : Text) → all is_plain (h.extensions_by_type content_type) ≡ true

pub record Slashless (t : Text) : Type 0 where
  pub plain : is_plain t ≡ true

abbrev plain_values : List (Text × Text) → Bool
plain_values table = all (λ e. is_plain e.1) table

if-Slashless : (b : Bool) (x y : Text) → Slashless x → Slashless y → Slashless (if b then x else y)
if-Slashless true x y h k = h
if-Slashless false x y h k = k

-- An extension that was found.
abbrev SlashlessIfSome : Option Text → Type 0
SlashlessIfSome none = Unit
SlashlessIfSome (some t) = Slashless t

or_text-Slashless :
    (o : Option Text) (t : Text) → SlashlessIfSome o → Slashless t → Slashless (or_text o t)
or_text-Slashless none t h k = k
or_text-Slashless (some s) t h k = h

to_lower-is_plain : (t : Text) → is_plain t ≡ true → is_plain (to_lower t) ≡ true
unfolding to_lower
to_lower-is_plain [] h = refl
to_lower-is_plain (c ∷ t) h = ground (arith, to_lower-is_plain t)

drop-is_plain : (n : ℕ) (t : Text) → is_plain t ≡ true → is_plain (drop n t) ≡ true
drop-is_plain zero t h = h
drop-is_plain (suc n) [] h = h
drop-is_plain (suc n) (c ∷ t) h = drop-is_plain n t (ground (arith, h))

trim_prefix-Slashless : (t prefix : Text) → Slashless t → Slashless (trim_prefix t prefix)
unfolding trim_prefix
trim_prefix-Slashless t prefix h =
    if-Slashless (has_prefix t prefix) _ _
      (record { plain = drop-is_plain (length prefix) t h.plain }) h

by_signature-Slashless :
    (table : List (Text × Text)) (content : Text)
    → plain_values table ≡ true
    → SlashlessIfSome (by_signature table content)
unfolding by_signature
by_signature-Slashless [] content h = tt
by_signature-Slashless ((signature, e) ∷ rest) content h =
    elim (Bool-cases (has_signature content signature)) [
      | inl k ↦ rw k (record { plain = ground (arith, h) })
      | inr k ↦ rw k (by_signature-Slashless rest content (ground (arith, h)))
    ]

by_partial-Slashless :
    (kind content_type : Text) (table : List (Text × Text))
    → plain_values table ≡ true
    → SlashlessIfSome (by_partial kind content_type table)
unfolding by_partial
by_partial-Slashless kind content_type [] h = tt
by_partial-Slashless kind content_type ((key, e) ∷ rest) h =
    elim (Bool-cases (has_prefix key kind && contains content_type (trim_prefix key kind))) [
      | inl k ↦ rw k (record { plain = ground (arith, h) })
      | inr k ↦ rw k (by_partial-Slashless kind content_type rest (ground (arith, h)))
    ]

lookup-Slashless :
    (key : Text) (table : List (Text × Text))
    → plain_values table ≡ true
    → SlashlessIfSome (lookup key table)
unfolding lookup
lookup-Slashless key [] h = tt
lookup-Slashless key ((k, e) ∷ rest) h = elim (Bool-cases (same k key)) [
  | inl f ↦ rw f (record { plain = ground (arith, h) })
  | inr f ↦ rw f (lookup-Slashless key rest (ground (arith, h)))
]

by_bytes-Slashless : (content : Text) → Slashless (by_bytes content)
unfolding by_bytes
by_bytes-Slashless content = record { plain = ground arith }

by_content_type-Slashless : (content_type : Text) → Slashless (by_content_type content_type)
unfolding by_content_type
by_content_type-Slashless content_type =
    let partial = λ (kind fallback : Text). λ (h : Slashless fallback).
      or_text-Slashless (by_partial kind content_type content_types) fallback
        (by_partial-Slashless kind content_type content_types refl) h in
    let audio = partial (codes "audio/") (codes "ogg") (record { plain = refl }) in
    let image = partial (codes "image/") (codes "jpg") (record { plain = refl }) in
    let video = partial (codes "video/") (codes "mp4") (record { plain = refl }) in
    let nothing : Slashless [] = record { plain = refl } in
    or_text-Slashless (lookup content_type content_types) _
      (lookup-Slashless content_type content_types refl)
      (if-Slashless (has_prefix content_type (codes "audio/")) _ _ audio (
        if-Slashless (has_prefix content_type (codes "image/")) _ _ image
          (if-Slashless (has_prefix content_type (codes "video/")) _ _ video nothing)))

detect_by_file_signature-Slashless : (content : Text) → Slashless (detect_by_file_signature content)
unfolding detect_by_file_signature
detect_by_file_signature-Slashless content =
    let nothing : Slashless [] = record { plain = refl } in
    if-Slashless (leb 3 (length content)) _ _
      (or_text-Slashless (by_signature file_signatures content) _
        (by_signature-Slashless file_signatures content refl) (by_bytes-Slashless content))
      nothing

detect_file_type-Slashless :
    (detect_content_type : Text → Text) (content : Text)
    → Slashless (detect_file_type detect_content_type content)
unfolding detect_file_type
detect_file_type-Slashless detect_content_type content =
    let start = take 512 content in
    if-Slashless (is_empty (detect_by_file_signature start)) _ _
      (by_content_type-Slashless (detect_content_type start))
      (detect_by_file_signature-Slashless start)

bin-Slashless : Slashless (codes ".bin")
bin-Slashless = record { plain = refl }

extension_from_response-Slashless :
    (content_type : Text) (types : List Text) (ext : Text)
    → all is_plain types ≡ true
    → Slashless ext
    → Slashless (extension_from_response content_type types ext)
unfolding extension_from_response
extension_from_response-Slashless content_type [] ext h k =
    if-Slashless (is_empty ext) _ _ bin-Slashless k
extension_from_response-Slashless content_type (t ∷ ts) ext h k =
    let first : Slashless t = record { plain = ground (arith, h) } in
    if-Slashless (is_empty content_type) _ _ (if-Slashless (is_empty ext) _ _ bin-Slashless k) first

module _ (h : Handler) (plain : IsPlain h) where
  ext-Slashless : (path : Text) → Slashless (h.ext path)
  ext-Slashless path = record { plain = plain.ext path }

  pub file_extension-is_plain :
      (reads : Bool) (path content : Text) → is_plain (file_extension h reads path content) ≡ true
  unfolding file_extension
  file_extension-is_plain reads path content =
      let trimmed = trim_prefix-Slashless (h.ext path) (codes ".") (ext-Slashless path) in
      let chosen =
        if-Slashless (is_empty (to_lower (trim_prefix (h.ext path) (codes "."))) && reads) _ _
          (detect_file_type-Slashless h.detect_content_type content)
          (record {
            plain = to_lower-is_plain (trim_prefix (h.ext path) (codes ".")) trimmed.plain;
          }) in
      chosen.plain

  pub answer_extension-is_plain :
      (url : Text) (r : Response) → is_plain (answer_extension h url r) ≡ true
  unfolding answer_extension
  answer_extension-is_plain url r =
      let extension =
        extension_from_response-Slashless r.content_type (h.extensions_by_type r.content_type)
          (h.ext url) (plain.types r.content_type) (ext-Slashless url) in
      (trim_prefix-Slashless _ (codes ".") extension).plain
