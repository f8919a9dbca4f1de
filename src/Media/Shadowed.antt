-- ===== src/Media/Shadowed.antt =====
-- The test for AAC in detectByFileSignature stands behind the weaker test for MP3.
use whatsignal.Base.{
  ◌≡◌, refl, arith, Bool, true, false, ◌&&◌, List, [], ◌∷◌, ◌==◌, ◌/◌, all, not, take, drop, leb,
  length, any, if◌then◌else◌,
}
use whatsignal.Base.Text.{Text, codes, same}
use whatsignal.Media.Files.{
  file_signatures, by_signature, after_ff, is_jpeg, by_bytes, or_text, detect_by_file_signature,
}

abbrev NotAac : Text → Type 0
NotAac t = same t (codes "aac") ≡ false

if-NotAac : (b : Bool) (t u : Text) → NotAac t → NotAac u → NotAac (if b then t else u)
if-NotAac true t u h k = h
if-NotAac false t u h k = k

-- A second branch whose test implies the first is never taken.
if-shadowed :
    (b c : Bool) (t u w : Text)
    → (c ≡ true → b ≡ true)
    → NotAac t
    → NotAac w
    → NotAac (if b then t else if c then u else w)
if-shadowed true c t u w f h k = h
if-shadowed false true t u w f h k = ground (arith, f refl)
if-shadowed false false t u w f h k = k

adts-mp3 :
    (content : Text)
    → after_ff (λ b. b / 16 == 15) content ≡ true
    → after_ff (λ b. b / 32 == 7) content ≡ true
adts-mp3 [] h = h
adts-mp3 (x ∷ []) h = h
adts-mp3 (x ∷ y ∷ rest) h = ground arith

by_bytes-NotAac : (content : Text) → NotAac (by_bytes content)
unfolding by_bytes same
by_bytes-NotAac content =
    if-shadowed _ (after_ff (λ b. b / 16 == 15) content) _ _ _ (adts-mp3 content) refl (
      if-NotAac (leb 8 (length content) && same (take 4 (drop 4 content)) (codes "ftyp")) _ _
        (if-NotAac
          (leb 12 (length content)
            && any (same (take 4 (drop 8 content)))
                (codes "M4A " ∷ codes "mp41" ∷ codes "mp42" ∷ []))
          _ _ refl refl)
        (if-NotAac (is_jpeg content) _ _ refl refl))

by_signature-NotAac :
    (table : List (Text × Text)) (content other : Text)
    → all (λ p. not (same p.1 (codes "aac"))) table ≡ true
    → NotAac other
    → NotAac (or_text (by_signature table content) other)
unfolding by_signature
by_signature-NotAac [] content other h k = k
by_signature-NotAac ((signature, ext) ∷ rest) content other h k =
    ground (arith, by_signature-NotAac rest content other)

-- Shadowed: no content is ever taken for AAC by its first bytes.
pub detect_by_file_signature-ne-aac :
    (content : Text) → same (detect_by_file_signature content) (codes "aac") ≡ false
unfolding detect_by_file_signature same
detect_by_file_signature-ne-aac content =
    if-NotAac (leb 3 (length content)) _ _
      (by_signature-NotAac file_signatures content (by_bytes content) refl
        (by_bytes-NotAac content))
      refl
