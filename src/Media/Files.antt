-- ===== src/Media/Files.antt =====
-- What kind of file it is: detectFileTypeFromContent, detectByFileSignature and
-- getFileExtensionFromResponse of pkg/media/handler.go, with the tables of
-- internal/constants/mime_types.go, and GetMediaType and GetMaxSizeForMediaType of
-- internal/media/router.go. A file is its bytes. The order of a table stands for that in which Go
-- ranges over the map.
use whatsignal.Base.{
  ℕ, ◌*◌, Bool, false, not, ◌&&◌, ◌||◌, List, [], ◌∷◌, ◌++◌, Option, none, some, leb, ◌==◌, ◌/◌,
  length, take, drop, any, if◌then◌else◌,
}
use whatsignal.Base.Text.{Text, codes, same, is_empty, has_prefix, trim_prefix, contains}
use whatsignal.Base.Dict.{lookup}
use whatsignal.Sending.{AllowedTypes, has_allowed_extension}

-- FileSignatures
abbrev pub file_signatures : List (Text × Text)
file_signatures =
    (codes "OggS", codes "ogg")
    ∷ (codes "ID3", codes "mp3")
    ∷ (codes "GIF87a", codes "gif")
    ∷ (codes "GIF89a", codes "gif")
    ∷ (codes "RIFF", codes "webp")
    ∷ (codes "%PDF", codes "pdf")
    ∷ (0x89 ∷ codes "PNG" ++ 13 ∷ 10 ∷ 0x1a ∷ 10 ∷ [], codes "png")
    ∷ []

-- The test of the loop over FileSignatures.
unfoldable pub has_signature : Text → Text → Bool
unfolding has_prefix same
has_signature content signature =
    has_prefix content signature
    && (not (same signature (codes "RIFF"))
        || (leb 12 (length content) && same (take 4 (drop 8 content)) (codes "WEBP")))

unfoldable pub by_signature : List (Text × Text) → Text → Option Text
unfolding has_signature
by_signature [] content = none
by_signature ((signature, ext) ∷ rest) content =
    if has_signature content signature then some ext else by_signature rest content

-- The first two bytes: 0xFF, and a second byte of which the test holds.
abbrev pub after_ff : (ℕ → Bool) → Text → Bool
after_ff p [] = false
after_ff p (x ∷ []) = false
after_ff p (x ∷ y ∷ rest) = x == 0xff && p y

abbrev pub is_jpeg : Text → Bool
is_jpeg (x ∷ y ∷ z ∷ rest) = x == 0xff && (y == 0xd8 && z == 0xff)
is_jpeg other = false

-- The tests after the loop; b & 0xE0 == 0xE0 says that the byte's upper three bits are set.
unfoldable pub by_bytes : Text → Text
unfolding same
by_bytes content =
    if after_ff (λ b. b / 32 == 7) content
    then codes "mp3"
    else if after_ff (λ b. b / 16 == 15) content
    then codes "aac"
    else if leb 8 (length content) && same (take 4 (drop 4 content)) (codes "ftyp")
    then if leb 12 (length content)
        && any (same (take 4 (drop 8 content))) (codes "M4A " ∷ codes "mp41" ∷ codes "mp42" ∷ [])
      then codes "m4a"
      else codes "mp4"
    else if is_jpeg content
    then codes "jpg"
    else []

abbrev pub or_text : Option Text → Text → Text
or_text none t = t
or_text (some s) t = s

-- detectByFileSignature; empty if no signature fits
unfoldable pub detect_by_file_signature : Text → Text
unfolding by_signature by_bytes
detect_by_file_signature content =
    if leb 3 (length content)
    then or_text (by_signature file_signatures content) (by_bytes content)
    else []

-- ContentTypeToExtension
abbrev pub content_types : List (Text × Text)
content_types =
    (codes "audio/ogg", codes "ogg")
    ∷ (codes "audio/mpeg", codes "mp3")
    ∷ (codes "audio/mp3", codes "mp3")
    ∷ (codes "audio/aac", codes "aac")
    ∷ (codes "audio/m4a", codes "m4a")
    ∷ (codes "audio/mp4", codes "m4a")
    ∷ (codes "image/jpeg", codes "jpg")
    ∷ (codes "image/jpg", codes "jpg")
    ∷ (codes "image/png", codes "png")
    ∷ (codes "image/gif", codes "gif")
    ∷ (codes "image/webp", codes "webp")
    ∷ (codes "video/mp4", codes "mp4")
    ∷ (codes "video/mov", codes "mov")
    ∷ (codes "video/quicktime", codes "mov")
    ∷ (codes "video/avi", codes "avi")
    ∷ (codes "video/x-msvideo", codes "avi")
    ∷ []

-- The loop of a partial match, for a kind such as "audio/".
unfoldable pub by_partial : Text → Text → List (Text × Text) → Option Text
unfolding has_prefix contains trim_prefix
by_partial kind content_type [] = none
by_partial kind content_type ((key, ext) ∷ rest) =
    if has_prefix key kind && contains content_type (trim_prefix key kind)
    then some ext
    else by_partial kind content_type rest

unfoldable pub by_content_type : Text → Text
unfolding by_partial lookup has_prefix
by_content_type content_type =
    let partial = λ (kind : Text). by_partial kind content_type content_types in
    or_text (lookup content_type content_types) (
      if has_prefix content_type (codes "audio/")
      then or_text (partial (codes "audio/")) (codes "ogg")
      else if has_prefix content_type (codes "image/")
      then or_text (partial (codes "image/")) (codes "jpg")
      else if has_prefix content_type (codes "video/")
      then or_text (partial (codes "video/")) (codes "mp4")
      else [])

-- detectFileTypeFromContent, on the first 512 bytes; http.DetectContentType is a parameter.
unfoldable pub detect_file_type : (Text → Text) → Text → Text
unfolding detect_by_file_signature by_content_type
detect_file_type detect_content_type content =
    let start = take 512 content in
    if is_empty (detect_by_file_signature start)
    then by_content_type (detect_content_type start)
    else detect_by_file_signature start

-- getFileExtensionFromResponse; mime.ExtensionsByType gives `types`, filepath.Ext of the URL `ext`.
unfoldable pub extension_from_response : Text → List Text → Text → Text
extension_from_response content_type (t ∷ ts) ext =
    if is_empty content_type then (if is_empty ext then codes ".bin" else ext) else t
extension_from_response content_type [] ext = if is_empty ext then codes ".bin" else ext

-- MaxSizeMB of MediaConfig
pub record MaxSizes : Type 0 where
  pub image : ℕ
  pub video : ℕ
  pub voice : ℕ
  pub document : ℕ

pub data MediaType : Type 0 where
  image video voice document : MediaType

-- GetMediaType of a file with this extension
unfoldable pub get_media_type : AllowedTypes → Text → MediaType
unfolding has_allowed_extension
get_media_type types ext =
    if has_allowed_extension ext types.image
    then image
    else if has_allowed_extension ext types.video
    then video
    else if has_allowed_extension ext types.voice
    then voice
    else document

-- GetMaxSizeForMediaType
abbrev pub max_size : MaxSizes → MediaType → ℕ
max_size m image = m.image * 1048576
max_size m video = m.video * 1048576
max_size m voice = m.voice * 1048576
max_size m document = m.document * 1048576
