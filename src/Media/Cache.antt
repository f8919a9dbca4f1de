-- ===== src/Media/Cache.antt =====
-- The cache of media files: ProcessMedia and CleanupOldFiles of pkg/media/handler.go. The cache is a
-- map from paths to files. Temporary files are removed before ProcessMedia returns and are left out;
-- media that are processed do not change meanwhile. SHA-256 in hexadecimal, the functions of net,
-- path/filepath, mime and http.DetectContentType, and the other files are parameters.
use whatsignal.Base.{
  ℕ, ◌-◌, ◌*◌, Bool, true, false, not, ◌&&◌, List, [], ◌∷◌, ◌++◌, Option, none, some, ltb, ◌==◌,
  length, take, if◌then◌else◌,
}
use whatsignal.Base.Text.{Text, codes, is_empty, to_lower, trim_prefix}
use whatsignal.Base.Dict.{lookup, insert}
use whatsignal.Paths.{FilePaths, PathError, validate_file_path}
use whatsignal.Sending.{AllowedTypes}
use whatsignal.Media.{Url, Net, Endpoints, UrlError, is_some}
use whatsignal.Media.Urls.{validate_download_url, rewrite_media_url}
use whatsignal.Media.Files.{
  MaxSizes, get_media_type, max_size, detect_file_type, extension_from_response,
}

pub record Handler : Type 0 where
  pub net : Net
  pub endpoints : Endpoints
  pub paths : FilePaths
  pub cache_dir : Text
  pub types : AllowedTypes
  pub sizes : MaxSizes
  pub hash : Text → Text
  pub ext : Text → Text
  pub detect_content_type : Text → Text
  pub extensions_by_type : Text → List Text
  pub sources : Text → Option Text

pub record File : Type 0 where
  pub content : Text
  pub modified : ℕ

abbrev pub Cache : Type 0
Cache = List (Text × File)

-- The end of copyFile: it may fail before the file is created, or after some bytes.
pub data CopyEnd : Type 0 where
  copied not_created : CopyEnd
  cut : ℕ → CopyEnd

pub record Response : Type 0 where
  pub status : ℕ
  pub content_type : Text
  pub body : Text

-- What a call meets: the clock, whether a file can be read and linked, how a copy ends, the answer
-- of a server, if any, and the temporary file, if it can be written.
pub record Conditions : Type 0 where
  pub now : ℕ
  pub reads : Bool
  pub links : Bool
  pub copies : CopyEnd
  pub answers : Text → Option Response
  pub temp_path : Option Text

pub data MediaError : Type 0 where
  url_error : UrlError → MediaError
  path_error : PathError → MediaError
  unsupported_media_scheme missing_file unreadable too_large copy_failed download_failed :
      MediaError

pub data Processed : Type 0 where
  at : Text → Processed
  failed : MediaError → Processed

module _ (h : Handler) where
  abbrev pub cached_path : Text → Text → Text
  cached_path content ext = h.paths.join h.cache_dir (h.hash content ++ codes "." ++ ext)

  -- The limit of validateMedia.
  abbrev pub limit : Text → ℕ
  limit ext = max_size h.sizes (get_media_type h.types ext)

  -- copyFile, to a path that has no file
  unfoldable pub copy_file : Conditions → Text → Text → Text → Cache → Cache × Processed
  unfolding validate_file_path insert
  copy_file c src dst content cache =
      if not (is_some (validate_file_path h.paths src))
        && not (is_some (validate_file_path h.paths dst))
      then elim c.copies [
        | copied ↦ (insert dst (record { content = content; modified = c.now }) cache, at dst)
        | not_created ↦ (cache, failed copy_failed)
        | cut n ↦ (
          insert dst (record { content = take n content; modified = c.now }) cache,
          failed copy_failed,
        )
      ]
      else (cache, failed copy_failed)

  -- The end of processMediaFromFile: a file of that name is taken as it is.
  unfoldable pub keep_file : Conditions → Text → Text → Text → Cache → Cache × Processed
  unfolding copy_file lookup insert
  keep_file c path content ext cache =
      let dst = cached_path content ext in
      elim (lookup dst cache) [
        | some f ↦ (cache, at dst)
        | none ↦
            if c.links
            then (insert dst (record { content = content; modified = c.now }) cache, at dst)
            else copy_file c path dst content cache
      ]

  -- The extension of a local file, from its name or else from its content.
  unfoldable pub file_extension : Bool → Text → Text → Text
  unfolding to_lower trim_prefix detect_file_type
  file_extension reads path content =
      let ext = to_lower (trim_prefix (h.ext path) (codes ".")) in
      if is_empty ext && reads then detect_file_type h.detect_content_type content else ext

  unfoldable pub process_content : Conditions → Text → Text → Cache → Cache × Processed
  unfolding file_extension keep_file get_media_type
  process_content c path content cache =
      let ext = file_extension c.reads path content in
      if ltb (limit ext) (length content)
      then (cache, failed too_large)
      else if c.reads
      then keep_file c path content ext cache
      else (cache, failed unreadable)

  -- processMediaFromFile
  unfoldable pub process_file : Conditions → Text → Cache → Cache × Processed
  unfolding validate_file_path process_content
  process_file c path cache = elim (validate_file_path h.paths path) [
    | some e ↦ (cache, failed (path_error e))
    | none ↦ elim (h.sources path) [
      | none ↦ (cache, failed missing_file)
      | some content ↦ process_content c path content cache
    ]
  ]

  -- processDownloadedFile
  unfoldable pub process_downloaded : Conditions → Text → Text → Text → Cache → Cache × Processed
  unfolding validate_file_path copy_file lookup
  process_downloaded c temp content ext cache = elim (validate_file_path h.paths temp) [
    | some e ↦ (cache, failed (path_error e))
    | none ↦ elim (lookup (cached_path content ext) cache) [
      | some f ↦ (cache, at (cached_path content ext))
      | none ↦ copy_file c temp (cached_path content ext) content cache
    ]
  ]

  -- The extension of an answer, without its dot.
  unfoldable pub answer_extension : Text → Response → Text
  unfolding extension_from_response trim_prefix
  answer_extension url r =
      trim_prefix
        (extension_from_response r.content_type (h.extensions_by_type r.content_type) (h.ext url))
        (codes ".")

  -- downloadFromURL after the request, and processMediaFromURL after the download
  unfoldable pub process_answer : Conditions → Text → Response → Cache → Cache × Processed
  unfolding answer_extension process_downloaded get_media_type
  process_answer c url r cache =
      let ext = answer_extension url r in
      if r.status == 200
      then elim c.temp_path [
        | none ↦ (cache, failed download_failed)
        | some temp ↦
            if ltb (limit ext) (length r.body)
            then (cache, failed too_large)
            else if c.reads
            then process_downloaded c temp r.body ext cache
            else (cache, failed unreadable)
      ]
      else (cache, failed download_failed)

  -- processMediaFromURL, which validates the URL twice alike
  unfoldable pub process_url : Conditions → Text → Cache → Cache × Processed
  unfolding rewrite_media_url validate_download_url process_answer
  process_url c raw cache =
      let url = rewrite_media_url h.net h.endpoints raw in
      elim (validate_download_url h.net h.endpoints url) [
        | some e ↦ (cache, failed (url_error e))
        | none ↦ elim (c.answers url) [
          | none ↦ (cache, failed download_failed)
          | some r ↦ process_answer c url r cache
        ]
      ]

  -- isURL, and the test for other schemes
  unfoldable pub process_parsed : Conditions → Text → Option Url → Cache → Cache × Processed
  unfolding process_url process_file
  process_parsed c path none cache = process_file c path cache
  process_parsed c path (some u) cache =
      if is_empty u.scheme
      then process_file c path cache
      else if is_empty u.host
      then (cache, failed unsupported_media_scheme)
      else process_url c path cache

  -- ProcessMedia
  unfoldable pub process_media : Conditions → Text → Cache → Cache × Processed
  unfolding process_parsed
  process_media c path cache = process_parsed c path (h.net.parse_url path) cache

-- CleanupOldFiles, over the entries of the directory in its order; whether it was read and each
-- removal works is an argument. It returns at the first removal that fails.
unfoldable pub is_old : ℕ → ℕ → File → Bool
is_old now max_age f = ltb (max_age * 1000000000) (now - f.modified)

unfoldable pub cleanup_entries : (Text → Bool) → ℕ → ℕ → Cache → Cache × Bool
unfolding is_old
cleanup_entries removes now max_age [] = ([], true)
cleanup_entries removes now max_age ((path, f) ∷ rest) =
    let (left, done) = cleanup_entries removes now max_age rest in
    if is_old now max_age f
    then if removes path then (left, done) else ((path, f) ∷ rest, false)
    else ((path, f) ∷ left, done)
