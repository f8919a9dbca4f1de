-- ===== src/Media/Processed.antt =====
-- What ProcessMedia returns.
use whatsignal.Base.{
  ◌≡◌, ◌⊎◌, inl, inr, refl, Bool, true, false, Option, none, some, arith, ltb, length, ◌==◌,
  if◌then◌else◌,
}
use whatsignal.Base.Text.{Text, is_empty}
use whatsignal.Paths.{validate_file_path}
use whatsignal.Media.{Url}
use whatsignal.Media.Urls.{validate_download_url, rewrite_media_url}
use whatsignal.Media.Cache.{
  Handler, Cache, Response, Conditions, MediaError, failed, path_error, too_large, unreadable,
  missing_file, download_failed, unsupported_media_scheme, url_error, at, Processed, limit,
  file_extension, process_content, process_file, answer_extension, process_answer, process_url,
  process_parsed, process_media,
}
use whatsignal.Media.Plain.{IsPlain, file_extension-is_plain, answer_extension-is_plain}
use whatsignal.Media.Intact.{
  IsWhole, NoClash, IsIntact, Holds, IsKept, keep_file-IsKept, process_downloaded-IsKept,
}

module _ (h : Handler) (c : Conditions) where
  -- The content of the local file, or of the answer from the rewritten URL.
  abbrev pub IsFrom : Text → Text → Type 0
  IsFrom path content =
      (h.sources path ≡ some content)
      ⊎ ((r : Response) × (c.answers (rewrite_media_url h.net h.endpoints path) ≡ some r)
          × (validate_download_url h.net h.endpoints (rewrite_media_url h.net h.endpoints path)
              ≡ none)
          × (r.status ≡ 200)
          × (r.body ≡ content))

  pub record IsProcessed (path : Text) (out : Cache × Processed) : Type 0 where
    pub intact : IsIntact h out.0
    pub returned :
        (p : Text)
        → out.1 ≡ at p
        → (content ext : Text) × IsFrom path content × Holds h p content ext out.0

  module _ (plain : IsPlain h) (clash : NoClash h) (whole : IsWhole c.copies) (path : Text)
      (cache : Cache) (i : IsIntact h cache) where
    failed-IsProcessed : (e : MediaError) → IsProcessed path (cache, failed e)
    failed-IsProcessed e = record { intact = i; returned = λ p k. absurd (cc k) }

    kept-IsProcessed :
        (content ext : Text) (out : Cache × Processed)
        → IsFrom path content
        → IsKept h content ext out
        → IsProcessed path out
    kept-IsProcessed content ext out from k = record {
      intact = k.intact;
      returned = λ p e. (content, ext, from, k.holds p e);
    }

    branch-IsProcessed :
        (b : Bool) (x y : Cache × Processed)
        → (b ≡ true → IsProcessed path x)
        → (b ≡ false → IsProcessed path y)
        → IsProcessed path (if b then x else y)
    branch-IsProcessed true x y hx hy = hx refl
    branch-IsProcessed false x y hx hy = hy refl

    some-IsProcessed {ℓ} :
        {A : Type ℓ} (o : Option A) (none_case : Cache × Processed)
        (some_case : A → Cache × Processed)
        → (o ≡ none → IsProcessed path none_case)
        → ((a : A) → o ≡ some a → IsProcessed path (some_case a))
        → IsProcessed path
            (elim o as (λ x. Cache × Processed) [ none ↦ none_case | some a ↦ some_case a ])
    some-IsProcessed none x y hx hy = hx refl
    some-IsProcessed (some a) x y hx hy = hy a refl

    process_content-IsProcessed :
        (content : Text)
        → h.sources path ≡ some content
        → IsProcessed path (process_content h c path content cache)
    unfolding process_content
    process_content-IsProcessed content found =
        let ext = file_extension h c.reads path content in
        branch-IsProcessed (ltb (limit h ext) (length content)) _ _
          (λ e. failed-IsProcessed too_large)
          (λ e.
            branch-IsProcessed c.reads _ _
              (λ f. kept-IsProcessed content ext _ (inl found) (
                keep_file-IsKept h clash c whole cache i content ext
                  (file_extension-is_plain h plain c.reads path content) (ground arith) path))
              (λ f. failed-IsProcessed unreadable))

    process_file-IsProcessed : IsProcessed path (process_file h c path cache)
    unfolding process_file
    process_file-IsProcessed =
        some-IsProcessed (validate_file_path h.paths path) _ _
          (λ e.
            some-IsProcessed (h.sources path) _ _ (λ f. failed-IsProcessed missing_file)
              (λ content f. process_content-IsProcessed content f))
          (λ x e. failed-IsProcessed (path_error x))

    process_answer-IsProcessed :
        (url : Text) (r : Response)
        → (r.status ≡ 200 → IsFrom path r.body)
        → IsProcessed path (process_answer h c url r cache)
    unfolding process_answer
    process_answer-IsProcessed url r from =
        let ext = answer_extension h url r in
        branch-IsProcessed (r.status == 200) _ _
          (λ e.
            some-IsProcessed c.temp_path _ _ (λ f. failed-IsProcessed download_failed)
              (λ temp f.
                branch-IsProcessed (ltb (limit h ext) (length r.body)) _ _
                  (λ g. failed-IsProcessed too_large)
                  (λ g.
                    branch-IsProcessed c.reads _ _
                      (λ k. kept-IsProcessed r.body ext _ (from (ground arith)) (
                        process_downloaded-IsKept h clash c whole cache i r.body ext
                          (answer_extension-is_plain h plain url r) (ground arith) temp))
                      (λ k. failed-IsProcessed unreadable))))
          (λ e. failed-IsProcessed download_failed)

    process_url-IsProcessed : IsProcessed path (process_url h c path cache)
    unfolding process_url
    process_url-IsProcessed =
        let url = rewrite_media_url h.net h.endpoints path in
        some-IsProcessed (validate_download_url h.net h.endpoints url) _ _
          (λ e.
            some-IsProcessed (c.answers url) _ _ (λ f. failed-IsProcessed download_failed)
              (λ r f. process_answer-IsProcessed url r (λ ok. inr (r, f, e, ok, refl))))
          (λ x e. failed-IsProcessed (url_error x))

    process_parsed-IsProcessed :
        (o : Option Url) → IsProcessed path (process_parsed h c path o cache)
    unfolding process_parsed
    process_parsed-IsProcessed none = process_file-IsProcessed
    process_parsed-IsProcessed (some u) =
        branch-IsProcessed (is_empty u.scheme) _ _ (λ e. process_file-IsProcessed)
          (λ e.
            branch-IsProcessed (is_empty u.host) _ _
              (λ f. failed-IsProcessed unsupported_media_scheme) (λ f. process_url-IsProcessed))

-- The cache of media: if the extensions of paths and of MIME types hold no slash, no two contents
-- share a path under such extensions, and no copy stops half-way, ProcessMedia keeps every file that
-- is cached under the hash of a content and such an extension with that content. A path that it returns holds the content of the
-- given file, or of the answer with status 200 from the given URL after its rewriting and
-- validation, and is within the size limit for its extension.
pub process_media-IsProcessed :
    (h : Handler) (c : Conditions) (path : Text) (cache : Cache)
    → IsPlain h
    → NoClash h
    → IsWhole c.copies
    → IsIntact h cache
    → IsProcessed h c path (process_media h c path cache)
unfolding process_media
process_media-IsProcessed h c path cache plain clash whole i =
    process_parsed-IsProcessed h c plain clash whole path cache i (h.net.parse_url path)
