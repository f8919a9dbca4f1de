-- ===== src/Media/HalfCopied.antt =====
-- What becomes of a copy that stops half-way.
use whatsignal.Base.{
  ◌≡◌, ◌∙◌, ap, refl, ℕ, Bool, true, false, not, ◌&&◌, if◌then◌else◌, Option, none, some, ltb,
  length, take,
}
use whatsignal.Base.Text.{Text}
use whatsignal.Base.Dict.{lookup, insert, lookup-insert_self}
use whatsignal.Paths.{validate_file_path}
use whatsignal.Media.{is_some}
use whatsignal.Media.Cache.{
  Handler, File, Cache, CopyEnd, copied, not_created, cut, Conditions, failed, copy_failed, at,
  Processed, cached_path, limit, copy_file, keep_file, file_extension, process_content,
  process_file,
}

-- A local file that can be processed, but is not in the cache.
pub record IsNew (h : Handler) (path content : Text) (cache : Cache) : Type 0 where
  pub valid : validate_file_path h.paths path ≡ none
  pub found : h.sources path ≡ some content
  pub small : ltb (limit h (file_extension h true path content)) (length content) ≡ false
  pub valid_target :
      validate_file_path h.paths (cached_path h content (file_extension h true path content)) ≡ none
  pub missing : lookup (cached_path h content (file_extension h true path content)) cache ≡ none

module _ {ℓ} {A : Type ℓ} where
  when_none :
      (o : Option A) (x : Cache × Processed) (y : A → Cache × Processed)
      → o ≡ none
      → (elim o as (λ z. Cache × Processed) [ none ↦ x | some a ↦ y a ]) ≡ x
  when_none none x y e = refl
  when_none (some a) x y e = absurd (cc e)

  when_some :
      (o : Option A) (a : A) (x : Cache × Processed) (y : A → Cache × Processed)
      → o ≡ some a
      → (elim o as (λ z. Cache × Processed) [ none ↦ x | some a ↦ y a ]) ≡ y a
  when_some o a x y e = rw e refl

when_true : (b : Bool) (x y : Cache × Processed) → b ≡ true → (if b then x else y) ≡ x
when_true b x y e = rw e refl

when_false : (b : Bool) (x y : Cache × Processed) → b ≡ false → (if b then x else y) ≡ y
when_false b x y e = rw e refl

when_cut :
    (e : CopyEnd) (n : ℕ) (x y : Cache × Processed) (f : ℕ → Cache × Processed)
    → e ≡ cut n
    → (elim e as (λ z. Cache × Processed) [ copied ↦ x | not_created ↦ y | cut m ↦ f m ]) ≡ f n
when_cut e n x y f k = rw k refl

module _ (h : Handler) (path content : Text) where
  target : Text
  target = cached_path h content (file_extension h true path content)

  process_file-keep_file :
      (c : Conditions) (cache cache' : Cache)
      → IsNew h path content cache
      → c.reads ≡ true
      → process_file h c path cache'
        ≡ keep_file h c path content (file_extension h c.reads path content) cache'
  unfolding process_file process_content
  process_file-keep_file c cache cache' new r =
      when_none (validate_file_path h.paths path) _ _ new.valid
      ∙ when_some (h.sources path) content _ _ new.found
      ∙ when_false (ltb (limit h (file_extension h c.reads path content)) (length content)) _ _
          (ap (λ b. ltb (limit h (file_extension h b path content)) (length content)) r ∙ new.small)
      ∙ when_true c.reads _ _ r

  keep_file-cut :
      (c : Conditions) (cache : Cache) (n : ℕ)
      → IsNew h path content cache
      → c.links ≡ false
      → c.copies ≡ cut n
      → keep_file h c path content (file_extension h true path content) cache ≡ (
        insert target (record { content = take n content; modified = c.now }) cache,
        failed copy_failed,
      )
  unfolding keep_file copy_file target
  keep_file-cut c cache n new l k =
      when_none (lookup target cache) _ _ new.missing
      ∙ when_false c.links _ _ l
      ∙ when_true
          (not (is_some (validate_file_path h.paths path))
            && not (is_some (validate_file_path h.paths target)))
          _ _
          (ap (λ o. not (is_some o) && not (is_some (validate_file_path h.paths target))) new.valid
            ∙ ap (λ o. not (is_some o)) new.valid_target)
      ∙ when_cut c.copies n _ _ _ k

  keep_file-found :
      (c : Conditions) (cache : Cache) (f : File)
      → lookup target cache ≡ some f
      → keep_file h c path content (file_extension h true path content) cache ≡ (cache, at target)
  unfolding keep_file target
  keep_file-found c cache f e = when_some (lookup target cache) f _ _ e

  with_reads :
      (c : Conditions) (cache : Cache)
      → c.reads ≡ true
      → keep_file h c path content (file_extension h c.reads path content) cache
        ≡ keep_file h c path content (file_extension h true path content) cache
  with_reads c cache r =
      ap (λ b. keep_file h c path content (file_extension h b path content) cache) r

  process_file-cut :
      (c : Conditions) (cache : Cache) (n : ℕ)
      → IsNew h path content cache
      → c.reads ≡ true
      → c.links ≡ false
      → c.copies ≡ cut n
      → process_file h c path cache ≡ (
        insert target (record { content = take n content; modified = c.now }) cache,
        failed copy_failed,
      )
  process_file-cut c cache n new r l k =
      process_file-keep_file c cache cache new r
      ∙ with_reads c cache r
      ∙ keep_file-cut c cache n new l k

-- A copy that stops half-way: if the copy of a new file to the cache fails after n bytes, the call
-- fails, but the next call for the same file succeeds whatever it meets, as long as the file can be
-- read, and returns a path whose content is the first n bytes only.
pub process_file-process_file :
    (h : Handler) (c d : Conditions) (path content : Text) (cache : Cache) (n : ℕ)
    → IsNew h path content cache
    → c.reads ≡ true
    → c.links ≡ false
    → c.copies ≡ cut n
    → d.reads ≡ true
    → let first = process_file h c path cache in
      let dst = cached_path h content (file_extension h true path content) in
      (first.1 ≡ failed copy_failed)
      × (process_file h d path first.0 ≡ (first.0, at dst))
      × (lookup dst first.0 ≡ some (record { content = take n content; modified = c.now }))
unfolding target
process_file-process_file h c d path content cache n new r l k r' =
    let dst = cached_path h content (file_extension h true path content) in
    let f : File = record { content = take n content; modified = c.now } in
    let e = process_file-cut h path content c cache n new r l k in
    let held : lookup dst (process_file h c path cache).0 ≡ some f =
      ap (λ x. lookup dst x.0) e ∙ lookup-insert_self dst f cache in
    let again = (process_file h c path cache).0 in
    (
      ap (λ x. x.1) e,
      process_file-keep_file h path content d cache again new r'
          ∙ with_reads h path content d again r'
          ∙ keep_file-found h path content d again f held,
      held,
    )
