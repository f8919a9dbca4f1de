-- ===== src/Media/Intact.antt =====
-- The cache holds each file under the hash of its content.
use whatsignal.Base.{
  ◌≡◌, ◌≤◌, ◌⊎◌, inl, inr, refl, sym, ap, ◌∙◌, Bool, true, false, Option, none, some, length, ℕ,
  take, Option-cases, if◌then◌else◌,
}
use whatsignal.Base.Text.{Text, same, same_iff}
use whatsignal.Base.Dict.{lookup, insert, lookup-insert, lookup-insert_self}
use whatsignal.Paths.{validate_file_path}
use whatsignal.Media.Plain.{is_plain}
use whatsignal.Media.Cache.{
  Handler, File, Cache, CopyEnd, copied, not_created, cut, Conditions, MediaError, failed,
  copy_failed, path_error, at, Processed, cached_path, limit, copy_file, keep_file,
  process_downloaded,
}

-- No copy stops half-way.
abbrev pub IsWhole : CopyEnd → Type 0
IsWhole copied = Unit
IsWhole not_created = Unit
IsWhole (cut n) = ⊥

module _ (h : Handler) where
  -- Two contents share no path: SHA-256 has no collision among them, and Join keeps names without a
  -- slash apart.
  abbrev pub NoClash : Type 0
  NoClash =
      (c e c' e' : Text)
      → is_plain e ≡ true
      → is_plain e' ≡ true
      → cached_path h c e ≡ cached_path h c' e'
      → c ≡ c'

  abbrev pub IsIntact : Cache → Type 0
  IsIntact cache =
      (content ext : Text) (f : File)
      → is_plain ext ≡ true
      → lookup (cached_path h content ext) cache ≡ some f
      → f.content ≡ content

  -- The path is that of this content, which it has, within the limit of its kind.
  abbrev pub Holds : Text → Text → Text → Cache → Type 0
  Holds p content ext cache =
      (f : File) × (p ≡ cached_path h content ext)
      × (lookup p cache ≡ some f)
      × (f.content ≡ content)
      × (length content ≤ limit h ext)

  pub record IsKept (content ext : Text) (out : Cache × Processed) : Type 0 where
    pub intact : IsIntact out.0
    pub holds : (p : Text) → out.1 ≡ at p → Holds p content ext out.0

  failed-IsKept :
      (content ext : Text) (cache : Cache) (e : MediaError)
      → IsIntact cache
      → IsKept content ext (cache, failed e)
  failed-IsKept content ext cache e i = record { intact = i; holds = λ p k. absurd (cc k) }

  some_inj : (f g : File) → some f ≡ some g → f ≡ g
  some_inj f g e = cc

  chosen :
      (b : Bool) (o : Option File) (f g : File)
      → (if b then some f else o) ≡ some g
      → ((b ≡ true) × (f ≡ g)) ⊎ (o ≡ some g)
  chosen true o f g e = inl (refl, some_inj f g e)
  chosen false o f g e = inr e

  insert-IsIntact :
      NoClash
      → (content ext : Text) (f : File) (cache : Cache) → is_plain ext ≡ true
      → f.content ≡ content
      → IsIntact cache
      → IsIntact (insert (cached_path h content ext) f cache)
  insert-IsIntact clash content ext f cache plain e i c' e' g plain' found =
      let p = cached_path h content ext in
      let q = cached_path h c' e' in
      elim (chosen (same p q) (lookup q cache) f g (sym (lookup-insert p q f cache) ∙ found)) [
        | inl (s, k) ↦
            ap (λ (x : File). x.content) (sym k)
            ∙ e
            ∙ clash content ext c' e' plain plain' ((same_iff p q).0 s)
        | inr k ↦ i c' e' g plain' k
      ]

  at_inj : (p q : Text) → at p ≡ at q → p ≡ q
  at_inj p q e = cc

  inserted-IsKept :
      NoClash
      → (content ext : Text) (now : ℕ) (cache : Cache) → is_plain ext ≡ true
      → length content ≤ limit h ext
      → IsIntact cache
      → let dst = cached_path h content ext in
        IsKept content ext (insert dst (record { content = content; modified = now }) cache, at dst)
  inserted-IsKept clash content ext now cache plain small i =
      let dst = cached_path h content ext in
      let f : File = record { content = content; modified = now } in
      record {
        intact = insert-IsIntact clash content ext f cache plain refl i;
        holds = λ p k. (
          f,
          sym (at_inj dst p k),
          ap (λ x. lookup x (insert dst f cache)) (sym (at_inj dst p k))
              ∙ lookup-insert_self dst f cache,
          refl,
          small,
        );
      }

  found-IsKept :
      (content ext : Text) (f : File) (cache : Cache)
      → is_plain ext ≡ true
      → length content ≤ limit h ext
      → lookup (cached_path h content ext) cache ≡ some f
      → IsIntact cache
      → IsKept content ext (cache, at (cached_path h content ext))
  found-IsKept content ext f cache plain small found i =
      let dst = cached_path h content ext in
      record {
        intact = i;
        holds = λ p k. (
          f,
          sym (at_inj dst p k),
          ap (λ x. lookup x cache) (sym (at_inj dst p k)) ∙ found,
          i content ext f plain found,
          small,
        );
      }

  module _ (clash : NoClash) (c : Conditions) (whole : IsWhole c.copies) (cache : Cache)
      (i : IsIntact cache) (content ext : Text) (plain : is_plain ext ≡ true)
      (small : length content ≤ limit h ext) where
    if-IsKept :
        (b : Bool) (x y : Cache × Processed)
        → IsKept content ext x
        → IsKept content ext y
        → IsKept content ext (if b then x else y)
    if-IsKept true x y hx hy = hx
    if-IsKept false x y hx hy = hy

    copied-IsKept :
        (e : CopyEnd)
        → IsWhole e
        → let dst = cached_path h content ext in
          IsKept content ext (elim e as (λ x. Cache × Processed) [
            | copied ↦ (insert dst (record { content = content; modified = c.now }) cache, at dst)
            | not_created ↦ (cache, failed copy_failed)
            | cut n ↦ (
              insert dst (record { content = take n content; modified = c.now }) cache,
              failed copy_failed,
            )
          ])
    copied-IsKept copied w = inserted-IsKept clash content ext c.now cache plain small i
    copied-IsKept not_created w = failed-IsKept content ext cache copy_failed i
    copied-IsKept (cut n) w = absurd w

    copy_file-IsKept :
        (src : Text)
        → IsKept content ext (copy_file h c src (cached_path h content ext) content cache)
    unfolding copy_file
    copy_file-IsKept src =
        if-IsKept _ _ _ (copied-IsKept c.copies whole)
          (failed-IsKept content ext cache copy_failed i)

    -- The file of that name, or else a new one.
    looked_up-IsKept :
        (o : Option File) (y : Cache × Processed)
        → lookup (cached_path h content ext) cache ≡ o
        → IsKept content ext y
        → IsKept content ext (elim o as (λ x. Cache × Processed) [
          | some f ↦ (cache, at (cached_path h content ext))
          | none ↦ y
        ])
    looked_up-IsKept (some f) y e k = found-IsKept content ext f cache plain small e i
    looked_up-IsKept none y e k = k

    pub keep_file-IsKept : (path : Text) → IsKept content ext (keep_file h c path content ext cache)
    unfolding keep_file
    keep_file-IsKept path = looked_up-IsKept (lookup (cached_path h content ext) cache) _ refl (
        if-IsKept c.links _ _ (inserted-IsKept clash content ext c.now cache plain small i)
          (copy_file-IsKept path))

    pub process_downloaded-IsKept :
        (temp : Text) → IsKept content ext (process_downloaded h c temp content ext cache)
    unfolding process_downloaded
    process_downloaded-IsKept temp = elim (Option-cases (validate_file_path h.paths temp)) [
      | inl e ↦
          rw (e, process_downloaded)
            (looked_up-IsKept (lookup (cached_path h content ext) cache) _ refl
              (copy_file-IsKept temp))
      | inr (x, e) ↦ rw (e, process_downloaded) (failed-IsKept content ext cache (path_error x) i)
    ]
