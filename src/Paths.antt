-- ===== src/Paths.antt =====
-- internal/security/path.go. filepath.Clean, Join and IsAbs are parameters.
use whatsignal.Base.{Bool, Option, none, some, any, length, ltb, ◌==◌, if◌then◌else◌}
use whatsignal.Base.Text.{Text, codes, is_empty, contains, has_prefix}

pub record FilePaths : Type 0 where
  pub clean : Text → Text
  pub join : Text → Text → Text
  pub is_abs : Text → Bool

pub data PathError : Type 0 where
  empty_path null_bytes traversal too_long escapes_base absolute : PathError

module _ (f : FilePaths) where
  -- ValidateFilePath
  unfoldable pub validate_file_path : Text → Option PathError
  unfolding contains
  validate_file_path path =
      if is_empty path
      then some empty_path
      else if any (λ c. c == 0) path
      then some null_bytes
      else if contains (f.clean path) (codes "..")
      then some traversal
      else if ltb 4096 (length (f.clean path))
      then some too_long
      else none

  -- The path that ValidateFilePathWithBase tests.
  abbrev pub resolved_path : Text → Text → Text
  resolved_path path base = if f.is_abs path then f.clean path else f.clean (f.join base path)

  -- ValidateFilePathWithBase
  unfoldable pub validate_file_path_with_base : Text → Text → Option PathError
  unfolding validate_file_path has_prefix
  validate_file_path_with_base path base = elim (validate_file_path path) [
    | some e ↦ some e
    | none ↦ if has_prefix (resolved_path path base) (f.clean base) then none else some escapes_base
  ]

  -- ValidateFilePathStrict
  unfoldable pub validate_file_path_strict : Text → Option PathError
  unfolding validate_file_path
  validate_file_path_strict path = elim (validate_file_path path) [
    | some e ↦ some e
    | none ↦ if f.is_abs path then some absolute else none
  ]
