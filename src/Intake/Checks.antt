-- ===== src/Intake/Checks.antt =====
-- scripts/prompt_intake.py: the checks of the arguments, of directories and of the source.
use hh_ai_v.Base.{
  ℕ, ◌==◌, leb, Bool, true, false, not, ◌&&◌, ◌||◌, Text, text_eq, Option, none, some, List, [],
  ◌∷◌, all, length, Either, ok, stop, ◌>>=◌, ◌>>◌, require, in_range, is_sha256, lower, strip,
}

-- the labels of IntakeError
pub data Label : Type 0 where
  usage_invalid_task_id usage_invalid_sha256 usage_source_not_absolute usage_source_path_invalid :
      Label
  source_missing source_invalid source_hash_mismatch target_exists path_not_safe
        copy_verify_failed :
      Label

unfoldable pub exit_code : Label → ℕ
exit_code usage_invalid_task_id = 2
exit_code usage_invalid_sha256 = 2
exit_code usage_source_not_absolute = 2
exit_code usage_source_path_invalid = 2
exit_code source_missing = 3
exit_code source_invalid = 4
exit_code source_hash_mismatch = 5
exit_code target_exists = 6
exit_code path_not_safe = 7
exit_code copy_verify_failed = 8

-- what `os.lstat` and `os.path.islink` say of a path
pub record Stat : Type 0 where
  pub mode_link : Bool
  pub path_link : Bool
  pub reparse_tag : ℕ
  pub reparse_attribute : Bool
  pub directory : Bool
  pub regular : Bool
  pub size : ℕ

unfoldable pub is_link_or_reparse : Stat → Bool
is_link_or_reparse st =
    st.mode_link || st.path_link || not (st.reparse_tag == 0) || st.reparse_attribute

-- a path that is a real directory; `none` for an OSError
unfoldable pub is_real_directory : Option Stat → Bool
is_real_directory none = false
is_real_directory (some st) = not (is_link_or_reparse st) && st.directory

-- a path that is a real regular file
unfoldable pub is_real_file : Option Stat → Bool
is_real_file none = false
is_real_file (some st) = not (is_link_or_reparse st) && st.regular

-- MAX_PROMPT_BYTES
abbrev pub max_prompt_bytes : ℕ
max_prompt_bytes = 1048576

unfoldable pub is_prompt_size : ℕ → Bool
is_prompt_size n = leb 1 n && leb n max_prompt_bytes

unfoldable pub size_of : Option Stat → ℕ
size_of none = 0
size_of (some st) = st.size

-- `is_safe_task_id`
is_task_char : ℕ → Bool
is_task_char c =
    in_range b'A' b'Z' c || in_range b'a' b'z' c || in_range b'0' b'9' c || c == b'_' || c == b'-'

unfoldable pub is_safe_task_id : Text → Bool
unfolding is_task_char
is_safe_task_id [] = false
is_safe_task_id (c ∷ cs) = all is_task_char (c ∷ cs)

unfoldable pub is_empty : Text → Bool
is_empty [] = true
is_empty (_ ∷ _) = false

-- The system that the call meets. `ancestors` are the paths from the root of the file system down to
-- a directory; `raw_path_ok` is check_raw_path_segments and `git_dir` is get_canonical_git_dir.
pub record World : Type 0 where
  pub is_absolute : Text → Bool
  pub raw_path_ok : Text → Bool
  pub directory_of : Text → Text
  pub ancestors : Text → List Text
  pub lstat : Text → Option Stat
  pub source_exists : Bool
  pub source_stat : Option Stat
  pub source_bytes : Option (List ℕ)
  pub sha256_hex : List ℕ → Text
  pub git_dir : Option Text

unfoldable pub ensure_safe_directory_chain : World → Text → Either Label (Unit {0})
ensure_safe_directory_chain w directory =
    require (all (λ path. is_real_directory (w.lstat path)) (w.ancestors directory)) path_not_safe

abbrev pub or_label {ℓ} : {A : Type ℓ} → Option A → Label → Either Label A
or_label none label = stop label
or_label (some a) label = ok a

-- the usage checks, with the expected hash
unfoldable pub checked_usage : World → Text → Text → Text → Either Label Text
checked_usage w task_id source expected_sha256 = do
  require (is_safe_task_id task_id) usage_invalid_task_id
  require (is_sha256 (lower (strip expected_sha256))) usage_invalid_sha256
  require (not (is_empty source) && w.is_absolute source) usage_source_not_absolute
  require (w.raw_path_ok source) usage_source_path_invalid
  ok (lower (strip expected_sha256))

-- the checks of the source, with its bytes
unfoldable pub checked_source : World → Text → Text → Either Label (List ℕ)
checked_source w source expected = do
  chain ← ensure_safe_directory_chain w (w.directory_of source)
  require w.source_exists source_missing
  require (is_real_file w.source_stat) source_invalid
  require (is_prompt_size (size_of w.source_stat)) source_invalid
  data_bytes ← or_label w.source_bytes source_invalid
  require (is_prompt_size (length data_bytes)) source_invalid
  require (text_eq (w.sha256_hex data_bytes) expected) source_hash_mismatch
  ok data_bytes

-- the checks before the copy: the expected hash and the bytes
unfoldable pub checked : World → Text → Text → Text → Either Label (Text × List ℕ)
checked w task_id source expected_sha256 = do
  expected ← checked_usage w task_id source expected_sha256
  data_bytes ← checked_source w source expected
  directory ← or_label w.git_dir path_not_safe
  chain ← ensure_safe_directory_chain w directory
  ok (expected, data_bytes)
