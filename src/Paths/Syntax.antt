-- ===== src/Paths/Syntax.antt =====
-- scripts/execution_record.py: `normalize_repo_path`, `validate_path_syntax` and
-- `validate_external_artifact_path`. Of a refusal the kind is kept, not the wording.
use hh_ai_v.Base.{
  ℕ, ◌==◌, leb, Bool, true, false, not, ◌&&◌, ◌||◌, Text, Option, none, some, List, [], ◌∷◌, ◌++◌,
  map, Either, ok, stop, ◌>>=◌, ◌>>◌, require, if◌then◌else◌, any, codes, text_eq, strip_prefix?,
  starts_with, contains_text, split_on, strip,
}

pub data Refusal : Type 0 where
  empty_path absolute_path path_traversal wildcard : Refusal
  not_direct_child wrong_prefix empty_suffix dots_in_suffix forbidden_character : Refusal

-- `path.replace("\\", "/")`
unfoldable pub with_slashes : Text → Text
with_slashes = map (λ c. if c == b'\\' then b'/' else c)

-- `p[2:]` where `p` starts with `./`
unfoldable pub drop_dot_slash : Text → Text
drop_dot_slash p = elim (strip_prefix? (codes "./") p) [ none ↦ p | some rest ↦ rest ]

unfoldable pub normalize_repo_path : Text → Text
normalize_repo_path path = drop_dot_slash (strip (with_slashes path))

unfoldable pub is_blank : Text → Bool
is_blank [] = true
is_blank (_ ∷ _) = false

-- `re.match(r"^[a-zA-Z]:", text)`
unfoldable pub has_drive : Text → Bool
has_drive (c ∷ (d ∷ cs)) = ((leb b'a' c && leb c b'z') || (leb b'A' c && leb c b'Z')) && d == b':'
has_drive _ = false

-- `member in parts`
unfoldable pub is_part : Text → List Text → Bool
is_part t parts = any (λ u. text_eq t u) parts

unfoldable pub is_wildcard : ℕ → Bool
is_wildcard c = c == b'*' || c == b'?' || c == b'[' || c == b']'

unfoldable pub validate_path_syntax : Text → Either Refusal Text
validate_path_syntax p = do
  let norm = normalize_repo_path p
  require (not (is_blank norm)) empty_path
  require (not (starts_with norm (codes "/") || has_drive norm)) absolute_path
  require (not (is_part (codes "..") (split_on b'/' norm))) path_traversal
  require (not (any is_wildcard norm)) wildcard
  ok norm

unfoldable pub is_forbidden : ℕ → Bool
is_forbidden c =
    c == b':'
    || c == b'/'
    || c == b'\\'
    || is_wildcard c
    || c == b'<'
    || c == b'>'
    || c == b'|'
    || c == b'"'

-- `filename[len(expected_prefix):]` where the name starts with the prefix
unfoldable pub suffix_of : Option Text → Either Refusal Text
suffix_of none = stop wrong_prefix
suffix_of (some suffix) = ok suffix

-- `parts[1]` where there are two parts and the first one is `.git`
unfoldable pub child_of_git : List Text → Either Refusal Text
child_of_git (folder ∷ (filename ∷ [])) = do
  require (text_eq folder (codes ".git")) not_direct_child
  ok filename
child_of_git _ = stop not_direct_child

unfoldable pub validate_external_artifact_path : Text → Text → Either Refusal Text
validate_external_artifact_path raw_path task_id = do
  require (not (is_blank (strip raw_path))) empty_path
  require
      (not (
        starts_with raw_path (codes "/")
        || starts_with raw_path (codes "\\")
        || has_drive raw_path))
      absolute_path
  let norm = normalize_repo_path raw_path
  filename ← child_of_git (split_on b'/' norm)
  suffix ← suffix_of (strip_prefix? (task_id ++ codes "-") filename)
  require (not (is_blank suffix)) empty_suffix
  require (not (contains_text (codes "..") suffix)) dots_in_suffix
  require (not (any is_forbidden suffix)) forbidden_character
  ok norm
