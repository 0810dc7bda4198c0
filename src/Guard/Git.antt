-- ===== src/Guard/Git.antt =====
-- scripts/c9_base_guard.py: `_git` and the patterns of the two guards. What git answers is a
-- parameter: it may depend on how many queries there were before.
use hh_ai_v.Base.{
  in_range, strip, ◌*◌, ◌-◌, ℕ, ◌+◌, ◌==◌, leb, Bool, false, ◌&&◌, ◌||◌, Text, none, some, List, [],
  ◌∷◌, Either, ok, stop, length, all, codes, strip_prefix?,
}

-- the messages of the RuntimeError
pub data Failure : Type 0 where
  git_query_failed git_output_invalid base_oid_invalid workspace_invalid : Failure
  shallow_repo oid_query_invalid remote_main_invalid : Failure

-- The process could not be run or ended with an error; its output is no UTF-8; or its output.
pub data Answer : Type 0 where
  failed undecodable : Answer
  printed : Text → Answer

-- the answer to the query with this number, for the arguments of git
abbrev pub Git : Type 0
Git = ℕ → List Text → Answer

unfoldable pub read_answer : Answer → Either Failure Text
read_answer failed = stop git_query_failed
read_answer undecodable = stop git_output_invalid
read_answer (printed output) = ok (strip output)

is_start_char : ℕ → Bool
unfolding in_range
is_start_char c = in_range b'a' b'z' c || in_range b'0' b'9' c

is_branch_char : ℕ → Bool
unfolding is_start_char
is_branch_char c = is_start_char c || c == b'/' || c == b'_' || c == b'.' || c == b'-'

branch_rest : Text → Bool
branch_rest [] = false
branch_rest (c ∷ cs) =
    is_start_char c && leb 1 (length cs) && leb (length cs) 120 && all is_branch_char cs

-- BRANCH.fullmatch: `^batch/[a-z0-9][a-z0-9/_.-]{1,120}$`
unfoldable pub is_batch_branch : Text → Bool
unfolding branch_rest is_branch_char
is_batch_branch text = elim (strip_prefix? (codes "batch/") text) [
  | none ↦ false
  | some rest ↦ branch_rest rest
]

-- COUNT.fullmatch: `^(0|[1-9][0-9]{0,9})$`
unfoldable pub is_count : Text → Bool
unfolding in_range
is_count [] = false
is_count (c ∷ cs) =
    (c == b'0' && length cs == 0)
    || (in_range b'1' b'9' c && leb (length cs) 9 && all (in_range b'0' b'9') cs)

-- `int(n)` of a count
unfoldable pub int_of : ℕ → Text → ℕ
int_of acc [] = acc
int_of acc (c ∷ cs) = int_of (acc * 10 + (c - b'0')) cs
