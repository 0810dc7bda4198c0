-- ===== src/History/Lines.antt =====
-- scripts/history_guard.py: `split_lines`, `first_unmatched` and `check_insert_only`.
pub mod Insertion
use hh_ai_v.Base.{
  ℕ, ◌+◌, true, false, String, Text, Option, none, some, List, [], ◌∷◌, text_eq, split_on, take,
  get_elem?,
}
use hh_ai_v.History.Findings.{
  Finding, finding, file, numbered, protected_file_removed, protected_line_changed,
}

unfoldable pub split_lines : Text → List Text
unfolding split_on
split_lines text = split_on 10 text

-- `while j < n and target_lines[j] != line: j += 1`, and then `j += 1`: the lines behind the first
-- one that is equal to `line`, or `none` where `j == n`
unfoldable pub skip_to : Text → List Text → Option (List Text)
skip_to line [] = none
skip_to line (t ∷ ts) =
    let rest = skip_to line ts in elim (text_eq t line) [ true ↦ some ts | false ↦ rest ]

-- the outer loop, from line `i` of Base on, with the lines of the target that are left
unfoldable pub first_unmatched_from : ℕ → List Text → List Text → Option ℕ
first_unmatched_from i [] target = none
first_unmatched_from i (line ∷ base) target = elim (skip_to line target) [
  | none ↦ some i
  | some rest ↦ first_unmatched_from (i + 1) base rest
]

unfoldable pub first_unmatched : List Text → List Text → Option ℕ
first_unmatched base target = first_unmatched_from 0 base target

-- `lines[i][:80]`; `first_unmatched` returns an index that is in range
unfoldable pub shown_line : List Text → ℕ → Text
shown_line lines i = elim (get_elem? lines i) [ none ↦ [] | some line ↦ take 80 line ]

unfoldable pub insert_only_findings : String → List Text → Option ℕ → List Finding
insert_only_findings path base none = []
insert_only_findings path base (some i) =
    finding protected_line_changed (numbered path (i + 1) (shown_line base i)) ∷ []

unfoldable pub check_insert_only : String → Text → Option Text → List Finding
unfolding insert_only_findings
check_insert_only path base none = finding protected_file_removed (file path) ∷ []
check_insert_only path base (some target) =
    let lines = split_lines base in
    insert_only_findings path lines (first_unmatched lines (split_lines target))
