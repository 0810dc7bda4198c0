-- ===== src/History/Ledger.antt =====
-- scripts/history_guard.py: `ledger_section`, `conversion_pattern`, `check_ledger` and
-- `check_own_placeholder`. A regular expression is written out as the function
-- that decides its match.
pub mod Check
pub mod Conversion
pub mod Hits
pub mod Kept
use hh_ai_v.Base.{
  ℕ, zero, suc, ◌+◌, ◌-◌, Bool, true, false, not, ◌&&◌, ◌||◌, Text, Option, none, some, List, [],
  ◌∷◌, ◌++◌, ltb, ◌==◌, if◌then◌else◌, is_some, length, take, drop, get_elem?, any, filter, codes,
  text_eq, strip_prefix?, starts_with, contains_text, count_text, split_once, is_space, no_newline,
}
use hh_ai_v.History.Findings.{
  Code, Finding, finding, file, section_line, in_base, occurrences, conversion, ledger_file,
  ledger_file_removed, ledger_section_missing, placeholder_ambiguous, placeholder_not_converted,
  placeholder_conversion_missing, placeholder_conversion_duplicated, placeholder_conversion_moved,
  other_placeholder_changed, ledger_line_changed, own_placeholder_missing,
  own_placeholder_duplicated,
}
use hh_ai_v.History.Lines.{split_lines, first_unmatched}

-- `（`, `）` and `；`
abbrev pub open_paren : ℕ
open_paren = 65288

abbrev pub close_paren : ℕ
close_paren = 65289

abbrev pub semicolon : ℕ
semicolon = 65307

-- the text before the task of a placeholder, `本批（尚未 commit）（`
unfoldable pub placeholder_head : Text
placeholder_head = codes "本批（尚未 commit）（"

unfoldable pub placeholder : Text → Text
placeholder task = placeholder_head ++ (task ++ (close_paren ∷ []))

unfoldable pub checkpoint_prefix : Text
checkpoint_prefix = codes "上次核對通過的 HEAD："

-- `(?:\s.*)?` at the end of a line
heading_rest : Text → Bool
heading_rest [] = true
heading_rest (c ∷ cs) = is_space c && no_newline cs

-- LEDGER_HEADING.fullmatch: `### 5\.1(?:\s.*)?`
unfoldable pub is_ledger_heading : Text → Bool
unfolding heading_rest
is_ledger_heading line = elim (strip_prefix? (codes "### 5.1") line) [
  | none ↦ false
  | some rest ↦ heading_rest rest
]

-- SECTION_END.fullmatch: `#{1,3} .*`, with the number of `#` that may still come
section_end_rest : ℕ → Text → Bool
section_end_rest n [] = false
section_end_rest zero (c ∷ cs) = c == b' ' && no_newline cs
section_end_rest (suc n) (c ∷ cs) =
    (c == b' ' && no_newline cs) || (c == b'#' && section_end_rest n cs)

unfoldable pub is_section_end : Text → Bool
unfolding section_end_rest
is_section_end [] = false
is_section_end (c ∷ cs) = c == b'#' && section_end_rest 2 cs

-- `[i for i, line in enumerate(lines) if p(line)]`, from index `i` on
unfoldable pub indices_from : (Text → Bool) → ℕ → List Text → List ℕ
indices_from p i [] = []
indices_from p i (line ∷ lines) =
    let rest = indices_from p (i + 1) lines in if p line then i ∷ rest else rest

-- the number of lines before the first section end
unfoldable pub lines_to_end : List Text → ℕ
lines_to_end [] = 0
lines_to_end (line ∷ lines) = let n = lines_to_end lines in if is_section_end line then 0 else n + 1

section_from : List Text → List ℕ → Option (ℕ × ℕ)
section_from lines (head ∷ []) = some (head + 1, head + 1 + lines_to_end (drop (head + 1) lines))
section_from lines _ = none

unfoldable pub ledger_section : List Text → Option (ℕ × ℕ)
unfolding section_from
ledger_section lines = section_from lines (indices_from is_ledger_heading 0 lines)

-- `lines[range[0]:range[1]]`
unfoldable pub lines_of : List Text → ℕ × ℕ → List Text
lines_of lines (start, end) = take (end - start) (drop start lines)

-- `[^（）\n]`
unfoldable pub note_char : ℕ → Bool
note_char c = not (c == open_paren || c == close_paren || c == 10)

-- `[^（）\n]*）`: what is left behind the closing bracket
unfoldable pub after_note_tail : Text → Option Text
after_note_tail [] = none
after_note_tail (c ∷ cs) =
    if c == close_paren then some cs else if note_char c then after_note_tail cs else none

-- `[^（）\n]+）`
unfoldable pub after_note : Text → Option Text
after_note [] = none
after_note (c ∷ cs) = if note_char c then after_note_tail cs else none

-- the fixed text of the conversion pattern up to the task
unfoldable pub converted_head : Text → Text → Text → Text
converted_head before base_oid task = before ++ (b'`' ∷ (base_oid ++ (b'`' ∷ open_paren ∷ task)))

-- `(?:；[^（）\n]+)?）` and then exactly `behind`
unfoldable pub converted_rest : Text → Text → Bool
converted_rest behind [] = false
converted_rest behind (c ∷ cs) =
    if c == close_paren
    then text_eq cs behind
    else if c == semicolon
    then elim (after_note cs) [ none ↦ false | some rest ↦ text_eq rest behind ]
    else false

-- conversion_pattern(prefix, suffix, base_oid, task).fullmatch(line)
unfoldable pub is_conversion : Text → Text → Text → Text → Text → Bool
unfolding converted_rest
is_conversion before behind base_oid task line =
    elim (strip_prefix? (converted_head before base_oid task) line) [
      | none ↦ false
      | some rest ↦ converted_rest behind rest
    ]

-- ANY_PLACEHOLDER.search(line)
unfoldable pub has_placeholder : Text → Bool
has_placeholder [] = false
has_placeholder (c ∷ cs) =
    elim (strip_prefix? placeholder_head (c ∷ cs)) [
      | none ↦ false
      | some rest ↦ is_some (after_note rest)
    ]
    || has_placeholder cs
