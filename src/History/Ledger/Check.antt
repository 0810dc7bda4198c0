-- ===== src/History/Ledger/Check.antt =====
-- scripts/history_guard.py: `check_ledger` and `check_own_placeholder`.
use hh_ai_v.Base.{
  ℕ, ◌+◌, Bool, true, false, Text, Option, none, some, List, [], ◌∷◌, ◌++◌, ltb, ◌==◌,
  if◌then◌else◌, is_none, length, take, get_elem?, any, filter, contains_text, count_text,
  split_once, starts_with,
}
use hh_ai_v.History.Findings.{
  Finding, finding, file, section_line, in_base, occurrences, holds, converted_lines, conversion,
  ledger_file, ledger_file_removed, ledger_section_missing, placeholder_ambiguous,
  placeholder_not_converted, placeholder_conversion_missing, placeholder_conversion_duplicated,
  placeholder_conversion_moved, other_placeholder_changed, ledger_line_changed,
  own_placeholder_missing, own_placeholder_duplicated,
}
use hh_ai_v.History.Lines.{split_lines, first_unmatched}
use hh_ai_v.History.Ledger.{
  placeholder, checkpoint_prefix, indices_from, ledger_section, lines_of, is_conversion,
  has_placeholder,
}

-- `sum(line.count(ph) for line in lines)`
unfoldable pub occurrences_in : Text → List Text → ℕ
occurrences_in ph [] = 0
occurrences_in ph (line ∷ lines) = count_text ph line + occurrences_in ph lines

-- The variables `findings`, `converted_index` and `matched` after the placeholder has been looked
-- at. `converted` is `matched[0] if len(matched) == 1 else None`.
pub record Placement : Type 0 where
  pub findings : List Finding
  pub converted_index : Option ℕ
  pub converted : Option Text

unfoldable pub only_match : List Text → Option Text
only_match (line ∷ []) = some line
only_match _ = none

-- `if not matched: …` and `elif len(matched) > 1: …`
unfoldable pub match_findings : Text → Text → List Text → List Finding
match_findings base_oid task [] =
    finding placeholder_conversion_missing (conversion base_oid task) ∷ []
match_findings base_oid task (line ∷ []) = []
match_findings base_oid task lines =
    finding placeholder_conversion_duplicated (converted_lines (length lines)) ∷ []

-- the `else` branch, with the line of Base that holds the placeholder split around it
unfoldable pub place : List Text → Text → Text → ℕ → Text × Text → Placement
unfolding only_match match_findings
place target_sec base_oid task hit (before, behind) =
    let ph = placeholder task in
    let matched = filter (is_conversion before behind base_oid task) target_sec in
    let stale =
      if any (contains_text ph) target_sec
      then finding placeholder_not_converted (holds ph) ∷ []
      else [] in
    record {
      findings = stale ++ match_findings base_oid task matched;
      converted_index = some hit;
      converted = only_match matched;
    }

abbrev pub ambiguous : List Text → Text → Placement
ambiguous base_sec ph = record {
  findings = finding placeholder_ambiguous (occurrences (occurrences_in ph base_sec) ph) ∷ [];
  converted_index = none;
  converted = none;
}

-- `base_sec[hits[0]]`, and its split; `hits[0]` is in range and the line holds the placeholder
unfoldable pub place_hit : List Text → List Text → Text → Text → ℕ → Option Text → Placement
unfolding place
place_hit base_sec target_sec base_oid task hit none = ambiguous base_sec (placeholder task)
place_hit base_sec target_sec base_oid task hit (some line) =
    let ph = placeholder task in
    if ltb 1 (count_text ph line) then ambiguous base_sec ph else elim (split_once ph line) [
      | none ↦ ambiguous base_sec ph
      | some parts ↦ place target_sec base_oid task hit parts
    ]

unfoldable pub place_hits : List Text → List Text → Text → Text → List ℕ → Placement
unfolding place_hit
place_hits base_sec target_sec base_oid task [] = record {
  findings = [];
  converted_index = none;
  converted = none;
}
place_hits base_sec target_sec base_oid task (hit ∷ []) =
    place_hit base_sec target_sec base_oid task hit (get_elem? base_sec hit)
place_hits base_sec target_sec base_oid task hits = ambiguous base_sec (placeholder task)

abbrev pub is_index : Option ℕ → ℕ → Bool
is_index none i = false
is_index (some k) i = i == k

abbrev pub keep_converted : Option Text → List Text → List Text
keep_converted none rest = rest
keep_converted (some line) rest = line ∷ rest

-- the loop that builds `kept`, from line `i` on
unfoldable pub kept_from : Option ℕ → Option Text → ℕ → List Text → List Text
kept_from index converted i [] = []
kept_from index converted i (line ∷ lines) =
    let rest = kept_from index converted (i + 1) lines in
    if starts_with line checkpoint_prefix
    then rest
    else if is_index index i
    then keep_converted converted rest
    else line ∷ rest

-- `converted is not None and first_unmatched([k for k in kept if k is not converted], …) is None`:
-- `converted` is an object of the target, so leaving it out of `kept` is building `kept` without it.
moved : Option ℕ → Option Text → List Text → List Text → Option Text
moved index none base_sec target_sec = none
moved index (some line) base_sec target_sec =
    if is_none (first_unmatched (kept_from index none 0 base_sec) target_sec)
    then some line
    else none

order_finding : Option Text → Option Text → Finding
order_finding (some line) kept = finding placeholder_conversion_moved (section_line (take 80 line))
order_finding none none = finding ledger_line_changed (section_line [])
order_finding none (some line) =
    if has_placeholder line
    then finding other_placeholder_changed (section_line (take 80 line))
    else finding ledger_line_changed (section_line (take 80 line))

order_findings_at : Placement → List Text → List Text → List Text → Option ℕ → List Finding
order_findings_at p kept base_sec target_sec none = []
order_findings_at p kept base_sec target_sec (some i) =
    order_finding (moved p.converted_index p.converted base_sec target_sec) (get_elem? kept i) ∷ []

unfoldable pub order_findings : Placement → List Text → List Text → List Finding
unfolding order_findings_at order_finding moved
order_findings p base_sec target_sec =
    let kept = kept_from p.converted_index p.converted 0 base_sec in
    order_findings_at p kept base_sec target_sec (first_unmatched kept target_sec)

unfoldable pub section_findings : List Text → List Text → Text → Text → List Finding
section_findings base_sec target_sec base_oid task =
    let hits = indices_from (contains_text (placeholder task)) 0 base_sec in
    let p = place_hits base_sec target_sec base_oid task hits in
    p.findings ++ order_findings p base_sec target_sec

unfoldable pub ranges_findings :
    List Text → List Text → Text → Text → Option (ℕ × ℕ) → Option (ℕ × ℕ) → List Finding
ranges_findings base_lines target_lines base_oid task none target_range =
    finding ledger_section_missing (in_base true) ∷ []
ranges_findings base_lines target_lines base_oid task (some _) none =
    finding ledger_section_missing (in_base false) ∷ []
ranges_findings base_lines target_lines base_oid task (some b) (some t) =
    section_findings (lines_of base_lines b) (lines_of target_lines t) base_oid task

unfoldable pub check_ledger : Text → Option Text → Text → Text → List Finding
unfolding ranges_findings
check_ledger base none base_oid base_task = finding ledger_file_removed (file ledger_file) ∷ []
check_ledger base (some target) base_oid base_task =
    let base_lines = split_lines base in
    let target_lines = split_lines target in
    ranges_findings base_lines target_lines base_oid base_task (ledger_section base_lines)
      (ledger_section target_lines)

own_findings : Text → ℕ → List Finding
own_findings ph n =
    if n == 0
    then finding own_placeholder_missing (holds ph) ∷ []
    else if ltb 1 n
    then finding own_placeholder_duplicated (occurrences n ph) ∷ []
    else []

own_findings_in : List Text → Text → Option (ℕ × ℕ) → List Finding
own_findings_in lines task none = []
own_findings_in lines task (some range) =
    let ph = placeholder task in own_findings ph (occurrences_in ph (lines_of lines range))

unfoldable pub check_own_placeholder : Option Text → Text → List Finding
unfolding own_findings own_findings_in
check_own_placeholder none task = []
check_own_placeholder (some target) task =
    let lines = split_lines target in own_findings_in lines task (ledger_section lines)
