-- ===== src/History/Tests.antt =====
-- Runs of scripts/history_guard.py on small files, and the theorems at these inputs.
use mathlib.Core.List.{Sublistᴰ, cons≢nil}
use hh_ai_v.Base.{
  ℕ, ◌≡◌, ◌≢◌, ◌↔◌, refl, str_eq, true, Text, none, some, [], codes, if◌then◌else◌, text_eq,
  starts_with, contains_text, count_text, split_once, split_on, strip_prefix?, is_space, no_newline,
}
use hh_ai_v.History.Findings.{audit_log, ledger_file}
use hh_ai_v.History.Lines.{
  split_lines, skip_to, first_unmatched_from, first_unmatched, check_insert_only,
}
use hh_ai_v.History.Lines.Insertion.{Reports, check_insert_only_iff, check_insert_only-Reports}
use hh_ai_v.History.Ledger.{
  placeholder_head, placeholder, checkpoint_prefix, is_ledger_heading, is_section_end, indices_from,
  lines_to_end, ledger_section, lines_of, note_char, after_note_tail, after_note, converted_head,
  is_conversion,
}
use hh_ai_v.History.Ledger.Check.{
  occurrences_in, only_match, match_findings, place_hits, kept_from, order_findings,
  section_findings, check_ledger, check_own_placeholder,
}
use hh_ai_v.History.Ledger.Conversion.{IsConverted, is_conversion_iff}
use hh_ai_v.History.Ledger.Kept.{LedgerStep, check_ledger-LedgerStep}
use hh_ai_v.History.Evaluate.{
  Files, check_present, check_protected, ledger_findings, own_task_findings, evaluate,
}
use hh_ai_v.History.Evaluate.Accepted.{Accepted, evaluate-Accepted}

abbrev oid : Text
oid = codes "0a1b"

abbrev base_ledger : Text
base_ledger = codes "### 5.1\n- A：本批（尚未 commit）（T1）。\n### 6\n"

abbrev target_ledger : Text
target_ledger = codes "### 5.1\n- A：`0a1b`（T1；ok）。\n- 本批（尚未 commit）（T2）\n### 6\n"

abbrev base_files : Files
base_files path =
    if str_eq path ledger_file
    then some base_ledger
    else if str_eq path audit_log
    then some (codes "a\nc")
    else none

abbrev target_files : Files
target_files path =
    if str_eq path ledger_file
    then some target_ledger
    else if str_eq path audit_log
    then some (codes "a\nb\nc")
    else none

check_ledger_run : check_ledger base_ledger (some target_ledger) oid (codes "T1") ≡ []
unfolding check_ledger split_lines ledger_section is_ledger_heading is_section_end indices_from
    lines_to_end lines_of section_findings place_hits order_findings only_match match_findings
    placeholder placeholder_head checkpoint_prefix contains_text starts_with count_text split_once
    is_conversion converted_head after_note after_note_tail note_char strip_prefix? text_eq is_space
    no_newline kept_from first_unmatched first_unmatched_from skip_to
check_ledger_run = refl

evaluate_run : evaluate base_files target_files oid (codes "T1") none (some (codes "T2")) ≡ []
unfolding evaluate check_protected check_present check_insert_only ledger_findings own_task_findings
    check_own_placeholder occurrences_in check_ledger split_lines ledger_section is_ledger_heading
    is_section_end indices_from lines_to_end lines_of section_findings place_hits order_findings
    only_match match_findings placeholder placeholder_head checkpoint_prefix contains_text
    starts_with count_text split_once is_conversion converted_head after_note after_note_tail
    note_char strip_prefix? text_eq is_space no_newline kept_from first_unmatched
    first_unmatched_from skip_to
evaluate_run = refl

evaluate-Accepted_example : Accepted base_files target_files oid (codes "T1") none (codes "T2")
evaluate-Accepted_example =
    evaluate-Accepted base_files target_files oid (codes "T1") none (codes "T2") evaluate_run

check_ledger-LedgerStep_example :
    (r : ℕ × ℕ) × (s : ℕ × ℕ) × (ledger_section (split_lines base_ledger) ≡ some r)
    × (ledger_section (split_lines target_ledger) ≡ some s)
    × LedgerStep
        (lines_of (split_lines base_ledger) r)
        (lines_of (split_lines target_ledger) s)
        oid
        (codes "T1")
check_ledger-LedgerStep_example =
    check_ledger-LedgerStep base_ledger target_ledger oid (codes "T1") check_ledger_run

check_insert_only_iff_example :
    (check_insert_only audit_log (codes "a\nc") (some (codes "a\nb\nc")) ≡ [])
    ↔ Sublistᴰ (split_lines (codes "a\nc")) (split_lines (codes "a\nb\nc"))
check_insert_only_iff_example = check_insert_only_iff audit_log (codes "a\nc") (codes "a\nb\nc")

insertion : check_insert_only audit_log (codes "a\nc") (some (codes "a\nb\nc")) ≡ []
unfolding check_insert_only split_lines split_on first_unmatched first_unmatched_from skip_to
    text_eq
insertion = refl

-- the line that is lost is the second one
deletion : check_insert_only audit_log (codes "a\nc") (some (codes "a\nb")) ≢ []
unfolding check_insert_only split_lines split_on first_unmatched first_unmatched_from skip_to
    text_eq
deletion h = cons≢nil h

check_insert_only-Reports_example :
    Reports audit_log
      (codes "a\nc")
      (codes "a\nb")
      (check_insert_only audit_log (codes "a\nc") (some (codes "a\nb")))
check_insert_only-Reports_example =
    check_insert_only-Reports audit_log (codes "a\nc") (codes "a\nb") deletion

is_conversion_iff_example :
    (is_conversion (codes "- A：") (codes "。") oid (codes "T1") (codes "- A：`0a1b`（T1；ok）。") ≡ true)
    ↔ IsConverted (codes "- A：") (codes "。") oid (codes "T1") (codes "- A：`0a1b`（T1；ok）。")
is_conversion_iff_example =
    is_conversion_iff (codes "- A：") (codes "。") oid (codes "T1") (codes "- A：`0a1b`（T1；ok）。")
