-- ===== src/History/Findings.antt =====
-- scripts/history_guard.py: the path constants, and `Finding` with its codes. The wording of a
-- detail is left out: a `Detail` holds the values that the message shows.
use hh_ai_v.Base.{ℕ, String, Text, Bool, List, [], ◌∷◌}

pub data Code : Type 0 where
  protected_file_removed protected_line_changed : Code
  ledger_file_removed ledger_section_missing : Code
  placeholder_ambiguous placeholder_not_converted : Code
  placeholder_conversion_missing placeholder_conversion_duplicated : Code
  placeholder_conversion_moved other_placeholder_changed ledger_line_changed : Code
  exec_log_transition_invalid : Code
  own_placeholder_missing own_placeholder_duplicated : Code

pub data Detail : Type 0 where
  -- a path
  file : String → Detail
  -- a path, a line number from 1 and the first 80 characters of the line
  numbered : String → ℕ → Text → Detail
  -- the first 80 characters of a line of §5.1
  section_line : Text → Detail
  -- whether it is Base (or else the target) that has no single §5.1
  in_base : Bool → Detail
  -- how often a text stands in §5.1, and that text
  occurrences : ℕ → Text → Detail
  -- a text that stands in §5.1 and should not, or should and does not
  holds : Text → Detail
  -- the number of converted lines
  converted_lines : ℕ → Detail
  -- the commit and the task that the converted line should name
  conversion : Text → Text → Detail
  -- a message of the rule of CHECK 17
  rule_message : Text → Detail

pub record Finding : Type 0 where
  pub code : Code
  pub detail : Detail

abbrev pub finding : Code → Detail → Finding
finding c d = record { code = c; detail = d }

abbrev pub audit_log : String
audit_log = "docs/AUDIT-LOG.md"

abbrev pub archive_index : String
archive_index = "docs/ARCHIVE-INDEX.md"

abbrev pub exec_log : String
exec_log = "docs/EXEC-LOG.md"

abbrev pub ledger_file : String
ledger_file = "docs/refactor-backlog.md"

abbrev pub protected_files : List String
protected_files = audit_log ∷ archive_index ∷ exec_log ∷ []
