-- ===== src/History/Evaluate.antt =====
-- scripts/history_guard.py: `check_exec_log_transition` and `evaluate`.
pub mod Accepted
use hh_ai_v.Base.{
  String, str_eq, Bool, true, false, Text, Option, none, some, List, [], ◌∷◌, ◌++◌, map,
  if◌then◌else◌, text_eq, is_some,
}
use hh_ai_v.History.Findings.{
  Finding, finding, file, in_base, rule_message, exec_log, ledger_file, protected_files,
  protected_file_removed, ledger_section_missing, exec_log_transition_invalid,
}
use hh_ai_v.History.Lines.{check_insert_only}
use hh_ai_v.History.Ledger.Check.{check_ledger, check_own_placeholder}

-- `base_files` and `target_files`: the text at a path. A path that is no key, and a file that does
-- not exist, both read as `none`.
abbrev pub Files : Type 0
Files = String → Option Text

-- `exec_log_rule(base_text, target_text, base_oid)`: the rule of CHECK 17, which returns messages
abbrev pub ExecLogRule : Type 0
ExecLogRule = Text → Text → Text → List Text

abbrev pub rule_finding : Text → Finding
rule_finding message = finding exec_log_transition_invalid (rule_message message)

unfoldable pub check_exec_log_transition : Text → Option Text → Text → ExecLogRule → List Finding
check_exec_log_transition base none base_oid rule =
    finding protected_file_removed (file exec_log) ∷ []
check_exec_log_transition base (some target) base_oid rule =
    if text_eq target base then [] else map rule_finding (rule base target base_oid)

-- the body of the loop over PROTECTED_FILES, for a path whose Base text is there
unfoldable pub check_present :
    String → Text → Option Text → Text → Option ExecLogRule → List Finding
check_present path base target base_oid none = check_insert_only path base target
check_present path base target base_oid (some rule) =
    if str_eq path exec_log
    then check_exec_log_transition base target base_oid rule
    else check_insert_only path base target

pub check_path : Files → Files → Text → Option ExecLogRule → String → Option Text → List Finding
check_path base_files target_files base_oid rule path none = []
check_path base_files target_files base_oid rule path (some base) =
    check_present path base (target_files path) base_oid rule

unfoldable pub check_protected :
    Files → Files → Text → Option ExecLogRule → List String → List Finding
unfolding check_path
check_protected base_files target_files base_oid rule [] = []
check_protected base_files target_files base_oid rule (path ∷ paths) =
    check_path base_files target_files base_oid rule path (base_files path)
    ++ check_protected base_files target_files base_oid rule paths

unfoldable pub ledger_findings : Option Text → Option Text → Text → Text → List Finding
ledger_findings none target base_oid base_task = finding ledger_section_missing (in_base true) ∷ []
ledger_findings (some base) target base_oid base_task = check_ledger base target base_oid base_task

unfoldable pub own_task_findings : Option Text → Option Text → List Finding
own_task_findings target none = []
own_task_findings target (some task) = check_own_placeholder target task

unfoldable pub evaluate :
    Files → Files → Text → Text → Option ExecLogRule → Option Text → List Finding
evaluate base_files target_files base_oid base_task rule target_task =
    check_protected base_files target_files base_oid rule protected_files
    ++ (ledger_findings (base_files ledger_file) (target_files ledger_file) base_oid base_task
        ++ own_task_findings (target_files ledger_file) target_task)
