-- ===== src/Gate/Run.antt =====
-- scripts/gate_runner.py: `read_log_lines`, `next_run_number`, `append_lines` and `run_stage`. The
-- log is the text of the file; what is only printed is left out.
use hh_ai_v.Base.{
  crlf_to_lf, ℕ, ◌+◌, Text, Bool, false, ◌&&◌, Option, none, some, List, [], ◌∷◌, ◌++◌, map, codes,
  decimal, ℤ, int_text, split_on, starts_with, ends_with, if◌then◌else◌, length, ◌==◌,
}
use hh_ai_v.Gate.Format.{
  Stage, stage_lower, Command, run_prefix, run_header, gate_header, complete_marker, failed_marker,
  output_prefix, stage_timeouts,
}

-- the status of a tree kill after a time-out (KILL_TREE_SIGNALLED, KILL_TREE_FAILED)
pub data KillStatus : Type 0 where
  tree_signalled tree_kill_failed : KillStatus

unfoldable pub kill_text : KillStatus → Text
kill_text tree_signalled = codes "TREE_SIGNALLED"
kill_text tree_kill_failed = codes "TREE_KILL_FAILED"

-- How `run_bounded` comes back: it raises (the raw file exists), the launch failed, the time limit
-- was met (with the status of the tree kill), or the process exited.
pub data Outcome : Type 0 where
  raised : Outcome
  launch_failed : Text → Outcome
  timed_out : KillStatus → Text → Outcome
  exited : ℤ → Text → Outcome

-- `"\n".join(lines) + "\n"` for a list that is not empty
abbrev pub unlines : List Text → Text
unlines [] = []
unlines (l ∷ ls) = l ++ (10 ∷ unlines ls)

unfoldable pub append_lines : Text → List Text → Text
append_lines log lines = log ++ unlines lines

-- A log that does not exist reads as no line at all, and an empty one as one empty line; no line of
-- either is a run header.
unfoldable pub read_log_lines : Text → List Text
read_log_lines log = split_on 10 log

unfoldable pub is_start : Stage → Text → Bool
is_start s line = starts_with line (run_prefix s) && ends_with line (codes " START ===")

unfoldable pub count_starts : Stage → List Text → ℕ
count_starts s [] = 0
count_starts s (line ∷ lines) = (if is_start s line then 1 else 0) + count_starts s lines

unfoldable pub next_run_number : List Text → Stage → ℕ
next_run_number lines s = count_starts s lines + 1

-- `text.rstrip("\n")`
unfoldable pub rstrip_newlines : Text → Text
rstrip_newlines [] = []
rstrip_newlines (c ∷ cs) = elim (rstrip_newlines cs) [
  | [] ↦ if c == 10 then [] else c ∷ []
  | d ∷ ds ↦ c ∷ (d ∷ ds)
]

prefix_lines : List Text → List Text
prefix_lines = map (λ l. output_prefix ++ l)

unfoldable pub body_lines : Text → List Text
unfolding prefix_lines
body_lines [] = []
body_lines (c ∷ cs) = prefix_lines (split_on 10 (rstrip_newlines (crlf_to_lf (c ∷ cs))))

unfoldable pub raw_line : Text → Stage → ℕ → ℕ → Text
raw_line log_name s run_no idx =
    codes "RAW_EVIDENCE_FILE: "
    ++ (log_name
        ++ (codes "."
            ++ (stage_lower s
                ++ (codes "-run"
                    ++ (decimal run_no ++ (codes "-gate" ++ (decimal idx ++ codes ".raw")))))))

unfoldable pub exit_line : Text → Text
exit_line code = codes "EXIT_CODE: " ++ code

-- the lines that are appended behind the raw line, unless the call raised
unfoldable pub report : Outcome → List Text
report raised = []
report (launch_failed output) = body_lines output ++ (exit_line (codes "LAUNCH_FAILED") ∷ [])
report (timed_out kill output) =
    body_lines output
    ++ ((codes "TREE_KILL: " ++ kill_text kill) ∷ exit_line (codes "TIMEOUT") ∷ [])
report (exited code output) = body_lines output ++ (exit_line (int_text code) ∷ [])

abbrev pub gate_timeout_exit_code : ℕ
gate_timeout_exit_code = 86

-- the variable `code`; a child's own 86 counts as 1
unfoldable pub gate_code : Outcome → ℤ
gate_code raised = ℤ.pos 1
gate_code (launch_failed _) = ℤ.pos 1
gate_code (timed_out _ _) = ℤ.pos gate_timeout_exit_code
gate_code (exited (ℤ.pos n) _) = if n == gate_timeout_exit_code then ℤ.pos 1 else ℤ.pos n
gate_code (exited (ℤ.negsuc n) _) = ℤ.negsuc n

-- `return code if code > 0 else 1`
unfoldable pub failure_code : ℤ → ℕ
failure_code (ℤ.pos n) = if n == 0 then 1 else n
failure_code (ℤ.negsuc n) = 1

-- the log, and what is returned: `none` where the call of a gate raised
pub record RunResult : Type 0 where
  pub log : Text
  pub returned : Option ℕ

-- What stands outside: the last part of the log's path, and how gate `idx` comes back when it is
-- run under a limit of so many seconds.
pub record World : Type 0 where
  pub log_name : Text
  pub run_gate : ℕ → Command → ℕ → Outcome

abbrev pub is_zero : ℤ → Bool
is_zero (ℤ.pos n) = n == 0
is_zero (ℤ.negsuc n) = false

unfoldable pub after_gate : Stage → ℕ → ℕ → Text → Outcome → RunResult → RunResult
after_gate s run_no idx log raised rest = record { log = log; returned = none }
after_gate s run_no idx log outcome rest = if is_zero (gate_code outcome) then rest else record {
  log = append_lines log (failed_marker s run_no idx ∷ []);
  returned = some (failure_code (gate_code outcome));
}

-- the loop over the gates from number `idx` on, with their budgets
unfoldable pub run_gates : World → Stage → ℕ → ℕ → List Command → List ℕ → Text → RunResult
unfolding after_gate
run_gates world s run_no idx [] budgets log = record {
  log = append_lines log (complete_marker s run_no ∷ []);
  returned = some 0;
}
run_gates world s run_no idx (cmd ∷ gates) [] log = record { log = log; returned = none }
run_gates world s run_no idx (cmd ∷ gates) (limit ∷ budgets) log =
    let started = append_lines log (gate_header s run_no idx cmd ∷ []) in
    let named = append_lines started (raw_line world.log_name s run_no idx ∷ []) in
    let outcome = world.run_gate idx cmd limit in
    let reported = append_lines named (report outcome) in
    let rest = run_gates world s run_no (idx + 1) gates budgets reported in
    after_gate s run_no idx reported outcome rest

-- the budgets, or 300 seconds for each gate where their numbers differ
unfoldable pub fitting_budgets : List Command → List ℕ → List ℕ
fitting_budgets gates budgets =
    if length gates == length budgets then budgets else map (λ _. 300) gates

-- `run_stage` with the gates of the stage and no override of the time limits; where the budgets are
-- refused nothing is written
run_with : World → Stage → List Command → Text → Option (List ℕ) → RunResult
run_with world s gates log none = record { log = log; returned = none }
run_with world s gates log (some budgets) =
    let run_no = next_run_number (read_log_lines log) s in
    run_gates world s run_no 1 gates (fitting_budgets gates budgets)
      (append_lines log (run_header s run_no ∷ []))

unfoldable pub run_stage : World → Stage → List Command → Text → RunResult
unfolding run_with
run_stage world s gates log = run_with world s gates log (stage_timeouts s)
