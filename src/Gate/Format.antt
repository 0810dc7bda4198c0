-- ===== src/Gate/Format.antt =====
-- scripts/gate_runner.py: the stages with their gates and budgets, and the lines of the log.
use hh_ai_v.Base.{
  ℕ, String, Text, not, ◌||◌, Option, none, some, List, [], ◌∷◌, ◌++◌, map, codes, decimal, length,
  all, ltb, ◌==◌, if◌then◌else◌, join_with,
}

pub data Stage : Type 0 where
  precommit staged postcommit : Stage

unfoldable pub stage_name : Stage → Text
stage_name precommit = codes "PRECOMMIT"
stage_name staged = codes "STAGED"
stage_name postcommit = codes "POSTCOMMIT"

-- `stage.lower()`
unfoldable pub stage_lower : Stage → Text
stage_lower precommit = codes "precommit"
stage_lower staged = codes "staged"
stage_lower postcommit = codes "postcommit"

-- a command: its words
abbrev pub Command : Type 0
Command = List Text

abbrev words : List String → Command
words = map codes

-- STAGES
unfoldable pub stages : Stage → List Command
stages precommit =
    words ("python" ∷ "scripts/execution_record.py" ∷ "verify" ∷ "--as-if-committed" ∷ [])
    ∷ words ("python" ∷ "scripts/fingerprint.py" ∷ "--verify" ∷ [])
    ∷ words ("python" ∷ "scripts/check_consistency.py" ∷ "--as-if-committed" ∷ [])
    ∷ words ("python" ∷ "scripts/verify_all.py" ∷ [])
    ∷ words ("git" ∷ "diff" ∷ "--check" ∷ [])
    ∷ []
stages staged = words ("python" ∷ "scripts/secret_scan.py" ∷ "--staged" ∷ []) ∷ []
stages postcommit =
    words ("python" ∷ "scripts/execution_record.py" ∷ "verify" ∷ [])
    ∷ words ("python" ∷ "scripts/check_consistency.py" ∷ [])
    ∷ words ("python" ∷ "scripts/fingerprint.py" ∷ "--verify" ∷ [])
    ∷ words ("git" ∷ "diff" ∷ "--check" ∷ [])
    ∷ []

-- GATE_TIMEOUTS, in seconds
unfoldable pub gate_timeouts : Stage → List ℕ
gate_timeouts precommit = 300 ∷ 300 ∷ 300 ∷ 3600 ∷ 300 ∷ []
gate_timeouts staged = 300 ∷ []
gate_timeouts postcommit = 300 ∷ 300 ∷ 300 ∷ 300 ∷ []

-- `none` is the ValueError INVALID_GATE_BUDGET
unfoldable pub stage_timeouts : Stage → Option (List ℕ)
stage_timeouts s =
    let values = gate_timeouts s in
    if not (length values == length (stages s)) || not (all (ltb 0) values)
    then none
    else some values

unfoldable pub display : Command → Text
display cmd = join_with b' ' cmd

-- `=== {stage} RUN `, with which every marker of a stage begins
unfoldable pub run_prefix : Stage → Text
run_prefix s = codes "=== " ++ (stage_name s ++ codes " RUN ")

unfoldable pub marker : Stage → ℕ → Text → Text
marker s run_no rest = run_prefix s ++ (decimal run_no ++ rest)

unfoldable pub run_header : Stage → ℕ → Text
run_header s run_no = marker s run_no (codes " START ===")

-- what a gate's header has behind the number of the run
unfoldable pub gate_tail : ℕ → Command → Text
gate_tail idx cmd = codes " GATE " ++ (decimal idx ++ (codes ": " ++ (display cmd ++ codes " ===")))

unfoldable pub gate_header : Stage → ℕ → ℕ → Command → Text
gate_header s run_no idx cmd = marker s run_no (gate_tail idx cmd)

unfoldable pub complete_marker : Stage → ℕ → Text
complete_marker s run_no = marker s run_no (codes " COMPLETE ===")

unfoldable pub failed_tail : ℕ → Text
failed_tail idx = codes " FAILED AT GATE " ++ (decimal idx ++ codes " ===")

unfoldable pub failed_marker : Stage → ℕ → ℕ → Text
failed_marker s run_no idx = marker s run_no (failed_tail idx)

unfoldable pub output_prefix : Text
output_prefix = codes "> "
