-- ===== src/Gate/Verify.antt =====
-- scripts/gate_runner.py: `verify_stage`.
use hh_ai_v.Base.{
  ℕ, ◌+◌, Text, Bool, false, ◌||◌, Option, none, some, List, [], ◌∷◌, codes, text_eq, starts_with,
  if◌then◌else◌, any,
}
use hh_ai_v.Gate.Format.{Stage, Command, run_header, gate_header, complete_marker, failed_marker}
use hh_ai_v.Gate.Run.{is_start, count_starts}

-- `(True, "RUN_n")`, and the details behind `False`
pub data Verdict : Type 0 where
  passed : ℕ → Verdict
  no_run run_header_mismatch not_complete : Verdict
  gate_missing : ℕ → Verdict
  gate_not_zero : ℕ → Verdict

-- `lines[start]` and `lines[start + 1:]` for the last start
unfoldable pub latest_run : Stage → List Text → Option (Text × List Text)
latest_run s [] = none
latest_run s (line ∷ lines) = elim (latest_run s lines) [
  | some found ↦ some found
  | none ↦ if is_start s line then some (line, lines) else none
]

-- `failed_marker(stage, run_no, i)` for the `n` numbers from `i` on
unfoldable pub is_failed_marker : Stage → ℕ → ℕ → List Command → Text → Bool
is_failed_marker s run_no i [] line = false
is_failed_marker s run_no i (gate ∷ gates) line =
    text_eq line (failed_marker s run_no i) || is_failed_marker s run_no (i + 1) gates line

unfoldable pub is_end_marker : Stage → ℕ → List Command → Text → Bool
is_end_marker s run_no gates line =
    text_eq line (complete_marker s run_no) || is_failed_marker s run_no 1 gates line

-- the segment up to its first end marker, or all of it
unfoldable pub cut_segment : (Text → Bool) → List Text → List Text
cut_segment is_end [] = []
cut_segment is_end (line ∷ lines) =
    let rest = cut_segment is_end lines in if is_end line then line ∷ [] else line ∷ rest

-- `segment.index(header, pos) + 1`: what stands behind the header
unfoldable pub behind_header : Text → List Text → Option (List Text)
behind_header header [] = none
behind_header header (line ∷ lines) =
    let rest = behind_header header lines in if text_eq line header then some lines else rest

-- The inner loop: the exit line of the gate, if one comes before the next marker, and what is left.
unfoldable pub find_exit : List Text → Option Text × List Text
find_exit [] = (none, [])
find_exit (line ∷ lines) =
    let rest = find_exit lines in
    if starts_with line (codes "EXIT_CODE: ")
    then (some line, lines)
    else if starts_with line (codes "=== ")
    then (none, lines)
    else rest

unfoldable pub is_exit_zero : Option Text → Bool
is_exit_zero none = false
is_exit_zero (some line) = text_eq line (codes "EXIT_CODE: 0")

unfoldable pub verify_gates : Stage → ℕ → ℕ → List Command → List Text → Verdict
verify_gates s run_no idx [] segment =
    if any (λ line. text_eq line (complete_marker s run_no)) segment
    then passed run_no
    else not_complete
verify_gates s run_no idx (cmd ∷ gates) segment =
    elim (behind_header (gate_header s run_no idx cmd) segment) [
      | none ↦ gate_missing idx
      | some behind ↦
          let (exit, left) = find_exit behind in
          let rest = verify_gates s run_no (idx + 1) gates left in
          if is_exit_zero exit then rest else gate_not_zero idx
    ]

verify_latest : Stage → List Command → ℕ → Option (Text × List Text) → Verdict
verify_latest s gates run_no none = no_run
verify_latest s gates run_no (some (header, segment)) =
    if text_eq header (run_header s run_no)
    then verify_gates s run_no 1 gates (cut_segment (is_end_marker s run_no gates) segment)
    else run_header_mismatch

unfoldable pub verify_stage : List Text → Stage → List Command → Verdict
unfolding verify_latest
verify_stage lines s gates = verify_latest s gates (count_starts s lines) (latest_run s lines)
