-- ===== src/Gate/Tests.antt =====
-- Runs of scripts/gate_runner.py with one gate, and the theorems at these inputs.
use hh_ai_v.Base.{
  crlf_to_lf, ◌+◌, no_newline, ◌≡◌, ◌↔◌, refl, Text, some, List, [], ◌∷◌, codes, ℤ, text_eq,
  starts_with, ends_with, split_on, decimal, int_text, join_with,
}
use hh_ai_v.Gate.Format.{
  staged, stage_name, stage_lower, stages, gate_timeouts, stage_timeouts, display, run_prefix,
  marker, run_header, gate_tail, gate_header, complete_marker, failed_tail, failed_marker,
  output_prefix,
}
use hh_ai_v.Gate.Run.{
  timed_out, exited, tree_signalled, kill_text, unlines, append_lines, read_log_lines, is_start,
  count_starts, next_run_number, rstrip_newlines, body_lines, raw_line, exit_line, report,
  gate_code, failure_code, World, after_gate, run_gates, fitting_budgets, run_stage,
}
use hh_ai_v.Gate.Verify.{
  passed, latest_run, is_failed_marker, is_end_marker, cut_segment, behind_header, find_exit,
  is_exit_zero, verify_gates, verify_stage,
}
use hh_ai_v.Gate.Agreement.{Agrees}
use hh_ai_v.Gate.LatestRun.{run_stage-Agrees}
use hh_ai_v.Gate.Certified.{Certified, verify_stage-Certified}
use hh_ai_v.Gate.Timeout.{FirstTimedOut, run_stage_timeout}

abbrev good_world : World
good_world = record {
  log_name = codes "gate.log";
  run_gate = λ idx cmd limit. exited (ℤ.pos 0) (codes "PASS\r\n");
}

abbrev slow_world : World
slow_world = record {
  log_name = codes "gate.log";
  run_gate = λ idx cmd limit. timed_out tree_signalled (codes "working");
}

abbrev earlier : List Text
earlier = codes "=== STAGED RUN 1 START ===" ∷ codes "EXIT_CODE: 0" ∷ []

run_stage-Agrees_example :
    Agrees
      (count_starts staged earlier + 1)
      (run_stage good_world staged (stages staged) (unlines earlier)).returned
      (verify_stage
        (read_log_lines (run_stage good_world staged (stages staged) (unlines earlier)).log)
        staged
        (stages staged))
run_stage-Agrees_example =
    run_stage-Agrees good_world staged earlier (unfold no_newline in (refl, (refl, tt)))
      (unfold no_newline in refl)

abbrev good_log : Text
good_log = (run_stage good_world staged (stages staged) []).log

good_log_passed : verify_stage (read_log_lines good_log) staged (stages staged) ≡ passed 1
unfolding run_stage verify_stage latest_run read_log_lines split_on stage_timeouts gate_timeouts
    stages run_gates fitting_budgets gate_code append_lines run_header marker run_prefix stage_name
    decimal next_run_number count_starts int_text ends_with join_with starts_with text_eq
    complete_marker display failed_marker failed_tail gate_header gate_tail output_prefix
    stage_lower after_gate body_lines crlf_to_lf exit_line failure_code is_start kill_text raw_line
    report rstrip_newlines behind_header cut_segment find_exit is_end_marker is_exit_zero
    is_failed_marker verify_gates
good_log_passed = refl

verify_stage-Certified_example :
    (segment : List Text) × (1 ≡ count_starts staged (read_log_lines good_log))
    × (latest_run staged (read_log_lines good_log) ≡ some (run_header staged 1, segment))
    × Certified staged 1 1
        (stages staged)
        (cut_segment (is_end_marker staged 1 (stages staged)) segment)
verify_stage-Certified_example =
    verify_stage-Certified (read_log_lines good_log) staged (stages staged) good_log_passed

run_stage_timeout_example :
    ((run_stage slow_world staged (stages staged) (unlines [])).returned ≡ some 86)
    ↔ FirstTimedOut slow_world 1 (stages staged) (gate_timeouts staged)
run_stage_timeout_example = run_stage_timeout slow_world staged [] tt (unfold no_newline in refl)

slow_code : (run_stage slow_world staged (stages staged) (unlines [])).returned ≡ some 86
unfolding run_stage stage_timeouts gate_timeouts stages run_gates fitting_budgets gate_code
    failure_code
slow_code = refl

-- the right side holds in this world
slow_gate : FirstTimedOut slow_world 1 (stages staged) (gate_timeouts staged)
slow_gate = (run_stage_timeout slow_world staged [] tt (unfold no_newline in refl)).0 slow_code
