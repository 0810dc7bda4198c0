-- ===== src/Gate/LatestRun.antt =====
-- scripts/gate_runner.py: `run_stage` and then `verify_stage` on the log that it leaves.
use mathlib.Core.List.{append_assoc}
use hh_ai_v.Base.{
  ℕ, ◌+◌, ◌≡◌, refl, ap, ◌∙◌, Text, true, some, List, [], ◌∷◌, ◌++◌, arith, length, All, no_newline,
  split_on, text_eq_refl,
}
use hh_ai_v.Gate.Format.{
  Stage, precommit, staged, postcommit, stages, Command, run_header, stage_timeouts, gate_timeouts,
}
use hh_ai_v.Gate.Run.{
  unlines, read_log_lines, count_starts, next_run_number, World, fitting_budgets, run_stage,
}
use hh_ai_v.Gate.Verify.{verify_gates, cut_segment, is_end_marker, verify_stage}
use hh_ai_v.Gate.Lines.{are_clean, stages_clean, is_start_plain}
use hh_ai_v.Gate.Transcript.{append_lines-unlines, transcript, returns, run_gates-transcript}
use hh_ai_v.Gate.Agreement.{Agrees, transcript-Agrees}
use hh_ai_v.Gate.Inner.{
  IsInner, run_header-no_newline, transcript-IsInner, read_unlines, count_starts-append,
  count_starts-IsInner, count_starts-header, latest_run-header,
}

-- what a log of whole lines says of the number of runs
module _ (w : World) (s : Stage) (gates : List Command) (budgets : List ℕ) (old : List Text) where
  run_no : ℕ
  run_no = count_starts s old + 1

  lines_after : List Text
  lines_after = old ++ (run_header s run_no ∷ transcript w s run_no 1 gates budgets)

  inner-no_newline : (ls : List Text) → All (IsInner s) ls → All (λ l. no_newline l ≡ true) ls
  inner-no_newline [] h = tt
  inner-no_newline (l ∷ ls) h = (h.0.1, inner-no_newline ls h.1)

  append-no_newline :
      (xs ys : List Text)
      → All (λ l. no_newline l ≡ true) xs
      → All (λ l. no_newline l ≡ true) ys
      → All (λ l. no_newline l ≡ true) (xs ++ ys)
  append-no_newline [] ys h k = k
  append-no_newline (x ∷ xs) ys h k = (h.0, append-no_newline xs ys h.1 k)

  module _ (whole : All (λ l. no_newline l ≡ true) old) (name : no_newline w.log_name ≡ true)
      (clean : are_clean 1 gates ≡ true) (fits : length gates ≡ length budgets) where
    inner : All (IsInner s) (transcript w s run_no 1 gates budgets)
    inner = transcript-IsInner s w run_no 1 gates budgets name clean

    read_after :
        split_on 10 (unlines lines_after)
        ≡ old ++ (run_header s run_no ∷ (transcript w s run_no 1 gates budgets ++ ([] ∷ [])))
    unfolding lines_after
    read_after =
        read_unlines lines_after
          (append-no_newline old _ whole (run_header-no_newline s run_no, inner-no_newline _ inner))
        ∙ append_assoc old _ ([] ∷ [])

    count_old : count_starts s (split_on 10 (unlines old)) + 1 ≡ run_no
    unfolding run_no count_starts
    count_old =
        rw (read_unlines old whole)
          (rw (count_starts-append s old ([] ∷ [])) (rw (is_start_plain s [] refl) (omega arith)))

    count_after :
        count_starts s
          (old ++ (run_header s run_no ∷ (transcript w s run_no 1 gates budgets ++ ([] ∷ []))))
        ≡ run_no
    count_after =
        let ls = transcript w s run_no 1 gates budgets ++ ([] ∷ []) in
        let none_inside : count_starts s ls ≡ 0 = count_starts-IsInner s _ inner in
        let all_starts = count_starts-append s old (run_header s run_no ∷ ls) in
        unfold run_no in omega (arith, all_starts, count_starts-header s run_no ls, none_inside)

    verify_after :
        verify_stage (read_log_lines (unlines lines_after)) s gates
        ≡ verify_gates s run_no 1 gates (
            cut_segment
              (is_end_marker s run_no gates)
              (transcript w s run_no 1 gates budgets ++ ([] ∷ [])))
    unfolding read_log_lines verify_stage
    verify_after = rw read_after (
        rw count_after (
          rw (latest_run-header s old run_no _ inner)
            (rw (text_eq_refl (run_header s run_no)) refl)))

    run_after :
        (b : List ℕ)
        → stage_timeouts s ≡ some b
        → fitting_budgets gates b ≡ budgets
        → run_stage w s gates (unlines old)
          ≡ record { log = unlines lines_after; returned = returns w 1 gates budgets }
    unfolding run_stage next_run_number read_log_lines lines_after
    run_after b e f =
        rw (e, run_stage)
          (rw f (
            rw count_old (
              rw (append_lines-unlines old (run_header s run_no ∷ [])) (
                run_gates-transcript w s run_no 1 gates budgets _ fits
                ∙ ap (λ l. record { log = unlines l; returned = returns w 1 gates budgets })
                    (append_assoc old _ _)))))

    pub stage-Agrees :
        (b : List ℕ)
        → stage_timeouts s ≡ some b
        → fitting_budgets gates b ≡ budgets
        → Agrees
            (count_starts s old + 1)
            (run_stage w s gates (unlines old)).returned
            (verify_stage (read_log_lines (run_stage w s gates (unlines old)).log) s gates)
    unfolding run_no
    stage-Agrees b e f =
        rw (run_after b e f)
          (rw verify_after (transcript-Agrees s run_no gates w 1 gates budgets fits))

-- the budgets of every stage fit its gates
timeouts_fit :
    (s : Stage)
    → (stage_timeouts s ≡ some (gate_timeouts s)) × (length (stages s) ≡ length (gate_timeouts s))
unfolding stage_timeouts gate_timeouts stages
timeouts_fit precommit = (refl, refl)
timeouts_fit staged = (refl, refl)
timeouts_fit postcommit = (refl, refl)

fitting_same :
    (gates : List Command) (b : List ℕ) → length gates ≡ length b → fitting_budgets gates b ≡ b
unfolding fitting_budgets
fitting_same gates b h = ground (arith, h)

-- After a run of a stage's own gates on a log of whole lines, whose name is one line, verifying the
-- new log passes, with the number of this run, exactly when the run returned 0. Otherwise it names a
-- gate that is not zero.
pub run_stage-Agrees :
    (w : World) (s : Stage) (old : List Text)
    → All (λ l. no_newline l ≡ true) old
    → no_newline w.log_name ≡ true
    → Agrees
        (count_starts s old + 1)
        (run_stage w s (stages s) (unlines old)).returned
        (verify_stage (read_log_lines (run_stage w s (stages s) (unlines old)).log) s (stages s))
run_stage-Agrees w s old whole name =
    let (times, fits) = timeouts_fit s in
    stage-Agrees w s (stages s) (gate_timeouts s) old whole name (stages_clean s) fits
      (gate_timeouts s) times (fitting_same (stages s) (gate_timeouts s) fits)

pub run_stage-returns :
    (w : World) (s : Stage) (old : List Text)
    → All (λ l. no_newline l ≡ true) old
    → no_newline w.log_name ≡ true
    → (run_stage w s (stages s) (unlines old)).returned ≡ returns w 1 (stages s) (gate_timeouts s)
run_stage-returns w s old whole name =
    let (times, fits) = timeouts_fit s in
    ap (λ r. r.returned)
      (run_after w s (stages s) (gate_timeouts s) old whole name (stages_clean s) fits
        (gate_timeouts s) times (fitting_same (stages s) (gate_timeouts s) fits))
