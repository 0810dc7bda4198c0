-- ===== src/Gate/Agreement.antt =====
-- scripts/gate_runner.py: `verify_stage` agrees with the latest run of `run_stage`.
use mathlib.Core.List.{append_assoc}
use mathlib.Core.Option.{some-injective, none-ne-some}
use hh_ai_v.Base.{
  ℕ, ◌+◌, ◌≡◌, refl, ap, ◌∙◌, ◌≢◌, Text, Bool, true, false, not, Option, none, some, List, [], ◌∷◌,
  ◌++◌, arith, ℤ, if◌then◌else◌, length, All, text_eq_refl, starts_with,
}
use hh_ai_v.Gate.Format.{Stage, Command, gate_header, complete_marker, failed_marker}
use hh_ai_v.Gate.Run.{
  Outcome, raised, launch_failed, timed_out, exited, World, raw_line, report, gate_code, is_zero,
  failure_code,
}
use hh_ai_v.Gate.Verify.{
  Verdict, passed, gate_not_zero, behind_header, find_exit, is_exit_zero, verify_gates, cut_segment,
  is_end_marker,
}
use hh_ai_v.Gate.Lines.{header_not_end, complete_is_end, not_end_plain, is_plain}
use hh_ai_v.Gate.Report.{
  came_back, find_exit-append, find_exit-report, report_plain, is_exit_zero-report, IsPlainLine,
  is_passed_over,
}
use hh_ai_v.Gate.Transcript.{transcript, returns, behind_report}

-- The verdict fits what the run returned: it passes where the run returned 0, and otherwise it names
-- a gate.
pub data Agrees (n : ℕ) (returned : Option ℕ) (verdict : Verdict) : Type 0 where
  both : returned ≡ some 0 → verdict ≡ passed n → Agrees n returned verdict
  neither : returned ≢ some 0 → (k : ℕ) → verdict ≡ gate_not_zero k → Agrees n returned verdict

failure_code-ne-zero : (z : ℤ) → failure_code z ≢ 0
unfolding failure_code
failure_code-ne-zero (ℤ.pos n) = ground arith
failure_code-ne-zero (ℤ.negsuc n) = omega arith

module _ (s : Stage) (n : ℕ) where
  behind_header_here :
      (header : Text) (lines : List Text) → behind_header header (header ∷ lines) ≡ some lines
  unfolding behind_header
  behind_header_here header lines = rw (text_eq_refl header) refl

  raw_passed : (name : Text) (i : ℕ) → is_passed_over (raw_line name s n i) ≡ true
  unfolding raw_line starts_with
  raw_passed name i = refl

  raw_plain : (name : Text) (i : ℕ) → is_plain (raw_line name s n i) ≡ true
  unfolding raw_line
  raw_plain name i = refl

  verify_gates_step :
      (name : Text) (i : ℕ) (cmd : Command) (gates : List Command) (o : Outcome) (more : List Text)
      → came_back o ≡ true
      → verify_gates s n i
          (cmd ∷ gates)
          (gate_header s n i cmd ∷ raw_line name s n i ∷ (report o ++ more))
        ≡ (if is_zero (gate_code o) then verify_gates s n (i + 1) gates more else gate_not_zero i)
  unfolding verify_gates
  verify_gates_step name i cmd gates o more back =
      rw
        (
          behind_header_here (gate_header s n i cmd) (raw_line name s n i ∷ (report o ++ more)),
          verify_gates,
        )
        (rw (find_exit-append (raw_line name s n i ∷ []) (report o ++ more) (raw_passed name i, tt))
          (rw (find_exit-report o more back) (rw (is_exit_zero-report o back) refl)))

  verify_gates_raised :
      (name : Text) (i : ℕ) (cmd : Command) (gates : List Command)
      → verify_gates s n i (cmd ∷ gates) (gate_header s n i cmd ∷ raw_line name s n i ∷ [] ∷ [])
        ≡ gate_not_zero i
  unfolding verify_gates
  verify_gates_raised name i cmd gates =
      rw (behind_header_here (gate_header s n i cmd) (raw_line name s n i ∷ [] ∷ []), verify_gates)
        (rw (find_exit-append (raw_line name s n i ∷ []) ([] ∷ []) (raw_passed name i, tt))
          (unfold find_exit starts_with is_exit_zero in refl))

  module _ (every : List Command) where
    cut_other :
        (l : Text) (more : List Text)
        → is_end_marker s n every l ≡ false
        → cut_segment (is_end_marker s n every) (l ∷ more)
          ≡ l ∷ cut_segment (is_end_marker s n every) more
    unfolding cut_segment
    cut_other l more h = rw h refl

    cut_plain :
        (ls more : List Text)
        → All IsPlainLine ls
        → cut_segment (is_end_marker s n every) (ls ++ more)
          ≡ ls ++ cut_segment (is_end_marker s n every) more
    cut_plain [] more h = refl
    cut_plain (l ∷ ls) more h =
        cut_other l (ls ++ more) (not_end_plain s n every l h.0.0)
        ∙ ap (◌∷◌ l) (cut_plain ls more h.1)

    cut_blank : cut_segment (is_end_marker s n every) ([] ∷ []) ≡ [] ∷ []
    cut_blank = cut_other [] [] (not_end_plain s n every [] refl) ∙ unfold cut_segment in refl

    cut_gate :
        (name : Text) (i : ℕ) (cmd : Command) (o : Outcome) (more : List Text)
        → cut_segment
            (is_end_marker s n every)
            (gate_header s n i cmd ∷ raw_line name s n i ∷ (report o ++ more))
          ≡ gate_header s n i cmd
            ∷ raw_line name s n i
            ∷ (report o ++ cut_segment (is_end_marker s n every) more)
    cut_gate name i cmd o more =
        cut_other (gate_header s n i cmd) _ (header_not_end s n i cmd every)
        ∙ ap (λ ls. gate_header s n i cmd ∷ ls)
            (cut_other (raw_line name s n i) _
                (not_end_plain s n every (raw_line name s n i) (raw_plain name i))
              ∙ ap (λ ls. raw_line name s n i ∷ ls) (cut_plain (report o) more (report_plain o)))

    cut_report :
        (name : Text) (i : ℕ) (cmd : Command) (o : Outcome) (more : List Text)
        → cut_segment
            (is_end_marker s n every)
            ((gate_header s n i cmd ∷ raw_line name s n i ∷ (report o ++ more)) ++ ([] ∷ []))
          ≡ gate_header s n i cmd
            ∷ raw_line name s n i
            ∷ (report o ++ cut_segment (is_end_marker s n every) (more ++ ([] ∷ [])))
    cut_report name i cmd o more =
        ap
          (λ ls.
            cut_segment (is_end_marker s n every)
              (gate_header s n i cmd ∷ raw_line name s n i ∷ ls))
          (append_assoc (report o) more ([] ∷ []))
        ∙ cut_gate name i cmd o (more ++ ([] ∷ []))

    verify_complete :
        (i : ℕ)
        → verify_gates s n i []
            (cut_segment (is_end_marker s n every) (complete_marker s n ∷ [] ∷ []))
          ≡ passed n
    unfolding verify_gates cut_segment
    verify_complete i =
        rw (complete_is_end s n every) (rw (text_eq_refl (complete_marker s n)) refl)

    gate-Agrees :
        (name : Text) (i : ℕ) (cmd : Command) (gates : List Command) (o : Outcome)
        (lines : List Text) {r : Option ℕ}
        → came_back o ≡ true
        → Agrees n r (
            verify_gates s n
              (i + 1)
              gates
              (cut_segment (is_end_marker s n every) (lines ++ ([] ∷ []))))
        → Agrees n (if is_zero (gate_code o) then r else some (failure_code (gate_code o))) (
            verify_gates s n i (cmd ∷ gates) (
              cut_segment (is_end_marker s n every) (
                (gate_header s n i cmd
                  ∷ raw_line name s n i
                  ∷ (report o
                      ++ (if is_zero (gate_code o) then lines else failed_marker s n i ∷ [])))
                ++ ([] ∷ []))))
    gate-Agrees name i cmd gates o lines {r} back later =
        rw
          (cut_report name i cmd o
            (if is_zero (gate_code o) then lines else failed_marker s n i ∷ []))
          (rw
            (verify_gates_step name i cmd gates o
              (cut_segment (is_end_marker s n every)
                ((if is_zero (gate_code o) then lines else failed_marker s n i ∷ []) ++ ([] ∷ [])))
              back)
            (split (is_zero (gate_code o))))
      where
        split :
            (z : Bool)
            → Agrees n (if z then r else some (failure_code (gate_code o))) (
                if z
                then verify_gates s n (i + 1) gates (
                    cut_segment
                      (is_end_marker s n every)
                      ((if z then lines else failed_marker s n i ∷ []) ++ ([] ∷ [])))
                else gate_not_zero i)
        split true = later
        split false =
            Agrees.neither
              (λ e.
                failure_code-ne-zero (gate_code o)
                  (some-injective (failure_code (gate_code o)) 0 e))
              i refl

    outcome-Agrees :
        (name : Text) (i : ℕ) (cmd : Command) (gates : List Command) (o : Outcome)
        (lines : List Text) {r : Option ℕ}
        → Agrees n r (
            verify_gates s n
              (i + 1)
              gates
              (cut_segment (is_end_marker s n every) (lines ++ ([] ∷ []))))
        → Agrees n
            (if not (came_back o)
              then none
              else if is_zero (gate_code o)
              then r
              else some (failure_code (gate_code o)))
            (verify_gates s n i (cmd ∷ gates) (
              cut_segment (is_end_marker s n every) (
                (gate_header s n i cmd
                  ∷ raw_line name s n i
                  ∷ (report o ++ behind_report s n i o lines))
                ++ ([] ∷ []))))
    unfolding report
    outcome-Agrees name i cmd gates raised lines later = rw (cut_report name i cmd raised []) (
        Agrees.neither (λ e. none-ne-some 0 e) i
          (rw cut_blank (verify_gates_raised name i cmd gates)))
    outcome-Agrees name i cmd gates (launch_failed out) lines later =
        gate-Agrees name i cmd gates (launch_failed out) lines refl later
    outcome-Agrees name i cmd gates (timed_out kill out) lines later =
        gate-Agrees name i cmd gates (timed_out kill out) lines refl later
    outcome-Agrees name i cmd gates (exited code out) lines later =
        gate-Agrees name i cmd gates (exited code out) lines refl later

    pub transcript-Agrees :
        (w : World) (i : ℕ) (gates : List Command) (budgets : List ℕ)
        → length gates ≡ length budgets
        → Agrees n (returns w i gates budgets) (
            verify_gates s n i gates (
              cut_segment
                (is_end_marker s n every)
                (transcript w s n i gates budgets ++ ([] ∷ []))))
    unfolding transcript returns
    transcript-Agrees w i [] budgets h = Agrees.both refl (verify_complete i)
    transcript-Agrees w i (cmd ∷ gates) [] h = absurd (omega arith)
    transcript-Agrees w i (cmd ∷ gates) (limit ∷ budgets) h =
        outcome-Agrees w.log_name i cmd gates (w.run_gate i cmd limit)
          (transcript w s n (i + 1) gates budgets)
          (transcript-Agrees w (i + 1) gates budgets (omega arith))
