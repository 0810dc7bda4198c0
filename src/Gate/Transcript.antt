-- ===== src/Gate/Transcript.antt =====
-- scripts/gate_runner.py: the lines that one run appends to the log, as a list, and how
-- `verify_stage` reads them back.
use mathlib.Core.List.{append_assoc, append-nil}
use hh_ai_v.Base.{
  ℕ, ◌+◌, ◌≡◌, refl, sym, ap, ◌∙◌, inl, inr, Text, Bool, not, Option, none, some, List, [], ◌∷◌,
  ◌++◌, arith, if◌then◌else◌, length, Bool-cases,
}
use hh_ai_v.Gate.Format.{Stage, Command, gate_header, complete_marker, failed_marker}
use hh_ai_v.Gate.Run.{
  Outcome, raised, launch_failed, timed_out, exited, unlines, append_lines, World, RunResult,
  raw_line, report, gate_code, is_zero, failure_code, after_gate, run_gates,
}
use hh_ai_v.Gate.Report.{came_back}

abbrev is_raised : Outcome → Bool
is_raised o = not (came_back o)

-- what follows the report of a gate, with the lines of the gates behind it
abbrev pub behind_report : Stage → ℕ → ℕ → Outcome → List Text → List Text
behind_report s n i o rest =
    if not (came_back o)
    then []
    else if is_zero (gate_code o)
    then rest
    else failed_marker s n i ∷ []

-- the lines of the gates from number `i` on
unfoldable pub transcript : World → Stage → ℕ → ℕ → List Command → List ℕ → List Text
transcript w s n i [] budgets = complete_marker s n ∷ []
transcript w s n i (cmd ∷ gates) [] = gate_header s n i cmd ∷ []
transcript w s n i (cmd ∷ gates) (limit ∷ budgets) =
    let o = w.run_gate i cmd limit in
    let rest = transcript w s n (i + 1) gates budgets in
    gate_header s n i cmd ∷ raw_line w.log_name s n i ∷ (report o ++ behind_report s n i o rest)

-- what is returned by them
unfoldable pub returns : World → ℕ → List Command → List ℕ → Option ℕ
returns w i [] budgets = some 0
returns w i (cmd ∷ gates) [] = none
returns w i (cmd ∷ gates) (limit ∷ budgets) =
    let o = w.run_gate i cmd limit in
    let rest = returns w (i + 1) gates budgets in
    if not (came_back o)
    then none
    else if is_zero (gate_code o)
    then rest
    else some (failure_code (gate_code o))

unlines-append : (xs ys : List Text) → unlines (xs ++ ys) ≡ unlines xs ++ unlines ys
unlines-append [] ys = refl
unlines-append (x ∷ xs) ys = simp (unlines-append xs ys, append_assoc)

pub append_lines-unlines :
    (old ls : List Text) → append_lines (unlines old) ls ≡ unlines (old ++ ls)
unfolding append_lines
append_lines-unlines old ls = sym (unlines-append old ls)

came_back-log :
    (s : Stage) (n i : ℕ) (lines : List Text) (o : Outcome) (ls : List Text) {rest : RunResult}
    {r : Option ℕ}
    → rest ≡ record { log = unlines (lines ++ ls); returned = r }
    → (if is_zero (gate_code o) then rest else record {
      log = append_lines (unlines lines) (failed_marker s n i ∷ []);
      returned = some (failure_code (gate_code o));
    })
      ≡ record {
        log = unlines (lines ++ (if is_zero (gate_code o) then ls else failed_marker s n i ∷ []));
        returned = if is_zero (gate_code o) then r else some (failure_code (gate_code o));
      }
came_back-log s n i lines o ls e = elim (Bool-cases (is_zero (gate_code o))) [
  | inl z ↦ rw z e
  | inr nz ↦ rw nz (rw (append_lines-unlines lines (failed_marker s n i ∷ [])) refl)
]

after_gate-log :
    (s : Stage) (n i : ℕ) (lines : List Text) (o : Outcome) (ls : List Text) {rest : RunResult}
    {r : Option ℕ}
    → rest ≡ record { log = unlines (lines ++ ls); returned = r }
    → after_gate s n i (unlines lines) o rest ≡ record {
      log = unlines (lines ++ behind_report s n i o ls);
      returned =
          if not (came_back o)
          then none
          else if is_zero (gate_code o)
          then r
          else some (failure_code (gate_code o));
    }
unfolding after_gate
after_gate-log s n i lines raised ls e = rw append-nil refl
after_gate-log s n i lines (launch_failed out) ls e =
    came_back-log s n i lines (launch_failed out) ls e
after_gate-log s n i lines (timed_out kill out) ls e =
    came_back-log s n i lines (timed_out kill out) ls e
after_gate-log s n i lines (exited code out) ls e = came_back-log s n i lines (exited code out) ls e

pub run_gates-transcript :
    (w : World) (s : Stage) (n i : ℕ) (gates : List Command) (budgets : List ℕ) (old : List Text)
    → length gates ≡ length budgets
    → run_gates w s n i gates budgets (unlines old) ≡ record {
      log = unlines (old ++ transcript w s n i gates budgets);
      returned = returns w i gates budgets;
    }
unfolding run_gates transcript returns
run_gates-transcript w s n i [] budgets old h =
    rw (append_lines-unlines old (complete_marker s n ∷ [])) refl
run_gates-transcript w s n i (cmd ∷ gates) [] old h = absurd (omega arith)
run_gates-transcript w s n i (cmd ∷ gates) (limit ∷ budgets) old h =
    rw (append_lines-unlines old (gate_header s n i cmd ∷ [])) (
      rw
        (append_lines-unlines (old ++ (gate_header s n i cmd ∷ []))
          (raw_line w.log_name s n i ∷ []))
        (rw
          (append_lines-unlines
            ((old ++ (gate_header s n i cmd ∷ [])) ++ (raw_line w.log_name s n i ∷ []))
            (report (w.run_gate i cmd limit)))
          (after_gate-log s n i _ (w.run_gate i cmd limit) (transcript w s n (i + 1) gates budgets)
              (run_gates-transcript w s n (i + 1) gates budgets _ (omega arith))
            ∙ ap
                (λ l. record {
                  log = unlines l;
                  returned = returns w i (cmd ∷ gates) (limit ∷ budgets);
                })
                (simp append_assoc))))
