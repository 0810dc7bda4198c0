-- ===== src/Gate/Timeout.antt =====
-- scripts/gate_runner.py: what the code that `run_stage` returns says of the gates.
use mathlib.Core.Option.{some-injective, none-ne-some}
use hh_ai_v.Base.{
  ℕ, ◌+◌, ◌≡◌, ◌↔◌, refl, sym, ap, ◌∙◌, inl, inr, Text, true, false, some, List, [], ◌∷◌, arith, ℤ,
  All, no_newline, Bool-cases,
}
use hh_ai_v.Gate.Format.{Stage, Command, stages, gate_timeouts}
use hh_ai_v.Gate.Run.{
  Outcome, raised, launch_failed, timed_out, exited, KillStatus, World, unlines, run_stage,
  gate_code, is_zero, failure_code, gate_timeout_exit_code,
}
use hh_ai_v.Gate.Report.{came_back}
use hh_ai_v.Gate.Transcript.{returns}
use hh_ai_v.Gate.LatestRun.{run_stage-returns}

-- a gate's run that met its time limit
pub data TimedOut : Outcome → Type 0 where
  at_limit : (kill : KillStatus) (output : Text) → TimedOut (timed_out kill output)

failure_code_timeout :
    (o : Outcome) → failure_code (gate_code o) ≡ gate_timeout_exit_code → TimedOut o
unfolding failure_code gate_code
failure_code_timeout raised h = absurd (omega arith)
failure_code_timeout (launch_failed out) h = absurd (omega arith)
failure_code_timeout (timed_out kill out) h = at_limit kill out
failure_code_timeout (exited (ℤ.pos n) out) h = absurd (ground arith)
failure_code_timeout (exited (ℤ.negsuc n) out) h = absurd (omega arith)

-- The first of the gates from number `i` on that does not come back with code 0 met its own budget.
pub data FirstTimedOut (w : World) : ℕ → List Command → List ℕ → Type 0 where
  now :
      {i : ℕ} {cmd : Command} {limit : ℕ} {gates : List Command} {budgets : List ℕ}
      → TimedOut (w.run_gate i cmd limit)
      → FirstTimedOut w i (cmd ∷ gates) (limit ∷ budgets)
  later :
      {i : ℕ} {cmd : Command} {limit : ℕ} {gates : List Command} {budgets : List ℕ}
      → came_back (w.run_gate i cmd limit) ≡ true
      → is_zero (gate_code (w.run_gate i cmd limit)) ≡ true
      → FirstTimedOut w (i + 1) gates budgets
      → FirstTimedOut w i (cmd ∷ gates) (limit ∷ budgets)

module _ (w : World) where
  returns_timeout :
      (i : ℕ) (gates : List Command) (budgets : List ℕ)
      → returns w i gates budgets ≡ some gate_timeout_exit_code
      → FirstTimedOut w i gates budgets
  unfolding returns
  returns_timeout i [] budgets h = absurd (ground arith)
  returns_timeout i (cmd ∷ gates) [] h = absurd (none-ne-some gate_timeout_exit_code h)
  returns_timeout i (cmd ∷ gates) (limit ∷ budgets) h =
      elim (Bool-cases (came_back (w.run_gate i cmd limit))) [
        | inr up ↦ absurd (ground arith)
        | inl back ↦ elim (Bool-cases (is_zero (gate_code (w.run_gate i cmd limit)))) [
          | inl z ↦ later back z (returns_timeout (i + 1) gates budgets (ground arith))
          | inr nz ↦
              let e : some (failure_code (gate_code (w.run_gate i cmd limit)))
                  ≡ some gate_timeout_exit_code =
                ground arith in
              now (failure_code_timeout _ (some-injective _ _ e))
        ]
      ]

  timeout_code :
      (o : Outcome)
      → TimedOut o
      → (came_back o ≡ true)
        × (is_zero (gate_code o) ≡ false)
        × (failure_code (gate_code o) ≡ gate_timeout_exit_code)
  unfolding gate_code failure_code
  timeout_code _ (at_limit kill out) = (refl, refl, refl)

  timeout_returns :
      {i : ℕ} {gates : List Command} {budgets : List ℕ}
      → FirstTimedOut w i gates budgets
      → returns w i gates budgets ≡ some gate_timeout_exit_code
  unfolding returns
  timeout_returns (now t) = let (back, nz, e) = timeout_code _ t in rw back (rw nz (ap some e))
  timeout_returns (later back z t) = rw back (rw z (timeout_returns t))

-- A run of a stage's own gates, on a log of whole lines whose name is one line, returns the time-out
-- code exactly when one of them, run with its own budget, met its time limit and every gate before it
-- came back with code 0; a gate that itself exits with this code does not bring it about.
pub run_stage_timeout :
    (w : World) (s : Stage) (old : List Text)
    → All (λ l. no_newline l ≡ true) old
    → no_newline w.log_name ≡ true
    → ((run_stage w s (stages s) (unlines old)).returned ≡ some gate_timeout_exit_code)
      ↔ FirstTimedOut w 1 (stages s) (gate_timeouts s)
run_stage_timeout w s old whole name =
    let e = run_stage-returns w s old whole name in
    (
      λ h. returns_timeout w 1 (stages s) (gate_timeouts s) (sym e ∙ h),
      λ t. e ∙ timeout_returns w t,
    )
