-- ===== src/Runner/Locked.antt =====
-- scripts/batch_runner.py: a halted task.
use mathlib.Core.Bool.{false≢true}
use hh_ai_v.Base.{
  ◌≡◌, ◌≢◌, refl, sym, ap, ◌∙◌, inl, inr, Bool, true, false, Text, arith, Bool-cases, Result-cases,
  Either, ok, stop,
}
use hh_ai_v.Runner.{
  Control, ControlFile, absent, invalid, stored, is_halted, Saving, Body, passed, halted,
  unexpected, World, Task, Report, is_task_id, open_control, saved_call, after_body, execute,
  admission, run_opened, before_control, run,
}
use hh_ai_v.Runner.Order.{Source, run-Executed}

saved_call-ran :
    (report : Report) (r : Either Text (Unit {0}) × ControlFile) → (saved_call report r).ran ≡ true
saved_call-ran report (ok u, file) = refl
saved_call-ran report (stop code, file) = refl

after_body-ran :
    (s : Saving) (control : Control) (file : ControlFile) (step : Text) (b : Body)
    → (after_body s control file step b).ran ≡ true
unfolding after_body
after_body-ran s control file step (passed outcome) = saved_call-ran _ _
after_body-ran s control file step (halted code) = saved_call-ran _ _
after_body-ran s control file step (unexpected name) = saved_call-ran _ _

execute-ran :
    (w : World) (control : Control) (file : ControlFile) (step : Text)
    → (execute w control file step).ran ≡ true
unfolding execute
execute-ran w control file step = after_body-ran w.saving control file step (w.body step)

-- A call that does not reach the method of the step leaves what was opened.
run_opened-behind :
    (w : World) (t : Task) (runner_sha step : Text) (o : Either Text Control × ControlFile)
    → (run_opened w t runner_sha step o).ran ≡ false
    → (run_opened w t runner_sha step o).behind ≡ o.1
unfolding run_opened
run_opened-behind w t runner_sha step (stop code, file) h = refl
run_opened-behind w t runner_sha step (ok control, file) h =
    elim (Result-cases (admission w t runner_sha control step)) [
      | inl (code, e) ↦ ground (arith, e)
      | inr (locked, e) ↦ elim (Bool-cases locked) [
        | inr f ↦ ground (arith, e, f)
        | inl f ↦
            let call : execute w control file step
                ≡ run_opened w t runner_sha step (ok control, file) =
              ground (arith, e, f) in
            absurd
              (false≢true (sym h ∙ sym (ap (λ c. c.ran) call) ∙ execute-ran w control file step))
      ]
    ]

run-behind :
    (w : World) (t : Task) (control : Control) (step : Text)
    → (run w t (stored control) step).ran ≡ false
    → (run w t (stored control) step).behind ≡ stored control
unfolding run open_control
run-behind w t control step h = elim (Bool-cases (is_task_id t.task_id)) [
  | inr bad ↦ ground (arith, bad)
  | inl good ↦ elim (Result-cases (before_control w t step)) [
    | inl (code, e) ↦ ground (arith, good, e)
    | inr (runner_sha, e) ↦
        let call : run_opened w t runner_sha step
              (open_control w t runner_sha (stored control) step)
            ≡ run w t (stored control) step =
          ground (arith, good, e) in
        sym (ap (λ c. c.behind) call)
        ∙ run_opened-behind w t runner_sha step (open_control w t runner_sha (stored control) step)
            (ap (λ c. c.ran) call ∙ h)
  ]
]

is_halted_of : ControlFile → Bool
is_halted_of absent = false
is_halted_of invalid = false
is_halted_of (stored control) = is_halted control.halted

halted_never_ran :
    (w : World) (t : Task) (control : Control) (step : Text)
    → is_halted control.halted ≡ true
    → (run w t (stored control) step).ran ≢ true
unfolding Source is_halted_of
halted_never_ran w t control step h ran =
    let x = run-Executed w t (stored control) step ran in
    elim x.source [
      | inl same ↦ absurd (false≢true (sym x.admits.free ∙ ap is_halted_of (sym same) ∙ h))
      | inr (gone, new, first) ↦ absurd (ground arith)
    ]

-- A task whose record is halted stays as it is: no call runs a step or changes the record.
pub halted_stays :
    (w : World) (t : Task) (control : Control) (step : Text)
    → is_halted control.halted ≡ true
    → ((run w t (stored control) step).ran ≡ false)
      × ((run w t (stored control) step).behind ≡ stored control)
halted_stays w t control step h = elim (Bool-cases (run w t (stored control) step).ran) [
  | inl ran ↦ absurd (halted_never_ran w t control step h ran)
  | inr idle ↦ (idle, run-behind w t control step idle)
]
