-- ===== src/Runner/Reached.antt =====
-- scripts/batch_runner.py: the control files that calls of the runner can lead to.
use mathlib.Core.Path.{subst}
use mathlib.Core.Bool.{false≢true}
use mathlib.Core.List.{append_assoc}
use hh_ai_v.Base.{
  ◌≡◌, refl, sym, ap, ◌∙◌, ◌⊎◌, inl, inr, true, false, Text, codes, text_eq, none, some, List, [],
  ◌∷◌, ◌++◌, arith, Bool-cases, Result-cases, Either, ok, stop,
}
use hh_ai_v.Runner.{
  derive_steps, Control, ControlFile, absent, invalid, stored, is_halted, Temporary, no_temp,
  broken_temp, ready_temp, Saving, replace_from, replace_retries, with_cleanup, save_ready,
  save_from, save_control, precontrol_start_guard, Body, passed, halted, unexpected, World, Task,
  Report, step_pass, already_halted, s1, is_task_id, Creation, create_file, create_control,
  open_control, new_control, saved_call, after_body, execute, ended, admission, run_opened,
  before_control, run,
}
use hh_ai_v.Runner.Order.{is_step-before, Admits, open_control-Source, admission-Admits}

-- The steps that are done are the first ones of the task. A task that is halted has stopped in the
-- step after these, which its record names with the code.
unfoldable pub Lock : Control → List Text → Type 0
Lock control rest =
    (control.halted ≡ none)
    ⊎ ((step : Text) × (code : Text) × (more : List Text) × (rest ≡ step ∷ more)
        × (control.halted ≡ some (step ++ (58 ∷ code))))

unfoldable pub Ordered : Task → ControlFile → Type 0
Ordered t absent = Unit
Ordered t invalid = Unit
Ordered t (stored control) =
    (rest : List Text) × (derive_steps t.spec ≡ control.done ++ rest) × Lock control rest

fresh_record : (t : Task) (runner_sha : Text) → Ordered t (stored (new_control t runner_sha))
unfolding Ordered Lock
fresh_record t runner_sha = (derive_steps t.spec, refl, inl refl)

is_halted_code : (step code : Text) → is_halted (some (step ++ (58 ∷ code))) ≡ true
unfolding is_halted
is_halted_code [] code = refl
is_halted_code (c ∷ step) code = refl

-- a record that is free
free_of_Lock :
    (control : Control) (rest : List Text)
    → Lock control rest
    → is_halted control.halted ≡ false
    → control.halted ≡ none
unfolding Lock
free_of_Lock control rest (inl e) free = e
free_of_Lock control rest (inr (step, code, more, e, f)) free =
    absurd (false≢true (sym free ∙ ap is_halted f ∙ is_halted_code step code))

create_file-Ordered :
    (t : Task) (c : Creation) (control : Control)
    → Ordered t (stored control)
    → Ordered t (create_file c control).1
unfolding create_file Ordered
create_file-Ordered t Creation.created control o = o
create_file-Ordered t (Creation.refused code) control o = tt
create_file-Ordered t Creation.broken control o = tt

create_control-cases :
    (w : World) (t : Task) (runner_sha step : Text)
    → ((code : Text) × (create_control w t runner_sha step ≡ (stop code, absent)))
      ⊎ (create_control w t runner_sha step ≡ create_file w.creation (new_control t runner_sha))
unfolding create_control
create_control-cases w t runner_sha step = elim (Bool-cases (text_eq step (codes "preflight"))) [
  | inr other ↦ inl (codes "CONTROL_MISSING", ground (arith, other))
  | inl first ↦ elim (Result-cases (precontrol_start_guard w.queries t.spec)) [
    | inl (code, e) ↦ inl (code, ground (arith, first, e))
    | inr (u, e) ↦ inr (ground (arith, first, e))
  ]
]

open_control-Ordered :
    (w : World) (t : Task) (runner_sha : Text) (file : ControlFile) (step : Text)
    → Ordered t file
    → Ordered t (open_control w t runner_sha file step).1
unfolding open_control
open_control-Ordered w t runner_sha absent step o =
    elim (create_control-cases w t runner_sha step) [
      | inl (code, e) ↦ subst (λ r. Ordered t r.1) (sym e) o
      | inr e ↦
          subst (λ r. Ordered t r.1) (sym e)
            (create_file-Ordered t w.creation (new_control t runner_sha)
              (fresh_record t runner_sha))
    ]
open_control-Ordered w t runner_sha invalid step o = o
open_control-Ordered w t runner_sha (stored control) step o = o

-- A save fails and keeps the file, or replaces it.
Saved : ControlFile → Control → Either Text (Unit {0}) × ControlFile → Type 0
Saved file control r = ((code : Text) × (r ≡ (stop code, file))) ⊎ (r ≡ (ok tt, stored control))

save_ready-Saved :
    (s : Saving) (file : ControlFile) (control : Control)
    → Saved file control (save_ready s file control)
unfolding save_ready Saved
save_ready-Saved s file control = elim (Result-cases s.guard_again) [
  | inl (code, e) ↦ inl (with_cleanup s code, ground (arith, e))
  | inr (u, e) ↦ elim (Bool-cases (replace_from s.replace 0 replace_retries)) [
    | inl done ↦ inr (ground (arith, e, done))
    | inr missed ↦ inl (with_cleanup s (codes "CONTROL_SAVE_FAILED"), ground (arith, e, missed))
  ]
]

save_from-Saved :
    (t : Temporary) (s : Saving) (file : ControlFile) (control : Control)
    → Saved file control (save_from t s file control)
unfolding save_from Saved
save_from-Saved no_temp s file control = inl (codes "CONTROL_SAVE_FAILED", refl)
save_from-Saved broken_temp s file control =
    inl (with_cleanup s (codes "CONTROL_SAVE_FAILED"), refl)
save_from-Saved ready_temp s file control = save_ready-Saved s file control

save_control-Saved :
    (s : Saving) (file : ControlFile) (control : Control)
    → Saved file control (save_control s file control)
unfolding save_control
save_control-Saved s file control = elim (Result-cases s.guard) [
  | inl (code, e) ↦
      let same : ◌≡◌ {A = Either Text (Unit {0}) × ControlFile} (stop code, file)
          (save_control s file control) =
        ground (arith, e) in
      subst (Saved file control) same (unfold Saved in inl (code, refl))
  | inr (u, e) ↦
      let same : save_from s.temporary s file control ≡ save_control s file control =
        ground (arith, e) in
      subst (Saved file control) same (save_from-Saved s.temporary s file control)
]

saved_call-Ordered :
    (t : Task) (report : Report) (file : ControlFile) (control : Control)
    (r : Either Text (Unit {0}) × ControlFile)
    → Saved file control r
    → Ordered t file
    → Ordered t (stored control)
    → Ordered t (saved_call report r).behind
unfolding Saved
saved_call-Ordered t report file control r (inl (code, e)) o n =
    subst (λ x. Ordered t (saved_call report x).behind) (sym e) o
saved_call-Ordered t report file control r (inr e) o n =
    subst (λ x. Ordered t (saved_call report x).behind) (sym e) n

-- A record of which the next step is known stays ordered when that step is done or halts.
after_body-Ordered :
    (t : Task) (saving : Saving) (control : Control) (step : Text) (rest : List Text) (b : Body)
    → derive_steps t.spec ≡ control.done ++ (step ∷ rest)
    → control.halted ≡ none
    → Ordered t (stored control)
    → Ordered t (after_body saving control (stored control) step b).behind
unfolding after_body Ordered Lock
after_body-Ordered t saving control step rest (passed outcome) e free o =
    saved_call-Ordered t step_pass (stored control) _ _
      (save_control-Saved saving (stored control) _) o
      (rest, e ∙ sym (append_assoc control.done (step ∷ []) rest), inl free)
after_body-Ordered t saving control step rest (halted code) e free o =
    saved_call-Ordered t (s1 code) (stored control) _ _
      (save_control-Saved saving (stored control) _) o
      (step ∷ rest, e, inr (step, code, rest, refl, refl))
after_body-Ordered t saving control step rest (unexpected name) e free o =
    saved_call-Ordered t (s1 (codes "UNEXPECTED_" ++ name)) (stored control) _ _
      (save_control-Saved saving (stored control) _) o
      (step ∷ rest, e, inr (step, codes "UNEXPECTED_" ++ name, rest, refl, refl))

-- What the method of an admitted step leaves is ordered.
execute-Ordered :
    (w : World) (t : Task) (control : Control) (step : Text)
    → Ordered t (stored control)
    → Admits t control step
    → Ordered t (execute w control (stored control) step).behind
unfolding execute Ordered
execute-Ordered w t control step (left, same, lock) a =
    let (rest, e) = is_step-before step (derive_steps t.spec) a.known in
    after_body-Ordered t w.saving control step rest (w.body step)
      (e ∙ ap (λ d. d ++ (step ∷ rest)) (sym a.in_order)) (free_of_Lock control left lock a.free)
      (left, same, lock)

run_opened-Ordered :
    (w : World) (t : Task) (runner_sha step : Text) (o : Either Text Control × ControlFile)
    → Ordered t o.1
    → ((control : Control) (file : ControlFile) → o ≡ (ok control, file) → stored control ≡ file)
    → Ordered t (run_opened w t runner_sha step o).behind
unfolding run_opened
run_opened-Ordered w t runner_sha step (stop code, file) o kept = o
run_opened-Ordered w t runner_sha step (ok control, file) o kept =
    let same = kept control file refl in
    elim (Result-cases (admission w t runner_sha control step)) [
      | inl (code, e) ↦
          let call : ended (s1 code) file ≡ run_opened w t runner_sha step (ok control, file) =
            ground (arith, e) in
          subst (λ c. Ordered t c.behind) call o
      | inr (locked, e) ↦ elim (Bool-cases locked) [
        | inr f ↦
            let call : ended already_halted file
                ≡ run_opened w t runner_sha step (ok control, file) =
              ground (arith, e, f) in
            subst (λ c. Ordered t c.behind) call o
        | inl f ↦
            let call : execute w control file step
                ≡ run_opened w t runner_sha step (ok control, file) =
              ground (arith, e, f) in
            let admits = admission-Admits w t runner_sha control step (e ∙ ap ok f) in
            subst (λ c. Ordered t c.behind) call
              (subst (λ x. Ordered t (execute w control x step).behind) same
                (execute-Ordered w t control step (subst (Ordered t) (sym same) o) admits))
      ]
    ]

run-Ordered :
    (w : World) (t : Task) (file : ControlFile) (step : Text)
    → Ordered t file
    → Ordered t (run w t file step).behind
unfolding run
run-Ordered w t file step o = elim (Bool-cases (is_task_id t.task_id)) [
  | inr bad ↦
      let call : ended Report.task_id_invalid file ≡ run w t file step = ground (arith, bad) in
      subst (λ c. Ordered t c.behind) call o
  | inl good ↦ elim (Result-cases (before_control w t step)) [
    | inl (code, e) ↦
        let call : ended (s1 code) file ≡ run w t file step = ground (arith, good, e) in
        subst (λ c. Ordered t c.behind) call o
    | inr (runner_sha, e) ↦
        let call : run_opened w t runner_sha step (open_control w t runner_sha file step)
            ≡ run w t file step =
          ground (arith, good, e) in
        subst (λ c. Ordered t c.behind) call
          (run_opened-Ordered w t runner_sha step (open_control w t runner_sha file step)
            (open_control-Ordered w t runner_sha file step o)
            (λ control behind opened. (open_control-Source w t runner_sha step file opened).0))
  ]
]

-- the control files of a task that calls lead to, each call for any step and in any world
pub data Reached (t : Task) : ControlFile → Type 0 where
  untouched : Reached t absent
  after :
      {file : ControlFile}
      → Reached t file
      → (w : World) (step : Text) → Reached t (run w t file step).behind

-- Whatever calls are made, in whatever order, and however their steps, saves and queries end: the
-- steps that a control record has as done are the first ones of the task, in their order, and if the
-- record is halted, it names the step that comes next with a code.
pub Reached-Ordered : (t : Task) (file : ControlFile) → Reached t file → Ordered t file
unfolding Ordered
Reached-Ordered t absent untouched = tt
Reached-Ordered t _ (after {file} r w step) = run-Ordered w t file step (Reached-Ordered t file r)
