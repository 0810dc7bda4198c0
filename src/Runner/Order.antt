-- ===== src/Runner/Order.antt =====
-- scripts/batch_runner.py: when the method of a step is called, and what a halted task does.
use hh_ai_v.Base.{
  ◌≡◌, refl, sym, ap, ◌∙◌, ◌⊎◌, inl, inr, true, false, ◌&&◌, Text, codes, text_eq, text_eq_iff,
  List, [], ◌∷◌, ◌++◌, arith, Bool-cases, &&-eq-true, Result-cases, Either, ok, stop, ok-injective,
  >>=-eq-ok,
}
use hh_ai_v.Runner.{
  derive_steps, is_step, before, Control, ControlFile, absent, invalid, stored, is_halted, texts_eq,
  check_control, accepted_runner_sha, precontrol_start_guard, World, Task, is_task_id, Creation,
  create_file, create_control, open_control, new_control, execute, admission, run_opened,
  before_control, run,
}

pub texts_eq-eq : (xs ys : List Text) → texts_eq xs ys ≡ true → xs ≡ ys
unfolding texts_eq
texts_eq-eq [] [] h = refl
texts_eq-eq [] (y ∷ ys) h = absurd (ground arith)
texts_eq-eq (x ∷ xs) [] h = absurd (ground arith)
texts_eq-eq (x ∷ xs) (y ∷ ys) h =
    let (head, tail) = &&-eq-true (text_eq x y) (texts_eq xs ys) h in
    let same = (text_eq_iff x y).0 head in let more = texts_eq-eq xs ys tail in cc

-- A step divides the steps into those before it and the rest.
pub is_step-before :
    (step : Text) (steps : List Text)
    → is_step step steps ≡ true
    → (rest : List Text) × (steps ≡ before step steps ++ (step ∷ rest))
unfolding is_step before
is_step-before step [] h = absurd (ground arith)
is_step-before step (x ∷ steps) h =
    let more = is_step-before step steps in
    elim (Bool-cases (text_eq x step)) [
      | inl same ↦
          let here : before step (x ∷ steps) ≡ [] = ground (arith, same) in
          (
            steps,
            ap (λ y. y ∷ steps) ((text_eq_iff x step).0 same)
                ∙ ap (λ b. b ++ (step ∷ steps)) (sym here),
          )
      | inr other ↦
          let here : before step (x ∷ steps) ≡ x ∷ before step steps = ground (arith, other) in
          let (rest, e) = more (ground (arith, h, other)) in
          (rest, ap (λ y. x ∷ y) e ∙ ap (λ b. b ++ (step ∷ rest)) (sym here))
    ]

-- the control record lets this step run
pub record Admits (t : Task) (control : Control) (step : Text) : Type 0 where
  pub task : control.task_id ≡ t.task_id
  pub prompt : control.prompt_sha256 ≡ t.prompt_sha256
  pub free : is_halted control.halted ≡ false
  pub known : is_step step (derive_steps t.spec) ≡ true
  pub in_order : control.done ≡ before step (derive_steps t.spec)

check_control-Admits :
    (t : Task) (control : Control) (runner_sha step : Text)
    → check_control control t.task_id t.prompt_sha256 runner_sha (derive_steps t.spec) step
      ≡ ok true
    → Admits t control step
unfolding check_control
check_control-Admits t control runner_sha step h =
    elim (Bool-cases (
      text_eq control.task_id t.task_id
      && text_eq control.prompt_sha256 t.prompt_sha256
      && text_eq control.runner_sha256 runner_sha)) [
        | inr drift ↦ absurd (ground (arith, drift))
        | inl bound ↦ elim (Bool-cases (is_halted control.halted)) [
          | inl locked ↦ absurd (ground (arith, bound, locked))
          | inr free ↦
              elim (Bool-cases (
                is_step step (derive_steps t.spec)
                && texts_eq control.done (before step (derive_steps t.spec)))) [
                  | inr disorder ↦ absurd (ground (arith, bound, free, disorder))
                  | inl order ↦
                      let (known, same) = &&-eq-true (is_step step (derive_steps t.spec)) _ order in
                      let (both, runner) =
                        &&-eq-true
                          (text_eq control.task_id t.task_id
                            && text_eq control.prompt_sha256 t.prompt_sha256)
                          _ bound in
                      let (task, prompt) = &&-eq-true (text_eq control.task_id t.task_id) _ both in
                      record {
                        task = (text_eq_iff control.task_id t.task_id).0 task;
                        prompt = (text_eq_iff control.prompt_sha256 t.prompt_sha256).0 prompt;
                        free = free;
                        known = known;
                        in_order =
                            texts_eq-eq control.done (before step (derive_steps t.spec)) same;
                      }
                ]
        ]
      ]

pub admission-Admits :
    (w : World) (t : Task) (runner_sha : Text) (control : Control) (step : Text)
    → admission w t runner_sha control step ≡ ok true
    → Admits t control step
unfolding admission
admission-Admits w t runner_sha control step h =
    let (accepted, e, h1) =
      >>=-eq-ok (accepted_runner_sha t.spec control runner_sha w.base_blob_sha256) _ h in
    check_control-Admits t control accepted step h1

-- where a control record that was opened comes from
unfoldable pub Source : Task → Text → Text → ControlFile → Control → Type 0
Source t runner_sha step file control =
    (file ≡ stored control)
    ⊎ ((file ≡ absent) × (control ≡ new_control t runner_sha) × (step ≡ codes "preflight"))

pass-injective :
    {x y : Control} {f g : ControlFile}
    → ◌≡◌ {A = Either Text Control × ControlFile} (ok x, f) (ok y, g)
    → (x ≡ y) × (f ≡ g)
pass-injective h = (ok-injective (ap (λ p. p.0) h), ap (λ p. p.1) h)

create_file-ok :
    (c : Creation) (control : Control) {made : Control} {behind : ControlFile}
    → create_file c control ≡ (ok made, behind)
    → (control ≡ made) × (stored control ≡ behind)
unfolding create_file
create_file-ok Creation.created control h = pass-injective h
create_file-ok (Creation.refused code) control h = let e = ap (λ p. p.0) h in absurd (ground arith)
create_file-ok Creation.broken control h = let e = ap (λ p. p.0) h in absurd (ground arith)

create_control-Source :
    (w : World) (t : Task) (runner_sha step : Text) {control : Control} {behind : ControlFile}
    → create_control w t runner_sha step ≡ (ok control, behind)
    → (stored control ≡ behind) × Source t runner_sha step absent control
unfolding create_control Source
create_control-Source w t runner_sha step {control} {behind} h =
    elim (Bool-cases (text_eq step (codes "preflight"))) [
      | inr other ↦ absurd (ground (arith, other))
      | inl first ↦ elim (Result-cases (precontrol_start_guard w.queries t.spec)) [
        | inl (code, e) ↦ absurd (ground (arith, first, e))
        | inr (u, e) ↦
            let made : create_file w.creation (new_control t runner_sha) ≡ (ok control, behind) =
              ground (arith, first, e, h) in
            let (same, kept) = create_file-ok w.creation (new_control t runner_sha) made in
            (
              ap stored (sym same) ∙ kept,
              inr (refl, sym same, (text_eq_iff step (codes "preflight")).0 first),
            )
      ]
    ]

pub open_control-Source :
    (w : World) (t : Task) (runner_sha step : Text) (file : ControlFile) {control : Control}
    {behind : ControlFile}
    → open_control w t runner_sha file step ≡ (ok control, behind)
    → (stored control ≡ behind) × Source t runner_sha step file control
unfolding open_control Source
open_control-Source w t runner_sha step absent h = create_control-Source w t runner_sha step h
open_control-Source w t runner_sha step invalid h = elim (Result-cases w.control_guard) [
  | inl (code, e) ↦ absurd (ground (arith, e, h))
  | inr (u, e) ↦ absurd (ground (arith, e, h))
]
open_control-Source w t runner_sha step (stored c) {control} {behind} h =
    elim (Result-cases w.control_guard) [
      | inl (code, e) ↦ absurd (ground (arith, e, h))
      | inr (u, e) ↦
          let opened : ◌≡◌ {A = Either Text Control × ControlFile} (ok c, stored c)
              (ok control, behind) =
            ground (arith, e, h) in
          let (same, kept) = pass-injective opened in
          (ap stored (sym same) ∙ kept, inl (ap stored same))
    ]

-- what a call whose step's method is called has found
pub record Executed (w : World) (t : Task) (file : ControlFile) (step : Text) : Type 0 where
  pub control : Control
  pub runner_sha : Text
  pub source : Source t runner_sha step file control
  pub admits : Admits t control step
  pub same : run w t file step ≡ execute w control (stored control) step

run_opened-ran :
    (w : World) (t : Task) (runner_sha step : Text) (o : Either Text Control × ControlFile)
    → (run_opened w t runner_sha step o).ran ≡ true
    → (control : Control) × (behind : ControlFile) × (o ≡ (ok control, behind))
      × (admission w t runner_sha control step ≡ ok true)
      × (run_opened w t runner_sha step o ≡ execute w control behind step)
unfolding run_opened
run_opened-ran w t runner_sha step (stop code, behind) h = absurd (ground arith)
run_opened-ran w t runner_sha step (ok control, behind) h =
    elim (Result-cases (admission w t runner_sha control step)) [
      | inl (code, e) ↦ absurd (ground (arith, e))
      | inr (locked, e) ↦ elim (Bool-cases locked) [
        | inr f ↦ absurd (ground (arith, e, f))
        | inl f ↦ (control, behind, refl, e ∙ ap ok f, ground (arith, e, f))
      ]
    ]

-- Where the method of a step is called, the control record is for this task and this prompt, the task
-- is not halted, and the steps that are done are exactly those before the step. The record was there
-- before, or the step is preflight and the record is a new one.
pub run-Executed :
    (w : World) (t : Task) (file : ControlFile) (step : Text)
    → (run w t file step).ran ≡ true
    → Executed w t file step
unfolding run
run-Executed w t file step h = elim (Bool-cases (is_task_id t.task_id)) [
  | inr bad ↦ absurd (ground (arith, bad))
  | inl good ↦ elim (Result-cases (before_control w t step)) [
    | inl (code, e) ↦ absurd (ground (arith, good, e))
    | inr (runner_sha, e) ↦
        let ran : (run_opened w t runner_sha step (open_control w t runner_sha file step)).ran
            ≡ true =
          ground (arith, good, e, h) in
        let (control, behind, opened, admitted, same) =
          run_opened-ran w t runner_sha step (open_control w t runner_sha file step) ran in
        let (kept, source) = open_control-Source w t runner_sha step file opened in
        let entered : run w t file step
            ≡ run_opened w t runner_sha step (open_control w t runner_sha file step) =
          ground (arith, good, e) in
        record {
          control = control;
          runner_sha = runner_sha;
          source = source;
          admits = admission-Admits w t runner_sha control step admitted;
          same = entered ∙ same ∙ sym (ap (λ f. execute w control f step) kept);
        }
  ]
]
