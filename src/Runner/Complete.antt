-- ===== src/Runner/Complete.antt =====
-- scripts/batch_runner.py: a batch whose steps all pass.
use hh_ai_v.Base.{◌≡◌, true, Text, codes, text_eq, Option, none, List, [], ◌∷◌, if◌then◌else◌, ok}
use hh_ai_v.Runner.{
  derive_steps, Control, ControlFile, stored, ready_temp, replace_from, replace_retries,
  precontrol_start_guard, passed, World, Task, Creation, with_done, run,
}

-- nothing fails in this world, and the runner has this hash
pub record Fair (t : Task) (runner_sha : Text) (w : World) : Type 0 where
  pub loaded : w.loaded ≡ ok tt
  pub own_sha256 : w.own_sha256 ≡ ok runner_sha
  pub control_guard : w.control_guard ≡ ok tt
  pub start : precontrol_start_guard w.queries t.spec ≡ ok tt
  pub creation : w.creation ≡ Creation.created
  pub outcome : Text → Option Text
  pub body : (step : Text) → w.body step ≡ passed (outcome step)
  pub guard : w.saving.guard ≡ ok tt
  pub temporary : w.saving.temporary ≡ ready_temp
  pub guard_again : w.saving.guard_again ≡ ok tt
  pub replacement : replace_from w.saving.replace 0 replace_retries ≡ true

-- the calls for these steps in their order, each in the world of its step
unfoldable pub run_all : (Text → World) → Task → ControlFile → List Text → ControlFile
run_all w t file [] = file
run_all w t file (step ∷ steps) = run_all w t (run (w step) t file step).behind steps

-- a record of this task and runner that is not halted
Bound : Task → Text → Control → Type 0
Bound t runner_sha c =
    (c.task_id ≡ t.task_id)
    × (c.prompt_sha256 ≡ t.prompt_sha256)
    × (c.runner_sha256 ≡ runner_sha)
    × (c.halted ≡ none)

-- the record behind a step that passes
next_control : Control → Text → Option Text → Control
next_control c step outcome =
    with_done c step (if text_eq step (codes "bundle") then outcome else c.bundle_outcome)

-- the record of a batch that is complete
unfoldable pub Complete : Task → ControlFile → Type 0
Complete t file =
    (c : Control) × (file ≡ stored c) × (c.done ≡ derive_steps t.spec) × (c.halted ≡ none)
