-- ===== src/Runner/Run.antt =====
-- scripts/batch_runner.py: one call of the runner, `main`.
use hh_ai_v.Base.{
  ℕ, ◌==◌, Bool, true, false, ◌&&◌, ◌||◌, Text, codes, text_eq, Option, none, some, [], ◌∷◌, ◌++◌,
  Either, ok, stop, ◌>>=◌, ◌>>◌, require, if◌then◌else◌, in_range,
}
use hh_ai_v.Runner.Plan.{Spec, derive_steps, is_step}
use hh_ai_v.Runner.Records.{
  Control, ControlFile, absent, invalid, stored, check_control, accepted_runner_sha, Saving,
  save_control,
}
use hh_ai_v.Runner.Start.{Queries, precontrol_start_guard}

-- how the method of a step comes back: with its result, with a Halt, or with another exception by
-- the name of its type
pub data Body : Type 0 where
  passed : Option Text → Body
  halted : Text → Body
  unexpected : Text → Body

-- how `write_new_artifact` comes back: with the file, with a Halt and no new file, or with an OSError
-- and a part of the text
pub data Creation : Type 0 where
  created : Creation
  refused : Text → Creation
  broken : Creation

-- What one call meets, apart from the prompt. `loaded` is the outcome of the checks of the directory
-- and of the reading of the prompt; an OSError or a UnicodeDecodeError has the code PROMPT_UNREADABLE.
pub record World : Type 0 where
  pub loaded : Either Text (Unit {0})
  pub own_sha256 : Either Text Text
  pub control_guard : Either Text (Unit {0})
  pub queries : Queries
  pub creation : Creation
  pub base_blob_sha256 : Either Text Text
  pub body : Text → Body
  pub saving : Saving

-- the task, its spec and the hash of its prompt
pub record Task : Type 0 where
  pub task_id : Text
  pub spec : Spec
  pub prompt_sha256 : Text

-- what is printed: STEP_PASS, S1 with its code, or TASK_ALREADY_HALTED
pub data Report : Type 0 where
  task_id_invalid step_pass already_halted : Report
  s1 : Text → Report

-- what a call does: its report, whether the method of the step was called, and the control file
pub record Call : Type 0 where
  pub report : Report
  pub ran : Bool
  pub behind : ControlFile

unfoldable pub exit_code : Report → ℕ
exit_code task_id_invalid = 2
exit_code step_pass = 0
exit_code already_halted = 1
exit_code (s1 code) = 1

-- `[A-Za-z0-9_-]`
is_task_char : ℕ → Bool
is_task_char c =
    in_range b'A' b'Z' c || in_range b'a' b'z' c || in_range b'0' b'9' c || c == b'_' || c == b'-'

-- a match of TASK_RE; its `$` also matches before a newline at the end
unfoldable pub is_task_id : Text → Bool
unfolding is_task_char
is_task_id [] = false
is_task_id (c ∷ []) = is_task_char c
is_task_id (c ∷ (d ∷ [])) = is_task_char c && (is_task_char d || d == 10)
is_task_id (c ∷ (d ∷ (e ∷ cs))) = is_task_char c && is_task_id (d ∷ (e ∷ cs))

abbrev pub new_control : Task → Text → Control
new_control t runner_sha = record {
  task_id = t.task_id;
  prompt_sha256 = t.prompt_sha256;
  runner_sha256 = runner_sha;
  done = [];
  halted = none;
  bundle_outcome = none;
}

-- `write_new_artifact` of the first control record
unfoldable pub create_file : Creation → Control → Either Text Control × ControlFile
create_file created control = (ok control, stored control)
create_file (refused code) control = (stop code, absent)
create_file broken control = (stop (codes "PROMPT_UNREADABLE"), invalid)

-- the first control record, where the step and the start allow it
unfoldable pub create_control : World → Task → Text → Text → Either Text Control × ControlFile
create_control w t runner_sha step =
    if text_eq step (codes "preflight")
    then (elim (precontrol_start_guard w.queries t.spec) [
      | stop code ↦ (stop code, absent)
      | ok u ↦ create_file w.creation (new_control t runner_sha)
    ])
    else (stop (codes "CONTROL_MISSING"), absent)

-- the control record of the call, and the file behind its loading or creation
unfoldable pub open_control :
    World → Task → Text → ControlFile → Text → Either Text Control × ControlFile
open_control w t runner_sha absent step = create_control w t runner_sha step
open_control w t runner_sha invalid step =
    (w.control_guard >> stop (codes "CONTROL_INVALID"), invalid)
open_control w t runner_sha (stored control) step = (w.control_guard >> ok control, stored control)

abbrev pub with_done : Control → Text → Option Text → Control
with_done control step outcome = record {
  task_id = control.task_id;
  prompt_sha256 = control.prompt_sha256;
  runner_sha256 = control.runner_sha256;
  done = control.done ++ (step ∷ []);
  halted = control.halted;
  bundle_outcome = outcome;
}

abbrev pub with_halted : Control → Text → Text → Control
with_halted control step code = record {
  task_id = control.task_id;
  prompt_sha256 = control.prompt_sha256;
  runner_sha256 = control.runner_sha256;
  done = control.done;
  halted = some (step ++ (58 ∷ code));
  bundle_outcome = control.bundle_outcome;
}

-- the report and the file behind a save
abbrev pub saved_call : Report → Either Text (Unit {0}) × ControlFile → Call
saved_call report (ok u, behind) = record { report = report; ran = true; behind = behind }
saved_call report (stop code, behind) = record { report = s1 code; ran = true; behind = behind }

-- what follows the call of the step's method
unfoldable pub after_body : Saving → Control → ControlFile → Text → Body → Call
after_body saving control file step (passed outcome) = saved_call step_pass (
    save_control saving file (
      with_done control step
        (if text_eq step (codes "bundle") then outcome else control.bundle_outcome)))
after_body saving control file step (halted code) =
    saved_call (s1 code) (save_control saving file (with_halted control step code))
after_body saving control file step (unexpected name) =
    saved_call (s1 (codes "UNEXPECTED_" ++ name))
      (save_control saving file (with_halted control step (codes "UNEXPECTED_" ++ name)))

unfoldable pub execute : World → Control → ControlFile → Text → Call
execute w control file step = after_body w.saving control file step (w.body step)

-- a call that ends before the method of the step
abbrev pub ended : Report → ControlFile → Call
ended report file = record { report = report; ran = false; behind = file }

-- the hash that counts for the runner, and the check of the control record
unfoldable pub admission : World → Task → Text → Control → Text → Either Text Bool
admission w t runner_sha control step = do
  accepted ← accepted_runner_sha t.spec control runner_sha w.base_blob_sha256
  check_control control t.task_id t.prompt_sha256 accepted (derive_steps t.spec) step

unfoldable pub run_opened : World → Task → Text → Text → Either Text Control × ControlFile → Call
run_opened w t runner_sha step (stop code, file) = ended (s1 code) file
run_opened w t runner_sha step (ok control, file) = elim (admission w t runner_sha control step) [
  | stop code ↦ ended (s1 code) file
  | ok false ↦ ended already_halted file
  | ok true ↦ execute w control file step
]

-- the checks before the control record is opened, which give the hash of the runner
unfoldable pub before_control : World → Task → Text → Either Text Text
before_control w t step = do
  u ← w.loaded
  require (is_step step (derive_steps t.spec)) (codes "UNKNOWN_STEP")
  w.own_sha256

-- `main` for a step other than `timing`
unfoldable pub run : World → Task → ControlFile → Text → Call
run w t file step =
    if is_task_id t.task_id
    then (elim (before_control w t step) [
      | stop code ↦ ended (s1 code) file
      | ok runner_sha ↦ run_opened w t runner_sha step (open_control w t runner_sha file step)
    ])
    else ended task_id_invalid file
