-- ===== src/Runner/Tests.antt =====
-- Calls of scripts/batch_runner.py with fixed answers, and the theorems at them.
use hh_ai_v.Base.{
  ℕ, zero, suc, ◌≡◌, refl, true, false, Text, codes, text_eq, none, [], ◌∷◌, ◌++◌, ok, stop, is_oid,
  is_hex, in_range, split_on, splitlines, strip, is_space,
}
use hh_ai_v.Runner.{
  production, clean, Spec, remove, remove_unless, steps_of, derive_steps, is_step, before, Control,
  ControlFile, absent, stored, is_halted, texts_eq, check_control, is_production,
  accepted_runner_sha, replaced, denied, Replace, ready_temp, replace_from, save_ready, save_from,
  save_control, is_blank, status_lines, no_texts, check_start, remote_main, remote_line,
  start_guard, precontrol_start_guard, created, passed, halted, Body, World, Task, is_task_id,
  create_file, create_control, open_control, new_control, with_done, with_halted, after_body,
  execute, admission, run_opened, before_control, run,
}
use hh_ai_v.Runner.Order.{Executed, run-Executed}
use hh_ai_v.Runner.Reached.{Ordered, untouched, after, Reached-Ordered}
use hh_ai_v.Runner.Complete.{Complete}
use hh_ai_v.Runner.Locked.{halted_stays}

abbrev repeated : ℕ → ℕ → Text
repeated zero c = []
repeated (suc n) c = c ∷ repeated n c

abbrev spec : Spec
spec = record {
  kind = production;
  base_oid = repeated 40 b'a';
  start = clean;
  e24 = false;
  has_focused = false;
  bundle_output = false;
  runner_update = false;
  runner_author_sha256 = [];
}

abbrev task : Task
task = record { task_id = codes "B-1"; spec = spec; prompt_sha256 = codes "p" }

-- The first replacement is denied and the second one is done.
abbrev second_try : ℕ → Replace
second_try zero = denied
second_try (suc n) = replaced

-- `preflight` passes and every other step halts.
abbrev body : Text → Body
body step = elim (text_eq step (codes "preflight")) [
  | true ↦ passed none
  | false ↦ halted (codes "SETUP_FAILED")
]

abbrev world : World
world = record {
  loaded = ok tt;
  own_sha256 = ok (codes "r");
  control_guard = ok tt;
  queries = record {
    is_shallow = ok (codes "false");
    head = ok (repeated 40 b'a');
    status = ok [];
    current_branch = ok (codes "main");
    staged = ok [];
    adopt_checks = ok tt;
    ls_remote = ok (repeated 40 b'a' ++ codes "\trefs/heads/main\n");
    runtime = ok tt;
  };
  creation = created;
  base_blob_sha256 = stop (codes "GIT_FAILED");
  body = body;
  saving = record {
    guard = ok tt;
    temporary = ready_temp;
    guard_again = ok tt;
    replace = second_try;
    can_unlink = true;
  };
}

abbrev first_control : Control
first_control = with_done (new_control task (codes "r")) (codes "preflight") none

abbrev halted_control : Control
halted_control = with_halted first_control (codes "setup") (codes "SETUP_FAILED")

preflight_ran : (run world task absent (codes "preflight")).ran ≡ true
unfolding run is_task_id in_range before_control is_step derive_steps steps_of remove_unless remove
    text_eq run_opened open_control create_control precontrol_start_guard is_production start_guard
    check_start status_lines is_blank strip is_space split_on no_texts remote_line splitlines
    remote_main is_oid is_hex create_file admission accepted_runner_sha check_control is_halted
    texts_eq before execute after_body save_control save_from save_ready replace_from
preflight_ran = refl

preflight_file : (run world task absent (codes "preflight")).behind ≡ stored first_control
unfolding run is_task_id in_range before_control is_step derive_steps steps_of remove_unless remove
    text_eq run_opened open_control create_control precontrol_start_guard is_production start_guard
    check_start status_lines is_blank strip is_space split_on no_texts remote_line splitlines
    remote_main is_oid is_hex create_file admission accepted_runner_sha check_control is_halted
    texts_eq before execute after_body save_control save_from save_ready replace_from
preflight_file = refl

setup_file : (run world task (stored first_control) (codes "setup")).behind ≡ stored halted_control
unfolding run is_task_id in_range before_control is_step derive_steps steps_of remove_unless remove
    text_eq run_opened open_control admission accepted_runner_sha check_control is_halted texts_eq
    before execute after_body save_control save_from save_ready replace_from
setup_file = refl

run-Executed_example : Executed world task absent (codes "preflight")
run-Executed_example = run-Executed world task absent (codes "preflight") preflight_ran

abbrev two_calls : ControlFile
two_calls =
    (run world task (run world task absent (codes "preflight")).behind (codes "setup")).behind

Reached-Ordered_example : Ordered task two_calls
Reached-Ordered_example =
    Reached-Ordered task two_calls
      (after (after untouched world (codes "preflight")) world (codes "setup"))

locked_control : is_halted halted_control.halted ≡ true
unfolding is_halted
locked_control = refl

halted_stays_example :
    ((run world task (stored halted_control) (codes "apply")).ran ≡ false)
    × ((run world task (stored halted_control) (codes "apply")).behind ≡ stored halted_control)
halted_stays_example = halted_stays world task halted_control (codes "apply") locked_control

-- the world in which every step passes
abbrev fair_world : World
fair_world = record {
  loaded = ok tt;
  own_sha256 = ok (codes "r");
  control_guard = ok tt;
  queries = world.queries;
  creation = created;
  base_blob_sha256 = stop (codes "GIT_FAILED");
  body = λ step. passed none;
  saving = world.saving;
}
