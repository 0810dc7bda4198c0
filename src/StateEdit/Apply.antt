-- ===== src/StateEdit/Apply.antt =====
-- scripts/state_edit.py: `read_plan`, `classify` and `apply`.
use hh_ai_v.Base.{
  is_sha256, ok, stop, ◌>>=◌, ◌>>◌, require, ℕ, ◌+◌, ◌==◌, not, ◌&&◌, Text, Option, none, some,
  List, [], ◌∷◌, map, if◌then◌else◌, text_eq,
}
use hh_ai_v.StateEdit.Codes.{
  Code, Result, plan_missing, plan_invalid, plan_sha_mismatch, prompt_sha_mismatch, conflict,
  result_mismatch,
}
use hh_ai_v.StateEdit.Ops.{run_ops}
use hh_ai_v.StateEdit.Checks.{
  Bytes, Files, Target, Entry, Plan, World, source, clean_text, check_result, task_scope, check_ops,
  check_files, target_of, target_result, read_target,
}

-- the sealed plan's file
pub data PlanFile : Type 0 where
  no_plan unreadable_plan : PlanFile
  plan_bytes : Bytes → PlanFile

abbrev loaded : Option Plan → Result Plan
loaded none = stop plan_invalid
loaded (some plan) = ok plan

unfoldable pub read_plan : World → PlanFile → Text → Result Plan
read_plan w no_plan plan_sha = stop plan_missing
read_plan w unreadable_plan plan_sha = stop plan_invalid
read_plan w (plan_bytes data_bytes) plan_sha = do
  require (text_eq (w.sha256 data_bytes) plan_sha) plan_sha_mismatch
  loaded (w.loads data_bytes)

-- a path with its new bytes, or `none` where they are already there
abbrev pub Step : Type 0
Step = Text × Option Bytes

-- the file has the new bytes already
unfoldable pub applied_step : World → Entry → Bytes → Result Step
applied_step w entry data_bytes = do text ← clean_text w data_bytes source; ok (entry.path, none)

-- the operations are run again
unfoldable pub changed_step : World → Entry → Bytes → Result Step
changed_step w entry data_bytes = do
  require (text_eq (w.sha256 data_bytes) entry.before_sha256) conflict
  text ← clean_text w data_bytes source
  changed ← run_ops text entry.ops
  require (text_eq (w.sha256 (w.encode changed)) entry.after_sha256) result_mismatch
  check_result w text (w.encode changed)
  ok (entry.path, some (w.encode changed))

-- the file as it is now, against the two hashes of its entry
unfoldable pub classify_data : World → Entry → Bytes → Result Step
classify_data w entry data_bytes =
    let same = applied_step w entry data_bytes in
    let other = changed_step w entry data_bytes in
    if text_eq (w.sha256 data_bytes) entry.after_sha256 then same else other

unfoldable pub classify_entry : World → Files → Entry → Result Step
classify_entry w files entry = do
  require
      (is_sha256 entry.before_sha256
        && is_sha256 entry.after_sha256
        && not (text_eq entry.before_sha256 entry.after_sha256))
      plan_invalid
  check_ops entry.ops
  target_of w entry.path
  data_bytes ← read_target files entry.path
  classify_data w entry data_bytes

unfoldable pub classify_entries : World → Files → List Entry → Result (List Step)
classify_entries w files [] = ok []
classify_entries w files (entry ∷ entries) = do
  step ← classify_entry w files entry
  steps ← classify_entries w files entries
  ok (step ∷ steps)

abbrev pub paths_of : List Entry → List Text
paths_of = map (λ e. e.path)

-- the checks of the plan as a whole, and its entries
unfoldable pub checked_entries : World → PlanFile → Text → Text → Text → Result (List Entry)
checked_entries w plan_file task_id prompt_sha plan_sha = do
  scope ← task_scope w prompt_sha
  plan ← read_plan w plan_file plan_sha
  require (plan.schema_version == 1 && text_eq plan.task_id task_id) plan_invalid
  require (text_eq plan.prompt_sha256 prompt_sha) prompt_sha_mismatch
  check_files (paths_of plan.files) scope
  ok plan.files

unfoldable pub classify : World → Files → PlanFile → Text → Text → Text → Result (List Step)
classify w files plan_file task_id prompt_sha plan_sha = do
  entries ← checked_entries w plan_file task_id prompt_sha plan_sha
  classify_entries w files entries

-- What can go wrong while the files are written: what the second look at a path says, and how
-- `replace_file` ends, `none` where the file is replaced.
pub record Faults : Type 0 where
  pub second_look : Text → Target
  pub replace_stop : Text → Option Code

-- the files, and `written` with `already` or the stop
pub record Applied : Type 0 where
  pub files : Files
  pub outcome : Result (ℕ × ℕ)

-- the file at the path has new bytes
unfoldable pub put : Files → Text → Bytes → Files
put files path data_bytes p = if text_eq p path then some data_bytes else files p

after_replace : Files → Text → Bytes → Option Code → Result Files
after_replace files path data_bytes none = ok (put files path data_bytes)
after_replace files path data_bytes (some c) = stop c

-- `target_of` and `replace_file` for one file
unfoldable pub write_file : Faults → Files → Text → Bytes → Result Files
unfolding after_replace
write_file faults files path data_bytes = do
  target_result (faults.second_look path)
  after_replace files path data_bytes (faults.replace_stop path)

abbrev pub continued : Files → Result Files → (Files → Applied) → Applied
continued files (ok changed) k = k changed
continued files (stop c) k = record { files = files; outcome = stop c }

unfoldable pub apply_steps : Faults → Files → List Step → ℕ → ℕ → Applied
apply_steps faults files [] written already = record {
  files = files;
  outcome = ok (written, already);
}
apply_steps faults files ((path, none) ∷ steps) written already =
    apply_steps faults files steps written (already + 1)
apply_steps faults files ((path, some data_bytes) ∷ steps) written already =
    continued files (write_file faults files path data_bytes)
      (λ changed. apply_steps faults changed steps (written + 1) already)

apply_classified : Faults → Files → Result (List Step) → Applied
apply_classified faults files (stop c) = record { files = files; outcome = stop c }
apply_classified faults files (ok steps) = apply_steps faults files steps 0 0

unfoldable pub apply : World → Faults → Files → PlanFile → Text → Text → Text → Applied
unfolding apply_classified
apply w faults files plan_file task_id prompt_sha plan_sha =
    apply_classified faults files (classify w files plan_file task_id prompt_sha plan_sha)
