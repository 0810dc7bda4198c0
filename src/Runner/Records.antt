-- ===== src/Runner/Records.antt =====
-- scripts/batch_runner.py: the control record, its checks and its atomic replacement.
use hh_ai_v.Base.{
  ℕ, zero, suc, ◌+◌, Bool, true, false, not, ◌&&◌, ◌||◌, Text, codes, text_eq, Option, none, some,
  List, [], ◌∷◌, Either, ok, stop, ◌>>=◌, if◌then◌else◌,
}
use hh_ai_v.Runner.Plan.{Kind, production, promotion, readonly, Spec, is_step, before}

pub record Control : Type 0 where
  pub task_id : Text
  pub prompt_sha256 : Text
  pub runner_sha256 : Text
  pub done : List Text
  pub halted : Option Text
  pub bundle_outcome : Option Text

-- `.git/<task>-control.json`: no such file, one that is no JSON, or a record
pub data ControlFile : Type 0 where
  absent invalid : ControlFile
  stored : Control → ControlFile

-- `control.get('halted')` as a condition
unfoldable pub is_halted : Option Text → Bool
is_halted none = false
is_halted (some []) = false
is_halted (some (_ ∷ _)) = true

-- `a == b` of lists of texts
unfoldable pub texts_eq : List Text → List Text → Bool
texts_eq [] [] = true
texts_eq (x ∷ xs) (y ∷ ys) = text_eq x y && texts_eq xs ys
texts_eq _ _ = false

-- `check_control`: `ok true` for 'OK' and `ok false` for 'HALTED'
unfoldable pub check_control : Control → Text → Text → Text → List Text → Text → Either Text Bool
check_control control task_id prompt_sha runner_sha steps step =
    if not (
      text_eq control.task_id task_id
      && text_eq control.prompt_sha256 prompt_sha
      && text_eq control.runner_sha256 runner_sha)
    then stop (codes "CONTROL_BINDING_DRIFT")
    else if is_halted control.halted
    then ok false
    else if is_step step steps && texts_eq control.done (before step steps)
    then ok true
    else stop (codes "STEP_ORDER_VIOLATION")

unfoldable pub is_production : Kind → Bool
is_production production = true
is_production promotion = false
is_production readonly = false

-- `accepted_runner_sha`, with the hash of the runner at Base where git shows it
unfoldable pub accepted_runner_sha : Spec → Control → Text → Either Text Text → Either Text Text
accepted_runner_sha spec control runner_sha base_blob_sha =
    let bound = control.runner_sha256 in
    if text_eq runner_sha bound || not (is_production spec.kind) || not spec.runner_update
    then ok runner_sha
    else if not (is_step (codes "apply") control.done)
    then ok runner_sha
    else if not (text_eq spec.runner_author_sha256 runner_sha)
    then ok runner_sha
    else (base_blob_sha >>= (λ blob. ok (if text_eq blob bound then bound else runner_sha)))

-- how `os.replace` comes back: done, PermissionError, or another OSError
pub data Replace : Type 0 where
  replaced denied failed : Replace

-- The temporary file before the replacement: none was made, one that could not be written, or one
-- that is complete.
pub data Temporary : Type 0 where
  no_temp broken_temp ready_temp : Temporary

-- What a save meets: the guard of the artifact, before and behind the temporary file, the
-- replacements by their number, and whether the temporary file can be removed.
pub record Saving : Type 0 where
  pub guard : Either Text (Unit {0})
  pub temporary : Temporary
  pub guard_again : Either Text (Unit {0})
  pub replace : ℕ → Replace
  pub can_unlink : Bool

-- The replacements from `attempt` on, of which `retries` may follow a PermissionError.
unfoldable pub replace_from : (ℕ → Replace) → ℕ → ℕ → Bool
replace_from replace attempt zero = elim (replace attempt) [
  | replaced ↦ true
  | denied ↦ false
  | failed ↦ false
]
replace_from replace attempt (suc retries) =
    let rest = replace_from replace (attempt + 1) retries in
    elim (replace attempt) [ replaced ↦ true | denied ↦ rest | failed ↦ false ]

-- the number of delays in CONTROL_REPLACE_RETRY_DELAYS
abbrev pub replace_retries : ℕ
replace_retries = 5

-- the code behind the `finally`
unfoldable pub with_cleanup : Saving → Text → Text
with_cleanup s code = if s.can_unlink then code else codes "CONTROL_TEMP_CLEANUP_FAILED"

-- from the complete temporary file on
unfoldable pub save_ready : Saving → ControlFile → Control → Either Text (Unit {0}) × ControlFile
save_ready s file control = elim s.guard_again [
  | stop code ↦ (stop (with_cleanup s code), file)
  | ok u ↦
      if replace_from s.replace 0 replace_retries
      then (ok tt, stored control)
      else (stop (with_cleanup s (codes "CONTROL_SAVE_FAILED")), file)
]

-- what follows the first guard
unfoldable pub save_from :
    Temporary → Saving → ControlFile → Control → Either Text (Unit {0}) × ControlFile
save_from no_temp s file control = (stop (codes "CONTROL_SAVE_FAILED"), file)
save_from broken_temp s file control = (stop (with_cleanup s (codes "CONTROL_SAVE_FAILED")), file)
save_from ready_temp s file control = save_ready s file control

-- `save_control`: its code or success, and the file behind it
unfoldable pub save_control : Saving → ControlFile → Control → Either Text (Unit {0}) × ControlFile
save_control s file control = elim s.guard [
  | stop code ↦ (stop code, file)
  | ok u ↦ save_from s.temporary s file control
]
