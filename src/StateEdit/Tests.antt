-- ===== src/StateEdit/Tests.antt =====
-- Runs of scripts/state_edit.py on one small file, and the theorems at these inputs.
use mathlib.Core.Bool.{false≢true}
use hh_ai_v.Base.{
  is_sha256, strip, ok, ℕ, zero, suc, ◌+◌, ◌≡◌, ◌≢◌, ◌⊎◌, refl, sym, ap, ◌∙◌, true, false, Text,
  none, some, List, [], ◌∷◌, codes, if◌then◌else◌, length, All, text_eq, Bool-cases, inl, inr,
  starts_with, ends_with, split_on, count_from, count_text, is_space, no_newline,
}
use hh_ai_v.StateEdit.Codes.{write_failed}
use hh_ai_v.StateEdit.Ops.{
  replace_line, has_cr, single_line, text_op, replace_from, replace_text, apply_op, run_ops,
}
use hh_ai_v.StateEdit.Checks.{
  Bytes, Files, Entry, Plan, World, usable_target, state_files, is_member, clean_text,
  has_trailing_space, trailing_whitespace_lines, adds_no_trailing, check_result, allowed_paths,
  task_scope, check_ops, all_distinct, check_paths, check_files, target_of, read_target,
}
use hh_ai_v.StateEdit.Apply.{
  PlanFile, plan_bytes, read_plan, changed_step, classify_data, classify_entry, classify_entries,
  paths_of, checked_entries, Faults, write_file, apply_steps, apply,
}
use hh_ai_v.StateEdit.Outcome.{Holds, Replaced}
use hh_ai_v.StateEdit.Promise.{left_files, apply-classified, apply-Holds, apply-Replaced}
use hh_ai_v.StateEdit.Rerun.{no_faults, apply-rerun}
use hh_ai_v.StateEdit.Seal.{
  Request, OpsDoc, ops_doc, read_ops, sorted_requests, seal_request, seal_requests, seal,
}
use hh_ai_v.StateEdit.SealClassify.{IsChange}
use hh_ai_v.StateEdit.SealApply.{seal-apply}
use hh_ai_v.StateEdit.Codec.{dump_plan, load_plan, get_text, put_text, load_plan-dump_plan}

abbrev repeated : ℕ → ℕ → Text
repeated zero c = []
repeated (suc n) c = c ∷ repeated n c

abbrev board : Text
board = codes "docs/TASKBOARD.md"

abbrev before : Bytes
before = codes "next: T1\nend\n"

abbrev file_sha : Text
file_sha = repeated 64 b'a'

abbrev other_sha : Text
other_sha = repeated 64 b'b'

abbrev task : Text
task = codes "T2"

-- a hash that tells the file from every other
abbrev toy_sha256 : Bytes → Text
toy_sha256 d = if text_eq d before then file_sha else other_sha

abbrev world : World
world = record {
  sha256 = toy_sha256;
  decode = λ d. some d;
  encode = λ t. t;
  prompt = some (codes "prompt");
  contract_paths = some (codes "docs/TASKBOARD.md");
  loads = load_plan;
  dumps = dump_plan;
  look_at = λ p. usable_target;
}

abbrev files : Files
files p = if text_eq p board then some before else none

abbrev request : Request
request = record { path = board; ops = replace_line (codes "next: ") (codes "next: T2") ∷ [] }

abbrev doc : OpsDoc
doc = record { schema_version = 1; task_id = codes "T2"; files = request ∷ [] }

abbrev entry : Entry
entry = record {
  path = board;
  before_sha256 = file_sha;
  after_sha256 = other_sha;
  ops = request.ops;
}

abbrev plan : Plan
plan = record {
  schema_version = 1;
  task_id = codes "T2";
  prompt_sha256 = other_sha;
  files = entry ∷ [];
}

sealed : seal world files (ops_doc doc) false task other_sha ≡ ok (dump_plan plan)
unfolding seal task_scope text_eq allowed_paths strip is_space split_on is_member state_files
    read_ops check_files all_distinct check_paths sorted_requests seal_requests seal_request
    check_ops target_of read_target clean_text has_cr ends_with run_ops text_op single_line
    starts_with no_newline count_text count_from apply_op replace_text replace_from check_result
    adds_no_trailing trailing_whitespace_lines has_trailing_space
sealed = refl

abbrev plan_file : PlanFile
plan_file = plan_bytes (dump_plan plan)

toy_sha256-is_sha256 : (d : Bytes) → is_sha256 (toy_sha256 d) ≡ true
unfolding is_sha256
toy_sha256-is_sha256 d = elim (Bool-cases (text_eq d before)) [
  | inl e ↦ rw e refl
  | inr e ↦ rw e refl
]

letters_differ : file_sha ≢ other_sha
unfolding text_eq
letters_differ h = false≢true (sym (ap (λ t. text_eq t file_sha) h))

sealed_changes : All IsChange plan.files
unfolding IsChange
sealed_changes = (letters_differ, tt)

checked : checked_entries world plan_file task other_sha other_sha ≡ ok (entry ∷ [])
unfolding checked_entries task_scope text_eq allowed_paths strip is_space split_on is_member
    state_files read_plan get_text put_text check_files all_distinct check_paths
checked = refl

classified :
    classify_entries world files (entry ∷ []) ≡ ok ((board, some (codes "next: T2\nend\n")) ∷ [])
unfolding classify_entries classify_entry is_sha256 text_eq check_ops target_of read_target
    classify_data changed_step clean_text has_cr ends_with run_ops text_op single_line split_on
    starts_with no_newline count_text count_from apply_op replace_text replace_from check_result
    adds_no_trailing trailing_whitespace_lines has_trailing_space is_space
classified = refl

done : (apply world (no_faults world) files plan_file task other_sha other_sha).outcome ≡ ok (1, 0)
done =
    ap (λ a. a.outcome)
      (apply-classified world (no_faults world) files plan_file task other_sha other_sha
        (entry ∷ []) ((board, some (codes "next: T2\nend\n")) ∷ []) checked classified)
    ∙ (unfold apply_steps write_file in refl)

-- the write of the file fails
abbrev broken : Faults
broken = record { second_look = λ p. usable_target; replace_stop = λ p. some write_failed }

apply-Holds_example :
    All
      (Holds world (left_files world (no_faults world) files plan_file task other_sha other_sha))
      (entry ∷ [])
    × (1 + 0 ≡ length (entry ∷ []))
    × ((q : Text)
        → is_member q (paths_of (entry ∷ [])) ≡ false
        → left_files world (no_faults world) files plan_file task other_sha other_sha q ≡ files q)
apply-Holds_example =
    apply-Holds world (no_faults world) files plan_file task other_sha other_sha (entry ∷ [])
      checked done

apply-Replaced_example :
    All
      (λ e.
        (left_files world broken files plan_file task other_sha other_sha e.path ≡ files e.path)
        ⊎ Replaced world files (left_files world broken files plan_file task other_sha other_sha) e)
      (entry ∷ [])
    × ((q : Text)
        → is_member q (paths_of (entry ∷ [])) ≡ false
        → left_files world broken files plan_file task other_sha other_sha q ≡ files q)
apply-Replaced_example =
    apply-Replaced world broken files plan_file task other_sha other_sha (entry ∷ []) checked

apply-rerun_example :
    let stopped = (apply world broken files plan_file task other_sha other_sha).files in
    let again = apply world (no_faults world) stopped plan_file task other_sha other_sha in
    (written : ℕ) × (already : ℕ) × (again.outcome ≡ ok (written, already))
    × All (Holds world again.files) (entry ∷ [])
apply-rerun_example =
    apply-rerun world broken files plan_file task other_sha other_sha (entry ∷ []) _ checked
      classified

seal-apply_example :
    let applied =
      apply world (no_faults world) files plan_file task other_sha (toy_sha256 (dump_plan plan)) in
    (entries : List Entry) × (written : ℕ) × (already : ℕ) × (checked_entries world plan_file task
        other_sha
        (toy_sha256 (dump_plan plan))
      ≡ ok entries)
    × (applied.outcome ≡ ok (written, already))
    × All (Holds world applied.files) entries
seal-apply_example =
    seal-apply world files (ops_doc doc) false task other_sha plan toy_sha256-is_sha256
      load_plan-dump_plan sealed (load_plan-dump_plan plan) sealed_changes
