-- ===== src/StateEdit/SealApply.antt =====
-- scripts/state_edit.py: `apply` with the plan that `seal` has written.
use mathlib.Core.Path.{subst}
use mathlib.Core.Option.{some-injective}
use hh_ai_v.Base.{
  is_sha256, ok, >>=-eq-ok, require-eq-ok, ok-injective, ℕ, ◌==◌, ◌≡◌, refl, sym, ap, ◌∙◌, Bool,
  true, not, ◌&&◌, Text, some, List, All, text_eq, text_eq_refl,
}
use hh_ai_v.StateEdit.Checks.{Bytes, Files, Entry, Plan, World, task_scope, check_files}
use hh_ai_v.StateEdit.Apply.{
  Step, plan_bytes, read_plan, classify_entries, paths_of, checked_entries, apply,
}
use hh_ai_v.StateEdit.Outcome.{Holds}
use hh_ai_v.StateEdit.Promise.{apply-classified, apply-Holds}
use hh_ai_v.StateEdit.Rerun.{no_faults, classify_entries-Safe, apply_steps-no_faults}
use hh_ai_v.StateEdit.Seal.{OpsFile, read_ops, sorted_requests, seal_requests, seal}
use hh_ai_v.StateEdit.Sorted.{request_paths, check_files-sorted}
use hh_ai_v.StateEdit.SealClassify.{IsChange, seal_requests-classify}

module _ (w : World) (files : Files)
    (well_formed : (d : Bytes) → is_sha256 (w.sha256 d) ≡ true) where
  module _ (round_trip : (plan : Plan) → w.loads (w.dumps plan) ≡ some plan) where
    checked_entries-sealed :
        (task prompt_sha : Text) (scope : List Text) (entries : List Entry) {u : Unit {0}}
        → task_scope w prompt_sha ≡ ok scope
        → check_files (paths_of entries) scope ≡ ok u
        → checked_entries w
            (plan_bytes (
              w.dumps (record {
                schema_version = 1;
                task_id = task;
                prompt_sha256 = prompt_sha;
                files = entries;
              })))
            task
            prompt_sha
            (w.sha256 (
              w.dumps (record {
                schema_version = 1;
                task_id = task;
                prompt_sha256 = prompt_sha;
                files = entries;
              })))
          ≡ ok entries
    unfolding checked_entries read_plan
    checked_entries-sealed task prompt_sha scope entries in_scope files_ok = rw in_scope (
        rw
          (text_eq_refl (
            w.sha256 (
              w.dumps (record {
                schema_version = 1;
                task_id = task;
                prompt_sha256 = prompt_sha;
                files = entries;
              }))))
          (rw
            (round_trip (record {
              schema_version = 1;
              task_id = task;
              prompt_sha256 = prompt_sha;
              files = entries;
            }))
            (rw (text_eq_refl task) (rw (text_eq_refl prompt_sha) (rw files_ok refl)))))

    seal-checked :
        (ops_file : OpsFile) (exists : Bool) (task prompt_sha : Text) (plan : Plan) {bytes : Bytes}
        → seal w files ops_file exists task prompt_sha ≡ ok bytes
        → w.loads bytes ≡ some plan
        → All IsChange plan.files
        → (entries : List Entry) × (steps : List Step) × (checked_entries w
              (plan_bytes bytes)
              task
              prompt_sha
              (w.sha256 bytes)
            ≡ ok entries)
          × (classify_entries w files entries ≡ ok steps)
    unfolding seal
    seal-checked ops_file exists task prompt_sha plan {bytes} h loaded changes =
        let (scope, in_scope, h1) = >>=-eq-ok (task_scope w prompt_sha) _ h in
        let (doc, read, h2) = >>=-eq-ok (read_ops ops_file) _ h1 in
        let (fresh, h3) = require-eq-ok (not exists) _ _ h2 in
        let (head, h4) =
          require-eq-ok (doc.schema_version == 1 && text_eq doc.task_id task) _ _ h3 in
        let (u, files_ok, h5) = >>=-eq-ok (check_files (request_paths doc.files) scope) _ h4 in
        let (entries, sealed, h6) =
          >>=-eq-ok (seal_requests w files (sorted_requests doc.files)) _ h5 in
        let same : record {
          schema_version = 1;
          task_id = task;
          prompt_sha256 = prompt_sha;
          files = entries;
        }
            ≡ plan =
          some-injective _ _ (sym (round_trip _) ∙ ap w.loads (ok-injective h6) ∙ loaded) in
        let (paths, steps, c) =
          seal_requests-classify w files well_formed (sorted_requests doc.files) sealed
            (subst (λ p. All IsChange p.files) (sym same) changes) in
        (
          entries,
          steps,
          subst (λ b. checked_entries w (plan_bytes b) task prompt_sha (w.sha256 b) ≡ ok entries)
              (ok-injective h6)
              (checked_entries-sealed task prompt_sha scope entries in_scope (
                ap (λ l. check_files l scope) paths ∙ check_files-sorted doc.files scope files_ok)),
          c,
        )

-- A plan that `seal` writes is one that `apply` takes: on the files that were sealed, with no fault,
-- `apply` is done and every file of the plan has its sealed result. The conditions are that the
-- hash has the form of a SHA-256, that JSON reads back what it writes, and that in each entry of this
-- plan the hash of the file and the hash of its result differ.
pub seal-apply :
    (w : World) (files : Files) (ops_file : OpsFile) (exists : Bool) (task prompt_sha : Text)
    (plan : Plan) {bytes : Bytes}
    → ((d : Bytes) → is_sha256 (w.sha256 d) ≡ true)
    → ((plan : Plan) → w.loads (w.dumps plan) ≡ some plan)
    → seal w files ops_file exists task prompt_sha ≡ ok bytes
    → w.loads bytes ≡ some plan
    → All IsChange plan.files
    → let applied =
        apply w (no_faults w) files (plan_bytes bytes) task prompt_sha (w.sha256 bytes) in
      (entries : List Entry) × (written : ℕ) × (already : ℕ) × (checked_entries w
          (plan_bytes bytes)
          task
          prompt_sha
          (w.sha256 bytes)
        ≡ ok entries)
      × (applied.outcome ≡ ok (written, already))
      × All (Holds w applied.files) entries
seal-apply w files ops_file exists task prompt_sha plan {bytes} well_formed round_trip h loaded
      changes =
    let (entries, steps, checks, c) =
      seal-checked w files well_formed round_trip ops_file exists task prompt_sha plan h loaded
        changes in
    let (written, already, e) =
      apply_steps-no_faults w files steps 0 0 (classify_entries-Safe w files entries c) in
    let done =
      ap (λ a. a.outcome)
        (apply-classified w (no_faults w) files (plan_bytes bytes) task prompt_sha (w.sha256 bytes)
          entries steps checks c)
      ∙ e in
    (
      entries,
      written,
      already,
      checks,
      done,
      (apply-Holds w (no_faults w) files (plan_bytes bytes) task prompt_sha (w.sha256 bytes) entries
          checks done).0,
    )
