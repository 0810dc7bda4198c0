-- ===== src/StateEdit/Promise.antt =====
-- scripts/state_edit.py: what `apply` leaves behind, done or stopped.
use mathlib.Core.Path.{subst}
use hh_ai_v.Base.{
  ok, stop, Result-cases, ok-injective, >>=-eq-ok, require-eq-ok, ℕ, suc, ◌+◌, ◌==◌, ◌≡◌, refl, sym,
  ap, ◌∙◌, ◌⊎◌, inl, inr, true, false, ◌&&◌, Text, List, [], ◌∷◌, arith, length, All, text_eq,
}
use hh_ai_v.StateEdit.Codes.{Code}
use hh_ai_v.StateEdit.Checks.{Files, Entry, World, is_member, all_distinct, task_scope, check_files}
use hh_ai_v.StateEdit.Apply.{
  Step, PlanFile, read_plan, classify_entries, paths_of, checked_entries, classify, Faults,
  apply_steps, apply,
}
use hh_ai_v.StateEdit.Writes.{
  step_paths, apply_steps-Apart, apply_steps-Progress, apply_steps-Finished,
}
use hh_ai_v.StateEdit.Outcome.{Holds, Replaced, classify_entries-paths, all-Holds, all-Replaced}

check_files-distinct :
    (paths scope : List Text) {u : Unit {0}}
    → check_files paths scope ≡ ok u
    → all_distinct paths ≡ true
unfolding check_files
check_files-distinct [] scope h = absurd (ground arith)
check_files-distinct (p ∷ ps) scope h = (require-eq-ok (all_distinct (p ∷ ps)) _ _ h).0

-- The paths of a plan that passes the checks are distinct.
pub checked_entries-distinct :
    (w : World) (plan_file : PlanFile) (task prompt_sha plan_sha : Text) {entries : List Entry}
    → checked_entries w plan_file task prompt_sha plan_sha ≡ ok entries
    → all_distinct (paths_of entries) ≡ true
unfolding checked_entries
checked_entries-distinct w plan_file task prompt_sha plan_sha h =
    let (scope, s, h1) = >>=-eq-ok (task_scope w prompt_sha) _ h in
    let (plan, p, h2) = >>=-eq-ok (read_plan w plan_file plan_sha) _ h1 in
    let (a, h3) = require-eq-ok (plan.schema_version == 1 && text_eq plan.task_id task) _ _ h2 in
    let (b, h4) = require-eq-ok (text_eq plan.prompt_sha256 prompt_sha) _ _ h3 in
    let (u, files_ok, h5) =
      >>=-eq-ok (check_files (paths_of plan.files) scope) (λ _. ok plan.files) h4 in
    subst (λ es. all_distinct (paths_of es) ≡ true) (ok-injective h5)
      (check_files-distinct (paths_of plan.files) scope files_ok)

length-paths :
    (steps : List Step) (entries : List Entry)
    → step_paths steps ≡ paths_of entries
    → length steps ≡ length entries
length-paths [] [] h = refl
length-paths [] (e ∷ entries) h = absurd (ground arith)
length-paths (s ∷ steps) [] h = absurd (ground arith)
length-paths (s ∷ steps) (e ∷ entries) h =
    let tails : step_paths steps ≡ paths_of entries = cc in
    ap suc (length-paths steps entries tails)

module _ (w : World) (faults : Faults) (files : Files) (plan_file : PlanFile)
    (task prompt_sha plan_sha : Text) where
  -- the files after `apply`
  abbrev pub left_files : Files
  left_files = (apply w faults files plan_file task prompt_sha plan_sha).files

  pub apply-classified :
      (entries : List Entry) (steps : List Step)
      → checked_entries w plan_file task prompt_sha plan_sha ≡ ok entries
      → classify_entries w files entries ≡ ok steps
      → apply w faults files plan_file task prompt_sha plan_sha ≡ apply_steps faults files steps 0 0
  unfolding apply classify
  apply-classified entries steps h k = rw (h, apply) (rw (k, apply) refl)

  apply-unclassified :
      (entries : List Entry) {c : Code}
      → checked_entries w plan_file task prompt_sha plan_sha ≡ ok entries
      → classify_entries w files entries ≡ stop c
      → apply w faults files plan_file task prompt_sha plan_sha
        ≡ record { files = files; outcome = stop c }
  unfolding apply classify
  apply-unclassified entries h k = rw (h, apply) (rw (k, apply) refl)

  -- If `apply` is done, every file of the plan has bytes that hash to the sealed result and follow
  -- the byte rule, the two counts make up the number of files, and no other file has changed. The
  -- plan is one that passes the checks.
  pub apply-Holds :
      (entries : List Entry) {written already : ℕ}
      → checked_entries w plan_file task prompt_sha plan_sha ≡ ok entries
      → (apply w faults files plan_file task prompt_sha plan_sha).outcome ≡ ok (written, already)
      → All (Holds w left_files) entries
        × (written + already ≡ length entries)
        × ((q : Text) → is_member q (paths_of entries) ≡ false → left_files q ≡ files q)
  apply-Holds entries {written} {already} h e =
      elim (Result-cases (classify_entries w files entries)) [
        | inl (c, k) ↦ let r = apply-unclassified entries h k in absurd (ground arith)
        | inr (steps, k) ↦
            let r = apply-classified entries steps h k in
            let paths = classify_entries-paths w files entries k in
            let distinct =
              ap all_distinct paths
              ∙ checked_entries-distinct w plan_file task prompt_sha plan_sha h in
            let (finished, count) =
              apply_steps-Finished faults files steps 0 0 distinct
                (sym (ap (λ a. a.outcome) r) ∙ e) in
            subst
              (λ a.
                All (Holds w a.files) entries
                × (written + already ≡ length entries)
                × ((q : Text) → is_member q (paths_of entries) ≡ false → a.files q ≡ files q))
              (sym r)
              (
                all-Holds w files _ entries steps k finished,
                omega (arith, count, length-paths steps entries paths),
                λ q out. apply_steps-Apart faults files steps 0 0 q (ap (is_member q) paths ∙ out),
              )
      ]

  -- However `apply` ends, each file of a plan that passes the checks is as it was, or was replaced:
  -- it had hashed to the sealed hash before, its new bytes are what the operations made of its text
  -- and hash to the sealed result, and no line with trailing white space was added. No other file
  -- has changed.
  pub apply-Replaced :
      (entries : List Entry)
      → checked_entries w plan_file task prompt_sha plan_sha ≡ ok entries
      → All (λ e. (left_files e.path ≡ files e.path) ⊎ Replaced w files left_files e) entries
        × ((q : Text) → is_member q (paths_of entries) ≡ false → left_files q ≡ files q)
  apply-Replaced entries h = elim (Result-cases (classify_entries w files entries)) [
    | inl (c, k) ↦
        subst
          (λ a.
            All (λ e. (a.files e.path ≡ files e.path) ⊎ Replaced w files a.files e) entries
            × ((q : Text) → is_member q (paths_of entries) ≡ false → a.files q ≡ files q))
          (sym (apply-unclassified entries h k)) (all-same entries, λ q out. refl)
    | inr (steps, k) ↦
        let paths = classify_entries-paths w files entries k in
        let distinct =
          ap all_distinct paths ∙ checked_entries-distinct w plan_file task prompt_sha plan_sha h in
        subst
          (λ a.
            All (λ e. (a.files e.path ≡ files e.path) ⊎ Replaced w files a.files e) entries
            × ((q : Text) → is_member q (paths_of entries) ≡ false → a.files q ≡ files q))
          (sym (apply-classified entries steps h k))
          (
            all-Replaced w files _ entries steps k
                (apply_steps-Progress faults files steps 0 0 distinct),
            λ q out. apply_steps-Apart faults files steps 0 0 q (ap (is_member q) paths ∙ out),
          )
  ]
    where
      all-same :
          (es : List Entry) → All (λ e. (files e.path ≡ files e.path) ⊎ Replaced w files files e) es
      all-same [] = tt
      all-same (e ∷ es) = (inl refl, all-same es)
