-- ===== src/StateEdit/Rerun.antt =====
-- scripts/state_edit.py: `apply` after an `apply` that was stopped.
use mathlib.Core.Path.{subst}
use hh_ai_v.Base.{
  ok, ℕ, ◌+◌, ◌≡◌, refl, sym, ap, ◌∙◌, ◌⊎◌, inl, inr, Text, none, some, List, [], ◌∷◌, All,
}
use hh_ai_v.StateEdit.Checks.{Bytes, Files, Entry, World, target_of}
use hh_ai_v.StateEdit.Apply.{
  Step, PlanFile, classify_entry, classify_entries, checked_entries, Faults, put, write_file,
  apply_steps, apply,
}
use hh_ai_v.StateEdit.Classified.{classify_entry-Fits, Fits-classify_entry, classify_data-applied}
use hh_ai_v.StateEdit.Outcome.{
  Holds, Replaced, classify_entry-path, classify_entries-nil, classify_entries-cons,
  classify_entries-ok,
}
use hh_ai_v.StateEdit.Promise.{apply-classified, apply-Replaced, apply-Holds}

-- every path is as safe as at the first look, and every replace succeeds
abbrev pub no_faults : World → Faults
no_faults w = record { second_look = w.look_at; replace_stop = λ p. none }

module _ (w : World) where
  classify_entry-rerun :
      (old new : Files) (e : Entry) {s : Step}
      → classify_entry w old e ≡ ok s
      → (new e.path ≡ old e.path) ⊎ Replaced w old new e
      → (t : Step) × (classify_entry w new e ≡ ok t)
  classify_entry-rerun old new e {s} h k =
      let (fits, d, read, data_ok) = classify_entry-Fits w old e h in
      elim k [
        | inl same ↦ (s, Fits-classify_entry w new e d fits (same ∙ read) ∙ data_ok)
        | inr r ↦ (
          (e.path, none),
          Fits-classify_entry w new e _ fits r.is_new
              ∙ classify_data-applied w e (w.encode r.changed) r.result r.clean,
        )
      ]

  classify_entries-rerun :
      (old new : Files) (es : List Entry) {steps : List Step}
      → classify_entries w old es ≡ ok steps
      → All (λ e. (new e.path ≡ old e.path) ⊎ Replaced w old new e) es
      → (again : List Step) × (classify_entries w new es ≡ ok again)
  classify_entries-rerun old new [] h k = ([], unfold classify_entries in refl)
  classify_entries-rerun old new (e ∷ es) h k =
      let (s, ss, same, one, more) = classify_entries-cons w old e es h in
      let (t, first) = classify_entry-rerun old new e one k.0 in
      let (ts, rest) = classify_entries-rerun old new es more k.1 in
      (t ∷ ts, classify_entries-ok w new e es first rest)

  write_file-no_faults :
      (files : Files) (p : Text) (d : Bytes)
      → target_of w p ≡ ok tt
      → write_file (no_faults w) files p d ≡ ok (put files p d)
  unfolding write_file target_of
  write_file-no_faults files p d h = rw h refl

  -- the paths of the steps are safe
  abbrev pub Safe : Step → Type 0
  Safe (p, o) = target_of w p ≡ ok tt

  pub apply_steps-no_faults :
      (files : Files) (steps : List Step) (m n : ℕ)
      → All Safe steps
      → (written : ℕ) × (already : ℕ) × ((apply_steps (no_faults w) files steps m n).outcome
          ≡ ok (written, already))
  unfolding apply_steps
  apply_steps-no_faults files [] m n h = (m, n, refl)
  apply_steps-no_faults files ((p, none) ∷ steps) m n h =
      apply_steps-no_faults files steps m (n + 1) h.1
  apply_steps-no_faults files ((p, some d) ∷ steps) m n h =
      let (written, already, e) = apply_steps-no_faults (put files p d) steps (m + 1) n h.1 in
      (written, already, rw (write_file-no_faults files p d h.0) e)

  pub classify_entries-Safe :
      (files : Files) (es : List Entry) {steps : List Step}
      → classify_entries w files es ≡ ok steps
      → All Safe steps
  classify_entries-Safe files [] h = subst (All Safe) (classify_entries-nil w files h) tt
  classify_entries-Safe files (e ∷ es) h =
      let (s, ss, same, one, more) = classify_entries-cons w files e es h in
      let ((flags, ops, target), d, read, data_ok) = classify_entry-Fits w files e one in
      subst (All Safe) same (
        subst (λ p. target_of w p ≡ ok tt) (sym (classify_entry-path w files e one)) target,
        classify_entries-Safe files es more,
      )

-- After an `apply` of a plan that passes the checks, on files that classify, stopped or not, a second
-- `apply` that meets no fault is done; every file of the plan then has its sealed result.
pub apply-rerun :
    (w : World) (faults : Faults) (files : Files) (plan_file : PlanFile)
    (task prompt_sha plan_sha : Text) (entries : List Entry) (steps : List Step)
    → checked_entries w plan_file task prompt_sha plan_sha ≡ ok entries
    → classify_entries w files entries ≡ ok steps
    → let stopped = (apply w faults files plan_file task prompt_sha plan_sha).files in
      let again = apply w (no_faults w) stopped plan_file task prompt_sha plan_sha in
      (written : ℕ) × (already : ℕ) × (again.outcome ≡ ok (written, already))
      × All (Holds w again.files) entries
apply-rerun w faults files plan_file task prompt_sha plan_sha entries steps h k =
    let stopped = (apply w faults files plan_file task prompt_sha plan_sha).files in
    let left = apply-Replaced w faults files plan_file task prompt_sha plan_sha entries h in
    let (ts, c) = classify_entries-rerun w files stopped entries k left.0 in
    let (written, already, e) =
      apply_steps-no_faults w stopped ts 0 0 (classify_entries-Safe w stopped entries c) in
    let done =
      ap (λ a. a.outcome)
        (apply-classified w (no_faults w) stopped plan_file task prompt_sha plan_sha entries ts h c)
      ∙ e in
    (
      written,
      already,
      done,
      (apply-Holds w (no_faults w) stopped plan_file task prompt_sha plan_sha entries h done).0,
    )
