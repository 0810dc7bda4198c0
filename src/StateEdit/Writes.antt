-- ===== src/StateEdit/Writes.antt =====
-- scripts/state_edit.py: what the loop of `apply` does to the files.
use mathlib.Core.Path.{subst}
use hh_ai_v.Base.{
  ok, stop, Result-cases, ℕ, ◌+◌, ◌≡◌, refl, sym, ap, ◌∙◌, ◌⊎◌, inl, inr, true, false, Text, none,
  some, List, [], ◌∷◌, map, arith, length, All, text_eq, text_eq_iff, text_eq_refl, Option-cases,
}
use hh_ai_v.StateEdit.Codes.{Code}
use hh_ai_v.StateEdit.Checks.{Bytes, Files, target_result, is_member, all_distinct}
use hh_ai_v.StateEdit.Apply.{Step, Faults, put, write_file, continued, apply_steps}

abbrev pub step_paths : List Step → List Text
step_paths = map (λ s. s.0)

-- a file is as it was, or has its new bytes
abbrev pub Untouched : Files → Files → Step → Type 0
Untouched old new (path, bytes) = new path ≡ old path

abbrev pub Written : Files → Step → Type 0
Written new (path, bytes) = (d : Bytes) × (bytes ≡ some d) × (new path ≡ some d)

abbrev pub Progress : Files → Files → Step → Type 0
Progress old new step = Untouched old new step ⊎ Written new step

-- a file after all steps: as it was, or with the new bytes where there are some
abbrev pub Finished : Files → Files → Step → Type 0
Finished old new (path, none) = new path ≡ old path
Finished old new (path, some d) = new path ≡ some d

-- a file that the steps leave out
abbrev pub Apart : Files → Files → List Step → Type 0
Apart old new steps = (q : Text) → is_member q (step_paths steps) ≡ false → new q ≡ old q

put-eq : (files : Files) (p : Text) (d : Bytes) → put files p d p ≡ some d
unfolding put
put-eq files p d = rw (text_eq_refl p) refl

put-ne : (files : Files) (p q : Text) (d : Bytes) → text_eq q p ≡ false → put files p d q ≡ files q
unfolding put
put-ne files p q d h = rw h refl

text_eq-sym : (p q : Text) → text_eq p q ≡ false → text_eq q p ≡ false
text_eq-sym p q h = ground (arith, text_eq_iff p q, text_eq_iff q p)

-- how one file is written: not at all, with the code that stops, or with its new bytes
write_file-cases :
    (faults : Faults) (files : Files) (p : Text) (d : Bytes)
    → ((c : Code) × (write_file faults files p d ≡ stop c))
      ⊎ (write_file faults files p d ≡ ok (put files p d))
unfolding write_file
write_file-cases faults files p d = elim (Result-cases (target_result (faults.second_look p))) [
  | inl (c, e) ↦ inl (c, rw e refl)
  | inr (u, e) ↦ elim (Option-cases (faults.replace_stop p)) [
    | inl none_stops ↦ inr (rw e (rw none_stops refl))
    | inr (c, stops) ↦ inl (c, rw e (rw stops refl))
  ]
]

all-Untouched : (files : Files) (steps : List Step) → All (Progress files files) steps
all-Untouched files [] = tt
all-Untouched files (s ∷ steps) = (inl refl, all-Untouched files steps)

-- the files after the steps have run
abbrev pub after : Faults → Files → List Step → ℕ → ℕ → Files
after faults files steps written already = (apply_steps faults files steps written already).files

module _ (faults : Faults) where
  apply_steps-stop :
      (files : Files) (p : Text) (d : Bytes) (steps : List Step) (m n : ℕ) {c : Code}
      → write_file faults files p d ≡ stop c
      → apply_steps faults files ((p, some d) ∷ steps) m n
        ≡ record { files = files; outcome = stop c }
  unfolding apply_steps
  apply_steps-stop files p d steps m n e =
      ap (λ r. continued files r (λ changed. apply_steps faults changed steps (m + 1) n)) e

  apply_steps-put :
      (files : Files) (p : Text) (d : Bytes) (steps : List Step) (m n : ℕ)
      → write_file faults files p d ≡ ok (put files p d)
      → apply_steps faults files ((p, some d) ∷ steps) m n
        ≡ apply_steps faults (put files p d) steps (m + 1) n
  unfolding apply_steps
  apply_steps-put files p d steps m n e =
      ap (λ r. continued files r (λ changed. apply_steps faults changed steps (m + 1) n)) e

  pub apply_steps-Apart :
      (files : Files) (steps : List Step) (m n : ℕ)
      → Apart files (after faults files steps m n) steps
  unfolding apply_steps is_member
  apply_steps-Apart files [] m n q h = refl
  apply_steps-Apart files ((p, none) ∷ steps) m n q h =
      apply_steps-Apart files steps m (n + 1) q (ground arith)
  apply_steps-Apart files ((p, some d) ∷ steps) m n q h = elim (write_file-cases faults files p d) [
    | inl (c, e) ↦ rw (e, after) refl
    | inr e ↦
        rw (e, after)
          (apply_steps-Apart (put files p d) steps (m + 1) n q (ground arith)
            ∙ put-ne files p q d (ground arith))
  ]

  -- progress over a later start is progress over the earlier one, for paths other than the one put
  Progress-put :
      (files new : Files) (p : Text) (d : Bytes) (steps : List Step)
      → is_member p (step_paths steps) ≡ false
      → All (Progress (put files p d) new) steps
      → All (Progress files new) steps
  unfolding is_member
  Progress-put files new p d [] h k = tt
  Progress-put files new p d ((q, o) ∷ steps) h (first, rest) =
      let apart : text_eq p q ≡ false = ground arith in
      (
        elim first [ inl e ↦ inl (e ∙ put-ne files p q d (text_eq-sym p q apart)) | inr w ↦ inr w ],
        Progress-put files new p d steps (ground arith) rest,
      )

  -- Wherever the steps stop, each file is as it was or has its new bytes.
  pub apply_steps-Progress :
      (files : Files) (steps : List Step) (m n : ℕ)
      → all_distinct (step_paths steps) ≡ true
      → All (Progress files (after faults files steps m n)) steps
  unfolding apply_steps all_distinct
  apply_steps-Progress files [] m n h = tt
  apply_steps-Progress files ((p, none) ∷ steps) m n h = (
    inl (apply_steps-Apart files steps m (n + 1) p (ground arith)),
    apply_steps-Progress files steps m (n + 1) (ground arith),
  )
  apply_steps-Progress files ((p, some d) ∷ steps) m n h =
      elim (write_file-cases faults files p d) [
        | inl (c, e) ↦
            subst (λ r. All (Progress files r.files) ((p, some d) ∷ steps))
              (sym (apply_steps-stop files p d steps m n e))
              (all-Untouched files ((p, some d) ∷ steps))
        | inr e ↦
            subst (λ r. All (Progress files r.files) ((p, some d) ∷ steps))
              (sym (apply_steps-put files p d steps m n e))
              (
                inr (
                  d,
                  refl,
                  apply_steps-Apart (put files p d) steps (m + 1) n p (ground arith)
                      ∙ put-eq files p d,
                ),
                Progress-put files _ p d steps (ground arith)
                    (apply_steps-Progress (put files p d) steps (m + 1) n (ground arith)),
              )
      ]

  Finished-put :
      (files new : Files) (p : Text) (d : Bytes) (steps : List Step)
      → is_member p (step_paths steps) ≡ false
      → All (Finished (put files p d) new) steps
      → All (Finished files new) steps
  unfolding is_member
  Finished-put files new p d [] h k = tt
  Finished-put files new p d ((q, none) ∷ steps) h (first, rest) =
      let apart : text_eq p q ≡ false = ground arith in
      (
        first ∙ put-ne files p q d (text_eq-sym p q apart),
        Finished-put files new p d steps (ground arith) rest,
      )
  Finished-put files new p d ((q, some b) ∷ steps) h (first, rest) =
      (first, Finished-put files new p d steps (ground arith) rest)

  -- Where they run to the end, every file has its bytes, and the two counts make up their number.
  pub apply_steps-Finished :
      (files : Files) (steps : List Step) (m n : ℕ) {written already : ℕ}
      → all_distinct (step_paths steps) ≡ true
      → (apply_steps faults files steps m n).outcome ≡ ok (written, already)
      → All (Finished files (after faults files steps m n)) steps
        × (written + already ≡ m + n + length steps)
  unfolding apply_steps all_distinct
  apply_steps-Finished files [] m n h e = (tt, ground (arith, e))
  apply_steps-Finished files ((p, none) ∷ steps) m n h e =
      let (all_rest, count) = apply_steps-Finished files steps m (n + 1) (ground arith) e in
      ((apply_steps-Apart files steps m (n + 1) p (ground arith), all_rest), omega (arith, count))
  apply_steps-Finished files ((p, some d) ∷ steps) m n h e =
      elim (write_file-cases faults files p d) [
        | inl (c, w) ↦ absurd (ground arith)
        | inr w ↦
            let same = apply_steps-put files p d steps m n w in
            let (all_rest, count) =
              apply_steps-Finished (put files p d) steps (m + 1) n (ground arith)
                (sym (ap (λ r. r.outcome) same) ∙ e) in
            (
              subst (λ r. All (Finished files r.files) ((p, some d) ∷ steps)) (sym same)
                  (
                    apply_steps-Apart (put files p d) steps (m + 1) n p (ground arith)
                        ∙ put-eq files p d,
                    Finished-put files _ p d steps (ground arith) all_rest,
                  ),
              omega (arith, count),
            )
      ]
