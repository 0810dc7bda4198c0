-- ===== src/StateEdit/Outcome.antt =====
-- scripts/state_edit.py: what the loop of `apply` makes of the files that `classify` has passed.
use mathlib.Core.Path.{subst, ap₂}
use hh_ai_v.Base.{
  ok, ok-injective, >>=-eq-ok, ◌≡◌, refl, sym, ap, ◌∙◌, ◌⊎◌, inl, inr, true, Text, Option, some,
  List, [], ◌∷◌, arith, All,
}
use hh_ai_v.StateEdit.Ops.{run_ops}
use hh_ai_v.StateEdit.Checks.{Bytes, Files, Entry, World, source, clean_text, adds_no_trailing}
use hh_ai_v.StateEdit.Apply.{Step, classify_entry, classify_entries, paths_of}
use hh_ai_v.StateEdit.Classified.{
  Classified, already_applied, to_write, classify_data-Classified, classify_entry-Fits,
}
use hh_ai_v.StateEdit.Writes.{step_paths, Progress, Finished}

-- the file of the entry has the sealed result, and follows the byte rule
abbrev pub Holds : World → Files → Entry → Type 0
Holds w files entry =
    (d : Bytes) × (text : Text) × (files entry.path ≡ some d)
    × (w.sha256 d ≡ entry.after_sha256)
    × (clean_text w d source ≡ ok text)

-- a file that was replaced: what it held, and what came of the operations
pub record Replaced (w : World) (old new : Files) (entry : Entry) : Type 0 where
  pub current : Bytes
  pub source_text : Text
  pub changed : Text
  pub text : Text
  pub was : old entry.path ≡ some current
  pub sealed : w.sha256 current ≡ entry.before_sha256
  pub decoded : clean_text w current source ≡ ok source_text
  pub run : run_ops source_text entry.ops ≡ ok changed
  pub is_new : new entry.path ≡ some (w.encode changed)
  pub result : w.sha256 (w.encode changed) ≡ entry.after_sha256
  pub clean : clean_text w (w.encode changed) source ≡ ok text
  pub fewer : adds_no_trailing source_text text ≡ true

module _ (w : World) where
  pub classify_entries-nil :
      (files : Files) {steps : List Step} → classify_entries w files [] ≡ ok steps → [] ≡ steps
  unfolding classify_entries
  classify_entries-nil files h = ok-injective h

  pub classify_entries-cons :
      (files : Files) (e : Entry) (es : List Entry) {steps : List Step}
      → classify_entries w files (e ∷ es) ≡ ok steps
      → (s : Step) × (ss : List Step) × (s ∷ ss ≡ steps)
        × (classify_entry w files e ≡ ok s)
        × (classify_entries w files es ≡ ok ss)
  unfolding classify_entries
  classify_entries-cons files e es h =
      let (s, one, h1) = >>=-eq-ok (classify_entry w files e) _ h in
      let (ss, more, h2) = >>=-eq-ok (classify_entries w files es) _ h1 in
      (s, ss, ok-injective h2, one, more)

  pub classify_entries-ok :
      (files : Files) (e : Entry) (es : List Entry) {s : Step} {ss : List Step}
      → classify_entry w files e ≡ ok s
      → classify_entries w files es ≡ ok ss
      → classify_entries w files (e ∷ es) ≡ ok (s ∷ ss)
  unfolding classify_entries
  classify_entries-ok files e es h k = rw h (rw k refl)

  pub classify_entry-path :
      (files : Files) (e : Entry) {s : Step} → classify_entry w files e ≡ ok s → s.0 ≡ e.path
  classify_entry-path files e h =
      let (fits, d, read, data_ok) = classify_entry-Fits w files e h in
      (classify_data-Classified w e d data_ok).0

  pub classify_entries-paths :
      (files : Files) (es : List Entry) {steps : List Step}
      → classify_entries w files es ≡ ok steps
      → step_paths steps ≡ paths_of es
  classify_entries-paths files [] h = ap step_paths (sym (classify_entries-nil files h))
  classify_entries-paths files (e ∷ es) h =
      let (s, ss, same, one, more) = classify_entries-cons files e es h in
      subst (λ steps. step_paths steps ≡ paths_of (e ∷ es)) same
        (ap₂ ◌∷◌ (classify_entry-path files e one) (classify_entries-paths files es more))

  module _ (old new : Files) where
    Finished-Holds :
        (e : Entry) (s : Step) → classify_entry w old e ≡ ok s → Finished old new s → Holds w new e
    Finished-Holds e (p, o) h f =
        let (fits, d, read, data_ok) = classify_entry-Fits w old e h in
        let (path, c) = classify_data-Classified w e d data_ok in
        holds d o read (subst (λ q. Finished old new (q, o)) path f) c
      where
        holds :
            (d : Bytes) (o : Option Bytes)
            → old e.path ≡ some d
            → Finished old new (e.path, o)
            → Classified w e d o
            → Holds w new e
        holds d _ read k (already_applied {text} after clean) = (d, text, k ∙ read, after, clean)
        holds d _ read k (to_write {text} {changed} before clean run after new_clean fewer) =
            (w.encode changed, text, k, after, new_clean)

    Progress-Replaced :
        (e : Entry) (s : Step)
        → classify_entry w old e ≡ ok s
        → Progress old new s
        → (new e.path ≡ old e.path) ⊎ Replaced w old new e
    Progress-Replaced e (p, o) h (inl same) =
        inl (subst (λ q. new q ≡ old q) (classify_entry-path old e h) same)
    Progress-Replaced e (p, o) h (inr (b, is_some, is_new)) =
        let (fits, d, read, data_ok) = classify_entry-Fits w old e h in
        let (path, c) = classify_data-Classified w e d data_ok in
        inr (replaced d o b read is_some (subst (λ q. new q ≡ some b) path is_new) c)
      where
        replaced :
            (d : Bytes) (o : Option Bytes) (b : Bytes)
            → old e.path ≡ some d
            → o ≡ some b
            → new e.path ≡ some b
            → Classified w e d o
            → Replaced w old new e
        replaced d _ b read is_some k (already_applied after clean) = absurd (ground arith)
        replaced d _ b read is_some k
              (to_write {text} {changed} {source_text} before clean run after new_clean fewer) =
            record {
              current = d;
              source_text = source_text;
              changed = changed;
              text = text;
              was = read;
              sealed = before;
              decoded = clean;
              run = run;
              is_new = k ∙ sym is_some;
              result = after;
              clean = new_clean;
              fewer = fewer;
            }

    pub all-Holds :
        (es : List Entry) (steps : List Step)
        → classify_entries w old es ≡ ok steps
        → All (Finished old new) steps
        → All (Holds w new) es
    all-Holds [] steps h f = tt
    all-Holds (e ∷ es) steps h f =
        let (s, ss, same, one, more) = classify_entries-cons old e es h in
        let (first, rest) = subst (λ l. All (Finished old new) l) (sym same) f in
        (Finished-Holds e s one first, all-Holds es ss more rest)

    pub all-Replaced :
        (es : List Entry) (steps : List Step)
        → classify_entries w old es ≡ ok steps
        → All (Progress old new) steps
        → All (λ e. (new e.path ≡ old e.path) ⊎ Replaced w old new e) es
    all-Replaced [] steps h f = tt
    all-Replaced (e ∷ es) steps h f =
        let (s, ss, same, one, more) = classify_entries-cons old e es h in
        let (first, rest) = subst (λ l. All (Progress old new) l) (sym same) f in
        (Progress-Replaced e s one first, all-Replaced es ss more rest)
