-- ===== src/StateEdit/Classified.antt =====
-- scripts/state_edit.py: what `classify` has checked of a file that it passes.
use mathlib.Core.Path.{subst}
use hh_ai_v.Base.{
  is_sha256, ok, require, >>=-eq-ok, require-eq-ok, ok-injective, ◌≡◌, refl, ap, inl, inr, Bool,
  true, false, not, ◌&&◌, Text, Option, none, some, [], ◌∷◌, arith, ends_with, text_eq, text_eq_iff,
  Bool-cases,
}
use hh_ai_v.StateEdit.Codes.{result_trailing_whitespace}
use hh_ai_v.StateEdit.Ops.{run_ops, has_cr}
use hh_ai_v.StateEdit.Checks.{
  Bytes, Files, Entry, World, source, result, decoded, clean_text, adds_no_trailing, check_result,
  check_ops, target_of, read_result, read_target,
}
use hh_ai_v.StateEdit.Apply.{Step, applied_step, changed_step, classify_data, classify_entry}

-- what a file's current bytes are to its entry, and the step that follows
pub data Classified (w : World) (entry : Entry) (current : Bytes) : Option Bytes → Type 0 where
  already_applied :
      {text : Text}
      → w.sha256 current ≡ entry.after_sha256
      → clean_text w current source ≡ ok text
      → Classified w entry current none
  to_write :
      {text changed source_text : Text}
      → w.sha256 current ≡ entry.before_sha256
      → clean_text w current source ≡ ok source_text
      → run_ops source_text entry.ops ≡ ok changed
      → w.sha256 (w.encode changed) ≡ entry.after_sha256
      → clean_text w (w.encode changed) source ≡ ok text
      → adds_no_trailing source_text text ≡ true
      → Classified w entry current (some (w.encode changed))

-- the checks that do not look at the file's bytes
abbrev pub Fits : World → Entry → Type 0
Fits w entry =
    ((is_sha256 entry.before_sha256
        && is_sha256 entry.after_sha256
        && not (text_eq entry.before_sha256 entry.after_sha256))
      ≡ true)
    × (check_ops entry.ops ≡ ok tt)
    × (target_of w entry.path ≡ ok tt)

clean_text-side :
    (w : World) (d : Bytes) {t : Text} → clean_text w d result ≡ ok t → clean_text w d source ≡ ok t
unfolding clean_text
clean_text-side w d {t} h =
    let (text, e, h1) = >>=-eq-ok (decoded (w.decode d) result) _ h in
    let (a, h2) = require-eq-ok (not (has_cr text)) _ _ h1 in
    let (b, h3) = require-eq-ok (ends_with text (10 ∷ [])) _ _ h2 in
    rw (decoded-side (w.decode d) e) (rw a (rw b (ap ok (ok-injective h3))))
  where
    decoded-side : (o : Option Text) {u : Text} → decoded o result ≡ ok u → decoded o source ≡ ok u
    decoded-side (some u) k = k
    decoded-side none k = cc

check_result-clean :
    (w : World) (source_text : Text) (d : Bytes) {u : Unit {0}}
    → check_result w source_text d ≡ ok u
    → (text : Text) × (clean_text w d source ≡ ok text) × (adds_no_trailing source_text text ≡ true)
unfolding check_result
check_result-clean w source_text d {u} h =
    let (text, e, k) = >>=-eq-ok (clean_text w d result) _ h in
    (text, clean_text-side w d e, require-true _ k)
  where
    require-true : (b : Bool) → require b result_trailing_whitespace ≡ ok u → b ≡ true
    require-true true k = refl
    require-true false k = cc

applied_step-Classified :
    (w : World) (entry : Entry) (d : Bytes) {step : Step}
    → w.sha256 d ≡ entry.after_sha256
    → applied_step w entry d ≡ ok step
    → (step.0 ≡ entry.path) × Classified w entry d step.1
unfolding applied_step
applied_step-Classified w entry d e h =
    let (text, clean, k) = >>=-eq-ok (clean_text w d source) _ h in
    subst (λ s. (s.0 ≡ entry.path) × Classified w entry d s.1) (ok-injective k)
      (refl, Classified.already_applied e clean)

changed_step-Classified :
    (w : World) (entry : Entry) (d : Bytes) {step : Step}
    → changed_step w entry d ≡ ok step
    → (step.0 ≡ entry.path) × Classified w entry d step.1
unfolding changed_step
changed_step-Classified w entry d h =
    let (before, h1) = require-eq-ok _ _ _ h in
    let (text, clean, h2) = >>=-eq-ok (clean_text w d source) _ h1 in
    let (changed, run, h3) = >>=-eq-ok (run_ops text entry.ops) _ h2 in
    let (after, h4) = require-eq-ok _ _ _ h3 in
    let (u, check, h5) = >>=-eq-ok (check_result w text (w.encode changed)) _ h4 in
    let (new_text, new_clean, fewer) = check_result-clean w text (w.encode changed) check in
    subst (λ s. (s.0 ≡ entry.path) × Classified w entry d s.1) (ok-injective h5)
      (
        refl,
        Classified.to_write ((text_eq_iff _ _).0 before) clean run ((text_eq_iff _ _).0 after)
            new_clean fewer,
      )

pub classify_data-Classified :
    (w : World) (entry : Entry) (d : Bytes) {step : Step}
    → classify_data w entry d ≡ ok step
    → (step.0 ≡ entry.path) × Classified w entry d step.1
unfolding classify_data
classify_data-Classified w entry d {step} h =
    elim (Bool-cases (text_eq (w.sha256 d) entry.after_sha256)) [
      | inl same ↦
          applied_step-Classified w entry d ((text_eq_iff _ _).0 same) (ground (arith, same))
      | inr other ↦ changed_step-Classified w entry d (ground (arith, other))
    ]

-- bytes that hash to the result and follow the byte rule are left alone
pub classify_data-applied :
    (w : World) (entry : Entry) (d : Bytes) {text : Text}
    → w.sha256 d ≡ entry.after_sha256
    → clean_text w d source ≡ ok text
    → classify_data w entry d ≡ ok (entry.path, none)
unfolding classify_data applied_step
classify_data-applied w entry d e clean =
    rw ((text_eq_iff (w.sha256 d) entry.after_sha256).1 e) (rw clean)

-- a file that passes: the checks that do not read it, its bytes and what they are
pub classify_entry-Fits :
    (w : World) (files : Files) (entry : Entry) {step : Step}
    → classify_entry w files entry ≡ ok step
    → Fits w entry × (d : Bytes) × (files entry.path ≡ some d) × (classify_data w entry d ≡ ok step)
unfolding classify_entry read_target
classify_entry-Fits w files entry h =
    let (flags, h1) = require-eq-ok _ _ _ h in
    let (u, ops, h2) = >>=-eq-ok (check_ops entry.ops) _ h1 in
    let (v, target, h3) = >>=-eq-ok (target_of w entry.path) _ h2 in
    let (d, read, h4) = >>=-eq-ok (read_result (files entry.path)) _ h3 in
    ((flags, ops, target), d, is_read (files entry.path) read, h4)
  where
    is_read : (o : Option Bytes) {d : Bytes} → read_result o ≡ ok d → o ≡ some d
    is_read (some d) k = ap some (ok-injective k)
    is_read none k = cc

pub Fits-classify_entry :
    (w : World) (files : Files) (entry : Entry) (d : Bytes)
    → Fits w entry
    → files entry.path ≡ some d
    → classify_entry w files entry ≡ classify_data w entry d
unfolding classify_entry read_target
Fits-classify_entry w files entry d (flags, ops, target) e =
    rw flags (rw ops (rw target (rw e refl)))
