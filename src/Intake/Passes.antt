-- ===== src/Intake/Passes.antt =====
-- scripts/prompt_intake.py: what an intake leaves behind.
use mathlib.Core.Path.{subst}
use hh_ai_v.Base.{
  Option-cases, ℕ, ◌≡◌, refl, sym, ap, ◌∙◌, ◌⊎◌, inl, inr, true, not, ◌&&◌, ◌≤◌, leb, Text, text_eq,
  text_eq_iff, Option, none, some, List, arith, length, ok, stop, Result-cases, ok-injective,
  >>=-eq-ok, require-eq-ok, is_sha256, lower, strip, &&-eq-true,
}
use hh_ai_v.Intake.{
  Label, usage_invalid_task_id, usage_invalid_sha256, usage_source_not_absolute,
  usage_source_path_invalid, target_exists, source_missing, source_invalid, source_hash_mismatch,
  path_not_safe, is_real_file, is_prompt_size, size_of, max_prompt_bytes, is_safe_task_id, is_empty,
  World, ensure_safe_directory_chain, or_label, checked_usage, checked_source, checked, Target,
  Write, written, write_error, Copying, written_copy, create_copy, copied, intake,
}

-- the copy that an intake has made
pub record Copied (w : World) (c : Copying) (target behind : Target) (expected_sha256 : Text)
    : Type 0 where
  pub bytes : List ℕ
  pub free : target ≡ none
  pub unseen : c.appears ≡ none
  pub kept : behind ≡ some bytes
  pub hash : w.sha256_hex bytes ≡ lower (strip expected_sha256)
  pub full_hash : is_sha256 (lower (strip expected_sha256)) ≡ true
  pub from_source : w.source_bytes ≡ some bytes
  pub filled : 1 ≤ length bytes
  pub bounded : length bytes ≤ max_prompt_bytes

or_label-eq-ok {ℓ} :
    {A : Type ℓ} (o : Option A) (label : Label) {x : A} → or_label o label ≡ ok x → o ≡ some x
or_label-eq-ok none label h = absurd (ground arith)
or_label-eq-ok (some y) label h = ap some (ok-injective h)

-- the bytes that pass the checks
Found : World → Text → Text × List ℕ → Type 0
Found w expected_sha256 (expected, bytes) =
    (lower (strip expected_sha256) ≡ expected)
    × (is_sha256 (lower (strip expected_sha256)) ≡ true)
    × (w.source_bytes ≡ some bytes)
    × (is_prompt_size (length bytes) ≡ true)
    × (w.sha256_hex bytes ≡ expected)

checked_usage-ok :
    (w : World) (task_id source expected_sha256 : Text) {expected : Text}
    → checked_usage w task_id source expected_sha256 ≡ ok expected
    → (lower (strip expected_sha256) ≡ expected)
      × (is_sha256 (lower (strip expected_sha256)) ≡ true)
unfolding checked_usage
checked_usage-ok w task_id source expected_sha256 h =
    let (e1, h1) = require-eq-ok (is_safe_task_id task_id) usage_invalid_task_id _ h in
    let (e2, h2) =
      require-eq-ok (is_sha256 (lower (strip expected_sha256))) usage_invalid_sha256 _ h1 in
    let (e3, h3) =
      require-eq-ok (not (is_empty source) && w.is_absolute source) usage_source_not_absolute _
        h2 in
    let (e4, h4) = require-eq-ok (w.raw_path_ok source) usage_source_path_invalid _ h3 in
    (ok-injective h4, e2)

checked_source-ok :
    (w : World) (source expected : Text) {bytes : List ℕ}
    → checked_source w source expected ≡ ok bytes
    → (w.source_bytes ≡ some bytes)
      × (is_prompt_size (length bytes) ≡ true)
      × (w.sha256_hex bytes ≡ expected)
unfolding checked_source
checked_source-ok w source expected h =
    let (u, e1, h1) = >>=-eq-ok (ensure_safe_directory_chain w (w.directory_of source)) _ h in
    let (e2, h2) = require-eq-ok w.source_exists source_missing _ h1 in
    let (e3, h3) = require-eq-ok (is_real_file w.source_stat) source_invalid _ h2 in
    let (e4, h4) = require-eq-ok (is_prompt_size (size_of w.source_stat)) source_invalid _ h3 in
    let (bytes, e5, h5) = >>=-eq-ok (or_label w.source_bytes source_invalid) _ h4 in
    let (e6, h6) = require-eq-ok (is_prompt_size (length bytes)) source_invalid _ h5 in
    let (e7, h7) =
      require-eq-ok (text_eq (w.sha256_hex bytes) expected) source_hash_mismatch _ h6 in
    let same = ok-injective h7 in
    (
      or_label-eq-ok w.source_bytes source_invalid e5 ∙ ap some same,
      ap (λ b. is_prompt_size (length b)) (sym same) ∙ e6,
      ap w.sha256_hex (sym same) ∙ (text_eq_iff (w.sha256_hex bytes) expected).0 e7,
    )

checked-Found :
    (w : World) (task_id source expected_sha256 : Text) {found : Text × List ℕ}
    → checked w task_id source expected_sha256 ≡ ok found
    → Found w expected_sha256 found
unfolding checked Found
checked-Found w task_id source expected_sha256 {found} h =
    let (expected, e1, h1) = >>=-eq-ok (checked_usage w task_id source expected_sha256) _ h in
    let (bytes, e2, h2) = >>=-eq-ok (checked_source w source expected) _ h1 in
    let (directory, e3, h3) = >>=-eq-ok (or_label w.git_dir path_not_safe) _ h2 in
    let (u, e4, h4) = >>=-eq-ok (ensure_safe_directory_chain w directory) _ h3 in
    let (a, b) = checked_usage-ok w task_id source expected_sha256 e1 in
    let (c, d, e) = checked_source-ok w source expected e2 in
    subst (Found w expected_sha256) (ok-injective h4) (a, b, c, d, e)

written_copy-ok :
    (w : World) (c : Copying) (expected : Text) (bytes : List ℕ) (o : Write) {behind : Target}
    → written_copy w c expected bytes o ≡ (ok tt, behind)
    → some bytes ≡ behind
unfolding written_copy
written_copy-ok w c expected bytes written h = ap (λ r. r.1) h
written_copy-ok w c expected bytes (write_error left) h =
    let e = ap (λ r. r.0) h in absurd (ground arith)

-- A copy that passes was made where nothing stood, at the test and at the creation.
copied-ok :
    (w : World) (c : Copying) (target : Target) (expected : Text) (bytes : List ℕ) {behind : Target}
    → copied w c target (expected, bytes) ≡ (ok tt, behind)
    → (target ≡ none) × (c.appears ≡ none) × (some bytes ≡ behind)
unfolding copied create_copy
copied-ok w c (some old) expected bytes h = let e = ap (λ r. r.0) h in absurd (ground arith)
copied-ok w c none expected bytes h = elim (Option-cases c.appears) [
  | inr (other, e) ↦ let f = ap (λ r. r.0) h in absurd (ground (arith, e, f))
  | inl e ↦
      let made = sym (ap (create_copy w c expected bytes) e) ∙ h in
      (refl, e, written_copy-ok w c expected bytes c.write made)
]

-- Where an intake passes, nothing stood at the target, neither at the test nor when the file was
-- created; behind it stand the bytes of the source, at least one and at most MAX_PROMPT_BYTES, whose hash is the expected one, a SHA-256 in
-- lower case.
pub intake-Copied :
    (w : World) (c : Copying) (target behind : Target) (task_id source expected_sha256 : Text)
    → intake w c target task_id source expected_sha256 ≡ (ok tt, behind)
    → Copied w c target behind expected_sha256
unfolding intake Found is_prompt_size
intake-Copied w c target behind task_id source expected_sha256 h =
    elim (Result-cases (checked w task_id source expected_sha256)) [
      | inl (label, e) ↦ let f = ap (λ r. r.0) h in absurd (ground (arith, e, f))
      | inr (found, e) ↦
          let (same, full, from, sized, hash) = checked-Found w task_id source expected_sha256 e in
          let made : copied w c target found ≡ (ok tt, behind) = ground (arith, e, h) in
          let (free, unseen, kept) = copied-ok w c target found.0 found.1 made in
          let (low, high) =
            &&-eq-true (leb 1 (length found.1)) (leb (length found.1) max_prompt_bytes) sized in
          record {
            bytes = found.1;
            free = free;
            unseen = unseen;
            kept = sym kept;
            hash = hash ∙ sym same;
            full_hash = full;
            from_source = from;
            filled = ground (arith, low);
            bounded = ground (arith, high);
          }
    ]

-- Whatever stands at the target, at the test or only when the file is created, is not overwritten: the
-- checks stop the intake, which then leaves the target as the test would find it, or the intake stops
-- with TARGET_EXISTS and leaves the bytes that stand there.
pub intake_keeps :
    (w : World) (c : Copying) (target : Target) (old : List ℕ)
    (task_id source expected_sha256 : Text)
    → (target ≡ some old) ⊎ ((target ≡ none) × (c.appears ≡ some old))
    → ((label : Label) × (checked w task_id source expected_sha256 ≡ stop label)
        × (intake w c target task_id source expected_sha256 ≡ (stop label, target)))
      ⊎ (intake w c target task_id source expected_sha256 ≡ (stop target_exists, some old))
unfolding intake copied create_copy
intake_keeps w c target old task_id source expected_sha256 stands =
    elim (Result-cases (checked w task_id source expected_sha256)) [
      | inl (label, e) ↦ inl (label, e, ground (arith, e))
      | inr (found, e) ↦ inr (elim stands [
        | inl there ↦ ground (arith, e, there)
        | inr (free, appears) ↦ ground (arith, e, free, appears)
      ])
    ]
