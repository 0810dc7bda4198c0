-- ===== src/History/Evaluate/Accepted.antt =====
-- scripts/history_guard.py: what `evaluate` promises of a target that it accepts.
use mathlib.Core.List.{Sublistᴰ, cons≢nil}
use hh_ai_v.Base.{
  ℕ, ◌≡◌, refl, sym, ap, ◌∙◌, ◌≢◌, ◌↔◌, ◌⊎◌, inl, inr, String, str_eq, eq_iff, Text, Option, none,
  some, List, [], ◌∷◌, map, arith, text_eq, text_eq_iff, Bool-cases, Option-cases, append-eq-nil,
  All,
}
use hh_ai_v.History.Findings.{exec_log, ledger_file, protected_files}
use hh_ai_v.History.Lines.{split_lines, check_insert_only}
use hh_ai_v.History.Lines.Insertion.{check_insert_only_iff}
use hh_ai_v.History.Ledger.{placeholder, ledger_section, lines_of}
use hh_ai_v.History.Ledger.Check.{occurrences_in, check_ledger, check_own_placeholder}
use hh_ai_v.History.Ledger.Kept.{LedgerStep, check_ledger-LedgerStep}
use hh_ai_v.History.Evaluate.{
  Files, ExecLogRule, rule_finding, check_exec_log_transition, check_present, check_path,
  check_protected, ledger_findings, own_task_findings, evaluate,
}

-- What is asked of one protected file that Base has: EXEC-LOG answers to the rule of CHECK 17 where
-- one is given, and every other file keeps Base's lines in their order.
pub data FileKept (path : String) (base target base_oid : Text) : Option ExecLogRule → Type 0 where
  inserted :
      {rule : Option ExecLogRule}
      → (path ≡ exec_log → rule ≡ none)
      → Sublistᴰ (split_lines base) (split_lines target)
      → FileKept path base target base_oid rule
  by_rule :
      {rule : ExecLogRule}
      → path ≡ exec_log
      → (target ≡ base) ⊎ (rule base target base_oid ≡ [])
      → FileKept path base target base_oid (some rule)

-- a protected file that Base has is in the target, and is kept there
abbrev pub PathKept : Files → Files → Text → Option ExecLogRule → String → Type 0
PathKept base_files target_files base_oid rule path =
    (base : Text)
    → base_files path ≡ some base
    → (target : Text) × (target_files path ≡ some target) × FileKept path base target base_oid rule

map-eq-nil {ℓ κ} : {A : Type ℓ} {B : Type κ} (f : A → B) (xs : List A) → map f xs ≡ [] → xs ≡ []
map-eq-nil f [] h = refl
map-eq-nil f (x ∷ xs) h = absurd (cons≢nil h)

pub own_placeholder_once :
    (target task : Text) (r : ℕ × ℕ)
    → ledger_section (split_lines target) ≡ some r
    → (check_own_placeholder (some target) task ≡ [])
      ↔ (occurrences_in (placeholder task) (lines_of (split_lines target) r) ≡ 1)
unfolding check_own_placeholder
own_placeholder_once target task r e = (λ h. ground (arith, e), λ h. ground (arith, e))

check_exec_log-FileKept :
    (path : String) (base target base_oid : Text) (rule : ExecLogRule)
    → path ≡ exec_log
    → check_exec_log_transition base (some target) base_oid rule ≡ []
    → FileKept path base target base_oid (some rule)
unfolding check_exec_log_transition
check_exec_log-FileKept path base target base_oid rule p h =
    elim (Bool-cases (text_eq target base)) [
      | inl same ↦ FileKept.by_rule p (inl ((text_eq_iff target base).0 same))
      | inr other ↦
          let none_found : map rule_finding (rule base target base_oid) ≡ [] =
            ground (arith, other) in
          FileKept.by_rule p (inr (map-eq-nil _ _ none_found))
    ]

check_present-FileKept :
    (path : String) (base target base_oid : Text) (rule : Option ExecLogRule)
    → check_present path base (some target) base_oid rule ≡ []
    → FileKept path base target base_oid rule
check_present-FileKept path base target base_oid none h =
    FileKept.inserted (λ _. refl)
      ((check_insert_only_iff path base target).0 (unfold check_present in h))
check_present-FileKept path base target base_oid (some rule) h =
    elim (Bool-cases (str_eq path exec_log)) [
      | inl same ↦
          check_exec_log-FileKept path base target base_oid rule ((eq_iff path exec_log).0 same)
            (unfold check_present in ground (arith, same))
      | inr other ↦
          FileKept.inserted (λ p. absurd (ground (arith, eq_iff path exec_log)))
            ((check_insert_only_iff path base target).0
              (unfold check_present in ground (arith, other)))
    ]

-- A missing file is a finding under either rule.
check_present-missing :
    (path : String) (base base_oid : Text) (rule : Option ExecLogRule)
    → check_present path base none base_oid rule ≢ []
unfolding check_present check_insert_only check_exec_log_transition
check_present-missing path base base_oid none h = cons≢nil h
check_present-missing path base base_oid (some rule) h = ground arith

module _ (base_files target_files : Files) (base_oid : Text) (rule : Option ExecLogRule) where
  check_path-PathKept :
      (path : String)
      → check_path base_files target_files base_oid rule path (base_files path) ≡ []
      → PathKept base_files target_files base_oid rule path
  unfolding check_path
  check_path-PathKept path h base e = elim (Option-cases (target_files path)) [
    | inl missing ↦ absurd (
        check_present-missing path base base_oid rule
          (ap (λ t. check_present path base t base_oid rule) (sym missing) ∙ present))
    | inr (target, t) ↦ (
      target,
      t,
      check_present-FileKept path base target base_oid rule
          (ap (λ t. check_present path base t base_oid rule) (sym t) ∙ present),
    )
  ]
    where
      present : check_present path base (target_files path) base_oid rule ≡ []
      present = ap (λ b. check_path base_files target_files base_oid rule path b) (sym e) ∙ h

  check_protected-PathKept :
      (paths : List String)
      → check_protected base_files target_files base_oid rule paths ≡ []
      → All (PathKept base_files target_files base_oid rule) paths
  unfolding check_protected
  check_protected-PathKept [] h = tt
  check_protected-PathKept (path ∷ paths) h =
      let (first, others) = append-eq-nil _ _ h in
      (check_path-PathKept path first, check_protected-PathKept paths others)

-- What an accepted target promises: the protected files, and the ledger's §5.1.
pub record Accepted (base_files target_files : Files) (base_oid base_task : Text)
    (rule : Option ExecLogRule) (target_task : Text) : Type 0 where
  pub files : All (PathKept base_files target_files base_oid rule) protected_files
  pub base : Text
  pub target : Text
  pub in_base : base_files ledger_file ≡ some base
  pub in_target : target_files ledger_file ≡ some target
  pub base_range : ℕ × ℕ
  pub target_range : ℕ × ℕ
  pub base_section : ledger_section (split_lines base) ≡ some base_range
  pub target_section : ledger_section (split_lines target) ≡ some target_range
  pub step :
      LedgerStep
        (lines_of (split_lines base) base_range)
        (lines_of (split_lines target) target_range)
        base_oid
        base_task
  pub own_once :
      occurrences_in (placeholder target_task) (lines_of (split_lines target) target_range) ≡ 1

ledger_present :
    (base target : Option Text) (base_oid base_task : Text)
    → ledger_findings base target base_oid base_task ≡ []
    → (b : Text) × (t : Text) × (base ≡ some b)
      × (target ≡ some t)
      × (check_ledger b (some t) base_oid base_task ≡ [])
unfolding ledger_findings check_ledger
ledger_present none target base_oid base_task h = absurd (cons≢nil h)
ledger_present (some b) none base_oid base_task h = absurd (cons≢nil h)
ledger_present (some b) (some t) base_oid base_task h = (b, t, refl, refl, h)

-- A target without findings, checked with its own task: each protected file that Base has is kept
-- (EXEC-LOG by the rule of CHECK 17 where one is given), both sides have one §5.1, Base's section
-- goes over into the target's, and the target's own placeholder stands there exactly once.
pub evaluate-Accepted :
    (base_files target_files : Files) (base_oid base_task : Text) (rule : Option ExecLogRule)
    (target_task : Text)
    → evaluate base_files target_files base_oid base_task rule (some target_task) ≡ []
    → Accepted base_files target_files base_oid base_task rule target_task
unfolding evaluate own_task_findings
evaluate-Accepted base_files target_files base_oid base_task rule target_task h =
    let (f, rest) = append-eq-nil _ _ h in
    let (l, own) = append-eq-nil _ _ rest in
    let (b, t, in_b, in_t, c) = ledger_present _ _ base_oid base_task l in
    let (r, s, sec_b, sec_t, step) = check_ledger-LedgerStep b t base_oid base_task c in
    record {
      files = check_protected-PathKept base_files target_files base_oid rule protected_files f;
      base = b;
      target = t;
      in_base = in_b;
      in_target = in_t;
      base_range = r;
      target_range = s;
      base_section = sec_b;
      target_section = sec_t;
      step = step;
      own_once =
          (own_placeholder_once t target_task s sec_t).0
            (ap (λ o. check_own_placeholder o target_task) (sym in_t) ∙ own);
    }
