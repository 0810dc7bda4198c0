-- ===== src/Gate/Certified.antt =====
-- scripts/gate_runner.py: what a log must hold for `verify_stage` to pass, whoever wrote it.
use mathlib.Core.Bool.{false≢true}
use hh_ai_v.Base.{
  ℕ, ◌+◌, ◌≡◌, refl, sym, ap, ◌∙◌, inl, inr, Text, true, false, none, some, List, [], ◌∷◌, ◌++◌,
  arith, codes, any, All, text_eq, text_eq_iff, starts_with, Bool-cases, Option-cases,
}
use hh_ai_v.Gate.Format.{Stage, Command, gate_header, complete_marker, run_header}
use hh_ai_v.Gate.Run.{count_starts}
use hh_ai_v.Gate.Verify.{
  passed, latest_run, behind_header, find_exit, is_exit_zero, verify_gates, cut_segment,
  is_end_marker, verify_stage,
}
use hh_ai_v.Gate.Report.{is_passed_over}

-- The gates from number `i` on stand in the segment in their order, each with its header and then,
-- before any other marker, an exit line that says 0; the run's complete marker stands behind them.
pub data Certified (s : Stage) (n : ℕ) : ℕ → List Command → List Text → Type 0 where
  complete :
      {i : ℕ} {segment : List Text}
      → any (λ line. text_eq line (complete_marker s n)) segment ≡ true
      → Certified s n i [] segment
  gate :
      {i : ℕ} {cmd : Command} {gates : List Command} {segment : List Text}
      (before output behind : List Text)
      → segment ≡ before ++ (gate_header s n i cmd ∷ (output ++ (codes "EXIT_CODE: 0" ∷ behind)))
      → All (λ line. is_passed_over line ≡ true) output
      → Certified s n (i + 1) gates behind
      → Certified s n i (cmd ∷ gates) segment

behind_header-some :
    (header : Text) (lines behind : List Text)
    → behind_header header lines ≡ some behind
    → (before : List Text) × (lines ≡ before ++ (header ∷ behind))
unfolding behind_header
behind_header-some header [] behind h = absurd (ground arith)
behind_header-some header (l ∷ ls) behind h = elim (Bool-cases (text_eq l header)) [
  | inl same ↦ ([], ground (arith, text_eq_iff l header))
  | inr other ↦
      let (before, e) = behind_header-some header ls behind (ground arith) in
      (l ∷ before, ap (◌∷◌ l) e)
]

find_exit_hit :
    (l : Text) (ls : List Text)
    → starts_with l (codes "EXIT_CODE: ") ≡ true
    → find_exit (l ∷ ls) ≡ (some l, ls)
unfolding find_exit
find_exit_hit l ls h = rw h refl

find_exit_mark :
    (l : Text) (ls : List Text)
    → starts_with l (codes "EXIT_CODE: ") ≡ false
    → starts_with l (codes "=== ") ≡ true
    → find_exit (l ∷ ls) ≡ (none, ls)
unfolding find_exit
find_exit_mark l ls h k = rw h (rw k refl)

find_exit_more :
    (l : Text) (ls : List Text)
    → starts_with l (codes "EXIT_CODE: ") ≡ false
    → starts_with l (codes "=== ") ≡ false
    → find_exit (l ∷ ls) ≡ find_exit ls
unfolding find_exit
find_exit_more l ls h k = rw h (rw k refl)

-- the first exit line, if it says 0
record ZeroExit (lines left : List Text) : Type 0 where
  pub output : List Text
  pub splits : lines ≡ output ++ (codes "EXIT_CODE: 0" ∷ left)
  pub passed_over : All (λ line. is_passed_over line ≡ true) output

find_exit-ZeroExit :
    (lines : List Text)
    → is_exit_zero (find_exit lines).0 ≡ true
    → ZeroExit lines (find_exit lines).1
find_exit-ZeroExit [] h = absurd (unfold find_exit is_exit_zero in ground arith)
find_exit-ZeroExit (l ∷ ls) h = elim (Bool-cases (starts_with l (codes "EXIT_CODE: "))) [
  | inl exit ↦
      let e = find_exit_hit l ls exit in
      let zero_text =
        (text_eq_iff l (codes "EXIT_CODE: 0")).0
          (unfold is_exit_zero in (ap (λ r. is_exit_zero r.0) (sym e) ∙ h)) in
      rw e (record { output = []; splits = ap (λ t. t ∷ ls) zero_text; passed_over = tt })
  | inr other ↦ elim (Bool-cases (starts_with l (codes "=== "))) [
    | inl mark ↦ absurd (
        false≢true (
          unfold is_exit_zero in
          (ap (λ r. is_exit_zero r.0) (sym (find_exit_mark l ls other mark)) ∙ h)))
    | inr more ↦
        let e = find_exit_more l ls other more in
        let z = find_exit-ZeroExit ls (ap (λ r. is_exit_zero r.0) (sym e) ∙ h) in
        rw e (record {
          output = l ∷ z.output;
          splits = ap (◌∷◌ l) z.splits;
          passed_over = (ground (arith, other, more), z.passed_over);
        })
  ]
]

verify_gates-Certified :
    (s : Stage) (n i : ℕ) (gates : List Command) (segment : List Text) {k : ℕ}
    → verify_gates s n i gates segment ≡ passed k
    → Certified s n i gates segment × (k ≡ n)
unfolding verify_gates
verify_gates-Certified s n i [] segment h =
    elim (Bool-cases (any (λ line. text_eq line (complete_marker s n)) segment)) [
      | inl c ↦ (Certified.complete c, ground arith)
      | inr c ↦ absurd (ground arith)
    ]
verify_gates-Certified s n i (cmd ∷ gates) segment h =
    elim (Option-cases (behind_header (gate_header s n i cmd) segment)) [
      | inl missing ↦ absurd (ground arith)
      | inr (behind, found) ↦ elim (Bool-cases (is_exit_zero (find_exit behind).0)) [
        | inr nz ↦ absurd (ground arith)
        | inl z ↦
            let (before, e) = behind_header-some (gate_header s n i cmd) segment behind found in
            let x = find_exit-ZeroExit behind z in
            let (later, same) =
              verify_gates-Certified s n (i + 1) gates (find_exit behind).1 (ground arith) in
            (
              Certified.gate before x.output (find_exit behind).1
                  (e ∙ ap (λ b. before ++ (gate_header s n i cmd ∷ b)) x.splits) x.passed_over
                  later,
              same,
            )
      ]
    ]

-- A verification that passes names the number of runs in the log; its last run header carries that
-- number, and the part of the log behind it, up to that run's first end marker, certifies every gate.
pub verify_stage-Certified :
    (lines : List Text) (s : Stage) (gates : List Command) {k : ℕ}
    → verify_stage lines s gates ≡ passed k
    → (segment : List Text) × (k ≡ count_starts s lines)
      × (latest_run s lines ≡ some (run_header s k, segment))
      × Certified s k 1 gates (cut_segment (is_end_marker s k gates) segment)
unfolding verify_stage
verify_stage-Certified lines s gates {k} h = elim (Option-cases (latest_run s lines)) [
  | inl e ↦ absurd (ground arith)
  | inr ((header, segment), e) ↦
      elim (Bool-cases (text_eq header (run_header s (count_starts s lines)))) [
        | inr d ↦ absurd (ground arith)
        | inl same ↦
            let passes : verify_gates s (count_starts s lines) 1 gates
                  (cut_segment (is_end_marker s (count_starts s lines) gates) segment)
                ≡ passed k =
              ground arith in
            let (c, eq) = verify_gates-Certified s (count_starts s lines) 1 gates _ passes in
            rw eq
              (segment, refl, e ∙ ap (λ t. some (t, segment)) ((text_eq_iff header _).0 same), c)
      ]
]
