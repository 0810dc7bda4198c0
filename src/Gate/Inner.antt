-- ===== src/Gate/Inner.antt =====
-- scripts/gate_runner.py: the lines of a run behind its header hold no line feed and start no run.
use hh_ai_v.Base.{
  ℕ, ◌+◌, ◌≤◌, ◌≡◌, refl, ap, ◌∙◌, inl, inr, Text, true, false, none, some, List, [], ◌∷◌, ◌++◌,
  arith, codes, decimal, decimal-no_newline, length, All, no_newline, no_newline-append,
  no_newline_join, ends_with, text_eq, split_on, split_on-line, Bool-cases, &&-eq-true,
}
use hh_ai_v.Gate.Format.{
  Stage, precommit, staged, postcommit, stage_name, stage_lower, Command, display, run_prefix,
  marker, run_header, gate_tail, gate_header, complete_marker, failed_tail, failed_marker,
}
use hh_ai_v.Gate.Run.{
  Outcome, unlines, World, raw_line, report, gate_code, is_zero, is_start, count_starts,
}
use hh_ai_v.Gate.Verify.{latest_run}
use hh_ai_v.Gate.Lines.{is_clean, are_clean, is_start_plain, is_start-marker, is_start-run_header}
use hh_ai_v.Gate.Report.{IsPlainLine, report_plain, came_back}
use hh_ai_v.Gate.Transcript.{transcript, behind_report}

abbrev pub IsInner : Stage → Text → Type 0
IsInner s line = (is_start s line ≡ false) × (no_newline line ≡ true)

module _ (s : Stage) where
  run_prefix-no_newline : no_newline (run_prefix s) ≡ true
  unfolding run_prefix stage_name no_newline
  run_prefix-no_newline = split s
    where
      split : (t : Stage) → no_newline (run_prefix t) ≡ true
      split precommit = refl
      split staged = refl
      split postcommit = refl

  marker-no_newline : (n : ℕ) (tail : Text) → no_newline (marker s n tail) ≡ no_newline tail
  unfolding marker
  marker-no_newline n tail = ground (
    arith,
    no_newline-append (run_prefix s) (decimal n ++ tail),
    no_newline-append (decimal n) tail,
    run_prefix-no_newline,
    decimal-no_newline n,
  )

  pub run_header-no_newline : (n : ℕ) → no_newline (run_header s n) ≡ true
  unfolding run_header
  run_header-no_newline n =
      rw (marker-no_newline n (codes " START ===")) (unfold no_newline in refl)

  marker-IsInner :
      (n : ℕ) (tail : Text)
      → ends_with tail (codes " START ===") ≡ false
      → 10 ≤ length tail
      → no_newline tail ≡ true
      → IsInner s (marker s n tail)
  marker-IsInner n tail e long h = (is_start-marker s n tail e long, marker-no_newline n tail ∙ h)

  complete-IsInner : (n : ℕ) → IsInner s (complete_marker s n)
  unfolding complete_marker
  complete-IsInner n =
      marker-IsInner n (codes " COMPLETE ===") (unfold ends_with text_eq in refl) (omega arith)
        (unfold no_newline in refl)

  gate_tail-no_newline :
      (i : ℕ) (cmd : Command)
      → no_newline (display cmd) ≡ true
      → no_newline (gate_tail i cmd) ≡ true
  unfolding gate_tail
  gate_tail-no_newline i cmd h = no_newline_join (codes " GATE ") _ (unfold no_newline in refl) (
      no_newline_join (decimal i) _ (decimal-no_newline i) (
        no_newline_join (codes ": ") _ (unfold no_newline in refl)
          (no_newline_join (display cmd) (codes " ===") h (unfold no_newline in refl))))

  failed_tail-no_newline : (i : ℕ) → no_newline (failed_tail i) ≡ true
  unfolding failed_tail
  failed_tail-no_newline i =
      no_newline_join (codes " FAILED AT GATE ") _ (unfold no_newline in refl) (
        no_newline_join (decimal i) (codes " ===") (decimal-no_newline i)
          (unfold no_newline in refl))

  clean_marks :
      (n i : ℕ) (cmd : Command)
      → is_clean i cmd ≡ true
      → IsInner s (gate_header s n i cmd) × IsInner s (failed_marker s n i)
  unfolding is_clean gate_header failed_marker
  clean_marks n i cmd h =
      let (h4, t5) = &&-eq-true _ _ h in
      let (h3, t4) = &&-eq-true _ _ h4 in
      let (h2, t3) = &&-eq-true _ _ h3 in
      let (t1, t2) = &&-eq-true _ _ h2 in
      (
        marker-IsInner n (gate_tail i cmd) (ground arith) (ground arith)
            (gate_tail-no_newline i cmd t1),
        marker-IsInner n (failed_tail i) (ground arith) (ground arith) (failed_tail-no_newline i),
      )

  lower-no_newline : no_newline (stage_lower s) ≡ true
  unfolding stage_lower no_newline
  lower-no_newline = split s
    where
      split : (t : Stage) → no_newline (stage_lower t) ≡ true
      split precommit = refl
      split staged = refl
      split postcommit = refl

  raw-no_newline :
      (name : Text) (n i : ℕ) → no_newline name ≡ true → no_newline (raw_line name s n i) ≡ true
  unfolding raw_line
  raw-no_newline name n i h =
      no_newline_join (codes "RAW_EVIDENCE_FILE: ") _ (unfold no_newline in refl) (
        no_newline_join name _ h (
          no_newline_join (codes ".") _ (unfold no_newline in refl) (
            no_newline_join (stage_lower s) _ lower-no_newline (
              no_newline_join (codes "-run") _ (unfold no_newline in refl) (
                no_newline_join (decimal n) _ (decimal-no_newline n) (
                  no_newline_join (codes "-gate") _ (unfold no_newline in refl) (
                    no_newline_join (decimal i) (codes ".raw") (decimal-no_newline i)
                      (unfold no_newline in refl))))))))

  raw-IsInner : (name : Text) (n i : ℕ) → no_newline name ≡ true → IsInner s (raw_line name s n i)
  unfolding raw_line
  raw-IsInner name n i h = (is_start_plain s (raw_line name s n i) refl, raw-no_newline name n i h)

  plain-IsInner :
      (ls more : List Text)
      → All IsPlainLine ls
      → All (IsInner s) more
      → All (IsInner s) (ls ++ more)
  plain-IsInner [] more h k = k
  plain-IsInner (l ∷ ls) more h k = ((is_start_plain s l h.0.0, h.0.1), plain-IsInner ls more h.1 k)

  behind-IsInner :
      (n i : ℕ) (o : Outcome) (rest : List Text)
      → IsInner s (failed_marker s n i)
      → All (IsInner s) rest
      → All (IsInner s) (behind_report s n i o rest)
  behind-IsInner n i o rest f h = elim (Bool-cases (came_back o)) [
    | inl back ↦ elim (Bool-cases (is_zero (gate_code o))) [
      | inl z ↦ rw back (rw z h)
      | inr nz ↦ rw back (rw nz (f, tt))
    ]
    | inr up ↦ rw up tt
  ]

  pub transcript-IsInner :
      (w : World) (n i : ℕ) (gates : List Command) (budgets : List ℕ)
      → no_newline w.log_name ≡ true
      → are_clean i gates ≡ true
      → All (IsInner s) (transcript w s n i gates budgets)
  unfolding transcript are_clean
  transcript-IsInner w n i [] budgets name h = (complete-IsInner n, tt)
  transcript-IsInner w n i (cmd ∷ gates) [] name h = ((clean_marks n i cmd (ground arith)).0, tt)
  transcript-IsInner w n i (cmd ∷ gates) (limit ∷ budgets) name h =
      let (clean, cleans) = &&-eq-true _ _ h in
      let o = w.run_gate i cmd limit in
      let marks = clean_marks n i cmd clean in
      (
        marks.0,
        (
          raw-IsInner w.log_name n i name,
          plain-IsInner (report o) _ (report_plain o) (
              behind-IsInner n i o _ marks.1
                (transcript-IsInner w n (i + 1) gates budgets name cleans)),
        ),
      )

-- The log read back: the lines, and an empty one at the end.
pub read_unlines :
    (lines : List Text)
    → All (λ l. no_newline l ≡ true) lines
    → split_on 10 (unlines lines) ≡ lines ++ ([] ∷ [])
read_unlines [] h = unfold split_on in refl
read_unlines (l ∷ ls) h = split_on-line l (unlines ls) h.0 ∙ ap (◌∷◌ l) (read_unlines ls h.1)

module _ (s : Stage) where
  pub count_starts-append :
      (xs ys : List Text) → count_starts s (xs ++ ys) ≡ count_starts s xs + count_starts s ys
  unfolding count_starts
  count_starts-append [] ys = omega arith
  count_starts-append (x ∷ xs) ys = ground (arith, count_starts-append xs ys)

  pub count_starts-IsInner :
      (ls : List Text) → All (IsInner s) ls → count_starts s (ls ++ ([] ∷ [])) ≡ 0
  unfolding count_starts
  count_starts-IsInner [] h = rw (is_start_plain s [] refl) refl
  count_starts-IsInner (l ∷ ls) h = ground (arith, h.0.0, count_starts-IsInner ls h.1)

  latest_run-IsInner : (ls : List Text) → All (IsInner s) ls → latest_run s (ls ++ ([] ∷ [])) ≡ none
  unfolding latest_run
  latest_run-IsInner [] h = rw (is_start_plain s [] refl) refl
  latest_run-IsInner (l ∷ ls) h = ground (arith, h.0.0, latest_run-IsInner ls h.1)

  pub latest_run-header :
      (old : List Text) (n : ℕ) (ls : List Text)
      → All (IsInner s) ls
      → latest_run s (old ++ (run_header s n ∷ (ls ++ ([] ∷ []))))
        ≡ some (run_header s n, ls ++ ([] ∷ []))
  unfolding latest_run
  latest_run-header [] n ls h = ground (arith, latest_run-IsInner ls h, is_start-run_header s n)
  latest_run-header (l ∷ old) n ls h = ground (arith, latest_run-header old n ls h)

  pub count_starts-header :
      (n : ℕ) (ls : List Text) → count_starts s (run_header s n ∷ ls) ≡ count_starts s ls + 1
  unfolding count_starts
  count_starts-header n ls = rw (is_start-run_header s n) (omega arith)
