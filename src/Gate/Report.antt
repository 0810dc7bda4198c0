-- ===== src/Gate/Report.antt =====
-- scripts/gate_runner.py: the lines that a gate leaves in the log, and its exit line as
-- `verify_stage` reads it.
use mathlib.Core.List.{append_assoc}
use hh_ai_v.Base.{
  ℕ, zero, suc, ◌≡◌, refl, sym, ◌∙◌, ◌≢◌, inl, inr, Text, Bool, true, false, not, ◌&&◌, some, List,
  [], ◌∷◌, ◌++◌, map, arith, codes, decimal, int_text, int_text-no_newline, int_zero, ℤ, All,
  text_eq, text_eq_iff, starts_with, no_newline, split_on-no_newline, Bool-cases,
}
use hh_ai_v.Gate.Format.{output_prefix}
use hh_ai_v.Gate.Run.{
  Outcome, raised, launch_failed, timed_out, exited, KillStatus, kill_text, tree_signalled,
  tree_kill_failed, body_lines, exit_line, report, gate_code, is_zero,
}
use hh_ai_v.Gate.Verify.{find_exit, is_exit_zero}
use hh_ai_v.Gate.Lines.{is_plain}

-- Every line is no marker and holds no line feed.
abbrev pub IsPlainLine : Text → Type 0
IsPlainLine line = (is_plain line ≡ true) × (no_newline line ≡ true)

-- a line with which the search for the exit line goes on
abbrev pub is_passed_over : Text → Bool
is_passed_over line =
    not (starts_with line (codes "EXIT_CODE: ")) && not (starts_with line (codes "=== "))

All-append {ℓ κ} :
    {A : Type ℓ} (P : A → Type κ) (xs ys : List A) → All P xs → All P ys → All P (xs ++ ys)
All-append P [] ys h k = k
All-append P (x ∷ xs) ys h k = (h.0, All-append P xs ys h.1 k)

exit_plain : (code : Text) → no_newline code ≡ true → IsPlainLine (exit_line code)
unfolding exit_line no_newline
exit_plain code h = (refl, h)

kill_plain : (kill : KillStatus) → IsPlainLine (codes "TREE_KILL: " ++ kill_text kill)
unfolding kill_text no_newline
kill_plain tree_signalled = (refl, refl)
kill_plain tree_kill_failed = (refl, refl)

kill_passed : (kill : KillStatus) → is_passed_over (codes "TREE_KILL: " ++ kill_text kill) ≡ true
unfolding starts_with
kill_passed kill = refl

pos_suc_ne : {n : ℕ} → ℤ.pos (suc n) ≢ ℤ.pos 0
pos_suc_ne h = ground arith

int_text_zero : (z : ℤ) → text_eq (int_text z) (codes "0") ≡ is_zero z
int_text_zero (ℤ.pos zero) = unfold int_text decimal text_eq in refl
int_text_zero (ℤ.pos (suc n)) = elim (Bool-cases (text_eq (int_text (ℤ.pos (suc n))) (codes "0"))) [
  | inl e ↦ absurd (pos_suc_ne (int_zero _ ((text_eq_iff _ _).0 e)))
  | inr e ↦ rw e (ground arith)
]
int_text_zero (ℤ.negsuc n) = unfold int_text text_eq in refl

gate_code_zero : (z : ℤ) (out : Text) → is_zero (gate_code (exited z out)) ≡ is_zero z
unfolding gate_code
gate_code_zero (ℤ.pos n) out = ground arith
gate_code_zero (ℤ.negsuc n) out = refl

prefixed :
    (ls : List Text)
    → All (λ l. no_newline l ≡ true) ls
    → All IsPlainLine (map (λ l. output_prefix ++ l) ls)
unfolding output_prefix no_newline
prefixed [] h = tt
prefixed (l ∷ ls) h = ((refl, h.0), prefixed ls h.1)

body_lines_plain : (output : Text) → All IsPlainLine (body_lines output)
unfolding body_lines
body_lines_plain [] = tt
body_lines_plain (c ∷ cs) = prefixed _ (split_on-no_newline _)

prefixed_passed :
    (ls : List Text) → All (λ l. is_passed_over l ≡ true) (map (λ l. output_prefix ++ l) ls)
unfolding output_prefix starts_with
prefixed_passed [] = tt
prefixed_passed (l ∷ ls) = (refl, prefixed_passed ls)

body_lines_passed : (output : Text) → All (λ l. is_passed_over l ≡ true) (body_lines output)
unfolding body_lines
body_lines_passed [] = tt
body_lines_passed (c ∷ cs) = prefixed_passed _

pub find_exit-append :
    (ls more : List Text)
    → All (λ l. is_passed_over l ≡ true) ls
    → find_exit (ls ++ more) ≡ find_exit more
unfolding find_exit
find_exit-append [] more h = refl
find_exit-append (l ∷ ls) more h = ground (arith, h.0, find_exit-append ls more h.1)

find_exit_here :
    (code : Text) (more : List Text)
    → find_exit (exit_line code ∷ more) ≡ (some (exit_line code), more)
unfolding find_exit exit_line starts_with
find_exit_here code more = refl

-- the text of the exit line, for a gate that did not raise
pub exit_text : Outcome → Text
exit_text raised = []
exit_text (launch_failed _) = codes "LAUNCH_FAILED"
exit_text (timed_out _ _) = codes "TIMEOUT"
exit_text (exited code _) = int_text code

abbrev pub came_back : Outcome → Bool
came_back raised = false
came_back _ = true

pub find_exit-report :
    (o : Outcome) (more : List Text)
    → came_back o ≡ true
    → find_exit (report o ++ more) ≡ (some (exit_line (exit_text o)), more)
unfolding report exit_text
find_exit-report raised more h = cc
find_exit-report (launch_failed out) more h =
    rw append_assoc
      (find_exit-append (body_lines out) _ (body_lines_passed out) ∙ find_exit_here _ more)
find_exit-report (timed_out kill out) more h = rw append_assoc (
    find_exit-append (body_lines out) _ (body_lines_passed out)
    ∙ find_exit-append ((codes "TREE_KILL: " ++ kill_text kill) ∷ []) _ (kill_passed kill, tt)
    ∙ find_exit_here _ more)
find_exit-report (exited code out) more h =
    rw append_assoc
      (find_exit-append (body_lines out) _ (body_lines_passed out) ∙ find_exit_here _ more)

pub report_plain : (o : Outcome) → All IsPlainLine (report o)
unfolding report
report_plain raised = tt
report_plain (launch_failed out) =
    All-append IsPlainLine (body_lines out) _ (body_lines_plain out)
      (exit_plain _ (unfold no_newline in refl), tt)
report_plain (timed_out kill out) =
    All-append IsPlainLine (body_lines out) _ (body_lines_plain out)
      (kill_plain kill, (exit_plain _ (unfold no_newline in refl), tt))
report_plain (exited code out) =
    All-append IsPlainLine (body_lines out) _ (body_lines_plain out)
      (exit_plain _ (int_text-no_newline code), tt)

-- The exit line counts as zero exactly where the runner goes on to the next gate.
pub is_exit_zero-report :
    (o : Outcome)
    → came_back o ≡ true
    → is_exit_zero (some (exit_line (exit_text o))) ≡ is_zero (gate_code o)
unfolding is_exit_zero exit_line exit_text text_eq
is_exit_zero-report raised h = cc
is_exit_zero-report (launch_failed out) h = unfold gate_code in refl
is_exit_zero-report (timed_out kill out) h = unfold gate_code in refl
is_exit_zero-report (exited code out) h = int_text_zero code ∙ sym (gate_code_zero code out)
