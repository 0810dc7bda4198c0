-- ===== src/Primitives/DiffPasses.antt =====
-- scripts/verification_primitives.py: what a PASS of `git-diff-digest` says.
use hh_ai_v.Base.{
  lower, ℕ, zero, suc, ◌≡◌, refl, sym, ap, ◌∙◌, inl, inr, true, Text, text_eq, text_eq_iff, Option,
  none, some, List, arith, ok, ok-injective, >>=-eq-ok, require-eq-ok, ℤ, is_oid, Bool-cases,
}
use hh_ai_v.Primitives.{
  Reason, invalid_expect, invalid_base, base_not_found, git_nonzero_exit, pass, GitRun, exited,
  World, is_64_hex, is_expectation, DiffArguments, Diffed, output_of, diff_status, diffed, cat_cmd,
  diff_cmd, name_cmd, untracked_cmd, git_diff_digest,
}

-- a diff that passes: every call of git ended with 0, and the hash is the expected one
pub record DiffPass (w : World) (a : DiffArguments) : Type 0 where
  pub printed : List ℕ
  pub diff : List ℕ
  pub names : List ℕ
  pub untracked : List ℕ
  pub expected : Text
  pub base_oid : is_oid a.base ≡ true
  pub has_base : w.git 0 (cat_cmd a) ≡ exited (ℤ.pos 0) printed
  pub has_diff : w.git 1 (diff_cmd a) ≡ exited (ℤ.pos 0) diff
  pub has_names : w.git 2 (name_cmd a) ≡ exited (ℤ.pos 0) names
  pub has_untracked : w.git 3 (untracked_cmd a) ≡ exited (ℤ.pos 0) untracked
  pub given : a.expect ≡ some expected
  pub is_hex : is_64_hex expected ≡ true
  pub met : lower expected ≡ w.sha256_hex diff

output_of-eq-ok :
    (run : GitRun) (refusal : Reason) {out : List ℕ}
    → output_of run refusal ≡ ok out
    → run ≡ exited (ℤ.pos 0) out
unfolding output_of
output_of-eq-ok (exited (ℤ.pos zero) printed) refusal h = ap (exited (ℤ.pos zero)) (ok-injective h)
output_of-eq-ok (exited (ℤ.pos (suc n)) printed) refusal h = absurd (ground arith)
output_of-eq-ok (exited (ℤ.negsuc n) printed) refusal h = absurd (ground arith)
output_of-eq-ok GitRun.not_found refusal h = absurd (ground arith)
output_of-eq-ok GitRun.timed_out refusal h = absurd (ground arith)
output_of-eq-ok GitRun.other_exception refusal h = absurd (ground arith)

diff_status-pass :
    (expect : Option Text) (digest : Text)
    → is_expectation expect ≡ true
    → diff_status expect digest ≡ pass
    → (e : Text) × (expect ≡ some e) × (is_64_hex e ≡ true) × (lower e ≡ digest)
unfolding diff_status is_expectation
diff_status-pass none digest valid h = absurd (ground arith)
diff_status-pass (some e) digest valid h = elim (Bool-cases (text_eq digest (lower e))) [
  | inl met ↦ (e, refl, valid, sym ((text_eq_iff digest (lower e)).0 met))
  | inr missed ↦ absurd (ground (arith, missed))
]

-- Where `git-diff-digest` passes, the base is a full object name, each of the four calls of git has
-- ended with 0, and the expected hash has 64 hexadecimal digits and, in lower case, is that of the
-- bytes that git diff has printed.
pub git_diff_digest-DiffPass :
    (w : World) (a : DiffArguments) (r : Diffed)
    → git_diff_digest w a ≡ ok r
    → r.status ≡ pass
    → DiffPass w a
unfolding git_diff_digest diffed
git_diff_digest-DiffPass w a r h good =
    let (e1, h1) = require-eq-ok (is_oid a.base) invalid_base _ h in
    let (e2, h2) = require-eq-ok (is_expectation a.expect) invalid_expect _ h1 in
    let (printed, e3, h3) = >>=-eq-ok (output_of (w.git 0 (cat_cmd a)) base_not_found) _ h2 in
    let (diff, e4, h4) = >>=-eq-ok (output_of (w.git 1 (diff_cmd a)) git_nonzero_exit) _ h3 in
    let (names, e5, h5) = >>=-eq-ok (output_of (w.git 2 (name_cmd a)) git_nonzero_exit) _ h4 in
    let (untracked, e6, h6) =
      >>=-eq-ok (output_of (w.git 3 (untracked_cmd a)) git_nonzero_exit) _ h5 in
    let (expected, given, hex, met) =
      diff_status-pass a.expect (w.sha256_hex diff) e2
        (ap (λ x. x.status) (ok-injective h6) ∙ good) in
    record {
      printed = printed;
      diff = diff;
      names = names;
      untracked = untracked;
      expected = expected;
      base_oid = e1;
      has_base = output_of-eq-ok _ _ e3;
      has_diff = output_of-eq-ok _ _ e4;
      has_names = output_of-eq-ok _ _ e5;
      has_untracked = output_of-eq-ok _ _ e6;
      given = given;
      is_hex = hex;
      met = met;
    }
