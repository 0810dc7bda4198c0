-- ===== src/Push/Verdicts.antt =====
-- scripts/governance_preflight.py: what the authorisation file says of a push that it passes.
use mathlib.Core.Path.{subst}
use hh_ai_v.Base.{
  ◌≡◌, sym, ap, ◌∙◌, Text, text_eq, text_eq_iff, codes, Option, none, some, List, [], ◌∷◌, arith,
  ok, ok-injective, >>=-eq-ok, require-eq-ok, All,
}
use hh_ai_v.Json.{string, Fields, get_field, equals_text, equals_text_iff}
use hh_ai_v.Push.{
  Problem, main_needs_mode, new_sha_mismatch, remote_drift, deletion_needs_mode, ref_set_mismatch,
  ref_drift, or_problem, Update, Pass, main_advanced, branches_deleted, Mapping, find, lower_at,
  only_update, main_verdict, expected_map, actual_map, same_keys, no_drift, deletion_verdict,
}
use hh_ai_v.Push.Sorting.{Advance, Deletion}
use hh_ai_v.Push.Mappings.{last_sha, last_sha-actual_map, find_agrees}

-- the authorisation names this advancement of main
pub record Advances (auth : Fields) (up : Update) : Type 0 where
  pub advance : Advance up
  pub mode : get_field (codes "mode") auth ≡ string (codes "MAIN_EXACT_SHA")
  pub new_sha : lower_at (codes "authorized_main_sha") auth ≡ ok up.local_sha
  pub remote_sha : lower_at (codes "expected_remote_main_sha") auth ≡ ok up.remote_sha

-- the authorisation names exactly these deletions, with the hashes that the branches have
pub record Deletes (auth : Fields) (ups : List Update) : Type 0 where
  pub all_deleted : All Deletion ups
  pub mode : get_field (codes "mode") auth ≡ string (codes "REMOTE_DELETE_EXACT_SET")
  pub expected : Mapping
  pub listed : expected_map auth ≡ ok expected
  pub exact : (ref : Text) → last_sha ref ups ≡ find ref expected

pub or_problem-eq-ok {ℓ} :
    {A : Type ℓ} (o : Option A) (why : Problem) {x : A} → or_problem o why ≡ ok x → o ≡ some x
or_problem-eq-ok none why h = absurd (ground arith)
or_problem-eq-ok (some y) why h = ap some (ok-injective h)

only_update-eq : (ups : List Update) {up : Update} → only_update ups ≡ ok up → ups ≡ up ∷ []
unfolding only_update
only_update-eq [] h = absurd (ground arith)
only_update-eq (x ∷ []) h = ap (λ y. y ∷ []) (ok-injective h)
only_update-eq (x ∷ (y ∷ ups)) h = absurd (ground arith)

pub main_verdict-Advances :
    (auth : Fields) (ups : List Update) {p : Pass}
    → main_verdict auth ups ≡ ok p
    → All Advance ups
    → (p ≡ main_advanced) × (up : Update) × (ups ≡ up ∷ []) × Advances auth up
unfolding main_verdict
main_verdict-Advances auth ups {p} h all =
    let (e1, h1) =
      require-eq-ok (equals_text (get_field (codes "mode") auth) (codes "MAIN_EXACT_SHA"))
        main_needs_mode _ h in
    let (up, e2, h2) = >>=-eq-ok (only_update ups) _ h1 in
    let (new_sha, e3, h3) = >>=-eq-ok (lower_at (codes "authorized_main_sha") auth) _ h2 in
    let (remote_sha, e4, h4) = >>=-eq-ok (lower_at (codes "expected_remote_main_sha") auth) _ h3 in
    let (e5, h5) = require-eq-ok (text_eq up.local_sha new_sha) new_sha_mismatch _ h4 in
    let (e6, h6) = require-eq-ok (text_eq up.remote_sha remote_sha) remote_drift _ h5 in
    let one = only_update-eq ups e2 in
    (
      sym (ok-injective h6),
      up,
      one,
      record {
        advance = (subst (All Advance) one all).0;
        mode = (equals_text_iff (get_field (codes "mode") auth) (codes "MAIN_EXACT_SHA")).0 e1;
        new_sha = e3 ∙ ap ok (sym ((text_eq_iff up.local_sha new_sha).0 e5));
        remote_sha = e4 ∙ ap ok (sym ((text_eq_iff up.remote_sha remote_sha).0 e6));
      },
    )

pub deletion_verdict-Deletes :
    (auth : Fields) (ups : List Update) {p : Pass}
    → deletion_verdict auth ups ≡ ok p
    → All Deletion ups
    → (p ≡ branches_deleted) × Deletes auth ups
unfolding deletion_verdict
deletion_verdict-Deletes auth ups {p} h all =
    let (e1, h1) =
      require-eq-ok (equals_text (get_field (codes "mode") auth) (codes "REMOTE_DELETE_EXACT_SET"))
        deletion_needs_mode _ h in
    let (expected, e2, h2) = >>=-eq-ok (expected_map auth) _ h1 in
    let (e3, h3) = require-eq-ok (same_keys (actual_map [] ups) expected) ref_set_mismatch _ h2 in
    let (e4, h4) = require-eq-ok (no_drift (actual_map [] ups) expected) ref_drift _ h3 in
    (
      sym (ok-injective h4),
      record {
        all_deleted = all;
        mode =
            (equals_text_iff (get_field (codes "mode") auth) (codes "REMOTE_DELETE_EXACT_SET")).0
              e1;
        expected = expected;
        listed = e2;
        exact =
            λ ref. last_sha-actual_map ref ups ∙ find_agrees ref (actual_map [] ups) expected e3 e4;
      },
    )
