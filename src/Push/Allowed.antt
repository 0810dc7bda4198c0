-- ===== src/Push/Allowed.antt =====
-- scripts/governance_preflight.py: what a push that `verify_and_consume_push` passes is.
use mathlib.Core.Path.{subst}
use hh_ai_v.Base.{
  ◌≡◌, refl, sym, ap, inl, inr, Bool, true, false, ◌&&◌, ◌||◌, Text, List, [], ◌∷◌, arith,
  Bool-cases, Result-cases, Either, ok, stop, ◌>>◌, require, >>=-eq-ok, require-eq-ok, All,
}
use hh_ai_v.Json.{object, Fields, as_object, as_object-eq}
use hh_ai_v.Push.{
  AuthFile, absent, unreadable, document, Problem, main_with_deletion, main_with_others,
  deletion_with_others, attribute_error, or_problem, Update, Operations, operations_of, updates_of,
  Pass, no_updates, ordinary, main_advanced, branches_deleted, main_verdict, deletion_verdict,
  is_none_of, check_mixed, sensitive, Removal, removed, not_removed, consumed, verify_operations,
  verify_updates, verify_push,
}
use hh_ai_v.Push.Sorting.{Ordinary, calm_only, deletions_only, mains_only}
use hh_ai_v.Push.Verdicts.{
  Advances, Deletes, or_problem-eq-ok, main_verdict-Advances, deletion_verdict-Deletes,
}

-- The pushes that pass, with the file before and behind each.
pub data Allowed (file : AuthFile) (ups : List Update) : Pass → AuthFile → Type 0 where
  nothing : ups ≡ [] → Allowed file ups no_updates file
  ordinary_push : All Ordinary ups → Allowed file ups ordinary file
  main_push :
      (auth : Fields) (up : Update)
      → file ≡ document (object auth)
      → ups ≡ up ∷ []
      → Advances auth up
      → Allowed file ups main_advanced absent
  deletion_push :
      (auth : Fields)
      → file ≡ document (object auth)
      → Deletes auth ups
      → Allowed file ups branches_deleted absent

passed-injective :
    {x y : Pass} {f g : AuthFile}
    → ◌≡◌ {A = Either Problem Pass × AuthFile} (ok x, f) (ok y, g)
    → ◌≡◌ {A = Pass × AuthFile} (x, f) (y, g)
passed-injective h = cc

is_none_of-nil : (ups : List Update) → is_none_of ups ≡ true → ups ≡ []
unfolding is_none_of
is_none_of-nil [] h = refl
is_none_of-nil (up ∷ ups) h = absurd (ground arith)

consumed-eq-ok :
    (unlink : Removal) (file : AuthFile) (r : Either Problem Pass) {p : Pass} {behind : AuthFile}
    → consumed unlink file r ≡ (ok p, behind)
    → (r ≡ ok p) × (absent ≡ behind)
unfolding consumed
consumed-eq-ok unlink file (stop why) h = let e = ap (λ x. x.0) h in absurd (ground arith)
consumed-eq-ok removed file (ok q) h = (ap (λ x. x.0) h, ap (λ x. x.1) h)
consumed-eq-ok not_removed file (ok q) h = let e = ap (λ x. x.0) h in absurd (ground arith)

require-ok : (b : Bool) (why : Problem) {u : Unit {0}} → require b why ≡ ok u → b ≡ true
require-ok true why h = refl
require-ok false why h = absurd (ground arith)

-- Two of the three operations are missing from a sensitive push.
check_mixed-cases :
    (o : Operations) {u : Unit {0}}
    → check_mixed o ≡ ok u
    → ((is_none_of o.main_updates || is_none_of o.remote_deletions) ≡ true)
      × ((is_none_of o.main_updates || is_none_of o.ordinary_updates) ≡ true)
      × ((is_none_of o.remote_deletions || is_none_of o.ordinary_updates) ≡ true)
unfolding check_mixed
check_mixed-cases o h =
    let (e1, h1) =
      require-eq-ok (is_none_of o.main_updates || is_none_of o.remote_deletions) main_with_deletion
        _ h in
    let (e2, h2) =
      require-eq-ok (is_none_of o.main_updates || is_none_of o.ordinary_updates) main_with_others _
        h1 in
    (
      e1,
      e2,
      require-ok (is_none_of o.remote_deletions || is_none_of o.ordinary_updates)
          deletion_with_others h2,
    )

-- an authorised push by its operations
sensitive-Allowed :
    (file : AuthFile) (ups : List Update) (o : Operations) {p : Pass}
    → operations_of ups ≡ ok o
    → (is_none_of o.main_updates && is_none_of o.remote_deletions) ≡ false
    → (check_mixed o >> sensitive file o) ≡ ok p
    → Allowed file ups p absent
unfolding sensitive
sensitive-Allowed absent ups o h some_sensitive s =
    let (u, mixed, s1) = >>=-eq-ok (check_mixed o) _ s in absurd (ground arith)
sensitive-Allowed unreadable ups o h some_sensitive s =
    let (u, mixed, s1) = >>=-eq-ok (check_mixed o) _ s in absurd (ground arith)
sensitive-Allowed (document json) ups o {p} h some_sensitive s =
    let (u, mixed, s1) = >>=-eq-ok (check_mixed o) _ s in
    let (no_both, main_alone, deletion_alone) = check_mixed-cases o mixed in
    let (auth, read, s2) = >>=-eq-ok (or_problem (as_object json) attribute_error) _ s1 in
    let same : document json ≡ document (object auth) =
      ap document (as_object-eq json (or_problem-eq-ok _ _ read)) in
    elim (Bool-cases (is_none_of o.main_updates)) [
      | inl no_main ↦
          let (all, deleted) = deletions_only ups h (is_none_of-nil o.main_updates no_main) (
            is_none_of-nil o.ordinary_updates
              (ground (arith, no_main, some_sensitive, deletion_alone))) in
          let verdict : deletion_verdict auth o.remote_deletions ≡ ok p =
            ground (arith, no_main, s2) in
          let (kind, deletes) =
            deletion_verdict-Deletes auth ups
              (subst (λ x. deletion_verdict auth x ≡ ok p) deleted verdict) all in
          subst (λ k. Allowed (document json) ups k absent) (sym kind)
            (deletion_push auth same deletes)
      | inr with_main ↦
          let (all, mains) =
            mains_only ups h
              (is_none_of-nil o.remote_deletions (ground (arith, with_main, no_both)))
              (is_none_of-nil o.ordinary_updates (ground (arith, with_main, main_alone))) in
          let verdict : main_verdict auth o.main_updates ≡ ok p = ground (arith, with_main, s2) in
          let (kind, up, one, advances) =
            main_verdict-Advances auth ups (subst (λ x. main_verdict auth x ≡ ok p) mains verdict)
              all in
          subst (λ k. Allowed (document json) ups k absent) (sym kind)
            (main_push auth up same one advances)
    ]

operations-Allowed :
    (unlink : Removal) (file : AuthFile) (ups : List Update) (o : Operations) {p : Pass}
    {behind : AuthFile}
    → operations_of ups ≡ ok o
    → verify_operations unlink file o ≡ (ok p, behind)
    → Allowed file ups p behind
unfolding verify_operations
operations-Allowed unlink file ups o {p} {behind} h v =
    elim (Bool-cases (is_none_of o.main_updates && is_none_of o.remote_deletions)) [
      | inl calm ↦
          let same : ◌≡◌ {A = Either Problem Pass × AuthFile} (ok ordinary, file) (ok p, behind) =
            ground (arith, calm, v) in
          subst (λ x. Allowed file ups x.0 x.1) (passed-injective same)
            (ordinary_push (
              calm_only ups h (is_none_of-nil o.main_updates (ground (arith, calm)))
                (is_none_of-nil o.remote_deletions (ground (arith, calm)))))
      | inr busy ↦
          let checked : consumed unlink file (check_mixed o >> sensitive file o) ≡ (ok p, behind) =
            ground (arith, busy, v) in
          let (passed, gone) =
            consumed-eq-ok unlink file (check_mixed o >> sensitive file o) checked in
          subst (Allowed file ups p) gone (sensitive-Allowed file ups o h busy passed)
    ]

updates-Allowed :
    (unlink : Removal) (file : AuthFile) (ups : List Update) {p : Pass} {behind : AuthFile}
    → verify_updates unlink file ups ≡ (ok p, behind)
    → Allowed file ups p behind
unfolding verify_updates
updates-Allowed unlink file [] {p} {behind} v =
    subst (λ x. Allowed file [] x.0 x.1) (passed-injective v) (nothing refl)
updates-Allowed unlink file (up ∷ ups) v = elim (Result-cases (operations_of (up ∷ ups))) [
  | inl (why, e) ↦ absurd (ground (arith, e, v))
  | inr (o, e) ↦ operations-Allowed unlink file (up ∷ ups) o e (ground (arith, e, v))
]

-- Where a push passes, its lines are updates, and with them one of these holds: there are none; all
-- are ordinary, and the authorisation is kept; the one update moves main from and to the commits
-- that the authorisation names, or all are deletions of other branches, which together are exactly
-- those that the authorisation names with their hashes, and then the authorisation is gone.
pub push-Allowed :
    (unlink : Removal) (file : AuthFile) (lines : List Text) (p : Pass) (behind : AuthFile)
    → verify_push unlink file lines ≡ (ok p, behind)
    → (ups : List Update) × (updates_of lines ≡ ok ups) × Allowed file ups p behind
unfolding verify_push
push-Allowed unlink file lines p behind v = elim (Result-cases (updates_of lines)) [
  | inl (why, e) ↦ absurd (ground (arith, e, v))
  | inr (ups, e) ↦ (ups, e, updates-Allowed unlink file ups (ground (arith, e, v)))
]
