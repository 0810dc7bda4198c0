-- ===== src/Ci/Green.antt =====
-- scripts/verification_primitives.py: what a PASS of `ci-status` has seen.
use mathlib.Core.Path.{subst}
use mathlib.Core.Bool.{false≢true}
use mathlib.Core.Option.{some-injective}
use hh_ai_v.Base.{
  ℕ, zero, suc, ◌+◌, ◌≡◌, refl, sym, ap, ◌∙◌, ◌⊎◌, inl, inr, true, ◌&&◌, Text, Option, none, some,
  List, [], ◌∷◌, arith, Either, ok, ok-injective, >>=-eq-ok, All, codes, Bool-cases, &&-eq-true,
}
use hh_ai_v.Json.{Json, null, string, Fields, get_field, equals_text, equals_text_iff}
use hh_ai_v.Ci.Poll.{
  Arguments, runs_of, jobs_of, World, Result, or_stop, get_json, list_at, matching_runs,
  is_completed, picked, attempt_runs, next_attempt, poll, pass, no_run, invalid_response,
}
use hh_ai_v.Ci.Status.{
  Run, with_id, completed_run, JobInfo, job_info, jobs_named, jobs_dict, is_job_ok, all_jobs_ok,
  final_result,
}

-- the run is the only one that the answer to this attempt lists for the arguments
pub record Picked (w : World) (a : Arguments) (attempts : ℕ) (run : Fields) : Type 0 where
  pub answer : Fields
  pub runs : List Json
  pub answered : get_json w a (runs_of attempts) attempts null ≡ ok answer
  pub listed : list_at (codes "workflow_runs") answer ≡ some runs
  pub single : matching_runs a runs ≡ run ∷ []

-- the only job with this name is completed and successful
pub record JobPassed (jobs : List Json) (name : Text) : Type 0 where
  pub job : Fields
  pub single : jobs_named name jobs ≡ job ∷ []
  pub completed : get_field (codes "status") job ≡ string (codes "completed")
  pub succeeded : get_field (codes "conclusion") job ≡ string (codes "success")

-- What a PASS has seen.
pub record Green (w : World) (a : Arguments) (r : Result) : Type 0 where
  pub run : Fields
  pub picked_run : Picked w a r.attempts_used run
  pub completed : get_field (codes "status") run ≡ string (codes "completed")
  pub succeeded : get_field (codes "conclusion") run ≡ string (codes "success")
  pub has_id : get_field (codes "id") run ≡ r.run_id
  pub answer : Fields
  pub jobs : List Json
  pub answered : get_json w a (jobs_of r.run_id) r.attempts_used r.run_id ≡ ok answer
  pub listed : list_at (codes "jobs") answer ≡ some jobs
  pub all_passed : All (JobPassed jobs) a.required_jobs

pub or_stop-eq-ok {ℓ} :
    {A : Type ℓ} (o : Option A) (r : Result) {x : A} → or_stop o r ≡ ok x → o ≡ some x
or_stop-eq-ok none r h = absurd (ground arith)
or_stop-eq-ok (some y) r h = ap some (ok-injective h)

picked-single :
    (n : ℕ) (runs : List Fields) {run : Fields} → picked n runs ≡ ok (some run) → runs ≡ run ∷ []
unfolding picked
picked-single n [] h = absurd (ground arith)
picked-single n (x ∷ []) {run} h = ap (λ y. y ∷ []) (some-injective x run (ok-injective h))
picked-single n (x ∷ (y ∷ runs)) h = absurd (ground arith)

-- An attempt ends the loop, or the loop goes on.
pub next_attempt-cases :
    (n : ℕ) (run : Option Fields) (rest : Either Result (ℕ × Option Fields)) {p : ℕ × Option Fields}
    → next_attempt n run rest ≡ ok p
    → (rest ≡ ok p) ⊎ ((n, run) ≡ p)
unfolding next_attempt
next_attempt-cases n none rest h = inl h
next_attempt-cases n (some run) rest {p = p} h = elim (Bool-cases (is_completed run)) [
  | inl e ↦
      let same : ◌≡◌ {A = Either Result (ℕ × Option Fields)} (ok (n, some run)) (ok p) =
        ground (arith, e) in
      inr (ok-injective same)
  | inr e ↦ inl (ground (arith, e))
]

module _ (w : World) (a : Arguments) where
  -- where the selected run comes from, if there is one
  unfoldable pub From : ℕ → Option Fields → Type 0
  From attempts none = Unit
  From attempts (some run) = Picked w a attempts run

  attempt_runs-Picked : (n : ℕ) (o : Option Fields) → attempt_runs w a n ≡ ok o → From n o
  unfolding attempt_runs From
  attempt_runs-Picked n none h = tt
  attempt_runs-Picked n (some run) h =
      let (answer, answered, h1) = >>=-eq-ok (get_json w a (runs_of n) n null) _ h in
      let (runs, listed, h2) =
        >>=-eq-ok
          (or_stop (list_at (codes "workflow_runs") answer) (no_run invalid_response n null)) _
          h1 in
      record {
        answer = answer;
        runs = runs;
        answered = answered;
        listed = or_stop-eq-ok _ _ listed;
        single = picked-single n (matching_runs a runs) h2;
      }

  pub poll-From :
      (n left : ℕ) (selected : Option Fields) {m : ℕ} {o : Option Fields}
      → From n selected
      → poll w a n left selected ≡ ok (m, o)
      → From m o
  unfolding poll
  poll-From n zero selected {m} {o} f h = subst (λ p. From p.0 p.1) (ok-injective h) f
  poll-From n (suc left) selected {m} {o} f h =
      let (run, r, k) = >>=-eq-ok (attempt_runs w a (n + 1)) _ h in
      elim (next_attempt-cases (n + 1) run _ k) [
        | inl more ↦
            poll-From (n + 1) left run {m = m} {o = o} (attempt_runs-Picked (n + 1) run r) more
        | inr ended ↦ subst (λ p. From p.0 p.1) ended (attempt_runs-Picked (n + 1) run r)
      ]

with_id-eq-ok :
    (n : ℕ) (run : Fields) (id : Json) {r : Run}
    → with_id n run id ≡ ok r
    → (r.attempts ≡ n) × (r.fields ≡ run) × (r.id ≡ id)
unfolding with_id
with_id-eq-ok n run null h = absurd (ground arith)
with_id-eq-ok n run (Json.boolean b) h =
    let e = sym (ok-injective h) in (ap (λ x. x.attempts) e, ap (λ x. x.fields) e, ap (λ x. x.id) e)
with_id-eq-ok n run (Json.integer b) h =
    let e = sym (ok-injective h) in (ap (λ x. x.attempts) e, ap (λ x. x.fields) e, ap (λ x. x.id) e)
with_id-eq-ok n run (Json.real b) h =
    let e = sym (ok-injective h) in (ap (λ x. x.attempts) e, ap (λ x. x.fields) e, ap (λ x. x.id) e)
with_id-eq-ok n run (string b) h =
    let e = sym (ok-injective h) in (ap (λ x. x.attempts) e, ap (λ x. x.fields) e, ap (λ x. x.id) e)
with_id-eq-ok n run (Json.array b) h =
    let e = sym (ok-injective h) in (ap (λ x. x.attempts) e, ap (λ x. x.fields) e, ap (λ x. x.id) e)
with_id-eq-ok n run (Json.object b) h =
    let e = sym (ok-injective h) in (ap (λ x. x.attempts) e, ap (λ x. x.fields) e, ap (λ x. x.id) e)

pub completed_run-eq-ok :
    (n : ℕ) (o : Option Fields) {r : Run}
    → completed_run (n, o) ≡ ok r
    → (run : Fields) × (o ≡ some run)
      × (is_completed run ≡ true)
      × (r.attempts ≡ n)
      × (r.fields ≡ run)
      × (r.id ≡ get_field (codes "id") run)
unfolding completed_run
completed_run-eq-ok n none h = absurd (ground arith)
completed_run-eq-ok n (some run) h = elim (Bool-cases (is_completed run)) [
  | inr e ↦ absurd (ground (arith, e))
  | inl e ↦
      let (same, fields, id) =
        with_id-eq-ok n run (get_field (codes "id") run) (ground (arith, e)) in
      (run, refl, e, same, fields, id)
]

job_info-single :
    (matched : List Fields) (problem : Result) {info : JobInfo}
    → job_info matched problem ≡ ok info
    → is_job_ok info ≡ true
    → (job : Fields) × (matched ≡ job ∷ [])
      × (get_field (codes "status") job ≡ string (codes "completed"))
      × (get_field (codes "conclusion") job ≡ string (codes "success"))
unfolding job_info is_job_ok
job_info-single [] problem {info} h good =
    absurd (false≢true (ap is_job_ok (ok-injective h) ∙ good))
job_info-single (job ∷ []) problem {info} h good =
    let (state, conclusion) =
      &&-eq-true (equals_text (get_field (codes "status") job) (codes "completed")) _
        (ap is_job_ok (ok-injective h) ∙ good) in
    (
      job,
      refl,
      (equals_text_iff (get_field (codes "status") job) (codes "completed")).0 state,
      (equals_text_iff (get_field (codes "conclusion") job) (codes "success")).0 conclusion,
    )
job_info-single (job ∷ (other ∷ more)) problem h good = absurd (ground arith)

pub jobs_dict-JobPassed :
    (jobs : List Json) (problem : Result) (names : List Text) {infos : List (Text × JobInfo)}
    → jobs_dict jobs problem names ≡ ok infos
    → all_jobs_ok infos ≡ true
    → All (JobPassed jobs) names
unfolding jobs_dict all_jobs_ok
jobs_dict-JobPassed jobs problem [] h good = tt
jobs_dict-JobPassed jobs problem (name ∷ names) {infos} h good =
    let (info, one, h1) = >>=-eq-ok (job_info (jobs_named name jobs) problem) _ h in
    let (more, rest, h2) = >>=-eq-ok (jobs_dict jobs problem names) _ h1 in
    let (this_ok, more_ok) =
      &&-eq-true (is_job_ok info) (all_jobs_ok more) (ap all_jobs_ok (ok-injective h2) ∙ good) in
    let (job, single, completed, succeeded) =
      job_info-single (jobs_named name jobs) problem one this_ok in
    (
      record { job = job; single = single; completed = completed; succeeded = succeeded },
      jobs_dict-JobPassed jobs problem names rest more_ok,
    )

pub final_result-pass :
    (run : Run) (infos : List (Text × JobInfo))
    → (final_result run infos).status ≡ pass
    → (get_field (codes "conclusion") run.fields ≡ string (codes "success"))
      × (all_jobs_ok infos ≡ true)
unfolding final_result
final_result-pass run infos h =
    let both : (equals_text (get_field (codes "conclusion") run.fields) (codes "success")
          && all_jobs_ok infos)
        ≡ true =
      ground arith in
    let (success, jobs_ok) =
      &&-eq-true (equals_text (get_field (codes "conclusion") run.fields) (codes "success"))
        (all_jobs_ok infos) both in
    (
      (equals_text_iff (get_field (codes "conclusion") run.fields) (codes "success")).0 success,
      jobs_ok,
    )
