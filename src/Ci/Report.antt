-- ===== src/Ci/Report.antt =====
-- scripts/verification_primitives.py: what `ci-status` reports.
use mathlib.Core.Path.{subst}
use hh_ai_v.Base.{
  ℕ, zero, suc, ◌≤◌, ◌≡◌, ◌≢◌, refl, sym, ap, ◌∙◌, ◌⊎◌, inl, inr, ◌&&◌, leb, Text, Option, none,
  some, List, [], ◌∷◌, arith, Either, ok, stop, ok-injective, stop-injective, >>=-eq-ok,
  >>=-eq-stop, require-eq-ok, codes, Result-cases, Bool-cases, &&-eq-true, is_oid, require,
}
use hh_ai_v.Json.{Json, null, Fields, get_field}
use hh_ai_v.Ci.Poll.{
  Arguments, invalid_api_base, invalid_head_sha, invalid_argument, invalid_response,
  ci_pending_timeout, ambiguous_jobs, Status, pass, unable, check_arguments, jobs_of, World, Result,
  or_stop, list_at, get_json, poll, is_completed, is_api_base, is_repo, is_branch, are_job_names,
}
use hh_ai_v.Ci.Status.{
  Run, Outcome, reported, stopped_run, with_id, completed_run, job_info, jobs_named, jobs_dict,
  final_result, judge, watch, ci_status,
}
use hh_ai_v.Ci.Green.{completed_run-eq-ok, Green}
use hh_ai_v.Ci.Verdict.{watch-Green}
use hh_ai_v.Ci.Bounds.{
  StopsAt, or_stop-StopsAt, get_json-StopsAt, poll-Used, poll-started, poll-stop,
}

with_id-StopsAt :
    (n : ℕ) (run : Fields) (id : Json) {r : Result} → with_id n run id ≡ stop r → StopsAt n r
unfolding with_id stopped_run
with_id-StopsAt n run null h = subst (StopsAt n) (stop-injective h) (refl, refl)
with_id-StopsAt n run (Json.boolean b) h = absurd (ground arith)
with_id-StopsAt n run (Json.integer b) h = absurd (ground arith)
with_id-StopsAt n run (Json.real b) h = absurd (ground arith)
with_id-StopsAt n run (Json.string b) h = absurd (ground arith)
with_id-StopsAt n run (Json.array b) h = absurd (ground arith)
with_id-StopsAt n run (Json.object b) h = absurd (ground arith)

completed_run-StopsAt :
    (n : ℕ) (o : Option Fields) {r : Result} → completed_run (n, o) ≡ stop r → StopsAt n r
unfolding completed_run stopped_run
completed_run-StopsAt n none h = subst (StopsAt n) (stop-injective h) (refl, refl)
completed_run-StopsAt n (some run) {r} h = elim (Bool-cases (is_completed run)) [
  | inl e ↦
      let early : with_id n run (get_field (codes "id") run) ≡ stop r = ground (arith, e) in
      with_id-StopsAt n run (get_field (codes "id") run) early
  | inr e ↦
      let late : ◌≡◌ {A = Either Result Run}
          (stop (stopped_run ci_pending_timeout n (get_field (codes "id") run) run)) (stop r) =
        ground (arith, e) in
      subst (StopsAt n) (stop-injective late) (refl, refl)
]

job_info-StopsAt :
    (n : ℕ) (matched : List Fields) (problem : Result) {r : Result}
    → job_info matched problem ≡ stop r
    → StopsAt n problem
    → StopsAt n r
unfolding job_info
job_info-StopsAt n [] problem h e = absurd (ground arith)
job_info-StopsAt n (job ∷ []) problem h e = absurd (ground arith)
job_info-StopsAt n (job ∷ (other ∷ more)) problem h e = subst (StopsAt n) (stop-injective h) e

jobs_dict-StopsAt :
    (n : ℕ) (jobs : List Json) (problem : Result) (names : List Text) {r : Result}
    → jobs_dict jobs problem names ≡ stop r
    → StopsAt n problem
    → StopsAt n r
unfolding jobs_dict
jobs_dict-StopsAt n jobs problem [] h e = absurd (ground arith)
jobs_dict-StopsAt n jobs problem (name ∷ names) h e =
    elim (>>=-eq-stop (job_info (jobs_named name jobs) problem) _ h) [
      | inl s ↦ job_info-StopsAt n (jobs_named name jobs) problem s e
      | inr (info, one, h1) ↦ elim (>>=-eq-stop (jobs_dict jobs problem names) _ h1) [
        | inl s ↦ jobs_dict-StopsAt n jobs problem names s e
        | inr (infos, rest, h2) ↦ absurd (ground arith)
      ]
    ]

judge-StopsAt :
    (w : World) (a : Arguments) (run : Run) {r : Result}
    → judge w a run ≡ stop r
    → StopsAt run.attempts r
unfolding judge stopped_run
judge-StopsAt w a run h =
    elim (>>=-eq-stop (get_json w a (jobs_of run.id) run.attempts run.id) _ h) [
      | inl s ↦ get_json-StopsAt w a (jobs_of run.id) run.attempts run.id s
      | inr (answer, e1, h1) ↦
          elim (>>=-eq-stop
            (or_stop (list_at (codes "jobs") answer)
              (stopped_run invalid_response run.attempts run.id run.fields))
            _ h1) [
              | inl s ↦ or_stop-StopsAt _ _ run.attempts s (refl, refl)
              | inr (jobs, e2, h2) ↦
                  elim (>>=-eq-stop
                    (jobs_dict jobs (stopped_run ambiguous_jobs run.attempts run.id run.fields)
                      a.required_jobs)
                    _ h2) [
                      | inl s ↦ jobs_dict-StopsAt run.attempts jobs _ a.required_jobs s (refl, refl)
                      | inr (infos, e3, h3) ↦ absurd (ground arith)
                    ]
            ]
    ]

judge-attempts :
    (w : World) (a : Arguments) (run : Run) {r : Result}
    → judge w a run ≡ ok r
    → r.attempts_used ≡ run.attempts
unfolding judge final_result
judge-attempts w a run h =
    let (answer, e1, h1) = >>=-eq-ok (get_json w a (jobs_of run.id) run.attempts run.id) _ h in
    let (jobs, e2, h2) =
      >>=-eq-ok
        (or_stop (list_at (codes "jobs") answer)
          (stopped_run invalid_response run.attempts run.id run.fields))
        _ h1 in
    let (infos, e3, h3) =
      >>=-eq-ok
        (jobs_dict jobs (stopped_run ambiguous_jobs run.attempts run.id run.fields) a.required_jobs)
        _ h2 in
    sym (ap (λ x. x.attempts_used) (ok-injective h3))

reported-injective : {x y : Result} → ◌≡◌ {A = Outcome} (reported x) (reported y) → x ≡ y
reported-injective h = cc

unable≢pass : ◌≢◌ {A = Status} unable pass
unable≢pass h = cc

-- the attempts of a result, between the first one and the last one allowed
abbrev InRange : ℕ → Result → Type 0
InRange limit r = (1 ≤ r.attempts_used) × (r.attempts_used ≤ limit)

InRange-of : (n limit : ℕ) (r : Result) → 1 ≤ n → n ≤ limit → r.attempts_used ≡ n → InRange limit r
InRange-of n limit r low high e = (omega (arith, low, e), omega (arith, high, e))

module _ (w : World) (a : Arguments) where
  -- the attempts of the loop, at most `limit`
  poll-InRange :
      (limit : ℕ) {m : ℕ} {o : Option Fields}
      → 1 ≤ limit
      → poll w a 0 limit none ≡ ok (m, o)
      → (1 ≤ m) × (m ≤ limit)
  poll-InRange zero l h = absurd (omega (arith, l))
  poll-InRange (suc left) {m} {o} l h =
      let (low, high) = poll-Used w a 0 (suc left) none {m = m} {o = o} h in
      (poll-started w a left none {m = m} {o = o} h, omega (arith, high))

  watch-stop :
      {r : Result}
      → 1 ≤ a.max_attempts
      → watch w a ≡ stop r
      → InRange a.max_attempts r × (r.status ≡ unable)
  unfolding watch
  watch-stop {r} l h = elim (>>=-eq-stop (poll w a 0 a.max_attempts none) _ h) [
    | inl s ↦
        let (low, high, status) = poll-stop w a 0 a.max_attempts none s in
        ((omega (arith, low), omega (arith, high)), status)
    | inr (last, polled, h1) ↦
        let (low, high) = poll-InRange a.max_attempts {m = last.0} {o = last.1} l polled in
        elim (>>=-eq-stop (completed_run last) _ h1) [
          | inl s ↦
              let (same, status) = completed_run-StopsAt last.0 last.1 s in
              (InRange-of last.0 a.max_attempts r low high same, status)
          | inr (run, ended, h2) ↦
              let (fields, e1, e2, attempts, e3, e4) = completed_run-eq-ok last.0 last.1 ended in
              let (same, status) = judge-StopsAt w a run h2 in
              (InRange-of last.0 a.max_attempts r low high (same ∙ attempts), status)
        ]
  ]

  watch-ok : {r : Result} → 1 ≤ a.max_attempts → watch w a ≡ ok r → InRange a.max_attempts r
  unfolding watch
  watch-ok {r} l h =
      let (last, polled, h1) = >>=-eq-ok (poll w a 0 a.max_attempts none) _ h in
      let (run, ended, h2) = >>=-eq-ok (completed_run last) _ h1 in
      let (low, high) = poll-InRange a.max_attempts {m = last.0} {o = last.1} l polled in
      let (fields, e1, e2, attempts, e3, e4) = completed_run-eq-ok last.0 last.1 ended in
      InRange-of last.0 a.max_attempts r low high (judge-attempts w a run h2 ∙ attempts)

check_arguments-attempts :
    (a : Arguments) → check_arguments a ≡ ok tt → (1 ≤ a.max_attempts) × (a.max_attempts ≤ 60)
unfolding check_arguments
check_arguments-attempts a h =
    let (e1, h1) = require-eq-ok (is_api_base a.api_base) invalid_api_base _ h in
    let (e2, h2) = require-eq-ok (is_oid a.head_sha) invalid_head_sha _ h1 in
    let (e3, h3) = require-eq-ok (is_repo a.repo) invalid_argument _ h2 in
    let (e4, h4) = require-eq-ok (is_branch a.branch) invalid_argument _ h3 in
    let (e5, h5) = require-eq-ok (are_job_names a.required_jobs) invalid_argument _ h4 in
    let (e6, h6) =
      require-eq-ok (leb 1 a.max_attempts && leb a.max_attempts 60) invalid_argument
        (require (leb a.interval_seconds 60) invalid_argument) h5 in
    let (low, high) = &&-eq-true (leb 1 a.max_attempts) (leb a.max_attempts 60) e6 in
    (ground (arith, low), ground (arith, high))

-- the steps of `ci_status` where the arguments are in order
ci_status-checked :
    (w : World) (a : Arguments) {r : Result}
    → ci_status w a ≡ reported r
    → (check_arguments a ≡ ok tt) × ((watch w a ≡ stop r) ⊎ (watch w a ≡ ok r))
unfolding ci_status
ci_status-checked w a {r} h = elim (Result-cases (check_arguments a)) [
  | inl (why, e) ↦ absurd (ground (arith, e))
  | inr (u, e) ↦ (
    e,
    elim (Result-cases (watch w a)) [
      | inl (s, e2) ↦
          let same : ◌≡◌ {A = Outcome} (reported s) (reported r) = ground (arith, e, e2) in
          inl (e2 ∙ ap stop (reported-injective same))
      | inr (s, e2) ↦
          let same : ◌≡◌ {A = Outcome} (reported s) (reported r) = ground (arith, e, e2) in
          inr (e2 ∙ ap ok (reported-injective same))
    ],
  )
]

-- Whenever a result is reported, as a PASS or not, at least one attempt has been made and no more
-- than the arguments allow, which is 60 at most.
pub ci_status-InRange :
    (w : World) (a : Arguments) (r : Result)
    → ci_status w a ≡ reported r
    → (1 ≤ r.attempts_used) × (r.attempts_used ≤ a.max_attempts) × (a.max_attempts ≤ 60)
ci_status-InRange w a r h =
    let (checked, watched) = ci_status-checked w a h in
    let (low, high) = check_arguments-attempts a checked in
    elim watched [
      | inl s ↦ let ((first, last), status) = watch-stop w a low s in (first, last, high)
      | inr s ↦ let (first, last) = watch-ok w a low s in (first, last, high)
    ]

-- Where PASS is reported, the last attempt's answer lists exactly one run for the workflow, the
-- commit, the branch and the event asked for; this run is completed and successful, its id is
-- reported, and among its jobs each required name belongs to exactly one, which is completed and
-- successful.
pub ci_status-Green :
    (w : World) (a : Arguments) (r : Result)
    → ci_status w a ≡ reported r
    → r.status ≡ pass
    → Green w a r
ci_status-Green w a r h good =
    let (checked, watched) = ci_status-checked w a h in
    elim watched [
      | inl s ↦
          let (low, high) = check_arguments-attempts a checked in
          let (range, status) = watch-stop w a low s in absurd (unable≢pass (sym status ∙ good))
      | inr s ↦ watch-Green w a s good
    ]
