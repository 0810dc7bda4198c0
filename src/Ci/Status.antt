-- ===== src/Ci/Status.antt =====
-- scripts/verification_primitives.py: `cmd_ci_status`.
use hh_ai_v.Base.{
  ℕ, Bool, false, ◌&&◌, Text, Option, none, some, List, [], ◌∷◌, Either, ok, stop, ◌>>=◌,
  if◌then◌else◌, all, filter, codes,
}
use hh_ai_v.Json.{Json, null, Fields, get_field, equals_text, objects_of}
use hh_ai_v.Ci.Poll.{
  Arguments, Problem, invalid_response, ci_pending_timeout, ambiguous_jobs, pass, candidate_invalid,
  check_arguments, jobs_of, World, Result, unable_result, or_stop, get_json, list_at, is_completed,
  poll,
}

-- `emit_unable` for the arguments, or `emit_result`
pub data Outcome : Type 0 where
  refused : Problem → Outcome
  reported : Result → Outcome

-- a run that is completed and has an id
pub record Run : Type 0 where
  pub attempts : ℕ
  pub fields : Fields
  pub id : Json

run_field : Fields → Text → Json
run_field run key = get_field key run

-- `emit_result` for a run, with the status UNABLE
unfoldable pub stopped_run : Problem → ℕ → Json → Fields → Result
unfolding run_field
stopped_run why attempts id run =
    unable_result why attempts id (run_field run (codes "run_attempt"))
      (run_field run (codes "status")) (run_field run (codes "conclusion"))

unfoldable pub with_id : ℕ → Fields → Json → Either Result Run
with_id attempts run null = stop (stopped_run invalid_response attempts null run)
with_id attempts run id = ok (record { attempts = attempts; fields = run; id = id })

-- what follows the loop, up to the test of the id
unfoldable pub completed_run : ℕ × Option Fields → Either Result Run
completed_run (attempts, none) =
    stop (unable_result ci_pending_timeout attempts null null null null)
completed_run (attempts, some run) =
    let id = get_field (codes "id") run in
    if is_completed run
    then with_id attempts run id
    else stop (stopped_run ci_pending_timeout attempts id run)

-- a required job: its conclusion and its status, or `none` where no job has the name
abbrev pub JobInfo : Type 0
JobInfo = Option (Json × Json)

-- the one job that matches
unfoldable pub job_info : List Fields → Result → Either Result JobInfo
job_info [] problem = ok none
job_info (job ∷ []) problem =
    ok (some (get_field (codes "conclusion") job, get_field (codes "status") job))
job_info _ problem = stop problem

unfoldable pub jobs_named : Text → List Json → List Fields
jobs_named name jobs =
    filter (λ job. equals_text (get_field (codes "name") job) name) (objects_of jobs)

-- `jobs_dict` for the required names
unfoldable pub jobs_dict : List Json → Result → List Text → Either Result (List (Text × JobInfo))
jobs_dict jobs problem [] = ok []
jobs_dict jobs problem (name ∷ names) = do
  info ← job_info (jobs_named name jobs) problem
  infos ← jobs_dict jobs problem names
  ok ((name, info) ∷ infos)

unfoldable pub is_job_ok : JobInfo → Bool
is_job_ok none = false
is_job_ok (some (conclusion, state)) =
    equals_text state (codes "completed") && equals_text conclusion (codes "success")

-- `all_jobs_ok`
unfoldable pub all_jobs_ok : List (Text × JobInfo) → Bool
all_jobs_ok infos = all (λ entry. is_job_ok entry.1) infos

unfoldable pub final_result : Run → List (Text × JobInfo) → Result
final_result run infos =
    let conclusion = get_field (codes "conclusion") run.fields in
    record {
      status =
          (if equals_text conclusion (codes "success") && all_jobs_ok infos
            then pass
            else candidate_invalid);
      reason = none;
      attempts_used = run.attempts;
      run_id = run.id;
      run_attempt = get_field (codes "run_attempt") run.fields;
      run_status = get_field (codes "status") run.fields;
      run_conclusion = conclusion;
      jobs = some infos;
    }

unfoldable pub judge : World → Arguments → Run → Either Result Result
judge w a run = do
  jobs_data ← get_json w a (jobs_of run.id) run.attempts run.id
  jobs ←
      or_stop (list_at (codes "jobs") jobs_data)
        (stopped_run invalid_response run.attempts run.id run.fields)
  infos ← jobs_dict jobs (stopped_run ambiguous_jobs run.attempts run.id run.fields) a.required_jobs
  ok (final_result run infos)

unfoldable pub watch : World → Arguments → Either Result Result
watch w a = do last ← poll w a 0 a.max_attempts none; run ← completed_run last; judge w a run

abbrev pub reported_of : Either Result Result → Outcome
reported_of (stop r) = reported r
reported_of (ok r) = reported r

unfoldable pub ci_status : World → Arguments → Outcome
ci_status w a = elim (check_arguments a) [ stop why ↦ refused why | ok u ↦ reported_of (watch w a) ]
