-- ===== src/Ci/Verdict.antt =====
-- scripts/verification_primitives.py: a PASS of `ci-status`, from its report back to the answers.
use mathlib.Core.Path.{subst}
use hh_ai_v.Base.{
  ◌≡◌, sym, ap, ◌∙◌, true, Text, none, some, List, ok, ok-injective, >>=-eq-ok, codes,
}
use hh_ai_v.Json.{Json, string, Fields, get_field, equals_text_iff}
use hh_ai_v.Ci.Poll.{
  Arguments, pass, jobs_of, World, Result, or_stop, get_json, list_at, is_completed, poll,
  invalid_response, ambiguous_jobs,
}
use hh_ai_v.Ci.Status.{
  Run, stopped_run, completed_run, JobInfo, jobs_dict, final_result, judge, watch,
}
use hh_ai_v.Ci.Green.{
  Picked, Green, or_stop-eq-ok, From, poll-From, completed_run-eq-ok, jobs_dict-JobPassed,
  final_result-pass,
}

-- What a run that was judged has shown, besides what the report says.
record Judged (w : World) (a : Arguments) (run : Run) (r : Result) : Type 0 where
  pub answer : Fields
  pub jobs : List Json
  pub infos : List (Text × JobInfo)
  pub answered : get_json w a (jobs_of run.id) run.attempts run.id ≡ ok answer
  pub listed : list_at (codes "jobs") answer ≡ some jobs
  pub read :
      jobs_dict jobs (stopped_run ambiguous_jobs run.attempts run.id run.fields) a.required_jobs
      ≡ ok infos
  pub same : final_result run infos ≡ r

judge-Judged :
    (w : World) (a : Arguments) (run : Run) {r : Result} → judge w a run ≡ ok r → Judged w a run r
unfolding judge
judge-Judged w a run h =
    let (answer, answered, h1) =
      >>=-eq-ok (get_json w a (jobs_of run.id) run.attempts run.id) _ h in
    let (jobs, listed, h2) =
      >>=-eq-ok
        (or_stop (list_at (codes "jobs") answer)
          (stopped_run invalid_response run.attempts run.id run.fields))
        _ h1 in
    let (infos, read, h3) =
      >>=-eq-ok
        (jobs_dict jobs (stopped_run ambiguous_jobs run.attempts run.id run.fields) a.required_jobs)
        _ h2 in
    record {
      answer = answer;
      jobs = jobs;
      infos = infos;
      answered = answered;
      listed = or_stop-eq-ok _ _ listed;
      read = read;
      same = ok-injective h3;
    }

is_completed-status :
    (run : Fields)
    → is_completed run ≡ true
    → get_field (codes "status") run ≡ string (codes "completed")
unfolding is_completed
is_completed-status run h =
    (equals_text_iff (get_field (codes "status") run) (codes "completed")).0 h

pub watch-Green :
    (w : World) (a : Arguments) {r : Result} → watch w a ≡ ok r → r.status ≡ pass → Green w a r
unfolding watch From
watch-Green w a {r} h good =
    let (last, polled, h1) = >>=-eq-ok (poll w a 0 a.max_attempts none) _ h in
    let (run, ended, h2) = >>=-eq-ok (completed_run last) _ h1 in
    let (fields, selected, completed, attempts, is_fields, is_id) =
      completed_run-eq-ok last.0 last.1 ended in
    let origin : Picked w a last.0 fields =
      subst (From w a last.0) selected (poll-From w a 0 a.max_attempts none tt polled) in
    let j = judge-Judged w a run h2 in
    let (success, jobs_ok) = final_result-pass run j.infos (ap (λ x. x.status) j.same ∙ good) in
    let used : run.attempts ≡ r.attempts_used =
      unfold final_result in ap (λ x. x.attempts_used) j.same in
    let id : run.id ≡ r.run_id = unfold final_result in ap (λ x. x.run_id) j.same in
    record {
      run = fields;
      picked_run = subst (λ n. Picked w a n fields) (sym attempts ∙ used) origin;
      completed = is_completed-status fields completed;
      succeeded = ap (get_field (codes "conclusion")) (sym is_fields) ∙ success;
      has_id = sym is_id ∙ id;
      answer = j.answer;
      jobs = j.jobs;
      answered =
          subst (λ n. get_json w a (jobs_of r.run_id) n r.run_id ≡ ok j.answer) used
            (subst (λ i. get_json w a (jobs_of i) run.attempts i ≡ ok j.answer) id j.answered);
      listed = j.listed;
      all_passed = jobs_dict-JobPassed j.jobs _ a.required_jobs j.read jobs_ok;
    }
