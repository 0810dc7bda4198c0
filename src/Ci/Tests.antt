-- ===== src/Ci/Tests.antt =====
-- A run of `ci-status` of scripts/verification_primitives.py with fixed answers, and the theorems at
-- it.
use hh_ai_v.Base.{
  ℕ, zero, suc, ◌≡◌, ◌↔◌, ◌≤◌, refl, Text, Option, none, some, List, [], ◌∷◌, codes, text_eq,
  is_oid, is_hex, in_range, split_on, strip_prefix?, strip, is_space,
}
use hh_ai_v.Json.{
  Json, null, string, array, object, no_items, item, Fields, no_fields, field, lookup, get_field,
  as_object, as_array, items_of, equals_text, objects_of,
}
use hh_ai_v.Ci.Transport.{
  response, http_error, Request, is_bounded, is_transient, is_limited, delay_of, retry_delay,
  retried, after_reply, get_body,
}
use hh_ai_v.Ci.Poll.{
  Arguments, pass, is_api_base, is_repo, is_blank, is_branch, are_job_names, check_arguments, Query,
  runs_of, jobs_of, World, Result, get_json, list_at, is_match, matching_runs, is_completed, picked,
  attempt_runs, next_attempt, poll,
}
use hh_ai_v.Ci.Status.{
  reported, with_id, completed_run, job_info, jobs_named, jobs_dict, is_job_ok, all_jobs_ok,
  final_result, judge, watch, ci_status,
}
use hh_ai_v.Ci.Green.{Green}
use hh_ai_v.Ci.Report.{ci_status-InRange, ci_status-Green}
use hh_ai_v.Ci.Retries.{Served, get_body-Served}

abbrev repeated : ℕ → ℕ → Text
repeated zero c = []
repeated (suc n) c = c ∷ repeated n c

abbrev arguments : Arguments
arguments = record {
  api_base = codes "https://api.github.com";
  repo = codes "owner/name";
  head_sha = repeated 40 b'a';
  branch = codes "main";
  required_jobs = codes "test" ∷ [];
  max_attempts = 2;
  interval_seconds = 0;
  event = codes "push";
  workflow_name = codes "Verify";
}

-- a completed success with this name
abbrev success_of : Text → Fields → Fields
success_of name rest = field (codes "name") (string name) (
    field (codes "status") (string (codes "completed"))
      (field (codes "conclusion") (string (codes "success")) rest))

abbrev run : Fields
run = success_of (codes "Verify") (
    field (codes "head_sha") (string (repeated 40 b'a')) (
      field (codes "head_branch") (string (codes "main")) (
        field (codes "event") (string (codes "push"))
          (field (codes "id") (string (codes "7")) no_fields))))

abbrev listing : Text → Fields → Json
listing key value = object (field key (array (item (object value) no_items)) no_fields)

-- The first request of a query meets a busy server; the second one is answered.
abbrev serve : Query → ℕ → Request
serve query zero = record { before = 0; reply = http_error 503 none none; after = 20 }
serve (runs_of n) (suc i) = record { before = 120; reply = response (0 ∷ []); after = 150 }
serve (jobs_of id) (suc i) = record { before = 120; reply = response (1 ∷ []); after = 150 }

abbrev loads : List ℕ → Option Json
loads (zero ∷ []) = some (listing (codes "workflow_runs") run)
loads (suc n ∷ []) = some (listing (codes "jobs") (success_of (codes "test") no_fields))
loads body = none

abbrev world : World
world = record { serve = λ a query. serve query; loads = loads }

abbrev result : Result
result = record {
  status = pass;
  reason = none;
  attempts_used = 1;
  run_id = string (codes "7");
  run_attempt = null;
  run_status = string (codes "completed");
  run_conclusion = string (codes "success");
  jobs = some ((codes "test", some (string (codes "success"), string (codes "completed"))) ∷ []);
}

passes : ci_status world arguments ≡ reported result
unfolding ci_status check_arguments is_api_base is_repo is_branch is_blank are_job_names is_oid
    is_hex in_range text_eq split_on strip_prefix? strip is_space watch poll attempt_runs get_json
    get_body after_reply retried retry_delay is_bounded is_transient is_limited delay_of as_object
    list_at lookup as_array items_of matching_runs is_match equals_text get_field objects_of picked
    next_attempt is_completed completed_run with_id judge jobs_dict job_info jobs_named final_result
    all_jobs_ok is_job_ok
passes = refl

ci_status-InRange_example : (1 ≤ 1) × (1 ≤ 2) × (2 ≤ 60)
ci_status-InRange_example = ci_status-InRange world arguments result passes

ci_status-Green_example : Green world arguments result
ci_status-Green_example = ci_status-Green world arguments result passes refl

get_body-Served_example :
    (get_body (serve (runs_of 1)) 0 3 ≡ some (0 ∷ [])) ↔ Served (serve (runs_of 1)) 0 3 (0 ∷ [])
get_body-Served_example = get_body-Served (serve (runs_of 1)) (0 ∷ [])
