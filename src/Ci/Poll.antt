-- ===== src/Ci/Poll.antt =====
-- scripts/verification_primitives.py: the arguments of `cmd_ci_status`, its loop over the attempts
-- and the reading of the jobs.
use hh_ai_v.Base.{
  ℕ, zero, suc, ◌+◌, ◌==◌, leb, ltb, Bool, true, false, not, ◌&&◌, ◌||◌, Text, Option, none, some,
  List, [], ◌∷◌, Either, ok, stop, ◌>>=◌, ◌>>◌, require, if◌then◌else◌, all, any, filter, in_range,
  is_oid, is_space, codes, text_eq, strip_prefix?, strip, split_on, length,
}
use hh_ai_v.Json.{
  Json, null, Fields, get_field, as_object, as_array, lookup, equals_text, objects_of,
}
use hh_ai_v.Ci.Transport.{Request, get_body}

-- the arguments of the command
pub record Arguments : Type 0 where
  pub api_base : Text
  pub repo : Text
  pub head_sha : Text
  pub branch : Text
  pub required_jobs : List Text
  pub max_attempts : ℕ
  pub interval_seconds : ℕ
  pub event : Text
  pub workflow_name : Text

pub data Problem : Type 0 where
  invalid_api_base invalid_head_sha invalid_argument : Problem
  http_failure invalid_response ambiguous_runs ci_pending_timeout ambiguous_jobs : Problem

pub data Status : Type 0 where
  pass candidate_invalid unable : Status

-- `http://127\.0\.0\.1:[0-9]{1,5}`
is_local_api : Text → Bool
is_local_api base = elim (strip_prefix? (codes "http://127.0.0.1:") base) [
  | none ↦ false
  | some port ↦ leb 1 (length port) && leb (length port) 5 && all (in_range b'0' b'9') port
]

unfoldable pub is_api_base : Text → Bool
unfolding is_local_api
is_api_base base = text_eq base (codes "https://api.github.com") || is_local_api base

-- `[A-Za-z0-9_.-]`
is_repo_char : ℕ → Bool
is_repo_char c =
    in_range b'a' b'z' c
    || in_range b'A' b'Z' c
    || in_range b'0' b'9' c
    || c == b'_'
    || c == b'.'
    || c == b'-'

is_repo_part : Text → Bool
unfolding is_repo_char
is_repo_part [] = false
is_repo_part (c ∷ cs) = all is_repo_char (c ∷ cs)

-- `[A-Za-z0-9_.-]+/[A-Za-z0-9_.-]+`, whose parts hold no slash
are_repo_parts : List Text → Bool
are_repo_parts (owner ∷ (name ∷ [])) = is_repo_part owner && is_repo_part name
are_repo_parts _ = false

unfoldable pub is_repo : Text → Bool
unfolding are_repo_parts is_repo_part
is_repo repo = are_repo_parts (split_on b'/' repo)

unfoldable pub is_blank : Text → Bool
is_blank [] = true
is_blank (_ ∷ _) = false

unfoldable pub is_branch : Text → Bool
unfolding is_blank
is_branch branch =
    not (is_blank branch) && not (any (λ c. is_space c || ltb c 32 || c == 127) branch)

unfoldable pub are_job_names : List Text → Bool
unfolding is_blank
are_job_names [] = false
are_job_names (job ∷ jobs) = all (λ j. not (is_blank (strip j))) (job ∷ jobs)

unfoldable pub check_arguments : Arguments → Either Problem (Unit {0})
check_arguments a = do
  require (is_api_base a.api_base) invalid_api_base
  require (is_oid a.head_sha) invalid_head_sha
  require (is_repo a.repo) invalid_argument
  require (is_branch a.branch) invalid_argument
  require (are_job_names a.required_jobs) invalid_argument
  require (leb 1 a.max_attempts && leb a.max_attempts 60) invalid_argument
  require (leb a.interval_seconds 60) invalid_argument

-- what is asked for: the runs of an attempt, or the jobs of a run
pub data Query : Type 0 where
  runs_of : ℕ → Query
  jobs_of : Json → Query

-- What stands outside: the requests of a query (its URL is made from the arguments), and
-- `json.loads(body.decode("utf-8"))`.
pub record World : Type 0 where
  pub serve : Arguments → Query → ℕ → Request
  pub loads : List ℕ → Option Json

-- what is reported
pub record Result : Type 0 where
  pub status : Status
  pub reason : Option Problem
  pub attempts_used : ℕ
  pub run_id : Json
  pub run_attempt : Json
  pub run_status : Json
  pub run_conclusion : Json
  pub jobs : Option (List (Text × Option (Json × Json)))

-- `emit_result` with the status UNABLE and no jobs
abbrev pub unable_result : Problem → ℕ → Json → Json → Json → Json → Result
unable_result why attempts id attempt state conclusion = record {
  status = unable;
  reason = some why;
  attempts_used = attempts;
  run_id = id;
  run_attempt = attempt;
  run_status = state;
  run_conclusion = conclusion;
  jobs = none;
}

abbrev pub no_run : Problem → ℕ → Json → Result
no_run why attempts id = unable_result why attempts id null null null

abbrev pub or_stop {ℓ} : {A : Type ℓ} → Option A → Result → Either Result A
or_stop none r = stop r
or_stop (some a) r = ok a

-- `do_get_json`
unfoldable pub get_json : World → Arguments → Query → ℕ → Json → Either Result Fields
get_json w a query attempts id = do
  body ← or_stop (get_body (w.serve a query) 0 3) (no_run http_failure attempts id)
  data_json ← or_stop (w.loads body) (no_run invalid_response attempts id)
  or_stop (as_object data_json) (no_run invalid_response attempts id)

-- `key in data and isinstance(data[key], list)`
unfoldable pub list_at : Text → Fields → Option (List Json)
list_at key fs = elim (lookup key fs) [ none ↦ none | some value ↦ as_array value ]

unfoldable pub is_match : Arguments → Fields → Bool
is_match a run =
    equals_text (get_field (codes "name") run) a.workflow_name
    && equals_text (get_field (codes "head_sha") run) a.head_sha
    && equals_text (get_field (codes "head_branch") run) a.branch
    && equals_text (get_field (codes "event") run) a.event

-- `matching_runs`
unfoldable pub matching_runs : Arguments → List Json → List Fields
matching_runs a runs = filter (is_match a) (objects_of runs)

unfoldable pub is_completed : Fields → Bool
is_completed run = equals_text (get_field (codes "status") run) (codes "completed")

-- What an attempt picks: no run, or the single one that matches.
unfoldable pub picked : ℕ → List Fields → Either Result (Option Fields)
picked attempts [] = ok none
picked attempts (run ∷ []) = ok (some run)
picked attempts _ = stop (no_run ambiguous_runs attempts null)

unfoldable pub attempt_runs : World → Arguments → ℕ → Either Result (Option Fields)
attempt_runs w a attempts = do
  runs_data ← get_json w a (runs_of attempts) attempts null
  runs ← or_stop (list_at (codes "workflow_runs") runs_data) (no_run invalid_response attempts null)
  picked attempts (matching_runs a runs)

-- the loop ends where the run is completed
unfoldable pub next_attempt :
    ℕ → Option Fields → Either Result (ℕ × Option Fields) → Either Result (ℕ × Option Fields)
next_attempt attempts none rest = rest
next_attempt attempts (some run) rest = if is_completed run then ok (attempts, some run) else rest

-- The loop, after `attempts` of them and with the number that is left: the attempts used, and the
-- run that was selected last. The pause between two attempts is left out.
unfoldable pub poll : World → Arguments → ℕ → ℕ → Option Fields → Either Result (ℕ × Option Fields)
poll w a attempts zero selected = ok (attempts, selected)
poll w a attempts (suc left) selected = do
  run ← attempt_runs w a (attempts + 1)
  next_attempt (attempts + 1) run (poll w a (attempts + 1) left run)
