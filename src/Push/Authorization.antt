-- ===== src/Push/Authorization.antt =====
-- scripts/governance_preflight.py: the authorisation file, and why a call is refused.
use hh_ai_v.Base.{Option, none, some, Either, ok, stop}
use hh_ai_v.Json.{Json}

-- `.git/hhai-sensitive-push-auth.json`: no such file, one that cannot be read as JSON, or the
-- document that `json.load` reads from it
pub data AuthFile : Type 0 where
  absent unreadable : AuthFile
  document : Json → AuthFile

-- A refusal by its message. `attribute_error` is the exception of a `get`, `items` or `lower` on a
-- value of another type, which nothing catches.
pub data Problem : Type 0 where
  malformed_line main_deletion : Problem
  main_with_deletion main_with_others deletion_with_others : Problem
  unauthorized_main unauthorized_deletion unreadable_authorization attribute_error : Problem
  main_needs_mode not_one_main new_sha_mismatch remote_drift : Problem
  deletion_needs_mode ref_set_mismatch ref_drift not_consumed : Problem
  cannot_overwrite invalid_authorized_sha invalid_expected_sha : Problem
  empty_mapping malformed_ref forbidden_main malformed_sha not_written : Problem

-- the value, or the refusal
abbrev pub or_problem {ℓ} : {A : Type ℓ} → Option A → Problem → Either Problem A
or_problem none why = stop why
or_problem (some a) why = ok a
