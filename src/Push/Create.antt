-- ===== src/Push/Create.antt =====
-- scripts/governance_preflight.py: `create_main_advancement_auth` and `create_remote_delete_auth`.
use hh_ai_v.Base.{
  ltb, ◌==◌, Bool, true, false, not, ◌&&◌, Text, codes, text_eq, [], ◌∷◌, Either, ok, stop, ◌>>=◌,
  ◌>>◌, require, if◌then◌else◌, ℤ, is_oid, starts_with, length, strip, lower,
}
use hh_ai_v.Json.{integer, string, object, Fields, no_fields, field}
use hh_ai_v.Push.Authorization.{
  AuthFile, absent, document, Problem, cannot_overwrite, invalid_authorized_sha,
  invalid_expected_sha, empty_mapping, malformed_ref, forbidden_main, malformed_sha, not_written,
}
use hh_ai_v.Push.Updates.{main_ref}
use hh_ai_v.Push.Verify.{Mapping, put}

-- the text without a newline at its end
unfoldable pub drop_newline : Text → Text
drop_newline [] = []
drop_newline (c ∷ []) = if c == 10 then [] else c ∷ []
drop_newline (c ∷ (d ∷ cs)) = c ∷ drop_newline (d ∷ cs)

-- `re.match(r"^[0-9a-f]{40}$", text)`; `$` also matches before a newline at the end
unfoldable pub is_oid_match : Text → Bool
is_oid_match text = is_oid (drop_newline text)

-- How the write of the file comes back; an exception leaves some file behind.
pub data Write : Type 0 where
  written : Write
  failed : AuthFile → Write

-- the outcome and the file behind it
unfoldable pub write_auth : Write → Fields → Either Problem (Unit {0}) × AuthFile
write_auth written auth = (ok tt, document (object auth))
write_auth (failed left) auth = (stop not_written, left)

-- the time, and the note on the origin
pub record Stamp : Type 0 where
  pub created_at : Text
  pub provenance_note : Text

abbrev pub text_field : Text → Text → Fields → Fields
text_field key value rest = field key (string value) rest

-- the fields in front and behind, which both modes share
unfoldable pub auth_data : Text → Text → Stamp → (Fields → Fields) → Fields
auth_data mode task_id stamp between = field (codes "schema_version") (integer (ℤ.pos 1)) (
    text_field (codes "mode") mode (
      text_field (codes "task_id") task_id (
        between (
          text_field (codes "created_at") stamp.created_at
            (text_field (codes "provenance_note") stamp.provenance_note no_fields)))))

unfoldable pub main_auth : Text → Text → Text → Stamp → Fields
main_auth task_id authorized expected stamp =
    auth_data (codes "MAIN_EXACT_SHA") task_id stamp (λ rest.
      text_field (codes "authorized_main_sha") (lower authorized)
        (text_field (codes "expected_remote_main_sha") (lower expected) rest))

unfoldable pub is_absent : AuthFile → Bool
is_absent absent = true
is_absent _ = false

-- the checks, and what is written where they pass
unfoldable pub main_request : AuthFile → Text → Text → Text → Stamp → Either Problem Fields
main_request file task_id authorized expected stamp = do
  require (is_absent file) cannot_overwrite
  require (is_oid_match (lower authorized)) invalid_authorized_sha
  require (is_oid_match (lower expected)) invalid_expected_sha
  ok (main_auth task_id authorized expected stamp)

-- writes what is requested, or leaves the file
unfoldable pub created :
    Write → AuthFile → Either Problem Fields → Either Problem (Unit {0}) × AuthFile
created write file (stop why) = (stop why, file)
created write file (ok auth) = write_auth write auth

unfoldable pub create_main_advancement_auth :
    Write → Stamp → AuthFile → Text → Text → Text → Either Problem (Unit {0}) × AuthFile
create_main_advancement_auth write stamp file task_id authorized expected =
    created write file (main_request file task_id authorized expected stamp)

-- `refs/heads/` with a name behind it
unfoldable pub is_branch_ref : Text → Bool
is_branch_ref ref = starts_with ref (codes "refs/heads/") && ltb 11 (length ref)

-- `normalized_mapping`, the entries put into those so far
unfoldable pub normalized : Mapping → Mapping → Either Problem Mapping
normalized entries [] = ok entries
normalized entries ((ref, sha) ∷ more) = do
  require (is_branch_ref (strip ref)) malformed_ref
  require (not (text_eq (strip ref) main_ref)) forbidden_main
  require (is_oid_match (lower (strip sha))) malformed_sha
  normalized (put (strip ref) (lower (strip sha)) entries) more

unfoldable pub is_empty_mapping : Mapping → Bool
is_empty_mapping [] = true
is_empty_mapping (_ ∷ _) = false

-- a dictionary as a JSON object
unfoldable pub fields_of : Mapping → Fields
fields_of [] = no_fields
fields_of ((key, value) ∷ entries) = text_field key value (fields_of entries)

unfoldable pub delete_auth : Text → Mapping → Stamp → Fields
delete_auth task_id mapping stamp =
    auth_data (codes "REMOTE_DELETE_EXACT_SET") task_id stamp
      (λ rest. field (codes "expected_deletions") (object (fields_of mapping)) rest)

unfoldable pub delete_request : AuthFile → Text → Mapping → Stamp → Either Problem Fields
delete_request file task_id delete_mapping stamp = do
  require (is_absent file) cannot_overwrite
  require (not (is_empty_mapping delete_mapping)) empty_mapping
  mapping ← normalized [] delete_mapping
  ok (delete_auth task_id mapping stamp)

unfoldable pub create_remote_delete_auth :
    Write → Stamp → AuthFile → Text → Mapping → Either Problem (Unit {0}) × AuthFile
create_remote_delete_auth write stamp file task_id delete_mapping =
    created write file (delete_request file task_id delete_mapping stamp)
