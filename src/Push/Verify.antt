-- ===== src/Push/Verify.antt =====
-- scripts/governance_preflight.py: `verify_and_consume_push` and its callers.
use hh_ai_v.Base.{
  Bool, true, false, ◌&&◌, ◌||◌, Text, codes, text_eq, Option, none, some, List, [], ◌∷◌, ◌++◌, map,
  all, any, Either, ok, stop, ◌>>=◌, ◌>>◌, require, if◌then◌else◌, lower,
}
use hh_ai_v.Json.{Fields, no_fields, field, lookup, get_field, as_object, as_text, equals_text}
use hh_ai_v.Push.Authorization.{
  AuthFile, absent, unreadable, document, Problem, main_with_deletion, main_with_others,
  deletion_with_others, unauthorized_main, unauthorized_deletion, unreadable_authorization,
  attribute_error, main_needs_mode, not_one_main, new_sha_mismatch, remote_drift,
  deletion_needs_mode, ref_set_mismatch, ref_drift, not_consumed, or_problem,
}
use hh_ai_v.Push.Updates.{Update, updates_of, Operations, operations_of, zeros}

-- the passes by their message
pub data Pass : Type 0 where
  no_updates ordinary main_advanced branches_deleted : Pass

-- a dictionary from texts to texts, in the order of its keys
abbrev pub Mapping : Type 0
Mapping = List (Text × Text)

unfoldable pub find : Text → Mapping → Option Text
find key [] = none
find key ((k, v) ∷ entries) = let rest = find key entries in if text_eq key k then some v else rest

-- `mapping[key] = value`
unfoldable pub put : Text → Text → Mapping → Mapping
put key value [] = (key, value) ∷ []
put key value ((k, v) ∷ entries) =
    let rest = put key value entries in
    if text_eq key k then (k, value) ∷ entries else (k, v) ∷ rest

-- `key in mapping`
unfoldable pub has_key : Mapping → Text → Bool
has_key entries key = any (λ entry. text_eq key entry.0) entries

-- `auth.get(key, "").lower()`
unfoldable pub lower_at : Text → Fields → Either Problem Text
lower_at key fs = elim (lookup key fs) [
  | none ↦ ok []
  | some value ↦ or_problem (as_text value) attribute_error >>= (λ text. ok (lower text))
]

unfoldable pub only_update : List Update → Either Problem Update
only_update (up ∷ []) = ok up
only_update _ = stop not_one_main

unfoldable pub main_verdict : Fields → List Update → Either Problem Pass
main_verdict auth mains = do
  require (equals_text (get_field (codes "mode") auth) (codes "MAIN_EXACT_SHA")) main_needs_mode
  mu ← only_update mains
  auth_sha ← lower_at (codes "authorized_main_sha") auth
  expected_remote_sha ← lower_at (codes "expected_remote_main_sha") auth
  require (text_eq mu.local_sha auth_sha) new_sha_mismatch
  require (text_eq mu.remote_sha expected_remote_sha) remote_drift
  ok main_advanced

-- `{k: v.lower() for k, v in ….items()}`
unfoldable pub lowered : Fields → Either Problem Mapping
lowered no_fields = ok []
lowered (field key value fs) = do
  text ← or_problem (as_text value) attribute_error
  entries ← lowered fs
  ok ((key, lower text) ∷ entries)

-- `expected_map`
unfoldable pub expected_map : Fields → Either Problem Mapping
expected_map auth = elim (lookup (codes "expected_deletions") auth) [
  | none ↦ ok []
  | some value ↦ or_problem (as_object value) attribute_error >>= lowered
]

-- `actual_map`, the deletions put into the entries so far
unfoldable pub actual_map : Mapping → List Update → Mapping
actual_map entries [] = entries
actual_map entries (d ∷ deletions) =
    actual_map (put d.remote_ref (lower d.remote_sha) entries) deletions

-- the same keys
unfoldable pub same_keys : Mapping → Mapping → Bool
same_keys a b = all (λ entry. has_key b entry.0) a && all (λ entry. has_key a entry.0) b

-- the loop over the actual map, for keys that the expected one has
unfoldable pub no_drift : Mapping → Mapping → Bool
no_drift actual expected =
    all (λ entry. elim (find entry.0 expected) [ none ↦ false | some sha ↦ text_eq entry.1 sha ])
      actual

unfoldable pub deletion_verdict : Fields → List Update → Either Problem Pass
deletion_verdict auth deletions = do
  require (equals_text (get_field (codes "mode") auth) (codes "REMOTE_DELETE_EXACT_SET"))
      deletion_needs_mode
  expected ← expected_map auth
  require (same_keys (actual_map [] deletions) expected) ref_set_mismatch
  require (no_drift (actual_map [] deletions) expected) ref_drift
  ok branches_deleted

unfoldable pub is_none_of : List Update → Bool
is_none_of [] = true
is_none_of (_ ∷ _) = false

-- the rules against mixed pushes
unfoldable pub check_mixed : Operations → Either Problem (Unit {0})
check_mixed o = do
  require (is_none_of o.main_updates || is_none_of o.remote_deletions) main_with_deletion
  require (is_none_of o.main_updates || is_none_of o.ordinary_updates) main_with_others
  require (is_none_of o.remote_deletions || is_none_of o.ordinary_updates) deletion_with_others

-- the verdict of the authorisation on a sensitive push
unfoldable pub sensitive : AuthFile → Operations → Either Problem Pass
sensitive absent o =
    stop (if is_none_of o.main_updates then unauthorized_deletion else unauthorized_main)
sensitive unreadable o = stop unreadable_authorization
sensitive (document json) o = do
  auth ← or_problem (as_object json) attribute_error
  if is_none_of o.main_updates
      then deletion_verdict auth o.remote_deletions
      else main_verdict auth o.main_updates

-- how `os.remove` comes back
pub data Removal : Type 0 where
  removed not_removed : Removal

-- the file after the verdict: a pass consumes it
unfoldable pub consumed : Removal → AuthFile → Either Problem Pass → Either Problem Pass × AuthFile
consumed unlink file (stop why) = (stop why, file)
consumed removed file (ok p) = (ok p, absent)
consumed not_removed file (ok p) = (stop not_consumed, file)

unfoldable pub verify_operations : Removal → AuthFile → Operations → Either Problem Pass × AuthFile
verify_operations unlink file o =
    if is_none_of o.main_updates && is_none_of o.remote_deletions
    then (ok ordinary, file)
    else consumed unlink file (check_mixed o >> sensitive file o)

unfoldable pub verify_updates : Removal → AuthFile → List Update → Either Problem Pass × AuthFile
verify_updates unlink file [] = (ok no_updates, file)
verify_updates unlink file (up ∷ ups) = elim (operations_of (up ∷ ups)) [
  | stop why ↦ (stop why, file)
  | ok o ↦ verify_operations unlink file o
]

-- `verify_and_consume_push`: what it returns, and the file behind it
unfoldable pub verify_push : Removal → AuthFile → List Text → Either Problem Pass × AuthFile
verify_push unlink file lines = elim (updates_of lines) [
  | stop why ↦ (stop why, file)
  | ok ups ↦ verify_updates unlink file ups
]

-- the line that `verify_and_consume_main_advancement` gives
unfoldable pub main_line : Text → Text → Text
main_line new_sha remote_sha =
    codes "refs/heads/main " ++ new_sha ++ codes " refs/heads/main " ++ remote_sha

unfoldable pub verify_main_advancement :
    Removal → AuthFile → Text → Text → Either Problem Pass × AuthFile
verify_main_advancement unlink file new_sha remote_sha =
    verify_push unlink file (main_line new_sha remote_sha ∷ [])

-- a line of `verify_and_consume_remote_deletion`
unfoldable pub deletion_line : Text × Text → Text
deletion_line (ref, sha) = codes "(delete) " ++ zeros 40 ++ codes " " ++ ref ++ codes " " ++ sha

unfoldable pub verify_remote_deletion :
    Removal → AuthFile → Mapping → Either Problem Pass × AuthFile
verify_remote_deletion unlink file deletions = verify_push unlink file (map deletion_line deletions)
