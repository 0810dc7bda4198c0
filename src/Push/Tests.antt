-- ===== src/Push/Tests.antt =====
-- Runs of the push authorisation of scripts/governance_preflight.py, and the theorems at them.
use hh_ai_v.Base.{
  ℕ, zero, suc, ◌+◌, ◌≤◌, ◌≡◌, refl, true, false, Text, codes, text_eq, List, [], ◌∷◌, All, ok,
  stop, is_oid, is_hex, in_range, lower, strip, is_space, is_solid, starts_with, strip_prefix?,
}
use hh_ai_v.Json.{object, lookup, get_field, as_object, as_text, equals_text}
use hh_ai_v.Push.{
  AuthFile, absent, document, new_sha_mismatch, words, Update, update_of, is_blank, updates_of,
  zeros, is_main, is_delete, add_update, operations_of, main_advanced, Mapping, put, lower_at,
  only_update, main_verdict, is_none_of, check_mixed, sensitive, removed, consumed,
  verify_operations, verify_updates, verify_push, main_line, verify_main_advancement, drop_newline,
  is_oid_match, written, write_auth, Stamp, auth_data, main_auth, is_absent, main_request, created,
  create_main_advancement_auth, is_branch_ref, normalized, is_empty_mapping, delete_auth,
  delete_request, create_remote_delete_auth,
}
use hh_ai_v.Push.Allowed.{Allowed, push-Allowed}
use hh_ai_v.Push.Single.{
  is_sensitive, Event, pushed, main_offered, file_behind, uses, present, served, offered,
  left_behind, push_once, push-stop,
}
use hh_ai_v.Push.Granted.{create-verify_main}
use hh_ai_v.Push.Deletable.{Deletable, create_remote_delete_auth-Deletable}

abbrev repeated : ℕ → ℕ → Text
repeated zero c = []
repeated (suc n) c = c ∷ repeated n c

abbrev new_sha : Text
new_sha = repeated 40 b'a'

abbrev remote_sha : Text
remote_sha = repeated 40 b'b'

abbrev stamp : Stamp
stamp = record { created_at = codes "2026-01-01"; provenance_note = codes "external" }

abbrev authorisation : AuthFile
authorisation = document (object (main_auth (codes "B-1") new_sha remote_sha stamp))

abbrev lines : List Text
lines = main_line new_sha remote_sha ∷ []

created_run :
    create_main_advancement_auth written stamp absent (codes "B-1") new_sha remote_sha
    ≡ (ok tt, authorisation)
unfolding create_main_advancement_auth created main_request is_absent is_oid_match drop_newline
    is_oid is_hex in_range lower write_auth
created_run = refl

passed_run : verify_push removed authorisation lines ≡ (ok main_advanced, absent)
unfolding verify_push main_line updates_of is_blank strip is_space words update_of lower
    verify_updates operations_of add_update is_main is_delete text_eq zeros verify_operations
    is_none_of consumed check_mixed sensitive as_object main_auth auth_data main_verdict equals_text
    get_field lookup only_update lower_at as_text
passed_run = refl

-- a push of another commit than the one that may be pushed
abbrev other_lines : List Text
other_lines = main_line (repeated 40 b'c') remote_sha ∷ []

blocked_run : verify_push removed authorisation other_lines ≡ (stop new_sha_mismatch, authorisation)
unfolding verify_push main_line updates_of is_blank strip is_space words update_of lower
    verify_updates operations_of add_update is_main is_delete text_eq zeros verify_operations
    is_none_of consumed check_mixed sensitive as_object main_auth auth_data main_verdict equals_text
    get_field lookup only_update lower_at as_text
blocked_run = refl

-- an authorisation is created, and the push that it names is tried twice
abbrev trace : List Event
trace =
    main_offered written stamp (codes "B-1") new_sha remote_sha
    ∷ pushed removed lines
    ∷ pushed removed lines
    ∷ []

one_pass_in_two_pushes : served absent trace ≡ 1
unfolding served file_behind uses is_sensitive create_main_advancement_auth created main_request
    is_absent is_oid_match drop_newline is_oid is_hex in_range lower write_auth verify_push
    main_line updates_of is_blank strip is_space words update_of verify_updates operations_of
    add_update is_main is_delete text_eq zeros verify_operations is_none_of consumed check_mixed
    sensitive as_object main_auth auth_data main_verdict equals_text get_field lookup only_update
    lower_at as_text
one_pass_in_two_pushes = refl

push-Allowed_example :
    (ups : List Update) × (updates_of lines ≡ ok ups)
    × Allowed authorisation ups main_advanced absent
push-Allowed_example = push-Allowed removed authorisation lines main_advanced absent passed_run

push_once_example :
    served absent trace + present (left_behind absent trace) ≤ present absent + offered absent trace
push_once_example = push_once absent trace

push-stop_example : authorisation ≡ authorisation
push-stop_example =
    push-stop removed authorisation other_lines new_sha_mismatch authorisation blocked_run

solid_new : is_solid new_sha ≡ true
unfolding is_solid is_space
solid_new = refl

solid_remote : is_solid remote_sha ≡ true
unfolding is_solid is_space
solid_remote = refl

not_zeros : text_eq (lower new_sha) (zeros 40) ≡ false
unfolding text_eq lower zeros
not_zeros = refl

create-verify_main_example :
    verify_main_advancement removed authorisation new_sha remote_sha ≡ (ok main_advanced, absent)
create-verify_main_example =
    create-verify_main written stamp absent authorisation (codes "B-1") new_sha remote_sha new_sha
      remote_sha created_run solid_new solid_remote not_zeros refl refl

abbrev requested : Mapping
requested = (codes " refs/heads/old", codes "cccccccccccccccccccccccccccccccccccccccc") ∷ []

abbrev stored : Mapping
stored = (codes "refs/heads/old", codes "cccccccccccccccccccccccccccccccccccccccc") ∷ []

deletion_run :
    create_remote_delete_auth written stamp absent (codes "B-1") requested
    ≡ (ok tt, document (object (delete_auth (codes "B-1") stored stamp)))
unfolding create_remote_delete_auth created delete_request is_absent is_empty_mapping normalized
    is_branch_ref starts_with strip_prefix? strip is_space text_eq is_oid_match drop_newline is_oid
    is_hex in_range lower put write_auth
deletion_run = refl

create_remote_delete_auth-Deletable_example :
    (absent ≡ absent)
    × (mapping : Mapping) × (normalized [] requested ≡ ok mapping)
    × (document (object (delete_auth (codes "B-1") stored stamp))
        ≡ document (object (delete_auth (codes "B-1") mapping stamp)))
    × All Deletable mapping
create_remote_delete_auth-Deletable_example =
    create_remote_delete_auth-Deletable written stamp absent
      (document (object (delete_auth (codes "B-1") stored stamp))) (codes "B-1") requested
      deletion_run
