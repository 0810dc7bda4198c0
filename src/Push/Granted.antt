-- ===== src/Push/Granted.antt =====
-- scripts/governance_preflight.py: what the creation of an authorisation writes, and that the push
-- that it names passes with it.
use mathlib.Core.Path.{subst}
use hh_ai_v.Base.{
  ◌≡◌, refl, sym, ap, ◌∙◌, true, false, Text, text_eq, text_eq_iff, text_eq_refl, [], ◌∷◌, arith,
  Either, ok, stop, ok-injective, require-eq-ok, lower, lower_twice, is_solid,
}
use hh_ai_v.Json.{Fields, object, get_field, lookup, as_object, as_text, equals_text}
use hh_ai_v.Push.{
  AuthFile, absent, unreadable, document, Problem, cannot_overwrite, invalid_authorized_sha,
  invalid_expected_sha, main_ref, zeros, is_main, is_delete, is_blank, add_update, operations_of,
  main_advanced, lower_at, only_update, main_verdict, is_none_of, check_mixed, sensitive, removed,
  consumed, verify_operations, verify_updates, verify_push, verify_main_advancement, is_oid_match,
  Write, written, failed, write_auth, Stamp, auth_data, main_auth, is_absent, main_request, created,
  create_main_advancement_auth,
}
use hh_ai_v.Push.Words.{main_update, updates_of-main_line}

-- A creation that succeeds has written what was requested.
pub created-ok :
    (write : Write) (file : AuthFile) (request : Either Problem Fields) {behind : AuthFile}
    → created write file request ≡ (ok tt, behind)
    → (auth : Fields) × (request ≡ ok auth) × (document (object auth) ≡ behind)
unfolding created write_auth
created-ok write file (stop why) h = let e = ap (λ x. x.0) h in absurd (ground arith)
created-ok written file (ok auth) h = (auth, refl, ap (λ x. x.1) h)
created-ok (failed left) file (ok auth) h = let e = ap (λ x. x.0) h in absurd (ground arith)

pub is_absent-absent : (file : AuthFile) → is_absent file ≡ true → file ≡ absent
unfolding is_absent
is_absent-absent absent h = refl
is_absent-absent unreadable h = absurd (ground arith)
is_absent-absent (document j) h = absurd (ground arith)

main_request-ok :
    (file : AuthFile) (task authorized expected : Text) (stamp : Stamp) {auth : Fields}
    → main_request file task authorized expected stamp ≡ ok auth
    → (file ≡ absent) × (main_auth task authorized expected stamp ≡ auth)
unfolding main_request
main_request-ok file task authorized expected stamp h =
    let (e1, h1) = require-eq-ok (is_absent file) cannot_overwrite _ h in
    let (e2, h2) = require-eq-ok (is_oid_match (lower authorized)) invalid_authorized_sha _ h1 in
    let (e3, h3) = require-eq-ok (is_oid_match (lower expected)) invalid_expected_sha _ h2 in
    (is_absent-absent file e1, ok-injective h3)

-- the verdict on the update that the authorisation names
main_auth-verdict :
    (task authorized expected new remote : Text) (stamp : Stamp)
    → lower new ≡ lower authorized
    → lower remote ≡ lower expected
    → main_verdict (main_auth task authorized expected stamp) (main_update new remote ∷ [])
      ≡ ok main_advanced
unfolding main_verdict main_auth auth_data only_update lower_at lookup get_field equals_text as_text
    text_eq
main_auth-verdict task authorized expected new remote stamp e f =
    let new_ok =
      (text_eq_iff (lower new) (lower (lower authorized))).1 (e ∙ sym (lower_twice authorized)) in
    let remote_ok =
      (text_eq_iff (lower remote) (lower (lower expected))).1 (f ∙ sym (lower_twice expected)) in
    ground (arith, new_ok, remote_ok)

main_update-passes :
    (auth : Fields) (new remote : Text)
    → is_delete (main_update new remote) ≡ false
    → main_verdict auth (main_update new remote ∷ []) ≡ ok main_advanced
    → verify_updates removed (document (object auth)) (main_update new remote ∷ [])
      ≡ (ok main_advanced, absent)
unfolding verify_updates operations_of add_update is_main verify_operations consumed sensitive
    check_mixed is_none_of as_object
main_update-passes auth new remote d v = let m = text_eq_refl main_ref in ground (arith, m, d, v)

is_delete-main_update :
    (new remote : Text)
    → is_solid new ≡ true
    → text_eq (lower new) (zeros 40) ≡ false
    → is_delete (main_update new remote) ≡ false
unfolding is_delete is_solid is_blank text_eq lower
is_delete-main_update [] remote s z = absurd (ground arith)
is_delete-main_update (c ∷ new) remote s z = ground (arith, z)

-- Once an authorisation of main has been created, the push of main that it names passes, in either
-- case of the letters, and consumes it. The new commit is not the deletion of main, and neither
-- hash holds a space.
pub create-verify_main :
    (write : Write) (stamp : Stamp) (file behind : AuthFile)
    (task authorized expected new remote : Text)
    → create_main_advancement_auth write stamp file task authorized expected ≡ (ok tt, behind)
    → is_solid new ≡ true
    → is_solid remote ≡ true
    → text_eq (lower new) (zeros 40) ≡ false
    → lower new ≡ lower authorized
    → lower remote ≡ lower expected
    → verify_main_advancement removed behind new remote ≡ (ok main_advanced, absent)
unfolding create_main_advancement_auth verify_main_advancement verify_push
create-verify_main write stamp file behind task authorized expected new remote h sn sr z e f =
    let (auth, requested, wrote) =
      created-ok write file (main_request file task authorized expected stamp) h in
    let (fresh, same) = main_request-ok file task authorized expected stamp requested in
    let verdict =
      subst (λ x. main_verdict x (main_update new remote ∷ []) ≡ ok main_advanced) same
        (main_auth-verdict task authorized expected new remote stamp e f) in
    let read = updates_of-main_line new remote sn sr in
    let passes =
      subst
        (λ x. verify_updates removed x (main_update new remote ∷ []) ≡ (ok main_advanced, absent))
        wrote
        (main_update-passes auth new remote (is_delete-main_update new remote sn z) verdict) in
    ground (arith, read, passes)
