-- ===== src/Push/Single.antt =====
-- scripts/governance_preflight.py: an authorisation and the pushes that it serves, one behind another.
use hh_ai_v.Base.{
  ℕ, ◌+◌, ◌≤◌, if◌then◌else◌, ◌≡◌, refl, ap, ◌∙◌, inl, inr, Bool, true, false, ◌&&◌, Text, List, [],
  ◌∷◌, arith, Bool-cases, Result-cases, Either, ok, stop, ◌>>◌,
}
use hh_ai_v.Push.{
  AuthFile, Problem, Update, Operations, operations_of, updates_of, Pass, no_updates, ordinary,
  main_advanced, branches_deleted, is_none_of, check_mixed, sensitive, Removal, removed,
  not_removed, consumed, verify_operations, verify_updates, verify_push, Write, Stamp, Mapping,
  is_absent, main_request, created, create_main_advancement_auth, delete_request,
  create_remote_delete_auth,
}
use hh_ai_v.Push.Allowed.{Allowed, nothing, ordinary_push, main_push, deletion_push, push-Allowed}

-- a pass that needs an authorisation
unfoldable pub is_sensitive : Pass → Bool
is_sensitive no_updates = false
is_sensitive ordinary = false
is_sensitive main_advanced = true
is_sensitive branches_deleted = true

consumed-stop :
    (unlink : Removal) (file : AuthFile) (r : Either Problem Pass) {why : Problem}
    {behind : AuthFile}
    → consumed unlink file r ≡ (stop why, behind)
    → file ≡ behind
unfolding consumed
consumed-stop unlink file (stop why) h = ap (λ x. x.1) h
consumed-stop removed file (ok p) h = let e = ap (λ x. x.0) h in absurd (ground arith)
consumed-stop not_removed file (ok p) h = ap (λ x. x.1) h

operations-stop :
    (unlink : Removal) (file : AuthFile) (o : Operations) {why : Problem} {behind : AuthFile}
    → verify_operations unlink file o ≡ (stop why, behind)
    → file ≡ behind
unfolding verify_operations
operations-stop unlink file o {why} {behind} h =
    elim (Bool-cases (is_none_of o.main_updates && is_none_of o.remote_deletions)) [
      | inl calm ↦ absurd (ground (arith, calm, h))
      | inr busy ↦
          let checked : consumed unlink file (check_mixed o >> sensitive file o)
              ≡ (stop why, behind) =
            ground (arith, busy, h) in
          consumed-stop unlink file (check_mixed o >> sensitive file o) checked
    ]

updates-stop :
    (unlink : Removal) (file : AuthFile) (ups : List Update) {why : Problem} {behind : AuthFile}
    → verify_updates unlink file ups ≡ (stop why, behind)
    → file ≡ behind
unfolding verify_updates
updates-stop unlink file [] h = let e = ap (λ x. x.0) h in absurd (ground arith)
updates-stop unlink file (up ∷ ups) {why} {behind} h =
    elim (Result-cases (operations_of (up ∷ ups))) [
      | inl (other, e) ↦ ground (arith, e, h)
      | inr (o, e) ↦
          let v : verify_operations unlink file o ≡ (stop why, behind) = ground (arith, e, h) in
          operations-stop unlink file o v
    ]

-- A push that is blocked leaves the authorisation as it was.
pub push-stop :
    (unlink : Removal) (file : AuthFile) (lines : List Text) (why : Problem) (behind : AuthFile)
    → verify_push unlink file lines ≡ (stop why, behind)
    → file ≡ behind
unfolding verify_push
push-stop unlink file lines why behind h = elim (Result-cases (updates_of lines)) [
  | inl (other, e) ↦ ground (arith, e, h)
  | inr (ups, e) ↦
      let v : verify_updates unlink file ups ≡ (stop why, behind) = ground (arith, e, h) in
      updates-stop unlink file ups v
]

-- What happens to the file: a push with the lines that the hook reads, or an attempt to create an
-- authorisation of one of the two kinds.
pub data Event : Type 0 where
  pushed : Removal → List Text → Event
  main_offered : Write → Stamp → Text → Text → Text → Event
  deletion_offered : Write → Stamp → Text → Mapping → Event

-- the file behind an event
unfoldable pub file_behind : AuthFile → Event → AuthFile
file_behind file (pushed unlink lines) = (verify_push unlink file lines).1
file_behind file (main_offered write stamp task authorized expected) =
    (create_main_advancement_auth write stamp file task authorized expected).1
file_behind file (deletion_offered write stamp task mapping) =
    (create_remote_delete_auth write stamp file task mapping).1

-- 1 for a push that passed and needed an authorisation
unfoldable pub uses : Either Problem Pass → ℕ
uses (stop why) = 0
uses (ok p) = if is_sensitive p then 1 else 0

unfoldable pub present : AuthFile → ℕ
present file = if is_absent file then 0 else 1

-- the sensitive pushes that pass in a sequence of events
unfoldable pub served : AuthFile → List Event → ℕ
served file [] = 0
served file (pushed unlink lines ∷ events) =
    uses (verify_push unlink file lines).0 + served (verify_push unlink file lines).1 events
served file (event ∷ events) = served (file_behind file event) events

-- the attempts to create an authorisation that find none
unfoldable pub offered : AuthFile → List Event → ℕ
offered file [] = 0
offered file (pushed unlink lines ∷ events) = offered (verify_push unlink file lines).1 events
offered file (event ∷ events) =
    (if is_absent file then 1 else 0) + offered (file_behind file event) events

-- the file behind all of them
unfoldable pub left_behind : AuthFile → List Event → AuthFile
left_behind file [] = file
left_behind file (event ∷ events) = left_behind (file_behind file event) events

Allowed-uses :
    {file behind : AuthFile} {ups : List Update} {p : Pass}
    → Allowed file ups p behind
    → uses (ok p) + present behind ≡ present file
unfolding uses is_sensitive present is_absent
Allowed-uses (nothing e) = omega arith
Allowed-uses (ordinary_push o) = omega arith
Allowed-uses (main_push auth up f e a) = rw f refl
Allowed-uses (deletion_push auth f d) = rw f refl

push-uses :
    (unlink : Removal) (file : AuthFile) (lines : List Text)
    → uses (verify_push unlink file lines).0 + present (verify_push unlink file lines).1
      ≡ present file
push-uses unlink file lines =
    let r = verify_push unlink file lines in
    elim (Result-cases r.0) [
      | inl (why, e) ↦
          let kept = push-stop unlink file lines why r.1 (ap (λ o. (o, r.1)) e) in
          ap (λ o. uses o + present r.1) e ∙ (unfold uses in omega (arith, ap present kept))
      | inr (p, e) ↦
          let (ups, read, allowed) = push-Allowed unlink file lines p r.1 (ap (λ o. (o, r.1)) e) in
          ap (λ o. uses o + present r.1) e ∙ Allowed-uses allowed
    ]

-- An attempt to create an authorisation where there is one leaves it.
creation-present :
    (file behind : AuthFile)
    → (is_absent file ≡ false → behind ≡ file)
    → present behind ≤ present file + (if is_absent file then 1 else 0)
unfolding present
creation-present file behind kept = elim (Bool-cases (is_absent file)) [
  | inl none ↦ ground (arith, none)
  | inr some ↦ let same = ap is_absent (kept some) in ground (arith, some, same)
]

main-kept :
    (write : Write) (stamp : Stamp) (file : AuthFile) (task authorized expected : Text)
    → is_absent file ≡ false
    → (create_main_advancement_auth write stamp file task authorized expected).1 ≡ file
unfolding create_main_advancement_auth main_request created
main-kept write stamp file task authorized expected h = rw h refl

deletion-kept :
    (write : Write) (stamp : Stamp) (file : AuthFile) (task : Text) (mapping : Mapping)
    → is_absent file ≡ false
    → (create_remote_delete_auth write stamp file task mapping).1 ≡ file
unfolding create_remote_delete_auth delete_request created
deletion-kept write stamp file task mapping h = rw h refl

-- In any sequence of pushes and attempts to create an authorisation, the pushes that advance main or
-- delete branches are, with the authorisation still there at the end, if any, at most as many as the
-- authorisations: the one there at the start, if any, and one for each attempt that found none.
pub push_once :
    (file : AuthFile) (events : List Event)
    → served file events + present (left_behind file events) ≤ present file + offered file events
unfolding served offered left_behind file_behind
push_once file [] = omega arith
push_once file (pushed unlink lines ∷ events) =
    let rest = push_once (verify_push unlink file lines).1 events in
    let one = push-uses unlink file lines in omega (arith, rest, one)
push_once file (main_offered write stamp task authorized expected ∷ events) =
    let behind = (create_main_advancement_auth write stamp file task authorized expected).1 in
    let rest = push_once behind events in
    let one = creation-present file behind (main-kept write stamp file task authorized expected) in
    omega (arith, rest, one)
push_once file (deletion_offered write stamp task mapping ∷ events) =
    let behind = (create_remote_delete_auth write stamp file task mapping).1 in
    let rest = push_once behind events in
    let one = creation-present file behind (deletion-kept write stamp file task mapping) in
    omega (arith, rest, one)
