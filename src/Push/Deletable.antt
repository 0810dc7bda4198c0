-- ===== src/Push/Deletable.antt =====
-- scripts/governance_preflight.py: the branches that an authorisation of deletions may name.
use mathlib.Core.Path.{subst}
use hh_ai_v.Base.{
  ℕ, ◌==◌, ◌≡◌, ◌≢◌, refl, sym, ap, ◌∙◌, inl, inr, true, false, not, Text, text_eq, text_eq_iff, [],
  ◌∷◌, arith, Bool-cases, All, ok, ok-injective, >>=-eq-ok, require-eq-ok, lower, strip, is_oid,
  is_space, ends_solid, strip-ends_solid, lower-ends_solid,
}
use hh_ai_v.Json.{object}
use hh_ai_v.Push.{
  AuthFile, absent, document, cannot_overwrite, empty_mapping, malformed_ref, forbidden_main,
  malformed_sha, main_ref, Mapping, put, drop_newline, is_oid_match, Write, Stamp, is_absent,
  is_branch_ref, normalized, is_empty_mapping, delete_auth, delete_request,
  create_remote_delete_auth,
}
use hh_ai_v.Push.Granted.{created-ok, is_absent-absent}

-- a branch other than main, with a full object name
unfoldable pub Deletable : Text × Text → Type 0
Deletable (ref, sha) = (is_branch_ref ref ≡ true) × (ref ≢ main_ref) × (is_oid sha ≡ true)

newline_apart : (c : ℕ) → not (is_space c) ≡ true → (c == 10) ≡ false
unfolding is_space
newline_apart c h = ground arith

drop_newline-solid : (text : Text) → ends_solid text ≡ true → drop_newline text ≡ text
unfolding drop_newline ends_solid
drop_newline-solid [] h = refl
drop_newline-solid (c ∷ []) h = rw (newline_apart c h) refl
drop_newline-solid (c ∷ (d ∷ text)) h = ap (λ t. c ∷ t) (drop_newline-solid (d ∷ text) h)

-- A match of a stripped text takes the whole of it.
is_oid_match-strip :
    (sha : Text) → is_oid_match (lower (strip sha)) ≡ true → is_oid (lower (strip sha)) ≡ true
unfolding is_oid_match
is_oid_match-strip sha h =
    let whole =
      drop_newline-solid (lower (strip sha))
        (lower-ends_solid (strip sha) (strip-ends_solid sha)) in
    ap is_oid (sym whole) ∙ h

put_same :
    (ref sha k v : Text) (entries : Mapping)
    → text_eq ref k ≡ true
    → put ref sha ((k, v) ∷ entries) ≡ (k, sha) ∷ entries
unfolding put
put_same ref sha k v entries h = ground (arith, h)

put_apart :
    (ref sha k v : Text) (entries : Mapping)
    → text_eq ref k ≡ false
    → put ref sha ((k, v) ∷ entries) ≡ (k, v) ∷ put ref sha entries
unfolding put
put_apart ref sha k v entries h = ground (arith, h)

Deletable-of :
    (ref sha : Text)
    → is_branch_ref ref ≡ true
    → not (text_eq ref main_ref) ≡ true
    → is_oid sha ≡ true
    → Deletable (ref, sha)
unfolding Deletable
Deletable-of ref sha b m o =
    (b, λ e. let same = (text_eq_iff ref main_ref).1 e in ground (arith, same, m), o)

put-Deletable :
    (ref sha : Text) (entries : Mapping)
    → Deletable (ref, sha)
    → All Deletable entries
    → All Deletable (put ref sha entries)
unfolding put Deletable
put-Deletable ref sha [] d all = (d, tt)
put-Deletable ref sha ((k, v) ∷ entries) d (e, all) = elim (Bool-cases (text_eq ref k)) [
  | inl same ↦
      let (branch, other, oid) = e in
      let (branch2, other2, oid2) = d in
      subst (All Deletable) (sym (put_same ref sha k v entries same)) ((branch, other, oid2), all)
  | inr apart ↦
      subst (All Deletable) (sym (put_apart ref sha k v entries apart))
        (e, put-Deletable ref sha entries d all)
]

normalized-Deletable :
    (entries more : Mapping) {mapping : Mapping}
    → normalized entries more ≡ ok mapping
    → All Deletable entries
    → All Deletable mapping
unfolding normalized
normalized-Deletable entries [] h all = subst (All Deletable) (ok-injective h) all
normalized-Deletable entries ((ref, sha) ∷ more) h all =
    let (e1, h1) = require-eq-ok (is_branch_ref (strip ref)) malformed_ref _ h in
    let (e2, h2) = require-eq-ok (not (text_eq (strip ref) main_ref)) forbidden_main _ h1 in
    let (e3, h3) = require-eq-ok (is_oid_match (lower (strip sha))) malformed_sha _ h2 in
    normalized-Deletable (put (strip ref) (lower (strip sha)) entries) more h3 (
      put-Deletable (strip ref) (lower (strip sha)) entries
        (Deletable-of (strip ref) (lower (strip sha)) e1 e2 (is_oid_match-strip sha e3)) all)

-- Where an authorisation of deletions is created, there was none before, and the file behind holds
-- the normalised mapping, in which every key is a branch other than main and every value a full
-- object name, 40 hexadecimal digits and nothing else.
pub create_remote_delete_auth-Deletable :
    (write : Write) (stamp : Stamp) (file behind : AuthFile) (task : Text) (requested : Mapping)
    → create_remote_delete_auth write stamp file task requested ≡ (ok tt, behind)
    → (file ≡ absent)
      × (mapping : Mapping) × (normalized [] requested ≡ ok mapping)
      × (behind ≡ document (object (delete_auth task mapping stamp)))
      × All Deletable mapping
unfolding create_remote_delete_auth delete_request
create_remote_delete_auth-Deletable write stamp file behind task requested h =
    let (auth, request, wrote) =
      created-ok write file (delete_request file task requested stamp) h in
    let (e1, h1) = require-eq-ok (is_absent file) cannot_overwrite _ request in
    let (e2, h2) = require-eq-ok (not (is_empty_mapping requested)) empty_mapping _ h1 in
    let (mapping, e3, h3) = >>=-eq-ok (normalized [] requested) _ h2 in
    (
      is_absent-absent file e1,
      mapping,
      e3,
      sym wrote ∙ ap (λ x. document (object x)) (sym (ok-injective h3)),
      normalized-Deletable [] requested e3 tt,
    )
