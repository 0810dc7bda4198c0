-- ===== src/StateEdit/Sorted.antt =====
-- scripts/state_edit.py: the order in which `seal` takes the files does not matter to `check_files`.
use mathlib.Core.List.{cons≢nil}
use hh_ai_v.Base.{
  text_leb, ok, require-eq-ok, ◌≡◌, refl, sym, ap, ◌∙◌, ◌≢◌, inl, inr, Bool, true, not, ◌&&◌, ◌||◌,
  Text, List, [], ◌∷◌, map, arith, text_eq, text_eq_iff, Bool-cases, ◌⊎◌, &&-eq-true,
}
use hh_ai_v.StateEdit.Checks.{is_member, all_distinct, state_files, check_paths, check_files}
use hh_ai_v.StateEdit.Seal.{Request, insert_request, sorted_requests}

abbrev pub request_paths : List Request → List Text
request_paths = map (λ r. r.path)

insert_request-cases :
    (r q : Request) (qs : List Request)
    → (insert_request r (q ∷ qs) ≡ r ∷ (q ∷ qs))
      ⊎ (insert_request r (q ∷ qs) ≡ q ∷ insert_request r qs)
unfolding insert_request
insert_request-cases r q qs = elim (Bool-cases (text_leb r.path q.path)) [
  | inl e ↦ inl (rw e refl)
  | inr e ↦ inr (rw e refl)
]

is_member-insert :
    (t : Text) (r : Request) (qs : List Request)
    → is_member t (request_paths (insert_request r qs))
      ≡ (text_eq t r.path || is_member t (request_paths qs))
unfolding is_member text_eq insert_request
is_member-insert t r [] = refl
is_member-insert t r (q ∷ qs) = elim (insert_request-cases r q qs) [
  | inl e ↦ ap (λ l. is_member t (request_paths l)) e
  | inr e ↦ ap (λ l. is_member t (request_paths l)) e ∙ ground (arith, is_member-insert t r qs)
]

text_eq_comm : (a b : Text) → text_eq a b ≡ text_eq b a
text_eq_comm a b = ground (arith, text_eq_iff a b, text_eq_iff b a)

all_distinct-insert :
    (r : Request) (qs : List Request)
    → all_distinct (request_paths (insert_request r qs))
      ≡ (not (is_member r.path (request_paths qs)) && all_distinct (request_paths qs))
unfolding all_distinct is_member insert_request
all_distinct-insert r [] = refl
all_distinct-insert r (q ∷ qs) = elim (insert_request-cases r q qs) [
  | inl e ↦ ap (λ l. all_distinct (request_paths l)) e
  | inr e ↦
      ap (λ l. all_distinct (request_paths l)) e
      ∙ ground (
        arith,
        all_distinct-insert r qs,
        is_member-insert q.path r qs,
        text_eq_comm q.path r.path,
      )
]

is_member-sorted :
    (t : Text) (rs : List Request)
    → is_member t (request_paths (sorted_requests rs)) ≡ is_member t (request_paths rs)
unfolding sorted_requests is_member
is_member-sorted t [] = refl
is_member-sorted t (r ∷ rs) =
    is_member-insert t r (sorted_requests rs)
    ∙ ap (λ b. text_eq t r.path || b) (is_member-sorted t rs)

all_distinct-sorted :
    (rs : List Request)
    → all_distinct (request_paths (sorted_requests rs)) ≡ all_distinct (request_paths rs)
unfolding sorted_requests all_distinct
all_distinct-sorted [] = refl
all_distinct-sorted (r ∷ rs) =
    all_distinct-insert r (sorted_requests rs)
    ∙ ground (arith, is_member-sorted r.path rs, all_distinct-sorted rs)

-- both checks of one path
is_open : List Text → Text → Bool
is_open scope p = is_member p state_files && is_member p scope

check_paths-ok :
    (scope : List Text) (p : Text) (ps : List Text) {u : Unit {0}}
    → check_paths scope (p ∷ ps) ≡ ok u
    → (is_open scope p ≡ true) × (check_paths scope ps ≡ ok u)
unfolding check_paths is_open
check_paths-ok scope p ps h =
    let (a, h1) = require-eq-ok (is_member p state_files) _ _ h in
    let (b, h2) = require-eq-ok (is_member p scope) _ _ h1 in (rw a b, h2)

ok-check_paths :
    (scope : List Text) (p : Text) (ps : List Text)
    → is_open scope p ≡ true
    → check_paths scope (p ∷ ps) ≡ check_paths scope ps
unfolding check_paths is_open
ok-check_paths scope p ps h =
    let (a, b) = &&-eq-true (is_member p state_files) (is_member p scope) h in rw a (rw b refl)

check_paths-insert :
    (scope : List Text) (r : Request) (qs : List Request) {u : Unit {0}}
    → is_open scope r.path ≡ true
    → check_paths scope (request_paths qs) ≡ ok u
    → check_paths scope (request_paths (insert_request r qs)) ≡ ok u
unfolding insert_request
check_paths-insert scope r [] h k = ok-check_paths scope r.path [] h ∙ k
check_paths-insert scope r (q ∷ qs) h k = elim (insert_request-cases r q qs) [
  | inl e ↦
      ap (λ l. check_paths scope (request_paths l)) e
      ∙ ok-check_paths scope r.path (request_paths (q ∷ qs)) h
      ∙ k
  | inr e ↦
      let (first, rest) = check_paths-ok scope q.path (request_paths qs) k in
      ap (λ l. check_paths scope (request_paths l)) e
      ∙ ok-check_paths scope q.path _ first
      ∙ check_paths-insert scope r qs h rest
]

check_paths-sorted :
    (scope : List Text) (rs : List Request) {u : Unit {0}}
    → check_paths scope (request_paths rs) ≡ ok u
    → check_paths scope (request_paths (sorted_requests rs)) ≡ ok u
unfolding sorted_requests
check_paths-sorted scope [] h = h
check_paths-sorted scope (r ∷ rs) h =
    let (first, rest) = check_paths-ok scope r.path (request_paths rs) h in
    check_paths-insert scope r (sorted_requests rs) first (check_paths-sorted scope rs rest)

check_files-parts :
    (paths scope : List Text) {u : Unit {0}}
    → check_files paths scope ≡ ok u
    → (paths ≢ []) × (all_distinct paths ≡ true) × (check_paths scope paths ≡ ok u)
unfolding check_files
check_files-parts [] scope h = absurd (ground arith)
check_files-parts (p ∷ ps) scope h =
    let (d, c) = require-eq-ok (all_distinct (p ∷ ps)) _ _ h in (cons≢nil, d, c)

parts-check_files :
    (paths scope : List Text) {u : Unit {0}}
    → paths ≢ []
    → all_distinct paths ≡ true
    → check_paths scope paths ≡ ok u
    → check_files paths scope ≡ ok u
unfolding check_files
parts-check_files [] scope n d c = absurd (n refl)
parts-check_files (p ∷ ps) scope n d c = rw d c

insert_request-ne-nil : (r : Request) (qs : List Request) → request_paths (insert_request r qs) ≢ []
unfolding insert_request
insert_request-ne-nil r [] h = cons≢nil h
insert_request-ne-nil r (q ∷ qs) h = elim (insert_request-cases r q qs) [
  | inl e ↦ cons≢nil (ap request_paths (sym e) ∙ h)
  | inr e ↦ cons≢nil (ap request_paths (sym e) ∙ h)
]

-- A document whose files pass the check passes it in the order of the plan too.
pub check_files-sorted :
    (rs : List Request) (scope : List Text) {u : Unit {0}}
    → check_files (request_paths rs) scope ≡ ok u
    → check_files (request_paths (sorted_requests rs)) scope ≡ ok u
check_files-sorted [] scope h = unfold sorted_requests in h
check_files-sorted (r ∷ rs) scope h =
    let (n, d, c) = check_files-parts (request_paths (r ∷ rs)) scope h in
    parts-check_files _ scope
      (unfold sorted_requests in insert_request-ne-nil r (sorted_requests rs))
      (all_distinct-sorted (r ∷ rs) ∙ d) (check_paths-sorted scope (r ∷ rs) c)
