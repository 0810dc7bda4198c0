-- ===== src/Paths/Artifact.antt =====
-- scripts/execution_record.py: the paths that `validate_external_artifact_path` accepts.
use mathlib.Core.List.{cons≢nil}
use hh_ai_v.Base.{
  ℕ, ◌==◌, ◌≡◌, ◌≢◌, refl, sym, ap, ◌∙◌, inl, inr, false, not, ◌||◌, Text, Option, none, some, List,
  [], ◌∷◌, ◌++◌, arith, ok, ok-injective, >>=-eq-ok, require-eq-ok, any, codes, text_eq,
  text_eq_iff, starts_with, contains_text, strip_prefix?, append-strip_prefix?, split_on, join_with,
  cons_head, strip, Bool-cases,
}
use hh_ai_v.Paths.Syntax.{
  not_direct_child, normalize_repo_path, is_blank, has_drive, is_forbidden, suffix_of, child_of_git,
  validate_external_artifact_path,
}
use hh_ai_v.Paths.Confined.{not_blank}

-- an accepted path: a direct child of `.git` whose name starts with the task
pub record IsArtifact (task_id norm : Text) : Type 0 where
  pub suffix : Text
  pub is_child : norm ≡ codes ".git/" ++ (task_id ++ codes "-" ++ suffix)
  pub is_named : suffix ≢ []
  pub no_dots : contains_text (codes "..") suffix ≡ false
  pub allowed : any is_forbidden suffix ≡ false

join-cons_head :
    (d c : ℕ) (l : Text) (ls : List Text)
    → join_with d (cons_head c (l ∷ ls)) ≡ c ∷ join_with d (l ∷ ls)
unfolding join_with
join-cons_head d c l [] = refl
join-cons_head d c l (k ∷ ls) = refl

join-cons_head_any :
    (d c : ℕ) (ls : List Text) → ls ≢ [] → join_with d (cons_head c ls) ≡ c ∷ join_with d ls
join-cons_head_any d c [] h = absurd (h refl)
join-cons_head_any d c (l ∷ ls) h = join-cons_head d c l ls

split_on-ne-nil : (d : ℕ) (t : Text) → split_on d t ≢ []
unfolding split_on
split_on-ne-nil d [] h = cons≢nil h
split_on-ne-nil d (c ∷ cs) h = elim (Bool-cases (c == d)) [
  | inl e ↦ absurd (ground arith)
  | inr e ↦ cons_head-ne-nil c (split_on d cs) (ground arith)
]
  where
    cons_head-ne-nil : (c : ℕ) (ls : List Text) → cons_head c ls ≢ []
    cons_head-ne-nil c [] = ground arith
    cons_head-ne-nil c (l ∷ ls) = ground arith

join-nil : (d : ℕ) (ls : List Text) → ls ≢ [] → join_with d ([] ∷ ls) ≡ d ∷ join_with d ls
unfolding join_with
join-nil d [] h = absurd (h refl)
join-nil d (l ∷ ls) h = refl

-- The pieces of a text joined again are the text.
join-split_on : (d : ℕ) (t : Text) → join_with d (split_on d t) ≡ t
unfolding split_on
join-split_on d [] = unfold join_with in refl
join-split_on d (c ∷ cs) = elim (Bool-cases (c == d)) [
  | inl e ↦
      let same : c ≡ d = ground arith in
      rw e (
        join-nil d (split_on d cs) (split_on-ne-nil d cs)
        ∙ ap (◌∷◌ d) (join-split_on d cs)
        ∙ ap (λ x. x ∷ cs) (sym same))
  | inr e ↦ rw e (
      join-cons_head_any d c (split_on d cs) (split_on-ne-nil d cs)
      ∙ ap (◌∷◌ c) (join-split_on d cs))
]

child_of_git-eq-ok :
    (parts : List Text) {filename : Text}
    → child_of_git parts ≡ ok filename
    → parts ≡ codes ".git" ∷ filename ∷ []
unfolding child_of_git
child_of_git-eq-ok [] h = absurd (ground arith)
child_of_git-eq-ok (a ∷ []) h = absurd (ground arith)
child_of_git-eq-ok (a ∷ (b ∷ [])) h =
    let (same, k) = require-eq-ok (text_eq a (codes ".git")) not_direct_child (ok b) h in
    ap (λ x. x ∷ b ∷ []) ((text_eq_iff a (codes ".git")).0 same)
    ∙ ap (λ x. codes ".git" ∷ x ∷ []) (ok-injective k)
child_of_git-eq-ok (a ∷ (b ∷ (c ∷ parts))) h = absurd (ground arith)

suffix_of-eq-ok : (o : Option Text) {suffix : Text} → suffix_of o ≡ ok suffix → o ≡ some suffix
unfolding suffix_of
suffix_of-eq-ok none h = absurd (ground arith)
suffix_of-eq-ok (some s) h = ap some (ok-injective h)

-- An accepted artifact path is, with its slashes normalised, `.git/` with a name that starts with the
-- task and a dash and goes on with a suffix; the suffix is not empty and holds no slash, no two dots
-- in a row and none of the other forbidden characters.
pub validate_external_artifact_path-IsArtifact :
    (raw_path task_id norm : Text)
    → validate_external_artifact_path raw_path task_id ≡ ok norm
    → (norm ≡ normalize_repo_path raw_path) × IsArtifact task_id norm
unfolding validate_external_artifact_path
validate_external_artifact_path-IsArtifact raw_path task_id norm h =
    let n = normalize_repo_path raw_path in
    let (a, h1) = require-eq-ok (not (is_blank (strip raw_path))) _ _ h in
    let (b, h2) =
      require-eq-ok
        (not (
          starts_with raw_path (codes "/")
          || starts_with raw_path (codes "\\")
          || has_drive raw_path))
        _ _ h1 in
    let (filename, child, h3) = >>=-eq-ok (child_of_git (split_on b'/' n)) _ h2 in
    let (suffix, named, h4) =
      >>=-eq-ok (suffix_of (strip_prefix? (task_id ++ codes "-") filename)) _ h3 in
    let (c, h5) = require-eq-ok (not (is_blank suffix)) _ _ h4 in
    let (d, h6) = require-eq-ok (not (contains_text (codes "..") suffix)) _ _ h5 in
    let (e, h7) = require-eq-ok (not (any is_forbidden suffix)) _ _ h6 in
    let same : n ≡ norm = ok-injective h7 in
    let parts = child_of_git-eq-ok (split_on b'/' n) child in
    let joined : n ≡ codes ".git/" ++ filename =
      sym (join-split_on b'/' n) ∙ ap (join_with b'/') parts ∙ unfold join_with in refl in
    let name =
      append-strip_prefix? (task_id ++ codes "-") filename suffix (suffix_of-eq-ok _ named) in
    (
      sym same,
      record {
        suffix = suffix;
        is_child = sym same ∙ joined ∙ ap (λ f. codes ".git/" ++ f) name;
        is_named = not_blank suffix c;
        no_dots = ground (arith, d);
        allowed = ground (arith, e);
      },
    )
