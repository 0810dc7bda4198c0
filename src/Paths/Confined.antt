-- ===== src/Paths/Confined.antt =====
-- scripts/execution_record.py: a path that `validate_path_syntax` accepts does not leave the root.
use mathlib.Core.Path.{subst}
use mathlib.Core.List.{cons≢nil}
use hh_ai_v.Base.{
  ◌≡◌, ◌≢◌, refl, true, false, not, ◌||◌, Text, Option, none, some, List, [], ◌∷◌, arith, ok,
  ok-injective, require-eq-ok, if◌then◌else◌, any, codes, text_eq, starts_with, split_on,
  Bool-cases, inl, inr,
}
use hh_ai_v.Paths.Syntax.{
  normalize_repo_path, is_blank, has_drive, is_part, is_wildcard, validate_path_syntax,
}

-- Where the parts of a path lead from a folder: an empty part and `.` stay, `..` goes up, which the
-- root does not allow, and any other part goes down. A folder is the list of its names, inner first.
unfoldable pub walk : List Text → List Text → Option (List Text)
walk folder [] = some folder
walk folder (part ∷ parts) =
    let down = walk (part ∷ folder) parts in
    let stay = walk folder parts in
    let up : Option (List Text) = elim folder [ [] ↦ none | name ∷ outer ↦ walk outer parts ] in
    if is_blank part || text_eq part (codes ".")
    then stay
    else if text_eq (codes "..") part
    then up
    else down

-- the second folder is inside the first one, or is the same
pub data Inside (root : List Text) : List Text → Type 0 where
  here : Inside root root
  below : {folder : List Text} (name : Text) → Inside root folder → Inside root (name ∷ folder)

-- The way of the parts from a folder to its end: every part stays or goes down, and none goes up.
pub data Descends : List Text → List Text → List Text → Type 0 where
  arrived : {folder : List Text} → Descends folder [] folder
  stays :
      {folder parts end : List Text} (part : Text)
      → (is_blank part || text_eq part (codes ".")) ≡ true
      → Descends folder parts end
      → Descends folder (part ∷ parts) end
  enters :
      {folder parts end : List Text} (part : Text)
      → text_eq (codes "..") part ≡ false
      → Descends (part ∷ folder) parts end
      → Descends folder (part ∷ parts) end

walk-Inside :
    (root folder parts : List Text)
    → is_part (codes "..") parts ≡ false
    → Inside root folder
    → (end : List Text) × (walk folder parts ≡ some end)
      × Inside root end
      × Descends folder parts end
unfolding walk is_part
walk-Inside root folder [] h inside = (folder, refl, inside, arrived)
walk-Inside root folder (part ∷ parts) h inside =
    elim (Bool-cases (is_blank part || text_eq part (codes "."))) [
      | inl still ↦
          let (end, walked, ends, way) = walk-Inside root folder parts (ground arith) inside in
          (end, rw still walked, ends, stays part still way)
      | inr moves ↦
          let not_up : text_eq (codes "..") part ≡ false = ground arith in
          let (end, walked, ends, way) =
            walk-Inside root (part ∷ folder) parts (ground arith) (below part inside) in
          (end, rw moves (rw not_up walked), ends, enters part not_up way)
    ]

pub not_blank : (t : Text) → not (is_blank t) ≡ true → t ≢ []
unfolding is_blank
not_blank [] h = absurd (ground arith)
not_blank (c ∷ cs) h = cons≢nil

-- A normalised path, and where it leads from a folder.
pub record Confined (root : List Text) (p norm : Text) : Type 0 where
  pub normalised : norm ≡ normalize_repo_path p
  pub filled : norm ≢ []
  pub no_slash : starts_with norm (codes "/") ≡ false
  pub no_drive : has_drive norm ≡ false
  pub no_wildcard : any is_wildcard norm ≡ false
  pub end : List Text
  pub walked : walk root (split_on b'/' norm) ≡ some end
  pub inside : Inside root end
  pub way : Descends root (split_on b'/' norm) end

-- What is accepted is the normalised path, which is not empty, does not begin with a slash or with a
-- drive and holds no wildcard. From any folder it leads to a folder or file inside it, and every part
-- on the way stays or goes down: none is `..`.
pub validate_path_syntax-Inside :
    (p norm : Text) (root : List Text) → validate_path_syntax p ≡ ok norm → Confined root p norm
unfolding validate_path_syntax
validate_path_syntax-Inside p norm root h =
    let n = normalize_repo_path p in
    let (blank, h1) = require-eq-ok (not (is_blank n)) _ _ h in
    let (absolute, h2) = require-eq-ok (not (starts_with n (codes "/") || has_drive n)) _ _ h1 in
    let (up, h3) = require-eq-ok (not (is_part (codes "..") (split_on b'/' n))) _ _ h2 in
    let (wild, h4) = require-eq-ok (not (any is_wildcard n)) _ _ h3 in
    let (end, walked, inside, way) =
      walk-Inside root root (split_on b'/' n) (ground (arith, up)) here in
    subst (Confined root p) (ok-injective h4) (record {
      normalised = refl;
      filled = not_blank n blank;
      no_slash = ground (arith, absolute);
      no_drive = ground (arith, absolute);
      no_wildcard = ground (arith, wild);
      end = end;
      walked = walked;
      inside = inside;
      way = way;
    })
