-- ===== src/Base/Lines.antt =====
-- `strip`, `splitlines` and the order of Python texts.
use Prim.Native.Nat.{ℕ}
use mathlib.Core.Bool.{Bool, true, false, not, ◌&&◌, ◌||◌}
use mathlib.Core.List.{List, [], ◌∷◌, ◌++◌}
use mathlib.Core.Path.{◌≡◌, refl, ap, ◌∙◌}
use native.Mathlib.Omega.{arith}
use hh_ai_v.Base.Lists.{all}
use hh_ai_v.Base.Tests.{leb, ◌==◌, if◌then◌else◌}
use hh_ai_v.Base.Strings.{Text, is_space, cons_head}

-- `str.lstrip()`
lstrip : Text → Text
lstrip [] = []
lstrip (c ∷ cs) = let rest = lstrip cs in if is_space c then rest else c ∷ cs

-- `str.rstrip()`
rstrip : Text → Text
rstrip [] = []
rstrip (c ∷ cs) = elim (rstrip cs) [
  | [] ↦ if is_space c then [] else c ∷ []
  | d ∷ ds ↦ c ∷ (d ∷ ds)
]

-- `str.strip()`
unfoldable pub strip : Text → Text
unfolding lstrip rstrip
strip text = rstrip (lstrip text)

-- a text that is not empty and has no space
unfoldable pub is_solid : Text → Bool
is_solid [] = false
is_solid (c ∷ cs) = all (λ d. not (is_space d)) (c ∷ cs)

rstrip_cons :
    (c d : ℕ) (ds : Text) → rstrip (d ∷ ds) ≡ d ∷ ds → rstrip (c ∷ (d ∷ ds)) ≡ c ∷ (d ∷ ds)
unfolding rstrip
rstrip_cons c d ds h =
    ap (λ r. elim r [ [] ↦ if is_space c then [] else c ∷ [] | d ∷ ds ↦ c ∷ (d ∷ ds) ]) h

rstrip-solid : (w : Text) → is_solid w ≡ true → rstrip w ≡ w
unfolding is_solid
rstrip-solid [] h = absurd (ground arith)
rstrip-solid (c ∷ []) h = unfold rstrip in ground (arith, h)
rstrip-solid (c ∷ (d ∷ w)) h = rstrip_cons c d w (rstrip-solid (d ∷ w) (ground (arith, h)))

rstrip-append : (a w : Text) → is_solid w ≡ true → rstrip (a ++ w) ≡ a ++ w
rstrip-append [] w h = rstrip-solid w h
rstrip-append (c ∷ []) [] h = unfold is_solid in absurd (ground arith)
rstrip-append (c ∷ []) (d ∷ w) h = rstrip_cons c d w (rstrip-solid (d ∷ w) h)
rstrip-append (c ∷ (d ∷ a)) w h = rstrip_cons c d (a ++ w) (rstrip-append (d ∷ a) w h)

-- A text that begins with a character and ends with a word keeps both.
pub strip_solid :
    (c : ℕ) (a w : Text)
    → is_space c ≡ false
    → is_solid w ≡ true
    → strip (c ∷ (a ++ w)) ≡ c ∷ (a ++ w)
unfolding strip lstrip
strip_solid c a w h s =
    let first : lstrip (c ∷ (a ++ w)) ≡ c ∷ (a ++ w) = ground (arith, h) in
    ap rstrip first ∙ rstrip-append (c ∷ a) w s

-- a text whose last character, if it has one, is not a space
unfoldable pub ends_solid : Text → Bool
ends_solid [] = true
ends_solid (c ∷ []) = not (is_space c)
ends_solid (c ∷ (d ∷ cs)) = ends_solid (d ∷ cs)

rstrip-ends_solid : (text : Text) → ends_solid (rstrip text) ≡ true
unfolding rstrip ends_solid
rstrip-ends_solid [] = refl
rstrip-ends_solid (c ∷ cs) = behind_first c (rstrip cs) (rstrip-ends_solid cs)
  where
    behind_first :
        (c : ℕ) (r : Text)
        → ends_solid r ≡ true
        → ends_solid (elim r [ [] ↦ if is_space c then [] else c ∷ [] | d ∷ ds ↦ c ∷ (d ∷ ds) ])
          ≡ true
    behind_first c [] h = ground arith
    behind_first c (d ∷ ds) h = h

pub strip-ends_solid : (text : Text) → ends_solid (strip text) ≡ true
unfolding strip
strip-ends_solid text = rstrip-ends_solid (lstrip text)

-- the line boundaries of `str.splitlines`
is_break : ℕ → Bool
is_break c = (leb 10 c && leb c 13) || (leb 28 c && leb c 30) || c == 133 || c == 8232 || c == 8233

-- `str.splitlines()`
unfoldable pub splitlines : Text → List Text
unfolding is_break
splitlines [] = []
splitlines (c ∷ []) = (if is_break c then [] else c ∷ []) ∷ []
splitlines (c ∷ (d ∷ cs)) =
    let both = splitlines cs in
    let one = splitlines (d ∷ cs) in
    if c == 13 && d == 10 then [] ∷ both else if is_break c then [] ∷ one else cons_head c one

-- `a <= b` of two texts, by their code points
unfoldable pub text_leb : Text → Text → Bool
text_leb [] b = true
text_leb (c ∷ a) [] = false
text_leb (c ∷ a) (d ∷ b) = let rest = text_leb a b in if c == d then rest else leb c d

-- `text.replace("\r\n", "\n")`
unfoldable pub crlf_to_lf : Text → Text
crlf_to_lf [] = []
crlf_to_lf (c ∷ []) = c ∷ []
crlf_to_lf (c ∷ (d ∷ cs)) =
    let both = crlf_to_lf cs in
    let one = crlf_to_lf (d ∷ cs) in if c == 13 && d == 10 then 10 ∷ both else c ∷ one
