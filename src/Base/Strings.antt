-- ===== src/Base/Strings.antt =====
-- Python texts as lists of code points, and the `str` methods that the scripts call.
use Prim.Native.Nat.{ℕ, zero, suc, ◌+◌, ◌≤◌, ◌<◌}
use Prim.Native.Char.{code}
use Prim.Native.String.{String}
use mathlib.Core.Path.{◌≡◌, refl, ap₂, ◌∙◌}
use mathlib.Core.Logic.{◌↔◌, inl, inr}
use mathlib.Core.Bool.{Bool, true, false, ◌&&◌, ◌||◌}
use mathlib.Core.Option.{Option, none, some}
use mathlib.Core.List.{List, [], ◌∷◌, ◌++◌}
use native.Mathlib.Omega.{arith}
use hh_ai_v.Base.Tests.{◌==◌, leb, if◌then◌else◌, Option-cases, Bool-cases}
use hh_ai_v.Base.Lists.{length, all, All, length-append}

abbrev pub Text : Type 0
Text = List ℕ

-- The code points of a literal.
abbrev pub codes : String → Text
codes String.[] = []
codes (String.◌∷◌ c s) = code c ∷ codes s

-- `==` of two texts
unfoldable pub text_eq : Text → Text → Bool
text_eq [] [] = true
text_eq (x ∷ xs) (y ∷ ys) = x == y && text_eq xs ys
text_eq _ _ = false

pub text_eq_iff : (a b : Text) → (text_eq a b ≡ true) ↔ (a ≡ b)
unfolding text_eq
text_eq_iff (x ∷ a) (y ∷ b) = ground (arith, text_eq_iff a b)
text_eq_iff _ _ = ground arith

-- What is left of a text behind a prefix, if it has that prefix.
unfoldable pub strip_prefix? : Text → Text → Option Text
strip_prefix? [] text = some text
strip_prefix? (p ∷ ps) [] = none
strip_prefix? (p ∷ ps) (c ∷ cs) = let rest = strip_prefix? ps cs in if p == c then rest else none

-- `text.startswith(prefix)`
unfoldable pub starts_with : Text → Text → Bool
starts_with text [] = true
starts_with [] (p ∷ ps) = false
starts_with (c ∷ cs) (p ∷ ps) = p == c && starts_with cs ps

-- `needle in text`
unfoldable pub contains_text : Text → Text → Bool
contains_text needle [] = starts_with [] needle
contains_text needle (c ∷ cs) = starts_with (c ∷ cs) needle || contains_text needle cs

-- The scan of `text.count(needle)` for a needle of `suc w` characters: `skip` characters of the
-- last occurrence are still ahead.
unfoldable pub count_from : ℕ → Text → ℕ → Text → ℕ
count_from w needle skip [] = 0
count_from w needle (suc skip) (c ∷ cs) = count_from w needle skip cs
count_from w needle zero (c ∷ cs) =
    let hit = starts_with (c ∷ cs) needle in
    (if hit then 1 else 0) + count_from w needle (if hit then w else 0) cs

-- `text.count(needle)`: occurrences that do not overlap, from the left
unfoldable pub count_text : Text → Text → ℕ
unfolding count_from
count_text [] text = length text + 1
count_text (n ∷ ns) text = count_from (length ns) (n ∷ ns) 0 text

-- `text.split(needle, 1)` for a text that holds the needle: what stands before and behind the
-- first occurrence.
unfoldable pub split_once : Text → Text → Option (Text × Text)
split_once needle [] = elim (strip_prefix? needle []) [ none ↦ none | some rest ↦ some ([], rest) ]
split_once needle (c ∷ cs) = elim (strip_prefix? needle (c ∷ cs)) [
  | some rest ↦ some ([], rest)
  | none ↦ elim (split_once needle cs) [
    | none ↦ none
    | some (before, behind) ↦ some (c ∷ before, behind)
  ]
]

abbrev pub cons_head : ℕ → List Text → List Text
cons_head c [] = (c ∷ []) ∷ []
cons_head c (l ∷ ls) = (c ∷ l) ∷ ls

-- `text.split(chr(d))`
unfoldable pub split_on : ℕ → Text → List Text
split_on d [] = [] ∷ []
split_on d (c ∷ cs) = let rest = split_on d cs in if c == d then [] ∷ rest else cons_head c rest

-- `chr(d).join(lines)`
unfoldable pub join_with : ℕ → List Text → Text
join_with d [] = []
join_with d (l ∷ []) = l
join_with d (l ∷ (k ∷ ks)) = l ++ (d ∷ join_with d (k ∷ ks))

-- `\s` of the `re` module on `str`, and `str.isspace` of one character
unfoldable pub is_space : ℕ → Bool
is_space c =
    (leb 9 c && leb c 13)
    || (leb 28 c && leb c 32)
    || c == 133
    || c == 160
    || c == 5760
    || (leb 8192 c && leb c 8202)
    || c == 8232
    || c == 8233
    || c == 8239
    || c == 8287
    || c == 12288

-- `.*` up to the end: `.` is every character but the line feed
unfoldable pub no_newline : Text → Bool
no_newline = all (λ c. if c == 10 then false else true)

-- What was stripped is the prefix.
pub strip_prefix?-append : (p rest : Text) → strip_prefix? p (p ++ rest) ≡ some rest
unfolding strip_prefix?
strip_prefix?-append [] rest = refl
strip_prefix?-append (c ∷ p) rest = ground (arith, strip_prefix?-append p rest)

pub append-strip_prefix? :
    (p text rest : Text) → strip_prefix? p text ≡ some rest → text ≡ p ++ rest
unfolding strip_prefix?
append-strip_prefix? [] text rest h = ground arith
append-strip_prefix? (c ∷ p) [] rest h = cc
append-strip_prefix? (c ∷ p) (d ∷ text) rest h = ground (arith, append-strip_prefix? p text rest)

pub split_once-append :
    (needle text before behind : Text)
    → split_once needle text ≡ some (before, behind)
    → text ≡ before ++ (needle ++ behind)
unfolding split_once
split_once-append needle [] before behind h = elim (Option-cases (strip_prefix? needle [])) [
  | inl e ↦ ground (arith, e)
  | inr (rest, e) ↦ ground (arith, e, append-strip_prefix? needle [] rest e)
]
split_once-append needle (c ∷ cs) before behind h =
    elim (Option-cases (strip_prefix? needle (c ∷ cs))) [
      | inr (rest, e) ↦ ground (arith, e, append-strip_prefix? needle (c ∷ cs) rest e)
      | inl e ↦ elim (Option-cases (split_once needle cs)) [
        | inl e' ↦ ground (arith, e, e')
        | inr ((b, d), e') ↦ ground (arith, e, e', split_once-append needle cs b d e')
      ]
    ]

pub all-append {ℓ} :
    {A : Type ℓ} (p : A → Bool) (xs ys : List A) → all p (xs ++ ys) ≡ (all p xs && all p ys)
all-append p [] ys = refl
all-append p (x ∷ xs) ys = ground (arith, all-append p xs ys)

pub no_newline-append : (s t : Text) → no_newline (s ++ t) ≡ (no_newline s && no_newline t)
unfolding no_newline
no_newline-append s t = all-append _ s t

-- `text.endswith(suffix)`
unfoldable pub ends_with : Text → Text → Bool
ends_with [] suffix = text_eq [] suffix
ends_with (c ∷ cs) suffix = text_eq (c ∷ cs) suffix || ends_with cs suffix

pub text_eq_refl : (t : Text) → text_eq t t ≡ true
text_eq_refl t = (text_eq_iff t t).1 refl

pub text_eq-append : (p a b : Text) → text_eq (p ++ a) (p ++ b) ≡ text_eq a b
unfolding text_eq
text_eq-append [] a b = refl
text_eq-append (c ∷ p) a b = ground (arith, text_eq-append p a b)

pub starts_with-append : (p rest : Text) → starts_with (p ++ rest) p ≡ true
unfolding starts_with
starts_with-append [] [] = refl
starts_with-append [] (c ∷ rest) = refl
starts_with-append (c ∷ p) rest = ground (arith, starts_with-append p rest)

text_eq-longer : (a b : Text) → length b < length a → text_eq a b ≡ false
unfolding text_eq
text_eq-longer [] b h = absurd (omega arith)
text_eq-longer (x ∷ a) [] h = refl
text_eq-longer (x ∷ a) (y ∷ b) h = ground (arith, text_eq-longer a b)

-- A suffix that is no longer than the last part is a suffix of that part.
pub ends_with-append :
    (xs ys suffix : Text)
    → length suffix ≤ length ys
    → ends_with (xs ++ ys) suffix ≡ ends_with ys suffix
unfolding ends_with
ends_with-append [] ys suffix h = refl
ends_with-append (x ∷ xs) ys suffix h = ground (
  arith,
  ends_with-append xs ys suffix,
  text_eq-longer (x ∷ (xs ++ ys)) suffix,
  length-append {0} xs ys,
)

pub split_on-line :
    (line rest : Text)
    → no_newline line ≡ true
    → split_on 10 (line ++ (10 ∷ rest)) ≡ line ∷ split_on 10 rest
unfolding split_on no_newline
split_on-line [] rest h = refl
split_on-line (c ∷ line) rest h = ground (arith, split_on-line line rest)

cons_head-no_newline :
    (c : ℕ) (ls : List Text)
    → c == 10 ≡ false
    → All (λ l. no_newline l ≡ true) ls
    → All (λ l. no_newline l ≡ true) (cons_head c ls)
unfolding no_newline
cons_head-no_newline c [] e h = (ground arith, tt)
cons_head-no_newline c (l ∷ ls) e h = (ground (arith, h.0), h.1)

-- No piece of a text that is split at the line feed holds one.
pub split_on-no_newline : (text : Text) → All (λ l. no_newline l ≡ true) (split_on 10 text)
unfolding split_on no_newline
split_on-no_newline [] = (refl, tt)
split_on-no_newline (c ∷ cs) = elim (Bool-cases (c == 10)) [
  | inl e ↦ rw e (refl, split_on-no_newline cs)
  | inr e ↦ rw e (cons_head-no_newline c (split_on 10 cs) e (split_on-no_newline cs))
]

pub no_newline_join :
    (s t : Text) → no_newline s ≡ true → no_newline t ≡ true → no_newline (s ++ t) ≡ true
no_newline_join s t h k = no_newline-append s t ∙ ap₂ ◌&&◌ h k
