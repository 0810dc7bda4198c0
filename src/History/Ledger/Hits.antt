-- ===== src/History/Ledger/Hits.antt =====
-- scripts/history_guard.py: the line that holds the placeholder, and the lines that `check_ledger`
-- keeps around it.
use mathlib.Core.List.{cons≢nil}
use hh_ai_v.Base.{
  ℕ, ◌+◌, ◌<◌, ◌≡◌, refl, sym, ap, inl, inr, Bool, true, false, not, Text, Option, none, some, List,
  [], ◌∷◌, ◌++◌, arith, if◌then◌else◌, starts_with, Bool-cases, All, filter, length,
}
use hh_ai_v.History.Ledger.{checkpoint_prefix, indices_from}
use hh_ai_v.History.Ledger.Check.{kept_from}

-- the lines of a section that are no checkpoint line
abbrev pub is_other : Text → Bool
is_other line = not (starts_with line checkpoint_prefix)

-- A list split at its only element that passes a test.
pub record SingleHit (p : Text → Bool) (lines : List Text) (i k : ℕ) : Type 0 where
  pub before : List Text
  pub hit : Text
  pub behind : List Text
  pub splits : lines ≡ before ++ (hit ∷ behind)
  pub none_before : All (λ l. p l ≡ false) before
  pub hit_passes : p hit ≡ true
  pub none_behind : All (λ l. p l ≡ false) behind
  pub index : k ≡ i + length before

module _ (p : Text → Bool) where
  pub indices_from-nil :
      (i : ℕ) (lines : List Text) → indices_from p i lines ≡ [] → All (λ l. p l ≡ false) lines
  unfolding indices_from
  indices_from-nil i [] h = tt
  indices_from-nil i (line ∷ lines) h = elim (Bool-cases (p line)) [
    | inl e ↦
        let found : i ∷ indices_from p (i + 1) lines ≡ [] = ground arith in absurd (cons≢nil found)
    | inr e ↦ (e, indices_from-nil (i + 1) lines (ground arith))
  ]

  pub indices_from-SingleHit :
      (i k : ℕ) (lines : List Text) → indices_from p i lines ≡ k ∷ [] → SingleHit p lines i k
  unfolding indices_from
  indices_from-SingleHit i k [] h = absurd (cons≢nil (sym h))
  indices_from-SingleHit i k (line ∷ lines) h = elim (Bool-cases (p line)) [
    | inl e ↦ record {
      before = [];
      hit = line;
      behind = lines;
      splits = refl;
      none_before = tt;
      hit_passes = e;
      none_behind = indices_from-nil (i + 1) lines (ground arith);
      index = ground arith;
    }
    | inr e ↦
        let s = indices_from-SingleHit (i + 1) k lines (ground arith) in
        record {
          before = line ∷ s.before;
          hit = s.hit;
          behind = s.behind;
          splits = ap (◌∷◌ line) s.splits;
          none_before = (e, s.none_before);
          hit_passes = s.hit_passes;
          none_behind = s.none_behind;
          index = omega (arith, s.index);
        }
  ]

pub kept_from-none :
    (c : Option Text) (i : ℕ) (lines : List Text) → kept_from none c i lines ≡ filter is_other lines
unfolding kept_from
kept_from-none c i [] = refl
kept_from-none c i (line ∷ lines) = ground (arith, kept_from-none c (i + 1) lines)

pub kept_from-past :
    (k : ℕ) (c : Option Text) (i : ℕ) (lines : List Text)
    → k < i
    → kept_from (some k) c i lines ≡ filter is_other lines
unfolding kept_from
kept_from-past k c i [] h = refl
kept_from-past k c i (line ∷ lines) h = ground (arith, kept_from-past k c (i + 1) lines)

-- what stands for the line of the placeholder
abbrev pub placed : Text → Text → List Text → List Text
placed hit line rest = if is_other hit then line ∷ rest else rest

pub kept_from-split :
    (k : ℕ) (line : Text) (i : ℕ) (before : List Text) (hit : Text) (behind : List Text)
    → k ≡ i + length before
    → kept_from (some k) (some line) i (before ++ (hit ∷ behind))
      ≡ filter is_other before ++ placed hit line (filter is_other behind)
unfolding kept_from
kept_from-split k line i [] hit behind e =
    ground (arith, kept_from-past k (some line) (i + 1) behind)
kept_from-split k line i (b ∷ before) hit behind e =
    ground (arith, kept_from-split k line (i + 1) before hit behind)
