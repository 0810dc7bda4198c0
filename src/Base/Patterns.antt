-- ===== src/Base/Patterns.antt =====
-- Patterns of characters that the scripts share.
use Prim.Native.Nat.{ℕ, ◌+◌}
use mathlib.Core.Path.{◌≡◌, refl}
use mathlib.Core.List.{[], ◌∷◌, map}
use native.Mathlib.Omega.{arith}
use mathlib.Core.Bool.{Bool, true, not, ◌&&◌, ◌||◌}
use hh_ai_v.Base.Tests.{leb, ◌==◌, if◌then◌else◌}
use hh_ai_v.Base.Lists.{length, all}
use hh_ai_v.Base.Strings.{Text, is_space}
use hh_ai_v.Base.Lines.{ends_solid}

unfoldable pub in_range : ℕ → ℕ → ℕ → Bool
in_range low high c = leb low c && leb c high

lower_char : ℕ → ℕ
unfolding in_range
lower_char c = if in_range b'A' b'Z' c then c + 32 else c

-- `text.lower()` for letters of ASCII, which the hashes are made of
unfoldable pub lower : Text → Text
unfolding lower_char
lower text = map lower_char text

-- `[0-9a-f]`
unfoldable pub is_hex : ℕ → Bool
unfolding in_range
is_hex c = in_range b'0' b'9' c || in_range b'a' b'f' c

-- a match of `^[0-9a-f]{40}$` that takes the whole text
unfoldable pub is_oid : Text → Bool
unfolding is_hex
is_oid text = length text == 40 && all is_hex text

-- a match of `^[0-9a-f]{64}$` that takes the whole text
unfoldable pub is_sha256 : Text → Bool
unfolding is_hex
is_sha256 text = length text == 64 && all is_hex text

lower_char_twice : (c : ℕ) → lower_char (lower_char c) ≡ lower_char c
unfolding lower_char in_range
lower_char_twice c = ground arith

pub lower_twice : (text : Text) → lower (lower text) ≡ lower text
unfolding lower
lower_twice [] = refl
lower_twice (c ∷ text) = cc (lower_char_twice c, lower_twice text)

lower_char-solid : (c : ℕ) → not (is_space c) ≡ true → not (is_space (lower_char c)) ≡ true
unfolding lower_char in_range is_space
lower_char-solid c h = ground arith

-- Lower case leaves the last character no space.
pub lower-ends_solid : (text : Text) → ends_solid text ≡ true → ends_solid (lower text) ≡ true
unfolding lower ends_solid
lower-ends_solid [] h = refl
lower-ends_solid (c ∷ []) h = lower_char-solid c h
lower-ends_solid (c ∷ (d ∷ text)) h = lower-ends_solid (d ∷ text) h
