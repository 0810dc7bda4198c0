-- ===== src/Base/Decimal.antt =====
-- `str(n)` of Python's integers, and the line structure of a text file.
use Prim.Native.Nat.{ℕ, zero, suc, ◌+◌, ◌/◌, ◌%◌, ◌<◌}
use mathlib.Core.Path.{◌≡◌, refl, ap}
use mathlib.Core.Logic.{inl, inr}
use mathlib.Core.Bool.{true, false}
use mathlib.Core.List.{[], ◌∷◌, ◌++◌}
use native.Mathlib.Omega.{arith}
use hh_ai_v.Base.Tests.{◌==◌, ltb, if◌then◌else◌, Bool-cases}
use hh_ai_v.Base.Lists.{length, any, length-append}
use hh_ai_v.Base.Strings.{Text, codes, no_newline, all-append}

-- an integer; `negsuc n` is -(n + 1)
pub data ℤ : Type 0 where
  pos : ℕ → ℤ
  negsuc : ℕ → ℤ

-- the digits of `n`; `n + 1` rounds are enough
digits : ℕ → ℕ → Text
digits zero n = []
digits (suc fuel) n =
    let rest = digits fuel (n / 10) in (if ltb n 10 then [] else rest) ++ ((48 + n % 10) ∷ [])

unfoldable pub decimal : ℕ → Text
unfolding digits
decimal n = digits (suc n) n

unfoldable pub int_text : ℤ → Text
int_text (pos n) = decimal n
int_text (negsuc n) = b'-' ∷ decimal (n + 1)

digits-no_newline : (fuel n : ℕ) → no_newline (digits fuel n) ≡ true
unfolding digits no_newline
digits-no_newline zero n = refl
digits-no_newline (suc fuel) n = elim (Bool-cases (ltb n 10)) [
  | inl small ↦ rw small (ground arith)
  | inr large ↦ rw large (
      rw (all-append _ (digits fuel (n / 10)) ((48 + n % 10) ∷ []))
        (rw (digits-no_newline fuel (n / 10)) (ground arith)))
]

pub decimal-no_newline : (n : ℕ) → no_newline (decimal n) ≡ true
unfolding decimal
decimal-no_newline n = digits-no_newline (suc n) n

digits-ne-nil : (fuel n : ℕ) → 0 < length (digits (suc fuel) n)
unfolding digits
digits-ne-nil fuel n =
    omega (
      arith,
      length-append {0} (if ltb n 10 then [] else digits fuel (n / 10)) ((48 + n % 10) ∷ []),
    )

decimal_small : (n : ℕ) → ltb (suc n) 10 ≡ true → decimal (suc n) ≡ (48 + suc n % 10) ∷ []
unfolding decimal digits
decimal_small n h = rw h refl

decimal_large :
    (n : ℕ)
    → ltb (suc n) 10 ≡ false
    → decimal (suc n) ≡ digits (suc n) (suc n / 10) ++ ((48 + suc n % 10) ∷ [])
unfolding decimal digits
decimal_large n h = rw h refl

-- Only zero is written as one zero digit.
pub decimal_zero : (n : ℕ) → decimal n ≡ codes "0" → n ≡ 0
unfolding decimal digits
decimal_zero zero h = refl
decimal_zero (suc n) h = elim (Bool-cases (ltb (suc n) 10)) [
  | inl small ↦
      let e : 48 + suc n % 10 ≡ 48 = cc (decimal_small n small, h) in absurd (ground arith)
  | inr large ↦ absurd (
      omega (
        arith,
        ap length h,
        ap length (decimal_large n large),
        length-append {0} (digits (suc n) (suc n / 10)) ((48 + suc n % 10) ∷ []),
        digits-ne-nil n (suc n / 10),
      ))
]

pub int_zero : (z : ℤ) → int_text z ≡ codes "0" → z ≡ pos 0
unfolding int_text
int_zero (pos n) h = ap pos (decimal_zero n h)
int_zero (negsuc n) h = absurd (ground (arith, ap (λ (t : Text). any (λ c. c == 45) t) h))

pub int_text-no_newline : (z : ℤ) → no_newline (int_text z) ≡ true
unfolding int_text
int_text-no_newline (pos n) = decimal-no_newline n
int_text-no_newline (negsuc n) = unfold no_newline in decimal-no_newline (n + 1)
