-- ===== src/Runner/Distinct.antt =====
-- scripts/batch_runner.py: the steps of a task are different, so that each has one place.
use hh_ai_v.Base.{
  ◌≡◌, refl, sym, inl, inr, Bool, true, false, not, ◌&&◌, Text, text_eq, text_eq_iff, List, [], ◌∷◌,
  ◌++◌, arith, Bool-cases, &&-eq-true,
}
use hh_ai_v.Runner.{
  Kind, production, promotion, readonly, Spec, steps_of, derive_steps, remove, remove_unless,
  is_step, before,
}

-- no text stands twice
unfoldable pub all_different : List Text → Bool
all_different [] = true
all_different (x ∷ xs) = not (is_step x xs) && all_different xs

steps_of-different :
    (k : Kind) (e24 focused bundle : Bool) → all_different (steps_of k e24 focused bundle) ≡ true
unfolding all_different steps_of remove_unless remove is_step text_eq
steps_of-different readonly e24 focused bundle = refl
steps_of-different promotion e24 focused bundle = refl
steps_of-different production true true true = refl
steps_of-different production true true false = refl
steps_of-different production true false true = refl
steps_of-different production true false false = refl
steps_of-different production false true true = refl
steps_of-different production false true false = refl
steps_of-different production false false true = refl
steps_of-different production false false false = refl

pub derive_steps-different : (spec : Spec) → all_different (derive_steps spec) ≡ true
unfolding derive_steps
derive_steps-different spec =
    steps_of-different spec.kind spec.e24 spec.has_focused spec.bundle_output

text_eq_sym : (a b : Text) → text_eq a b ≡ false → text_eq b a ≡ false
text_eq_sym a b h = elim (Bool-cases (text_eq b a)) [
  | inr e ↦ e
  | inl e ↦ let same = (text_eq_iff a b).1 (sym ((text_eq_iff b a).0 e)) in ground (arith, h, same)
]

is_step-middle :
    (x s : Text) (done rest : List Text)
    → is_step x (done ++ (s ∷ rest)) ≡ false
    → text_eq s x ≡ false
unfolding is_step
is_step-middle x s [] rest h = ground (arith, h)
is_step-middle x s (d ∷ done) rest h = is_step-middle x s done rest (ground (arith, h))

-- Of different texts, one in the middle does not stand before.
pub fresh_middle :
    (s : Text) (done rest : List Text)
    → all_different (done ++ (s ∷ rest)) ≡ true
    → is_step s done ≡ false
unfolding all_different is_step
fresh_middle s [] rest h = refl
fresh_middle s (d ∷ done) rest h =
    let (head, tail) =
      &&-eq-true (not (is_step d (done ++ (s ∷ rest)))) (all_different (done ++ (s ∷ rest))) h in
    let other = text_eq_sym s d (is_step-middle d s done rest (ground (arith, head))) in
    let more = fresh_middle s done rest tail in ground (arith, other, more)

pub is_step_middle : (s : Text) (done rest : List Text) → is_step s (done ++ (s ∷ rest)) ≡ true
unfolding is_step
is_step_middle s [] rest = let same = (text_eq_iff s s).1 refl in ground (arith, same)
is_step_middle s (d ∷ done) rest = let more = is_step_middle s done rest in ground (arith, more)

pub before_middle :
    (s : Text) (done rest : List Text)
    → is_step s done ≡ false
    → before s (done ++ (s ∷ rest)) ≡ done
unfolding is_step before
before_middle s [] rest h = let same = (text_eq_iff s s).1 refl in ground (arith, same)
before_middle s (d ∷ done) rest h =
    let other : text_eq d s ≡ false = ground (arith, h) in
    let more = before_middle s done rest (ground (arith, h)) in ground (arith, other, more)
