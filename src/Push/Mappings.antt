-- ===== src/Push/Mappings.antt =====
-- scripts/governance_preflight.py: the map of the deletions of a push against the expected one.
use mathlib.Core.Bool.{false≢true}
use mathlib.Core.Option.{some-injective}
use hh_ai_v.Base.{
  ◌≡◌, refl, sym, ap, ◌∙◌, inl, inr, true, false, Text, text_eq, text_eq_iff, Option, none, some,
  List, [], ◌∷◌, arith, if◌then◌else◌, Bool-cases, Option-cases, all, lower, &&-eq-true,
}
use hh_ai_v.Push.Updates.{Update}
use hh_ai_v.Push.Verify.{Mapping, find, put, has_key, actual_map, same_keys, no_drift}

-- the hash that the last update of this branch gives
unfoldable pub last_sha : Text → List Update → Option Text
last_sha ref [] = none
last_sha ref (up ∷ ups) = elim (last_sha ref ups) [
  | some sha ↦ some sha
  | none ↦ if text_eq ref up.remote_ref then some (lower up.remote_sha) else none
]

abbrev or_else {ℓ} : {A : Type ℓ} → Option A → Option A → Option A
or_else (some a) other = some a
or_else none other = other

or_else_same {ℓ} : {A : Type ℓ} (o : Option A) → or_else o none ≡ o
or_else_same none = refl
or_else_same (some a) = refl

text_eq_other : (a b c : Text) → text_eq a b ≡ true → text_eq c b ≡ text_eq c a
text_eq_other a b c h = ap (text_eq c) (sym ((text_eq_iff a b).0 h))

text_eq_apart :
    (ref key k : Text) → text_eq ref k ≡ true → text_eq key k ≡ false → text_eq ref key ≡ false
text_eq_apart ref key k h e = elim (Bool-cases (text_eq ref key)) [
  | inr apart ↦ apart
  | inl same ↦
      let both : key ≡ k = sym ((text_eq_iff ref key).0 same) ∙ (text_eq_iff ref k).0 h in
      absurd (false≢true (sym e ∙ (text_eq_iff key k).1 both))
]

pub find-put :
    (ref key value : Text) (entries : Mapping)
    → find ref (put key value entries) ≡ (if text_eq ref key then some value else find ref entries)
unfolding find put
find-put ref key value [] = refl
find-put ref key value ((k, v) ∷ entries) =
    let rest = find-put ref key value entries in
    elim (Bool-cases (text_eq key k)) [
      | inl e ↦ let other = text_eq_other key k ref e in ground (arith, e, other)
      | inr e ↦ elim (Bool-cases (text_eq ref k)) [
        | inl f ↦ let apart = text_eq_apart ref key k f e in ground (arith, e, f, apart)
        | inr f ↦ ground (arith, e, f, rest)
      ]
    ]

find-actual_map :
    (ref : Text) (entries : Mapping) (ups : List Update)
    → find ref (actual_map entries ups) ≡ or_else (last_sha ref ups) (find ref entries)
unfolding actual_map last_sha
find-actual_map ref entries [] = refl
find-actual_map ref entries (up ∷ ups) =
    find-actual_map ref (put up.remote_ref (lower up.remote_sha) entries) ups
    ∙ ap (or_else (last_sha ref ups)) (find-put ref up.remote_ref (lower up.remote_sha) entries)
    ∙ elim (Option-cases (last_sha ref ups)) [
      | inl e ↦ ground (arith, e)
      | inr (sha, e) ↦ ground (arith, e)
    ]

expected_here :
    (o : Option Text) (x : Text)
    → (elim o [ none ↦ false | some sha ↦ text_eq x sha ]) ≡ true
    → o ≡ some x
expected_here none x h = absurd (ground arith)
expected_here (some sha) x h = ap some (sym ((text_eq_iff x sha).0 h))

find-no_drift :
    (ref v : Text) (a b : Mapping) → no_drift a b ≡ true → find ref a ≡ some v → find ref b ≡ some v
unfolding find no_drift
find-no_drift ref v [] b h f = absurd (ground arith)
find-no_drift ref v ((k, x) ∷ a) b h f =
    let (head, tail) =
      &&-eq-true (elim (find k b) [ none ↦ false | some sha ↦ text_eq x sha ]) (no_drift a b) h in
    elim (Bool-cases (text_eq ref k)) [
      | inr apart ↦ find-no_drift ref v a b tail (ground (arith, apart))
      | inl same ↦
          let value : x ≡ v = some-injective x v (ground (arith, same)) in
          ap (λ key. find key b) ((text_eq_iff ref k).0 same)
          ∙ expected_here (find k b) x head
          ∙ ap some value
    ]

has_key_missing : (ref : Text) (a : Mapping) → find ref a ≡ none → has_key a ref ≡ false
unfolding find has_key
has_key_missing ref [] h = refl
has_key_missing ref ((k, x) ∷ a) h =
    let rest = has_key_missing ref a in
    elim (Bool-cases (text_eq ref k)) [
      | inl same ↦ absurd (ground (arith, same))
      | inr apart ↦ let more = rest (ground (arith, apart)) in ground (arith, apart, more)
    ]

find-has_key :
    (ref v : Text) (a b : Mapping)
    → all (λ entry. has_key a entry.0) b ≡ true
    → find ref b ≡ some v
    → has_key a ref ≡ true
unfolding find
find-has_key ref v a [] h f = absurd (ground arith)
find-has_key ref v a ((k, x) ∷ b) h f =
    let (head, tail) = &&-eq-true (has_key a k) (all (λ entry. has_key a entry.0) b) h in
    elim (Bool-cases (text_eq ref k)) [
      | inl same ↦ ap (has_key a) ((text_eq_iff ref k).0 same) ∙ head
      | inr apart ↦ find-has_key ref v a b tail (ground (arith, apart))
    ]

-- Two mappings with the same keys and without a drift are one mapping.
pub find_agrees :
    (ref : Text) (a b : Mapping)
    → same_keys a b ≡ true
    → no_drift a b ≡ true
    → find ref a ≡ find ref b
unfolding same_keys
find_agrees ref a b keys drift =
    let (here, there) =
      &&-eq-true (all (λ entry. has_key b entry.0) a) (all (λ entry. has_key a entry.0) b) keys in
    elim (Option-cases (find ref a)) [
      | inr (v, e) ↦ e ∙ sym (find-no_drift ref v a b drift e)
      | inl e ↦ elim (Option-cases (find ref b)) [
        | inl f ↦ e ∙ sym f
        | inr (v, f) ↦
            absurd (false≢true (sym (has_key_missing ref a e) ∙ find-has_key ref v a b there f))
      ]
    ]

pub last_sha-actual_map :
    (ref : Text) (ups : List Update) → last_sha ref ups ≡ find ref (actual_map [] ups)
unfolding find
last_sha-actual_map ref ups = sym (find-actual_map ref [] ups ∙ or_else_same (last_sha ref ups))
