-- ===== src/Primitives/Passes.antt =====
-- scripts/verification_primitives.py: what a PASS of the commands that count, hash and compare says.
use mathlib.Core.Option.{some-injective}
use hh_ai_v.Base.{
  lower, ℕ, ◌≡◌, ◌≢◌, sym, ap, ◌∙◌, ◌↔◌, ◌⊎◌, inl, inr, true, false, not, ◌&&◌, Text, text_eq_iff,
  Option, none, some, List, [], ◌∷◌, arith, ok, ok-injective, >>=-eq-ok, require-eq-ok, ℤ, is_none,
  crlf_to_lf, &&-eq-true, Bool-cases, ==_iff,
}
use hh_ai_v.Primitives.{
  Reason, file_read_error, needle_has_bom, utf8_decode_error, empty_needle, invalid_expect, pass,
  World, or_unable, is_64_hex, is_expectation, CountArguments, Counted, has_bom, is_empty,
  is_count_of, count_status, match_count, counted, count, drop_line_end, DigestArguments, Digested,
  is_met, digest_status, digested, sha256,
}

-- the files of a count that passes
pub record CountPass (w : World) (a : CountArguments) : Type 0 where
  pub target_bytes : List ℕ
  pub needle_bytes : List ℕ
  pub target : Text
  pub needle : Text
  pub read_target : w.read_bytes a.target ≡ some target_bytes
  pub read_needle : w.read_bytes a.needle_file ≡ some needle_bytes
  pub no_bom : has_bom needle_bytes ≡ false
  pub target_text : w.decode target_bytes ≡ some target
  pub needle_text : w.decode needle_bytes ≡ some needle
  pub nonblank : drop_line_end needle ≢ []
  pub expected : a.expect ≡ some (ℤ.pos (match_count target (drop_line_end needle)))

or_unable-eq-ok {ℓ} :
    {A : Type ℓ} (o : Option A) (reason : Reason) {x : A} → or_unable o reason ≡ ok x → o ≡ some x
or_unable-eq-ok none reason h = absurd (ground arith)
or_unable-eq-ok (some y) reason h = ap some (ok-injective h)

count_status-pass :
    (n : ℕ) (expect : Option ℤ) → (count_status n expect ≡ pass) ↔ (expect ≡ some (ℤ.pos n))
unfolding count_status is_count_of
count_status-pass n none = ground arith
count_status-pass n (some (ℤ.pos m)) = ground (arith, ==_iff n m)
count_status-pass n (some (ℤ.negsuc m)) = ground arith

is_empty_iff : (t : Text) → (not (is_empty t) ≡ true) ↔ (t ≢ [])
unfolding is_empty
is_empty_iff [] = ground arith
is_empty_iff (c ∷ t) = ground arith

count-CountPass :
    (w : World) (a : CountArguments) {r : Counted}
    → count w a ≡ ok r
    → r.status ≡ pass
    → CountPass w a
unfolding count counted
count-CountPass w a {r} h good =
    let (target_bytes, e1, h1) =
      >>=-eq-ok (or_unable (w.read_bytes a.target) file_read_error) _ h in
    let (needle_bytes, e2, h2) =
      >>=-eq-ok (or_unable (w.read_bytes a.needle_file) file_read_error) _ h1 in
    let (e3, h3) = require-eq-ok (not (has_bom needle_bytes)) needle_has_bom _ h2 in
    let (target, e4, h4) = >>=-eq-ok (or_unable (w.decode target_bytes) utf8_decode_error) _ h3 in
    let (needle, e5, h5) = >>=-eq-ok (or_unable (w.decode needle_bytes) utf8_decode_error) _ h4 in
    let (e6, h6) = require-eq-ok (not (is_empty (drop_line_end needle))) empty_needle _ h5 in
    record {
      target_bytes = target_bytes;
      needle_bytes = needle_bytes;
      target = target;
      needle = needle;
      read_target = or_unable-eq-ok _ _ e1;
      read_needle = or_unable-eq-ok _ _ e2;
      no_bom = ground (arith, e3);
      target_text = or_unable-eq-ok _ _ e4;
      needle_text = or_unable-eq-ok _ _ e5;
      nonblank = (is_empty_iff (drop_line_end needle)).0 e6;
      expected =
          (count_status-pass (match_count target (drop_line_end needle)) a.expect).0
            (ap (λ x. x.status) (ok-injective h6) ∙ good);
    }

CountPass-count :
    (w : World) (a : CountArguments) (p : CountPass w a)
    → count w a ≡ ok (counted w a p.target_bytes p.target (drop_line_end p.needle))
unfolding count
CountPass-count w a p =
    let e1 = p.read_target in
    let e2 = p.read_needle in
    let e3 = p.no_bom in
    let e4 = p.target_text in
    let e5 = p.needle_text in
    let e6 = (is_empty_iff (drop_line_end p.needle)).1 p.nonblank in
    ground (arith, e1, e2, e3, e4, e5, e6)

-- `count` passes exactly where both files can be read and are UTF-8, the needle has no BOM and is not
-- empty without its line end, and the number expected is that of its occurrences.
pub count-pass_iff :
    (w : World) (a : CountArguments)
    → ((r : Counted) × (count w a ≡ ok r) × (r.status ≡ pass)) ↔ CountPass w a
count-pass_iff w a = (
  λ (r, h, good). count-CountPass w a h good,
  λ p. (
    counted w a p.target_bytes p.target (drop_line_end p.needle),
    CountPass-count w a p,
    unfold counted in (count_status-pass _ a.expect).1 p.expected,
  ),
)

-- a hash that passes
pub record DigestPass (w : World) (a : DigestArguments) (r : Digested) : Type 0 where
  pub raw_bytes : List ℕ
  pub read : w.read_bytes a.file ≡ some raw_bytes
  pub raw_hash : r.sha256_raw ≡ w.sha256_hex raw_bytes
  pub lf_hash : r.sha256_lf ≡ w.sha256_hex (crlf_to_lf raw_bytes)
  pub some_expected : (a.expect_raw ≢ none) ⊎ (a.expect_lf ≢ none)
  pub raw_met : (e : Text) → a.expect_raw ≡ some e → (is_64_hex e ≡ true) × (lower e ≡ r.sha256_raw)
  pub lf_met : (e : Text) → a.expect_lf ≡ some e → (is_64_hex e ≡ true) × (lower e ≡ r.sha256_lf)

is_met-eq :
    (o : Option Text) (digest e : Text)
    → is_expectation o ≡ true
    → is_met o digest ≡ true
    → o ≡ some e
    → (is_64_hex e ≡ true) × (lower e ≡ digest)
unfolding is_met is_expectation
is_met-eq none digest e valid met h = absurd (ground arith)
is_met-eq (some x) digest e valid met h =
    let same : x ≡ e = some-injective x e h in
    (ap is_64_hex (sym same) ∙ valid, ap lower (sym same) ∙ (text_eq_iff (lower x) digest).0 met)

digest_status-pass :
    (a : DigestArguments) (raw lf : Text)
    → digest_status a raw lf ≡ pass
    → (is_none a.expect_raw && is_none a.expect_lf ≡ false)
      × (is_met a.expect_raw raw ≡ true)
      × (is_met a.expect_lf lf ≡ true)
unfolding digest_status
digest_status-pass a raw lf h = elim (Bool-cases (is_none a.expect_raw && is_none a.expect_lf)) [
  | inl bare ↦ absurd (ground (arith, bare))
  | inr given ↦
      let met : (is_met a.expect_raw raw && is_met a.expect_lf lf) ≡ true = ground (arith, given) in
      let (raw_met, lf_met) = &&-eq-true (is_met a.expect_raw raw) (is_met a.expect_lf lf) met in
      (given, raw_met, lf_met)
]

one_given : (x y : Option Text) → (is_none x && is_none y ≡ false) → (x ≢ none) ⊎ (y ≢ none)
one_given none none h = absurd (ground arith)
one_given none (some y) h = inr (λ e. ground arith)
one_given (some x) y h = inl (λ e. ground arith)

-- Where `sha256` passes, a hash was expected for the raw bytes, for the normalised bytes or for both;
-- each expected hash has 64 hexadecimal digits and, in lower case, is that of the bytes of the file.
pub sha256-DigestPass :
    (w : World) (a : DigestArguments) (r : Digested)
    → sha256 w a ≡ ok r
    → r.status ≡ pass
    → DigestPass w a r
unfolding sha256 digested
sha256-DigestPass w a r h good =
    let (e1, h1) = require-eq-ok (is_expectation a.expect_raw) invalid_expect _ h in
    let (e2, h2) = require-eq-ok (is_expectation a.expect_lf) invalid_expect _ h1 in
    let (bytes, e3, h3) = >>=-eq-ok (or_unable (w.read_bytes a.file) file_read_error) _ h2 in
    let same = ok-injective h3 in
    let raw = sym (ap (λ x. x.sha256_raw) same) in
    let lf = sym (ap (λ x. x.sha256_lf) same) in
    let (given, raw_met, lf_met) = digest_status-pass a _ _ (ap (λ x. x.status) same ∙ good) in
    record {
      raw_bytes = bytes;
      read = or_unable-eq-ok _ _ e3;
      raw_hash = raw;
      lf_hash = lf;
      some_expected = one_given a.expect_raw a.expect_lf given;
      raw_met =
          λ e h. let (hex, met) = is_met-eq a.expect_raw _ e e1 raw_met h in (hex, met ∙ sym raw);
      lf_met = λ e h. let (hex, met) = is_met-eq a.expect_lf _ e e2 lf_met h in (hex, met ∙ sym lf);
    }
