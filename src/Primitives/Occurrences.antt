-- ===== src/Primitives/Occurrences.antt =====
-- scripts/verification_primitives.py: the number that `count` reports.
use mathlib.Core.Path.{subst}
use hh_ai_v.Base.{
  ℕ, zero, suc, ◌+◌, ◌≤◌, ◌≡◌, refl, sym, ap, ◌∙◌, inl, inr, true, false, Text, [], ◌∷◌, ◌++◌,
  arith, Bool-cases, length, drop, drop-append, starts_with, starts_with-append, count_from,
  count_text, crlf_to_lf, &&-eq-true, ==_iff, ◌==◌,
}
use hh_ai_v.Primitives.{match_count}

-- so many occurrences of the needle in the text, no two of which overlap
pub data Disjoint (needle : Text) : ℕ → Text → Type 0 where
  no_more : {text : Text} → Disjoint needle 0 text
  skipped : {n : ℕ} {text : Text} (c : ℕ) → Disjoint needle n text → Disjoint needle n (c ∷ text)
  hit : {n : ℕ} {text : Text} → Disjoint needle n text → Disjoint needle (suc n) (needle ++ text)

length-drop : (m : ℕ) (t : Text) → length (drop m t) ≤ length t
length-drop zero t = omega arith
length-drop (suc m) [] = omega arith
length-drop (suc m) (c ∷ t) = let more = length-drop m t in omega (arith, more)

starts_with-eq : (p t : Text) → starts_with t p ≡ true → t ≡ p ++ drop (length p) t
unfolding starts_with
starts_with-eq [] t h = refl
starts_with-eq (d ∷ p) [] h = absurd (ground arith)
starts_with-eq (d ∷ p) (c ∷ t) h =
    let (head, tail) = &&-eq-true (d == c) (starts_with t p) h in
    let same = (==_iff d c).0 head in
    let more = starts_with-eq p t tail in ap (λ y. y ∷ t) (sym same) ∙ ap (λ y. d ∷ y) more

module _ (x : ℕ) (xs : Text) where
  abbrev needle : Text
  needle = x ∷ xs

  -- the scan from the start of a text
  cnt : Text → ℕ
  cnt text = count_from (length xs) needle 0 text

  count_from-drop : (k : ℕ) (text : Text) → count_from (length xs) needle k text ≡ cnt (drop k text)
  unfolding cnt count_from
  count_from-drop zero text = refl
  count_from-drop (suc k) [] = refl
  count_from-drop (suc k) (c ∷ text) = count_from-drop k text

  cnt_hit :
      (c : ℕ) (text : Text)
      → starts_with (c ∷ text) needle ≡ true
      → cnt (c ∷ text) ≡ 1 + cnt (drop (length xs) text)
  unfolding cnt count_from
  cnt_hit c text h = let jump = count_from-drop (length xs) text in ground (arith, h, jump)

  cnt_miss :
      (c : ℕ) (text : Text) → starts_with (c ∷ text) needle ≡ false → cnt (c ∷ text) ≡ cnt text
  unfolding cnt count_from
  cnt_miss c text h = ground (arith, h)

  -- dropping no more than the needle loses one occurrence at most
  Loses : Text → Type 0
  Loses text = (j : ℕ) → j ≤ length xs → cnt text ≤ 1 + cnt (drop j text)

  cnt_longer : (c : ℕ) (text : Text) → Loses text → cnt text ≤ cnt (c ∷ text)
  unfolding Loses
  cnt_longer c text l = elim (Bool-cases (starts_with (c ∷ text) needle)) [
    | inl h ↦ let e = cnt_hit c text h in let b = l (length xs) (omega arith) in omega (arith, e, b)
    | inr h ↦ let e = cnt_miss c text h in omega (arith, e)
  ]

  module _ (n : ℕ) (shorter : (s : Text) → length s ≤ n → Loses s) where
    fewer_behind : (m : ℕ) (s : Text) → length s ≤ n → cnt (drop m s) ≤ cnt s
    fewer_behind zero s h = omega arith
    fewer_behind (suc m) [] h = omega arith
    fewer_behind (suc m) (c ∷ s) h =
        let more = fewer_behind m s (omega (arith, h)) in
        let one = cnt_longer c s (shorter s (omega (arith, h))) in omega (arith, more, one)

    fewer_further : (j m : ℕ) (s : Text) → length s ≤ n → j ≤ m → cnt (drop m s) ≤ cnt (drop j s)
    fewer_further zero m s h b = fewer_behind m s h
    fewer_further (suc j) zero s h b = absurd (omega (arith, b))
    fewer_further (suc j) (suc m) [] h b = omega arith
    fewer_further (suc j) (suc m) (c ∷ s) h b =
        fewer_further j m s (omega (arith, h)) (omega (arith, b))

  cnt_nil : cnt [] ≡ 0
  unfolding cnt count_from
  cnt_nil = refl

  loses : (n : ℕ) (text : Text) → length text ≤ n → Loses text
  unfolding Loses
  loses n [] h j b = let e = cnt_nil in omega (arith, e)
  loses zero (c ∷ text) h j b = absurd (omega (arith, h))
  loses (suc n) (c ∷ text) h zero b = omega arith
  loses (suc n) (c ∷ text) h (suc j) b =
      let short : length text ≤ n = omega (arith, h) in
      let rest = loses n text short j (omega (arith, b)) in
      let further = fewer_further n (loses n) j (length xs) text short (omega (arith, b)) in
      elim (Bool-cases (starts_with (c ∷ text) needle)) [
        | inl found ↦ let e = cnt_hit c text found in omega (arith, e, further)
        | inr miss ↦ let e = cnt_miss c text miss in omega (arith, e, rest)
      ]

  cnt_needle : (text : Text) → cnt (needle ++ text) ≡ 1 + cnt text
  cnt_needle text =
      cnt_hit x (xs ++ text) (starts_with-append (x ∷ xs) text)
      ∙ ap (λ t. 1 + cnt t) (drop-append xs text)

  -- no choice of occurrences is larger
  Disjoint-cnt : (n : ℕ) (text : Text) → Disjoint needle n text → n ≤ cnt text
  Disjoint-cnt n text no_more = omega arith
  Disjoint-cnt n _ (skipped {text = text} c d) =
      let one = cnt_longer c text (loses (length text) text (omega arith)) in
      let more = Disjoint-cnt n text d in omega (arith, one, more)
  Disjoint-cnt _ _ (hit {n = n} {text = text} d) =
      let e = cnt_needle text in let more = Disjoint-cnt n text d in omega (arith, e, more)

  -- the scan finds as many
  cnt-Disjoint : (n : ℕ) (text : Text) → length text ≤ n → Disjoint needle (cnt text) text
  cnt-Disjoint n [] h = subst (λ k. Disjoint needle k []) (sym cnt_nil) no_more
  cnt-Disjoint zero (c ∷ text) h = absurd (omega (arith, h))
  cnt-Disjoint (suc n) (c ∷ text) h = elim (Bool-cases (starts_with (c ∷ text) needle)) [
    | inr miss ↦
        subst (λ k. Disjoint needle k (c ∷ text)) (sym (cnt_miss c text miss))
          (skipped c (cnt-Disjoint n text (omega (arith, h))))
    | inl found ↦
        let rest = drop (length xs) text in
        let short = length-drop (length xs) text in
        let d : Disjoint needle (suc (cnt rest)) (needle ++ rest) =
          hit (cnt-Disjoint n rest (omega (arith, h, short))) in
        let same : suc (cnt rest) ≡ cnt (c ∷ text) =
          let e = cnt_hit c text found in omega (arith, e) in
        subst (λ k. Disjoint needle k (c ∷ text)) same
          (subst (Disjoint needle (suc (cnt rest))) (sym (starts_with-eq (x ∷ xs) (c ∷ text) found))
            d)
  ]

-- The number that `count` compares and reports is that of occurrences of the needle no two of which
-- overlap, and every number of such occurrences is at most this one; both texts have LF for CRLF, and
-- the needle has at least one character.
pub match_count-largest :
    (target needle_text : Text) (x : ℕ) (xs : Text) (n : ℕ)
    → crlf_to_lf needle_text ≡ x ∷ xs
    → Disjoint (x ∷ xs) n (crlf_to_lf target)
    → Disjoint (x ∷ xs) (match_count target needle_text) (crlf_to_lf target)
      × (n ≤ match_count target needle_text)
unfolding match_count count_text
match_count-largest target needle_text x xs n h d =
    let text = crlf_to_lf target in
    let same : cnt x xs text ≡ match_count target needle_text =
      unfold cnt in ap (λ p. count_text p text) (sym h) in
    (
      subst (λ k. Disjoint (x ∷ xs) k text) same
          (cnt-Disjoint x xs (length text) text (omega arith)),
      subst (λ k. n ≤ k) same (Disjoint-cnt x xs n text d),
    )
