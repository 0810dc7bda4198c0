-- ===== src/Guard/Preserved.antt =====
-- scripts/c9_local_history_guard.py: what an inventory that is READY has seen.
use mathlib.Core.Path.{subst}
use hh_ai_v.Base.{
  is_oid, ℕ, ◌+◌, ◌-◌, ◌*◌, ◌≤◌, ◌==◌, ◌≡◌, refl, sym, ap, ◌∙◌, ◌⊎◌, inl, inr, Bool, true, false,
  ◌||◌, ltb, Text, List, [], ◌∷◌, arith, Either, ok, ◌>>=◌, >>=-eq-ok, codes, text_eq, text_eq_iff,
  text_leb, splitlines, length, all, All, Bool-cases,
}
use hh_ai_v.Guard.Git.{Failure, Git, is_count, int_of}
use hh_ai_v.Guard.Classify.{ask, classify}
use hh_ai_v.Guard.Inventory.{
  no_off_head_history, max_local_heads, insert_tip, distinct_tips, Loop, held, passed, after_count,
  ask_count, check_tips, after_loop, check_heads, after_guard, inventory,
}
use hh_ai_v.Guard.Ready.{AtBase, classify-AtBase}

-- The tip is Base, or git has counted no commit of it that Base does not have, in a query behind the
-- listing of the heads and before number `last`.
abbrev pub Counted : Git → Text → ℕ → Text → Type 0
Counted git base last tip =
    (tip ≡ base)
    ⊎ ((k : ℕ) × (7 ≤ k) × (k + 1 ≤ last) × (ask_count git k base tip ≡ ok (codes "0")))

int_of-grows : (acc : ℕ) (text : Text) → acc ≤ int_of acc text
unfolding int_of
int_of-grows acc [] = omega arith
int_of-grows acc (c ∷ cs) = omega (arith, int_of-grows (acc * 10 + (c - b'0')) cs)

count-zero : (n : Text) → is_count n ≡ true → ltb 0 (int_of 0 n) ≡ false → n ≡ codes "0"
unfolding is_count
count-zero [] h k = absurd (ground arith)
count-zero (c ∷ []) h k = elim (Bool-cases (c == b'0')) [
  | inl e ↦ let same : c ≡ b'0' = ground arith in ap (λ x. x ∷ []) same
  | inr e ↦ absurd (unfold int_of in ground arith)
]
count-zero (c ∷ (d ∷ cs)) h k =
    absurd (unfold int_of in ground (arith, int_of-grows (0 * 10 + (c - b'0')) (d ∷ cs)))

module _ (git : Git) (base : Text) where
  after_count-passed :
      (count : Text) (rest : Either Failure Loop) {m : ℕ}
      → after_count count rest ≡ ok (passed m)
      → (count ≡ codes "0") × (rest ≡ ok (passed m))
  unfolding after_count
  after_count-passed count rest h = elim (Bool-cases (is_count count)) [
    | inr bad ↦ absurd (ground arith)
    | inl good ↦ elim (Bool-cases (ltb 0 (int_of 0 count))) [
      | inl more ↦ absurd (ground arith)
      | inr none ↦ (count-zero count good none, ground arith)
    ]
  ]

  check_tips-count :
      (n : ℕ) (tip : Text) (tips : List Text) {m : ℕ}
      → (ask_count git n base tip >>= λ count. after_count count (check_tips git (n + 1) base tips))
        ≡ ok (passed m)
      → (ask_count git n base tip ≡ ok (codes "0"))
        × (check_tips git (n + 1) base tips ≡ ok (passed m))
  check_tips-count n tip tips h =
      let (count, q, k) = >>=-eq-ok (ask_count git n base tip) _ h in
      let (zero_text, rest) = after_count-passed count _ k in (q ∙ ap ok zero_text, rest)

  -- The loop asks its queries from number `n` on, and the next one has number `m`.
  check_tips-Counted :
      (n : ℕ) (tips : List Text) (m : ℕ)
      → 7 ≤ n
      → check_tips git n base tips ≡ ok (passed m)
      → (n ≤ m) × All (Counted git base m) tips
  unfolding check_tips
  check_tips-Counted n [] m low h = (ground (arith, h), tt)
  check_tips-Counted n (tip ∷ tips) m low h = elim (Bool-cases (text_eq tip base)) [
    | inl same ↦
        let (grows, rest) = check_tips-Counted n tips m low (ground (arith, same)) in
        (grows, (inl ((text_eq_iff tip base).0 same), rest))
    | inr other ↦
        let (asked, more) = check_tips-count n tip tips {m = m} (ground (arith, other)) in
        let (grows, rest) = check_tips-Counted (n + 1) tips m (omega arith) more in
        (omega arith, (inr (n, low, grows, asked), rest))
  ]

All-insert :
    (P : Text → Type 0) (t : Text) (us : List Text) → All P (insert_tip t us) → P t × All P us
unfolding insert_tip
All-insert P t [] h = (h.0, tt)
All-insert P t (u ∷ us) h = elim (Bool-cases (text_eq t u)) [
  | inl same ↦
      let e : insert_tip t (u ∷ us) ≡ u ∷ us = rw same refl in
      let k = subst (All P) e h in (subst P (sym ((text_eq_iff t u).0 same)) k.0, k)
  | inr other ↦ elim (Bool-cases (text_leb t u)) [
    | inl less ↦
        let e : insert_tip t (u ∷ us) ≡ t ∷ u ∷ us = rw other (rw less refl) in
        let k = subst (All P) e h in (k.0, k.1)
    | inr more ↦
        let e : insert_tip t (u ∷ us) ≡ u ∷ insert_tip t us = rw other (rw more refl) in
        let k = subst (All P) e h in
        let (first, rest) = All-insert P t us k.1 in (first, (k.0, rest))
  ]
]

All-distinct : (P : Text → Type 0) (tips : List Text) → All P (distinct_tips tips) → All P tips
unfolding distinct_tips
All-distinct P [] h = tt
All-distinct P (t ∷ tips) h =
    let (first, rest) = All-insert P t (distinct_tips tips) h in (first, All-distinct P tips rest)

-- What a READY inventory with its number of heads has seen.
pub record Preserved (git : Git) (workspace : Bool) (base : Text) (count : ℕ) : Type 0 where
  pub at_start : AtBase git 0 workspace base
  pub listed : Text
  pub heads : ask git 6 ("for-each-ref" ∷ "--format=%(objectname)" ∷ "refs/heads" ∷ []) ≡ ok listed
  pub number : count ≡ length (splitlines listed)
  pub some_heads : 1 ≤ count
  pub bounded : count ≤ max_local_heads
  pub well_formed : all is_oid (splitlines listed) ≡ true
  pub last_query : ℕ
  pub after_counts : 7 ≤ last_query
  pub counted : All (Counted git base last_query) (splitlines listed)
  pub at_end : AtBase git last_query workspace base

module _ (git : Git) (workspace : Bool) (base : Text) {count : ℕ} where
  after_loop-passed :
      (number : ℕ) (loop : Loop)
      → after_loop git workspace base number loop ≡ ok (no_off_head_history count)
      → (m : ℕ) × (loop ≡ passed m) × (count ≡ number) × AtBase git m workspace base
  unfolding after_loop
  after_loop-passed number (held why) h = absurd (ground arith)
  after_loop-passed number (passed m) h =
      let (final, c, k) = >>=-eq-ok (classify git m workspace base) _ h in
      elim (Bool-cases final.ready) [
        | inl e ↦ (m, refl, ground (arith, e), classify-AtBase git m workspace base c e)
        | inr e ↦ absurd (ground (arith, e))
      ]

  check_heads-passed :
      (tips : List Text)
      → check_heads git workspace base tips ≡ ok (no_off_head_history count)
      → (count ≡ length tips)
        × (1 ≤ count)
        × (count ≤ max_local_heads)
        × (all is_oid tips ≡ true)
        × (m : ℕ) × (7 ≤ m)
        × All (Counted git base m) tips
        × AtBase git m workspace base
  unfolding check_heads
  check_heads-passed tips h =
      elim (Bool-cases (length tips == 0 || ltb max_local_heads (length tips))) [
        | inl unbounded ↦ absurd (ground arith)
        | inr bounded ↦ elim (Bool-cases (all is_oid tips)) [
          | inr invalid ↦ absurd (ground arith)
          | inl valid ↦
              let loops : (check_tips git 7 base (distinct_tips tips)
                    >>= after_loop git workspace base (length tips))
                  ≡ ok (no_off_head_history count) =
                ground arith in
              let (loop, run, k) = >>=-eq-ok (check_tips git 7 base (distinct_tips tips)) _ loops in
              let (m, is_passed, same, later) = after_loop-passed (length tips) loop k in
              let (grows, counted) =
                check_tips-Counted git base 7 (distinct_tips tips) m (omega arith)
                  (run ∙ ap ok is_passed) in
              (
                same,
                ground arith,
                ground arith,
                valid,
                m,
                grows,
                All-distinct (Counted git base m) tips counted,
                later,
              )
        ]
      ]

  -- A READY inventory means that the worktree was at Base in the first queries; that git, asked
  -- next, listed between 1 and 1024 heads, all of them well-formed oids; that each head is Base or was
  -- counted behind the listing to have no commit that Base does not have; and that the worktree was
  -- at Base again in queries behind the listing and every count.
  pub inventory-Preserved :
      inventory git workspace base ≡ ok (no_off_head_history count)
      → Preserved git workspace base count
  unfolding inventory after_guard
  inventory-Preserved h =
      let (current, c, k) = >>=-eq-ok (classify git 0 workspace base) _ h in
      elim (Bool-cases current.ready) [
        | inr not_ready ↦ absurd (ground (arith, not_ready))
        | inl is_ready ↦
            let guarded : (ask git 6 ("for-each-ref" ∷ "--format=%(objectname)" ∷ "refs/heads" ∷ [])
                  >>= λ raw. check_heads git workspace base (splitlines raw))
                ≡ ok (no_off_head_history count) =
              ground (arith, is_ready) in
            let (raw, q, rest) =
              >>=-eq-ok (ask git 6 ("for-each-ref" ∷ "--format=%(objectname)" ∷ "refs/heads" ∷ []))
                _ guarded in
            let (same, low, high, valid, m, grows, counted, later) =
              check_heads-passed (splitlines raw) rest in
            record {
              at_start = classify-AtBase git 0 workspace base c is_ready;
              listed = raw;
              heads = q;
              number = same;
              some_heads = low;
              bounded = high;
              well_formed = valid;
              last_query = m;
              after_counts = grows;
              counted = counted;
              at_end = later;
            }
      ]
