-- ===== src/History/Lines/Insertion.antt =====
-- scripts/history_guard.py: what the insert-only rule decides. `Sublist` is the library's: all of the first
-- list's elements stand in the second one, in the same order.
use mathlib.Core.List.{Sublistᴰ, cons≢nil}
use mathlib.Core.List.Sublistᴰ
use mathlib.Core.Path.{subst}
use mathlib.Core.Option.{none-ne-some, some-ne-none, some-injective}
use hh_ai_v.Base.{
  ℕ, suc, ◌+◌, String, ◌<◌, ◌≡◌, refl, sym, ◌∙◌, ◌↔◌, ◌≢◌, inl, inr, true, false, Text, Option,
  none, some, List, [], ◌∷◌, arith, text_eq, text_eq_iff, Bool-cases, Option-cases, length, take,
}
use hh_ai_v.History.Findings.{Finding, numbered, protected_line_changed, finding}
use hh_ai_v.History.Lines.{
  split_lines, skip_to, first_unmatched_from, first_unmatched, shown_line, check_insert_only,
}

module _ (line t : Text) (ts : List Text) where
  skip_to_hit : text_eq t line ≡ true → skip_to line (t ∷ ts) ≡ some ts
  unfolding skip_to
  skip_to_hit same = rw (same, skip_to) refl

  skip_to_miss : text_eq t line ≡ false → skip_to line (t ∷ ts) ≡ skip_to line ts
  unfolding skip_to
  skip_to_miss other = rw (other, skip_to) refl

-- The greedy choice: behind the first equal line there is room for all that can follow.
skip_to-sublist :
    (line : Text) (base target rest : List Text)
    → skip_to line target ≡ some rest
    → Sublistᴰ base rest
    → Sublistᴰ (line ∷ base) target
skip_to-sublist line base [] rest h s = absurd (none-ne-some rest (unfold skip_to in h))
skip_to-sublist line base (t ∷ ts) rest h s = elim (Bool-cases (text_eq t line)) [
  | inl same ↦
      let e : ts ≡ rest = some-injective ts rest (sym (skip_to_hit line t ts same) ∙ h) in
      Sublistᴰ.cons-cons (sym ((text_eq_iff t line).0 same)) (rw e s)
  | inr other ↦
      Sublistᴰ.cons (skip_to-sublist line base ts rest (sym (skip_to_miss line t ts other) ∙ h) s)
]

sublist_tail :
    {line : Text} {base target : List Text} → Sublistᴰ (line ∷ base) target → Sublistᴰ base target
sublist_tail {base} s = Sublistᴰ.trans (Sublistᴰ.cons (Sublistᴰ.refl base)) s

sublist-skip_to :
    (line : Text) (base target : List Text)
    → Sublistᴰ (line ∷ base) target
    → (rest : List Text) × (skip_to line target ≡ some rest) × Sublistᴰ base rest
sublist-skip_to line base [] s = absurd (cons≢nil (Sublistᴰ.eq-nil s))
sublist-skip_to line base (t ∷ ts) s = elim (Sublistᴰ.cases_cons-cons s) [
  | inr (e, s') ↦ (ts, skip_to_hit line t ts ((text_eq_iff t line).1 (sym e)), s')
  | inl s' ↦ elim (Bool-cases (text_eq t line)) [
    | inl same ↦ (ts, skip_to_hit line t ts same, sublist_tail s')
    | inr other ↦
        let (rest, h, r) = sublist-skip_to line base ts s' in
        (rest, skip_to_miss line t ts other ∙ h, r)
  ]
]

module _ (i : ℕ) (line : Text) (base target : List Text) where
  unmatched_stop : skip_to line target ≡ none → first_unmatched_from i (line ∷ base) target ≡ some i
  unfolding first_unmatched_from
  unmatched_stop h = rw (h, first_unmatched_from) refl

  unmatched_next :
      {rest : List Text}
      → skip_to line target ≡ some rest
      → first_unmatched_from i (line ∷ base) target ≡ first_unmatched_from (i + 1) base rest
  unfolding first_unmatched_from
  unmatched_next h = rw (h, first_unmatched_from) refl

unmatched-sublist :
    (i : ℕ) (base target : List Text)
    → first_unmatched_from i base target ≡ none
    → Sublistᴰ base target
unmatched-sublist i [] target h = Sublistᴰ.nil-sublist target
unmatched-sublist i (line ∷ base) target h = elim (Option-cases (skip_to line target)) [
  | inl stop ↦ absurd (some-ne-none i (sym (unmatched_stop i line base target stop) ∙ h))
  | inr (rest, next) ↦
      skip_to-sublist line base target rest next
        (unmatched-sublist (i + 1) base rest (sym (unmatched_next i line base target next) ∙ h))
]

sublist-unmatched :
    (i : ℕ) (base target : List Text)
    → Sublistᴰ base target
    → first_unmatched_from i base target ≡ none
sublist-unmatched i [] target s = unfold first_unmatched_from in refl
sublist-unmatched i (line ∷ base) target s =
    let (rest, next, r) = sublist-skip_to line base target s in
    unmatched_next i line base target next ∙ sublist-unmatched (i + 1) base rest r

-- Where the scan stops: the lines before index `k` all have their place, and one more has none.
pub record StopsAt (base target : List Text) (k : ℕ) : Type 0 where
  pub in_range : k < length base
  pub before : Sublistᴰ (take k base) target
  pub not_one_more : ¬ (Sublistᴰ (take (suc k) base) target)

module _ (line : Text) (base target : List Text) where
  StopsAt-stop : skip_to line target ≡ none → StopsAt (line ∷ base) target 0
  StopsAt-stop stop = record {
    in_range = omega arith;
    before = Sublistᴰ.nil-sublist target;
    not_one_more = λ s.
        let (rest, next, _) = sublist-skip_to line [] target s in
        none-ne-some rest (sym stop ∙ next);
  }

  StopsAt-next :
      {rest : List Text} {n : ℕ}
      → skip_to line target ≡ some rest
      → StopsAt base rest n
      → StopsAt (line ∷ base) target (suc n)
  StopsAt-next {rest} {n} next s = record {
    in_range = omega (arith, s.in_range);
    before = skip_to-sublist line (take n base) target rest next s.before;
    not_one_more = λ t.
        let (rest', next', r) = sublist-skip_to line (take (suc n) base) target t in
        let e : rest' ≡ rest = some-injective rest' rest (sym next' ∙ next) in
        s.not_one_more (subst (Sublistᴰ (take (suc n) base)) e r);
  }

unmatched-StopsAt :
    (i : ℕ) (base target : List Text) (k : ℕ)
    → first_unmatched_from i base target ≡ some k
    → (n : ℕ) × (k ≡ i + n) × StopsAt base target n
unmatched-StopsAt i [] target k h = absurd (none-ne-some k (unfold first_unmatched_from in h))
unmatched-StopsAt i (line ∷ base) target k h = elim (Option-cases (skip_to line target)) [
  | inl stop ↦
      let e : i ≡ k = some-injective i k (sym (unmatched_stop i line base target stop) ∙ h) in
      (0, omega arith, StopsAt-stop line base target stop)
  | inr (rest, next) ↦
      let h' = sym (unmatched_next i line base target next) ∙ h in
      let (n, e, s) = unmatched-StopsAt (i + 1) base rest k h' in
      (suc n, omega arith, StopsAt-next line base target next s)
]

-- `check_insert_only` reports where the scan stops.
pub record Reports (path : String) (base target : Text) (found : List Finding) : Type 0 where
  pub index : ℕ
  pub single :
      found
      ≡ finding protected_line_changed
          (numbered path (index + 1) (shown_line (split_lines base) index))
        ∷ []
  pub stops : StopsAt (split_lines base) (split_lines target) index

module _ (path : String) (base target : Text) where
  scan : Option ℕ
  scan = first_unmatched (split_lines base) (split_lines target)

  check-none : scan ≡ none → check_insert_only path base (some target) ≡ []
  unfolding check_insert_only scan
  check-none h = rw h refl

  check-some :
      {k : ℕ}
      → scan ≡ some k
      → check_insert_only path base (some target)
        ≡ finding protected_line_changed (numbered path (k + 1) (shown_line (split_lines base) k))
          ∷ []
  unfolding check_insert_only scan
  check-some h = rw h refl

  -- A protected file passes exactly when every line of Base stands in the target, unchanged and in
  -- the same order.
  pub check_insert_only_iff :
      (check_insert_only path base (some target) ≡ [])
      ↔ Sublistᴰ (split_lines base) (split_lines target)
  unfolding scan first_unmatched
  check_insert_only_iff = (
    λ h. elim (Option-cases scan) [
      | inl e ↦ unmatched-sublist 0 _ _ e
      | inr (k, e) ↦ absurd (cons≢nil (sym (check-some e) ∙ h))
    ],
    λ s. check-none (sublist-unmatched 0 _ _ s),
  )

  -- A protected file that is refused gets one finding. It names the first line of Base, counted from
  -- 1, at which the lines read so far no longer stand in the target in their order, and shows that
  -- line's first 80 characters.
  pub check_insert_only-Reports :
      check_insert_only path base (some target) ≢ []
      → Reports path base target (check_insert_only path base (some target))
  unfolding scan first_unmatched
  check_insert_only-Reports h = elim (Option-cases scan) [
    | inl e ↦ absurd (h (check-none e))
    | inr (k, e) ↦
        let (n, same, stops) = unmatched-StopsAt 0 _ _ k e in
        let k-eq : k ≡ n = omega arith in
        record {
          index = n;
          single =
              subst
                (λ j.
                  check_insert_only path base (some target)
                  ≡ finding protected_line_changed
                      (numbered path (j + 1) (shown_line (split_lines base) j))
                    ∷ [])
                k-eq (check-some e);
          stops = stops;
        }
  ]

pub first_unmatched-sublist :
    (base target : List Text) → first_unmatched base target ≡ none → Sublistᴰ base target
unfolding first_unmatched
first_unmatched-sublist base target h = unmatched-sublist 0 base target h
