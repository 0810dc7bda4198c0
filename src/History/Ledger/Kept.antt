-- ===== src/History/Ledger/Kept.antt =====
-- scripts/history_guard.py: what a ledger that passes `check_ledger` keeps and converts.
use mathlib.Core.List.{Sublistᴰ, cons≢nil}
use mathlib.Core.Path.{subst}
use hh_ai_v.Base.{
  ℕ, ◌≡◌, refl, sym, ap, ◌∙◌, ◌⊎◌, inl, inr, Bool, true, false, Text, Option, none, some, List, [],
  ◌∷◌, ◌++◌, arith, if◌then◌else◌, contains_text, count_text, split_once, split_once-append,
  Bool-cases, Option-cases, All, filter, length, ltb, get_elem?, get_elem?-append, append-eq-nil,
  any-eq-false,
}
use hh_ai_v.History.Findings.{Finding}
use hh_ai_v.History.Lines.{first_unmatched, split_lines}
use hh_ai_v.History.Lines.Insertion.{first_unmatched-sublist}
use hh_ai_v.History.Ledger.{placeholder, indices_from, ledger_section, lines_of, is_conversion}
use hh_ai_v.History.Ledger.Check.{
  Placement, only_match, match_findings, place, place_hit, place_hits, ambiguous, kept_from,
  order_findings, section_findings, check_ledger, ranges_findings,
}
use hh_ai_v.History.Ledger.Hits.{
  is_other, SingleHit, indices_from-nil, indices_from-SingleHit, kept_from-none, placed,
  kept_from-split,
}

-- What the ledger section of the target keeps of Base's, and how the placeholder of the batch before
-- has become a converted line.
pub data LedgerStep (base_sec target_sec : List Text) (base_oid task : Text) : Type 0 where
  -- Base holds no placeholder of the batch before
  untouched :
      All (λ l. contains_text (placeholder task) l ≡ false) base_sec
      → Sublistᴰ (filter is_other base_sec) target_sec
      → LedgerStep base_sec target_sec base_oid task
  -- Base holds one: the target has no copy of it and exactly one line that converts it, in its place
  converted :
      (above below : List Text) (before behind line : Text)
      → base_sec ≡ above ++ ((before ++ (placeholder task ++ behind)) ∷ below)
      → All (λ l. contains_text (placeholder task) l ≡ false) above
      → All (λ l. contains_text (placeholder task) l ≡ false) below
      → All (λ l. contains_text (placeholder task) l ≡ false) target_sec
      → filter (is_conversion before behind base_oid task) target_sec ≡ line ∷ []
      → Sublistᴰ
          (filter is_other above
            ++ placed (before ++ (placeholder task ++ behind)) line (filter is_other below))
          target_sec
      → LedgerStep base_sec target_sec base_oid task

order_findings-nil :
    (p : Placement) (base_sec target_sec : List Text)
    → order_findings p base_sec target_sec ≡ []
    → Sublistᴰ (kept_from p.converted_index p.converted 0 base_sec) target_sec
unfolding order_findings
order_findings-nil p base_sec target_sec h =
    elim (Option-cases
      (first_unmatched (kept_from p.converted_index p.converted 0 base_sec) target_sec)) [
        | inl e ↦ first_unmatched-sublist _ _ e
        | inr (k, e) ↦ absurd (ground (arith, e))
      ]

if-eq-nil : (b : Bool) (f : Finding) → (if b then f ∷ [] else []) ≡ [] → b ≡ false
if-eq-nil b f h = ground arith

match_findings-nil :
    (base_oid task : Text) (matched : List Text)
    → match_findings base_oid task matched ≡ []
    → (line : Text) × (matched ≡ line ∷ []) × (only_match matched ≡ some line)
unfolding match_findings only_match
match_findings-nil base_oid task [] h = absurd (cons≢nil h)
match_findings-nil base_oid task (line ∷ []) h = (line, refl, refl)
match_findings-nil base_oid task (line ∷ (l ∷ ls)) h = absurd (cons≢nil h)

module _ (base_sec target_sec : List Text) (base_oid task : Text) where
  ph : Text
  ph = placeholder task

  place_hit_one :
      (k : ℕ) (hit before behind : Text)
      → ltb 1 (count_text ph hit) ≡ false
      → split_once ph hit ≡ some (before, behind)
      → place_hit base_sec target_sec base_oid task k (some hit)
        ≡ place target_sec base_oid task k (before, behind)
  unfolding place_hit ph
  place_hit_one k hit before behind one e = rw (one, e, place_hit) refl

  place_hit_many :
      (k : ℕ) (hit : Text)
      → (ltb 1 (count_text ph hit) ≡ true) ⊎ (split_once ph hit ≡ none)
      → place_hit base_sec target_sec base_oid task k (some hit) ≡ ambiguous base_sec ph
  unfolding place_hit ph
  place_hit_many k hit (inl many) = ground (arith, many)
  place_hit_many k hit (inr e) = ground (arith, e)

  place-LedgerStep :
      (k : ℕ) (s : SingleHit (contains_text ph) base_sec 0 k) (before behind : Text)
      → s.hit ≡ before ++ (ph ++ behind)
      → (place target_sec base_oid task k (before, behind)).findings ≡ []
      → order_findings (place target_sec base_oid task k (before, behind)) base_sec target_sec ≡ []
      → LedgerStep base_sec target_sec base_oid task
  unfolding place ph
  place-LedgerStep k s before behind e f o =
      let (stale, matches) = append-eq-nil _ _ f in
      let (line, single, chosen) = match_findings-nil base_oid task _ matches in
      let splits = s.splits ∙ ap (λ h. s.before ++ (h ∷ s.behind)) e in
      let kept =
        ap (λ c. kept_from (some k) c 0 base_sec) chosen
        ∙ ap (λ b. kept_from (some k) (some line) 0 b) splits
        ∙ kept_from-split k line 0 s.before (before ++ (ph ++ behind)) s.behind s.index in
      LedgerStep.converted s.before s.behind before behind line splits s.none_before s.none_behind
        (any-eq-false _ target_sec (if-eq-nil _ _ stale)) single
        (subst (λ l. Sublistᴰ l target_sec) kept (order_findings-nil _ _ _ o))

  place_hit-LedgerStep :
      (k : ℕ) (s : SingleHit (contains_text ph) base_sec 0 k)
      → (place_hit base_sec target_sec base_oid task k (some s.hit)).findings ≡ []
      → order_findings
          (place_hit base_sec target_sec base_oid task k (some s.hit))
          base_sec
          target_sec
        ≡ []
      → LedgerStep base_sec target_sec base_oid task
  place_hit-LedgerStep k s f o = elim (Bool-cases (ltb 1 (count_text ph s.hit))) [
    | inl many ↦
        absurd (cons≢nil (ap (λ q. q.findings) (sym (place_hit_many k s.hit (inl many))) ∙ f))
    | inr one ↦ elim (Option-cases (split_once ph s.hit)) [
      | inl no_split ↦
          absurd (cons≢nil (ap (λ q. q.findings) (sym (place_hit_many k s.hit (inr no_split))) ∙ f))
      | inr ((before, behind), e) ↦
          let same = place_hit_one k s.hit before behind one e in
          place-LedgerStep k s before behind (split_once-append ph s.hit before behind e)
            (ap (λ q. q.findings) (sym same) ∙ f)
            (ap (λ q. order_findings q base_sec target_sec) (sym same) ∙ o)
    ]
  ]

  place_hits_one :
      (k : ℕ) (s : SingleHit (contains_text ph) base_sec 0 k)
      → place_hits base_sec target_sec base_oid task (k ∷ [])
        ≡ place_hit base_sec target_sec base_oid task k (some s.hit)
  unfolding place_hits
  place_hits_one k s =
      let at : k ≡ length s.before = omega (arith, s.index) in
      ap (place_hit base_sec target_sec base_oid task k) (
        ap (λ b. get_elem? b k) s.splits
        ∙ ap (get_elem? (s.before ++ (s.hit ∷ s.behind))) at
        ∙ get_elem?-append s.before s.hit s.behind)

  place_hits-LedgerStep :
      (hits : List ℕ)
      → indices_from (contains_text ph) 0 base_sec ≡ hits
      → (place_hits base_sec target_sec base_oid task hits).findings ≡ []
      → order_findings (place_hits base_sec target_sec base_oid task hits) base_sec target_sec ≡ []
      → LedgerStep base_sec target_sec base_oid task
  place_hits-LedgerStep [] e f o =
      unfold place_hits in
      LedgerStep.untouched (unfold ph in indices_from-nil _ 0 base_sec e)
        (rw (kept_from-none none 0 base_sec) at (order_findings-nil _ _ _ o))
  place_hits-LedgerStep (k ∷ []) e f o =
      let s = indices_from-SingleHit _ 0 k base_sec e in
      let same = place_hits_one k s in
      place_hit-LedgerStep k s (ap (λ q. q.findings) (sym same) ∙ f)
        (ap (λ q. order_findings q base_sec target_sec) (sym same) ∙ o)
  place_hits-LedgerStep (k ∷ (j ∷ ks)) e f o = unfold place_hits in absurd (cons≢nil f)

  section_findings-LedgerStep :
      section_findings base_sec target_sec base_oid task ≡ []
      → LedgerStep base_sec target_sec base_oid task
  unfolding section_findings ph
  section_findings-LedgerStep h =
      let (f, o) = append-eq-nil _ _ h in place_hits-LedgerStep _ refl f o

ranges_findings-LedgerStep :
    (base_lines target_lines : List Text) (base_oid task : Text) (b t : Option (ℕ × ℕ))
    → ranges_findings base_lines target_lines base_oid task b t ≡ []
    → (r : ℕ × ℕ) × (s : ℕ × ℕ) × (b ≡ some r)
      × (t ≡ some s)
      × LedgerStep (lines_of base_lines r) (lines_of target_lines s) base_oid task
unfolding ranges_findings
ranges_findings-LedgerStep bl tl base_oid task none t h = absurd (cons≢nil h)
ranges_findings-LedgerStep bl tl base_oid task (some r) none h = absurd (cons≢nil h)
ranges_findings-LedgerStep bl tl base_oid task (some r) (some s) h =
    (r, s, refl, refl, section_findings-LedgerStep _ _ base_oid task h)

-- A ledger with no finding has one §5.1 in Base and one in the target. The lines of Base's section
-- that are neither a checkpoint line nor the placeholder line stand in the target's in their order.
-- If the placeholder of the batch before stands in Base, it stands in one line, no line of the
-- target's section holds it, and exactly one line there converts it, with the text around it
-- unchanged and in the place of the old line (unless that is a checkpoint line).
pub check_ledger-LedgerStep :
    (base target base_oid task : Text)
    → check_ledger base (some target) base_oid task ≡ []
    → (r : ℕ × ℕ) × (s : ℕ × ℕ) × (ledger_section (split_lines base) ≡ some r)
      × (ledger_section (split_lines target) ≡ some s)
      × LedgerStep (lines_of (split_lines base) r) (lines_of (split_lines target) s) base_oid task
unfolding check_ledger
check_ledger-LedgerStep base target base_oid task h =
    ranges_findings-LedgerStep _ _ base_oid task _ _ h
