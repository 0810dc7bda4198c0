-- ===== src/Guard/Inventory.antt =====
-- scripts/c9_local_history_guard.py: `inventory`.
use hh_ai_v.Base.{
  is_oid, ℕ, ◌+◌, ◌==◌, ltb, Bool, not, ◌||◌, Text, List, [], ◌∷◌, ◌++◌, Either, ok, ◌>>=◌,
  if◌then◌else◌, length, all, codes, text_eq, text_leb, splitlines,
}
use hh_ai_v.Guard.Git.{Failure, Git, read_answer, is_count, int_of}
use hh_ai_v.Guard.Classify.{Reason, Report, ask, classify}

pub data HoldReason : Type 0 where
  base_guard : Reason → HoldReason
  base_guard_drift local_head_set_unbounded local_head_oid_invalid : HoldReason
  local_history_count_invalid off_head_history_preserve : HoldReason

-- the status HOLD with its reason, or READY with `local_head_count`
pub data Inventory : Type 0 where
  hold : HoldReason → Inventory
  no_off_head_history : ℕ → Inventory

-- MAX_LOCAL_HEADS
abbrev pub max_local_heads : ℕ
max_local_heads = 1024

unfoldable pub insert_tip : Text → List Text → List Text
insert_tip t [] = t ∷ []
insert_tip t (u ∷ us) =
    let rest = insert_tip t us in
    if text_eq t u then u ∷ us else if text_leb t u then t ∷ (u ∷ us) else u ∷ rest

-- `sorted(set(tips))`
unfoldable pub distinct_tips : List Text → List Text
distinct_tips [] = []
distinct_tips (t ∷ ts) = insert_tip t (distinct_tips ts)

-- how the loop over the tips ends: a return, or the number of the next query
pub data Loop : Type 0 where
  held : HoldReason → Loop
  passed : ℕ → Loop

-- one tip's count, and the rest of the loop
unfoldable pub after_count : Text → Either Failure Loop → Either Failure Loop
after_count count rest =
    if not (is_count count)
    then ok (held local_history_count_invalid)
    else if ltb 0 (int_of 0 count)
    then ok (held off_head_history_preserve)
    else rest

-- `git rev-list --count base..tip`
abbrev pub ask_count : Git → ℕ → Text → Text → Either Failure Text
ask_count git n base tip =
    read_answer (git n (codes "rev-list" ∷ codes "--count" ∷ (base ++ (b'.' ∷ b'.' ∷ tip)) ∷ []))

-- the loop, from query number `n` on
unfoldable pub check_tips : Git → ℕ → Text → List Text → Either Failure Loop
check_tips git n base [] = ok (passed n)
check_tips git n base (tip ∷ tips) =
    let skipped = check_tips git n base tips in
    let counted =
      ask_count git n base tip >>= λ count. after_count count (check_tips git (n + 1) base tips) in
    if text_eq tip base then skipped else counted

unfoldable pub after_loop : Git → Bool → Text → ℕ → Loop → Either Failure Inventory
after_loop git workspace base count (held why) = ok (hold why)
after_loop git workspace base count (passed n) = do
  final ← classify git n workspace base
  ok (if final.ready then no_off_head_history count else hold base_guard_drift)

unfoldable pub check_heads : Git → Bool → Text → List Text → Either Failure Inventory
check_heads git workspace base tips =
    if length tips == 0 || ltb max_local_heads (length tips)
    then ok (hold local_head_set_unbounded)
    else if not (all is_oid tips)
    then ok (hold local_head_oid_invalid)
    else check_tips git 7 base (distinct_tips tips) >>= after_loop git workspace base (length tips)

unfoldable pub after_guard : Git → Bool → Text → Report → Either Failure Inventory
after_guard git workspace base current =
    if current.ready
    then (do
      raw ← ask git 6 ("for-each-ref" ∷ "--format=%(objectname)" ∷ "refs/heads" ∷ [])
      check_heads git workspace base (splitlines raw))
    else ok (hold (base_guard current.reason))

-- queries 0 to 5 are the first `classify`, 6 lists the heads, and 7 is the first of the loop
unfoldable pub inventory : Git → Bool → Text → Either Failure Inventory
inventory git workspace base = do
  current ← classify git 0 workspace base
  after_guard git workspace base current
