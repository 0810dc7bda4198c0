-- ===== src/Guard/Tests.antt =====
-- Runs of scripts/c9_base_guard.py and scripts/c9_local_history_guard.py with fixed answers of git,
-- and the theorems at these inputs.
use hh_ai_v.Base.{
  is_oid, ℕ, zero, suc, ◌≡◌, ◌↔◌, refl, true, ◌||◌, Text, List, [], ◌∷◌, ◌++◌, ok, if◌then◌else◌,
  codes, text_eq, strip_prefix?, split_on, is_space, strip, splitlines, text_leb,
}
use hh_ai_v.Guard.Git.{printed, Git, read_answer, is_count, int_of}
use hh_ai_v.Guard.Classify.{Report, only_line, remote_oid, is_empty, decide, classify}
use hh_ai_v.Guard.Inventory.{
  no_off_head_history, insert_tip, distinct_tips, after_count, check_tips, after_loop, check_heads,
  after_guard, inventory,
}
use hh_ai_v.Guard.Ready.{AtBase, classify-ready_iff}
use hh_ai_v.Guard.Preserved.{Preserved, inventory-Preserved}

abbrev repeated : ℕ → ℕ → Text
repeated zero c = []
repeated (suc n) c = c ∷ repeated n c

abbrev base_oid : Text
base_oid = repeated 40 b'a'

-- a merged head, which is not Base
abbrev merged_oid : Text
merged_oid = repeated 40 b'b'

-- the output of git by its first arguments
abbrev output : List Text → Text
output (command ∷ (option ∷ rest)) =
    if text_eq option (codes "--is-shallow-repository")
    then codes "false\n"
    else if text_eq option (codes "--show-current") || text_eq command (codes "status")
    then []
    else if text_eq command (codes "ls-remote")
    then base_oid ++ codes "\trefs/heads/main\n"
    else if text_eq command (codes "for-each-ref")
    then base_oid ++ (10 ∷ merged_oid)
    else if text_eq command (codes "rev-list")
    then codes "0\n"
    else base_oid
output _ = []

abbrev git : Git
git n arguments = printed (output arguments)

inventory_run : inventory git true base_oid ≡ ok (no_off_head_history 2)
unfolding inventory classify is_oid read_answer text_eq strip is_space splitlines split_on
    after_guard decide check_heads check_tips distinct_tips insert_tip text_leb after_count is_count
    strip_prefix? is_empty only_line remote_oid int_of after_loop
inventory_run = refl

classify-ready_iff_example :
    ((r : Report) × (classify git 0 true base_oid ≡ ok r) × (r.ready ≡ true))
    ↔ AtBase git 0 true base_oid
classify-ready_iff_example = classify-ready_iff git 0 true base_oid

inventory-Preserved_example : Preserved git true base_oid 2
inventory-Preserved_example = inventory-Preserved git true base_oid inventory_run
