-- ===== src/StateEdit/Ops.antt =====
-- scripts/state_edit.py: `run_ops`, with `single_line` and `text_op` of scripts/prompt_builder.py
-- and `apply_ops` of scripts/batch_runner.py. The dictionary of texts holds one path here, and there
-- are no values to expand, so that an operation is run on the one text.
use hh_ai_v.Base.{
  ok, stop, ◌>>=◌, ◌>>◌, require, ℕ, zero, suc, Bool, true, false, not, ◌&&◌, Text, List, [], ◌∷◌,
  ◌++◌, if◌then◌else◌, ◌==◌, length, any, filter, no_newline, split_on, starts_with, count_text,
}
use hh_ai_v.StateEdit.Codes.{
  Code, Result, text_op_line_not_unique, text_op_newline_in_line, text_op_invalid,
  text_op_anchor_not_unique, anchor_not_unique, op_anchor_invalid,
}

-- OP_FIELDS
pub data Op : Type 0 where
  -- `old` and `new`
  replace : Text → Text → Op
  -- `prefix` and `new`
  replace_line : Text → Text → Op
  -- `prefix` and `text`
  insert_after_line : Text → Text → Op

abbrev pub is_empty : Text → Bool
is_empty [] = true
is_empty (_ ∷ _) = false

-- `'\r' in text`
unfoldable pub has_cr : Text → Bool
has_cr text = any (λ c. c == 13) text

-- `hits[0]` where `len(hits) == 1`
only_line : List Text → Code → Result Text
only_line (line ∷ []) c = ok line
only_line _ c = stop c

unfoldable pub single_line : Text → Text → Code → Result Text
unfolding only_line
single_line text start c = only_line (filter (λ line. starts_with line start) (split_on 10 text)) c

-- `old` and `new` of the operation on this text
anchor_of : Text → Op → Result (Text × Text)
anchor_of cur (replace old new) = ok (old, new)
anchor_of cur (replace_line start new) = do
  old ← single_line cur start text_op_line_not_unique
  require (no_newline new) text_op_newline_in_line
  ok (old, new)
anchor_of cur (insert_after_line start text) = do
  line ← single_line cur start text_op_line_not_unique
  ok (line ++ (10 ∷ []), line ++ (10 ∷ (text ++ (10 ∷ []))))

unfoldable pub text_op : Text → Op → Result (Text × Text)
unfolding anchor_of
text_op cur op = do
  (old, new) ← anchor_of cur op
  require (not (is_empty old) && not (has_cr new)) text_op_invalid
  require (count_text old cur == 1) text_op_anchor_not_unique
  ok (old, new)

-- `text.replace(old, new)` for an `old` of `suc w` characters; `skip` characters of the last
-- occurrence are still ahead
unfoldable pub replace_from : ℕ → Text → Text → ℕ → Text → Text
replace_from w old new skip [] = []
replace_from w old new (suc skip) (c ∷ cs) = replace_from w old new skip cs
replace_from w old new zero (c ∷ cs) =
    let hit = starts_with (c ∷ cs) old in
    let behind = replace_from w old new (if hit then w else 0) cs in
    if hit then new ++ behind else c ∷ behind

-- an empty `old` stands before every character and at the end
between : Text → Text → Text
between new [] = new
between new (c ∷ cs) = new ++ (c ∷ between new cs)

-- `text.replace(old, new)`
unfoldable pub replace_text : Text → Text → Text → Text
unfolding replace_from between
replace_text [] new text = between new text
replace_text (o ∷ old) new text = replace_from (length old) (o ∷ old) new 0 text

-- `apply_ops` with one operation
unfoldable pub apply_op : Text → Text × Text → Result Text
apply_op text (old, new) = do
  require (count_text old text == 1) anchor_not_unique
  ok (replace_text old new text)

run_op : Text → Op → Result Text
run_op text op = do rop ← text_op text op; apply_op text rop

-- `except (BuildError, Halt): raise Stop('STATE_OP_ANCHOR_INVALID')`
abbrev recast : Result Text → Result Text
recast (ok text) = ok text
recast (stop _) = stop op_anchor_invalid

unfoldable pub run_ops : Text → List Op → Result Text
unfolding run_op
run_ops text [] = ok text
run_ops text (op ∷ ops) = do changed ← recast (run_op text op); run_ops changed ops
