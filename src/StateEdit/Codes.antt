-- ===== src/StateEdit/Codes.antt =====
-- scripts/state_edit.py: `Stop` and `_require`. The codes of the `BuildError` and the `Halt` that
-- `run_ops` catches stand among them.
use hh_ai_v.Base.{Either}

pub data Code : Type 0 where
  -- prompt_builder.py and batch_runner.py
  text_op_line_not_unique text_op_newline_in_line text_op_invalid text_op_anchor_not_unique : Code
  anchor_not_unique : Code
  -- state_edit.py
  task_prompt_invalid prompt_sha_mismatch : Code
  source_not_utf8 source_cr source_trailing_newline : Code
  result_not_utf8 result_cr result_trailing_newline result_trailing_whitespace : Code
  result_unchanged result_mismatch conflict : Code
  ops_invalid ops_missing plan_missing plan_invalid plan_sha_mismatch plan_exists : Code
  path_not_registered path_not_allowed : Code
  target_unsafe target_missing target_readonly target_unreadable : Code
  op_anchor_invalid temp_exists write_failed : Code

-- a value, or the exception that stops the tool
abbrev pub Result {ℓ} : Type ℓ → Type ℓ
Result A = Either Code A
