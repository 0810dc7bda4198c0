-- ===== src/StateEdit/Checks.antt =====
-- scripts/state_edit.py: the byte rule, the scope of a task and the checks of a plan. The shape of a
-- JSON document is that of its type here: a document of another shape does not load.
use hh_ai_v.Base.{
  strip, ok, stop, ◌>>=◌, ◌>>◌, require, ℕ, ◌+◌, leb, Bool, true, false, not, ◌&&◌, ◌||◌, Text,
  Option, none, some, List, [], ◌∷◌, map, if◌then◌else◌, all, any, filter, codes, text_eq,
  ends_with, split_on, is_space,
}
use hh_ai_v.StateEdit.Codes.{
  Code, Result, task_prompt_invalid, prompt_sha_mismatch, source_not_utf8, source_cr,
  source_trailing_newline, result_not_utf8, result_cr, result_trailing_newline,
  result_trailing_whitespace, ops_invalid, path_not_registered, path_not_allowed, target_unsafe,
  target_missing, target_readonly, target_unreadable,
}
use hh_ai_v.StateEdit.Ops.{Op, replace, replace_line, insert_after_line, has_cr, is_empty}

-- the raw bytes of a file
abbrev pub Bytes : Type 0
Bytes = List ℕ

-- the contents of the files by their paths; `none` is a file that cannot be read
abbrev pub Files : Type 0
Files = Text → Option Bytes

-- What the file system says of a path in `target_of`.
pub data Target : Type 0 where
  unsafe_target absent_target readonly_target usable_target : Target

-- One file of a sealed plan.
pub record Entry : Type 0 where
  pub path : Text
  pub before_sha256 : Text
  pub after_sha256 : Text
  pub ops : List Op

pub record Plan : Type 0 where
  pub schema_version : ℕ
  pub task_id : Text
  pub prompt_sha256 : Text
  pub files : List Entry

-- What stands outside: the hash and the UTF-8 codec; the bytes of the task prompt, and the allowed
-- paths of its contract if it passes the preflight and the manifest checks; JSON; and the file
-- system's answer for a path.
pub record World : Type 0 where
  pub sha256 : Bytes → Text
  pub decode : Bytes → Option Text
  pub encode : Text → Bytes
  pub prompt : Option Bytes
  pub contract_paths : Option Text
  pub loads : Bytes → Option Plan
  pub dumps : Plan → Bytes
  pub look_at : Text → Target

-- STATE_FILES
unfoldable pub state_files : List Text
state_files =
    codes "docs/TASKBOARD.md"
    ∷ codes "docs/refactor-backlog.md"
    ∷ codes "docs/AUDIT-LOG.md"
    ∷ codes "docs/EXEC-LOG.md"
    ∷ []

-- `member in texts`
unfoldable pub is_member : Text → List Text → Bool
is_member t texts = any (λ u. text_eq t u) texts

-- `code` of `clean_text`
pub data Side : Type 0 where
  source result : Side

abbrev not_utf8 : Side → Code
not_utf8 source = source_not_utf8
not_utf8 result = result_not_utf8

abbrev with_cr : Side → Code
with_cr source = source_cr
with_cr result = result_cr

abbrev no_newline_end : Side → Code
no_newline_end source = source_trailing_newline
no_newline_end result = result_trailing_newline

abbrev pub decoded : Option Text → Side → Result Text
decoded none side = stop (not_utf8 side)
decoded (some text) side = ok text

unfoldable pub clean_text : World → Bytes → Side → Result Text
clean_text w data_bytes side = do
  text ← decoded (w.decode data_bytes) side
  require (not (has_cr text)) (with_cr side)
  require (ends_with text (10 ∷ [])) (no_newline_end side)
  ok text

-- `line != line.rstrip()`: the last character is white space
unfoldable pub has_trailing_space : Text → Bool
has_trailing_space [] = false
has_trailing_space (c ∷ []) = is_space c
has_trailing_space (c ∷ (d ∷ cs)) = has_trailing_space (d ∷ cs)

-- the elements of the counter, each as often as it is counted
unfoldable pub trailing_whitespace_lines : Text → List Text
trailing_whitespace_lines text = filter has_trailing_space (split_on 10 text)

-- the count of a line
unfoldable pub count_line : Text → List Text → ℕ
count_line line [] = 0
count_line line (l ∷ ls) = (if text_eq line l then 1 else 0) + count_line line ls

-- `not (trailing_whitespace_lines(text) - trailing_whitespace_lines(source_text))`: no line has a
-- greater count
unfoldable pub adds_no_trailing : Text → Text → Bool
adds_no_trailing source_text text =
    let old = trailing_whitespace_lines source_text in
    let new = trailing_whitespace_lines text in
    all (λ line. leb (count_line line new) (count_line line old)) new

unfoldable pub check_result : World → Text → Bytes → Result (Unit {0})
check_result w source_text data_bytes = do
  text ← clean_text w data_bytes result
  require (adds_no_trailing source_text text) result_trailing_whitespace

unfoldable pub allowed_paths : Text → List Text
allowed_paths raw =
    let stripped = strip raw in
    if is_empty stripped || text_eq stripped (codes "NONE")
    then []
    else filter (λ p. not (is_empty p)) (map strip (split_on b';' stripped))

scope_of_contract : Option Text → Result (List Text)
scope_of_contract none = stop task_prompt_invalid
scope_of_contract (some raw) = ok (filter (λ p. is_member p state_files) (allowed_paths raw))

delivered_scope : World → Text → Option Bytes → Result (List Text)
delivered_scope w prompt_sha none = stop task_prompt_invalid
delivered_scope w prompt_sha (some prompt) = do
  require (text_eq (w.sha256 prompt) prompt_sha) prompt_sha_mismatch
  scope_of_contract w.contract_paths

unfoldable pub task_scope : World → Text → Result (List Text)
unfolding delivered_scope scope_of_contract
task_scope w prompt_sha = delivered_scope w prompt_sha w.prompt

-- the first field of an operation, which may not be empty
abbrev anchor_field : Op → Text
anchor_field (replace old new) = old
anchor_field (replace_line start new) = start
anchor_field (insert_after_line start text) = start

unfoldable pub check_ops : List Op → Result (Unit {0})
check_ops [] = stop ops_invalid
check_ops (op ∷ ops) = require (all (λ o. not (is_empty (anchor_field o))) (op ∷ ops)) ops_invalid

-- `len(set(paths)) == len(paths)`
unfoldable pub all_distinct : List Text → Bool
all_distinct [] = true
all_distinct (p ∷ ps) = not (is_member p ps) && all_distinct ps

unfoldable pub check_paths : List Text → List Text → Result (Unit {0})
check_paths scope [] = ok tt
check_paths scope (p ∷ ps) = do
  require (is_member p state_files) path_not_registered
  require (is_member p scope) path_not_allowed
  check_paths scope ps

-- the paths of the files that a document names
unfoldable pub check_files : List Text → List Text → Result (Unit {0})
unfolding check_paths
check_files [] scope = stop ops_invalid
check_files (p ∷ ps) scope = do
  require (all_distinct (p ∷ ps)) ops_invalid
  check_paths scope (p ∷ ps)

abbrev pub target_result : Target → Result (Unit {0})
target_result unsafe_target = stop target_unsafe
target_result absent_target = stop target_missing
target_result readonly_target = stop target_readonly
target_result usable_target = ok tt

unfoldable pub target_of : World → Text → Result (Unit {0})
target_of w path = target_result (w.look_at path)

abbrev pub read_result : Option Bytes → Result Bytes
read_result none = stop target_unreadable
read_result (some data_bytes) = ok data_bytes

unfoldable pub read_target : Files → Text → Result Bytes
read_target files path = read_result (files path)
