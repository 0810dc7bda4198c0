-- ===== src/StateEdit/Seal.antt =====
-- scripts/state_edit.py: `seal`.
use hh_ai_v.Base.{
  text_leb, ok, stop, ◌>>=◌, ◌>>◌, require, ℕ, ◌==◌, Bool, not, ◌&&◌, Text, List, [], ◌∷◌, map,
  if◌then◌else◌, text_eq,
}
use hh_ai_v.StateEdit.Codes.{Result, ops_invalid, ops_missing, plan_exists, result_unchanged}
use hh_ai_v.StateEdit.Ops.{Op, run_ops}
use hh_ai_v.StateEdit.Checks.{
  Bytes, Files, Entry, World, source, clean_text, check_result, task_scope, check_ops, check_files,
  target_of, read_target,
}

-- one file of the operations document
pub record Request : Type 0 where
  pub path : Text
  pub ops : List Op

-- the operations document
pub record OpsDoc : Type 0 where
  pub schema_version : ℕ
  pub task_id : Text
  pub files : List Request

-- `read_json`: the document's file is missing, does not load, or is a document
pub data OpsFile : Type 0 where
  no_ops bad_ops : OpsFile
  ops_doc : OpsDoc → OpsFile

unfoldable pub read_ops : OpsFile → Result OpsDoc
read_ops no_ops = stop ops_missing
read_ops bad_ops = stop ops_invalid
read_ops (ops_doc doc) = ok doc

unfoldable pub insert_request : Request → List Request → List Request
insert_request r [] = r ∷ []
insert_request r (q ∷ qs) =
    let rest = insert_request r qs in if text_leb r.path q.path then r ∷ (q ∷ qs) else q ∷ rest

-- `sorted(files, key=lambda f: f['path'])`
unfoldable pub sorted_requests : List Request → List Request
unfolding insert_request
sorted_requests [] = []
sorted_requests (r ∷ rs) = insert_request r (sorted_requests rs)

-- the entry of one file of the document
unfoldable pub seal_request : World → Files → Request → Result Entry
seal_request w files r = do
  check_ops r.ops
  target_of w r.path
  data_bytes ← read_target files r.path
  text ← clean_text w data_bytes source
  changed ← run_ops text r.ops
  check_result w text (w.encode changed)
  require (not (text_eq (w.encode changed) data_bytes)) result_unchanged
  ok (record {
    path = r.path;
    before_sha256 = w.sha256 data_bytes;
    after_sha256 = w.sha256 (w.encode changed);
    ops = r.ops;
  })

unfoldable pub seal_requests : World → Files → List Request → Result (List Entry)
seal_requests w files [] = ok []
seal_requests w files (r ∷ rs) = do
  entry ← seal_request w files r
  entries ← seal_requests w files rs
  ok (entry ∷ entries)

-- The bytes of the plan's file; `exists` says whether there is one already.
unfoldable pub seal : World → Files → OpsFile → Bool → Text → Text → Result Bytes
seal w files ops_file exists task_id prompt_sha = do
  scope ← task_scope w prompt_sha
  doc ← read_ops ops_file
  require (not exists) plan_exists
  require (doc.schema_version == 1 && text_eq doc.task_id task_id) ops_invalid
  check_files (map (λ r. r.path) doc.files) scope
  entries ← seal_requests w files (sorted_requests doc.files)
  ok (
      w.dumps (record {
        schema_version = 1;
        task_id = task_id;
        prompt_sha256 = prompt_sha;
        files = entries;
      }))
