-- ===== src/Guard/Classify.antt =====
-- scripts/c9_base_guard.py: `classify`.
use hh_ai_v.Base.{
  is_oid, ℕ, ◌+◌, Bool, true, false, not, ◌&&◌, ◌||◌, Text, List, [], ◌∷◌, Either, ok, stop, ◌>>=◌,
  ◌>>◌, require, if◌then◌else◌, String, map, codes, text_eq, split_on, splitlines,
}
use hh_ai_v.Guard.Git.{
  Failure, base_oid_invalid, workspace_invalid, shallow_repo, oid_query_invalid,
  remote_main_invalid, Git, read_answer, is_batch_branch,
}

pub data Reason : Type 0 where
  main_drift dirty_preserve at_base local_commit_preserve head_not_base_preserve : Reason

-- the status READY or HOLD (`ready`), with the values shown
pub record Report : Type 0 where
  pub ready : Bool
  pub reason : Reason
  pub head : Text
  pub branch : Text
  pub remote_main : Text

abbrev status_report : Bool → Reason → Text → Text → Text → Report
status_report r why head branch main = record {
  ready = r;
  reason = why;
  head = head;
  branch = branch;
  remote_main = main;
}

-- the query with number `n`
abbrev pub ask : Git → ℕ → List String → Either Failure Text
ask git n arguments = read_answer (git n (map codes arguments))

-- `remote[0]` where `len(remote) == 1`
unfoldable pub only_line : List Text → Either Failure Text
only_line (line ∷ []) = ok line
only_line _ = stop remote_main_invalid

-- `parts[0]` where the line has two parts, an oid and the name of the branch
unfoldable pub remote_oid : List Text → Either Failure Text
remote_oid (oid ∷ (name ∷ [])) = do
  require (is_oid oid && text_eq name (codes "refs/heads/main")) remote_main_invalid
  ok oid
remote_oid _ = stop remote_main_invalid

unfoldable pub is_empty : Text → Bool
is_empty [] = true
is_empty (_ ∷ _) = false

-- the returns, in their order
unfoldable pub decide : Text → Text → Text → Text → Text → Text → Report
unfolding is_empty
decide base head local_main branch dirty remote =
    if not (text_eq remote base) || not (text_eq local_main base)
    then status_report false main_drift head branch remote
    else if not (is_empty dirty)
    then status_report false dirty_preserve head branch remote
    else if text_eq head base
    then status_report true at_base head branch base
    else if is_batch_branch branch
    then status_report false local_commit_preserve head branch base
    else status_report false head_not_base_preserve head branch base

-- `git` from query number `n` on; `workspace` says whether `repo` is a directory and no link
unfoldable pub classify : Git → ℕ → Bool → Text → Either Failure Report
unfolding only_line remote_oid
classify git n workspace base = do
  require (is_oid base) base_oid_invalid
  require workspace workspace_invalid
  shallow ← ask git n ("rev-parse" ∷ "--is-shallow-repository" ∷ [])
  require (text_eq shallow (codes "false")) shallow_repo
  head ← ask git (n + 1) ("rev-parse" ∷ "--verify" ∷ "HEAD^{commit}" ∷ [])
  local_main ← ask git (n + 2) ("rev-parse" ∷ "--verify" ∷ "refs/remotes/origin/main" ∷ [])
  branch ← ask git (n + 3) ("branch" ∷ "--show-current" ∷ [])
  dirty ← ask git (n + 4) ("status" ∷ "--porcelain=v1" ∷ "--untracked-files=all" ∷ [])
  require (is_oid head && is_oid local_main) oid_query_invalid
  listed ← ask git (n + 5) ("ls-remote" ∷ "origin" ∷ "refs/heads/main" ∷ [])
  line ← only_line (splitlines listed)
  remote ← remote_oid (split_on 9 line)
  ok (decide base head local_main branch dirty remote)
