-- ===== src/Runner/Start.antt =====
-- scripts/batch_runner.py: `precontrol_start_guard`.
use hh_ai_v.Base.{
  Bool, true, false, not, ◌&&◌, ◌||◌, Text, codes, text_eq, List, [], ◌∷◌, filter, Either, ok, stop,
  ◌>>=◌, ◌>>◌, require, if◌then◌else◌, is_oid, split_on, splitlines, strip,
}
use hh_ai_v.Runner.Plan.{StartMode, clean, adopt, Spec}
use hh_ai_v.Runner.Records.{is_production}

-- The answers of git, each a text or the code of its Halt, in the order of the queries; the staged
-- paths; the checks of an adopted start and of the runtime.
pub record Queries : Type 0 where
  pub is_shallow : Either Text Text
  pub head : Either Text Text
  pub status : Either Text Text
  pub current_branch : Either Text Text
  pub staged : Either Text (List Text)
  pub adopt_checks : Either Text (Unit {0})
  pub ls_remote : Either Text Text
  pub runtime : Either Text (Unit {0})

unfoldable pub is_blank : Text → Bool
is_blank [] = true
is_blank (_ ∷ _) = false

-- `status_lines`
unfoldable pub status_lines : Text → List Text
status_lines output = filter (λ line. not (is_blank (strip line))) (split_on 10 output)

unfoldable pub no_texts : List Text → Bool
no_texts [] = true
no_texts (_ ∷ _) = false

-- the codes of the adopted start that become START_STATE_MISMATCH
unfoldable pub recast : Text → Text
recast code =
    if text_eq code (codes "PRECONTROL_SCOPE_DRIFT")
      || text_eq code (codes "PRECONTROL_SCOPE_MISMATCH")
      || text_eq code (codes "PRECONTROL_ADOPT_HASH_MISMATCH")
    then codes "START_STATE_MISMATCH"
    else code

unfoldable pub check_start : Queries → StartMode → Either Text (Unit {0})
check_start q clean = do
  output ← q.status
  require (no_texts (status_lines output)) (codes "START_STATE_MISMATCH")
check_start q (adopt branch) = do
  current ← q.current_branch
  require (text_eq current branch) (codes "START_STATE_MISMATCH")
  staged ← q.staged
  require (no_texts staged) (codes "START_STATE_MISMATCH")
  elim q.adopt_checks [ stop code ↦ stop (recast code) | ok u ↦ ok u ]

-- the hash of the one line for main
unfoldable pub remote_main : List Text → Either Text Text
remote_main (oid ∷ (ref ∷ [])) =
    if is_oid oid && text_eq ref (codes "refs/heads/main")
    then ok oid
    else stop (codes "START_REMOTE_QUERY_INVALID")
remote_main _ = stop (codes "START_REMOTE_QUERY_INVALID")

unfoldable pub remote_line : List Text → Either Text Text
remote_line (line ∷ []) = remote_main (split_on 9 line)
remote_line _ = stop (codes "START_REMOTE_QUERY_INVALID")

unfoldable pub start_guard : Queries → Spec → Either Text (Unit {0})
start_guard q spec = do
  is_shallow ← q.is_shallow
  require (text_eq is_shallow (codes "false")) (codes "SHALLOW_CLONE")
  head ← q.head
  require (text_eq head spec.base_oid) (codes "START_STATE_MISMATCH")
  started ← check_start q spec.start
  output ← q.ls_remote
  oid ← remote_line (splitlines output)
  require (text_eq oid spec.base_oid) (codes "ORIGIN_MAIN_DRIFT")
  q.runtime

-- `precontrol_start_guard`
unfoldable pub precontrol_start_guard : Queries → Spec → Either Text (Unit {0})
precontrol_start_guard q spec = if is_production spec.kind then start_guard q spec else ok tt
