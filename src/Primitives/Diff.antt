-- ===== src/Primitives/Diff.antt =====
-- scripts/verification_primitives.py: `cmd_git_diff_digest`.
use hh_ai_v.Base.{
  lower, ℕ, zero, not, Text, text_eq, Option, none, some, List, [], ◌∷◌, ◌++◌, map, filter, codes,
  split_on, Either, ok, stop, ◌>>=◌, ◌>>◌, require, ℤ, if◌then◌else◌, is_oid,
}
use hh_ai_v.Primitives.Report.{
  Reason, invalid_expect, invalid_base, git_exec_error, git_timeout, base_not_found,
  git_nonzero_exit, Status, report, pass, candidate_invalid, GitRun, exited, not_found, timed_out,
  other_exception, World, is_expectation,
}
use hh_ai_v.Primitives.Count.{is_empty}

pub data Mode : Type 0 where
  worktree cached head : Mode

pub record DiffArguments : Type 0 where
  pub repo_root : Text
  pub base : Text
  pub mode : Mode
  pub expect : Option Text

pub record Diffed : Type 0 where
  pub diff_sha256 : Text
  pub changed_paths : List Text
  pub untracked_paths : List Text
  pub status : Status

unfoldable pub mode_args : DiffArguments → List Text
mode_args a = elim a.mode [
  | worktree ↦ a.base ∷ []
  | cached ↦ codes "--cached" ∷ (a.base ∷ [])
  | head ↦ a.base ∷ (codes "HEAD" ∷ [])
]

-- `["git", "-C", repo_root]` stands before the arguments
unfoldable pub git_command : DiffArguments → List Text → List Text
git_command a rest = codes "git" ∷ (codes "-C" ∷ (a.repo_root ∷ rest))

-- `-c core.quotepath=false`
unfoldable pub no_quotes : List Text → List Text
no_quotes rest = codes "-c" ∷ (codes "core.quotepath=false" ∷ rest)

-- `-c color.ui=never`
unfoldable pub no_color : List Text → List Text
no_color rest = codes "-c" ∷ (codes "color.ui=never" ∷ rest)

unfoldable pub cat_cmd : DiffArguments → List Text
cat_cmd a = git_command a (codes "cat-file" ∷ (codes "-e" ∷ ((a.base ++ codes "^{commit}") ∷ [])))

unfoldable pub diff_cmd : DiffArguments → List Text
diff_cmd a = git_command a (
    no_quotes (
      no_color (
        codes "diff"
        ∷ (codes "--binary"
            ∷ (codes "--full-index"
                ∷ (codes "--no-color"
                    ∷ (codes "--no-ext-diff" ∷ (codes "--no-textconv" ∷ mode_args a))))))))

unfoldable pub name_cmd : DiffArguments → List Text
name_cmd a =
    git_command a
      (no_quotes (no_color (codes "diff" ∷ (codes "--name-only" ∷ (codes "-z" ∷ mode_args a)))))

unfoldable pub untracked_cmd : DiffArguments → List Text
untracked_cmd a = git_command a (
    no_quotes
      (codes "ls-files" ∷ (codes "--others" ∷ (codes "--exclude-standard" ∷ (codes "-z" ∷ [])))))

-- `proc.returncode != 0` is refused for the given reason
unfoldable pub output_of : GitRun → Reason → Either Reason (List ℕ)
output_of (exited (ℤ.pos zero) out) refusal = ok out
output_of (exited code out) refusal = stop refusal
output_of not_found refusal = stop git_exec_error
output_of timed_out refusal = stop git_timeout
output_of other_exception refusal = stop git_exec_error

-- the parts between the zero bytes, decoded
unfoldable pub paths_of : World → List ℕ → List Text
paths_of w out = map w.decode_path (filter (λ p. not (is_empty p)) (split_on 0 out))

unfoldable pub diff_status : Option Text → Text → Status
diff_status none digest = report
diff_status (some expected) digest =
    if text_eq digest (lower expected) then pass else candidate_invalid

unfoldable pub diffed : World → DiffArguments → List ℕ → List ℕ → List ℕ → Diffed
diffed w a diff names untracked = record {
  diff_sha256 = w.sha256_hex diff;
  changed_paths = paths_of w names;
  untracked_paths = paths_of w untracked;
  status = diff_status a.expect (w.sha256_hex diff);
}

unfoldable pub git_diff_digest : World → DiffArguments → Either Reason Diffed
git_diff_digest w a = do
  require (is_oid a.base) invalid_base
  require (is_expectation a.expect) invalid_expect
  found ← output_of (w.git 0 (cat_cmd a)) base_not_found
  diff ← output_of (w.git 1 (diff_cmd a)) git_nonzero_exit
  names ← output_of (w.git 2 (name_cmd a)) git_nonzero_exit
  untracked ← output_of (w.git 3 (untracked_cmd a)) git_nonzero_exit
  ok (diffed w a diff names untracked)
