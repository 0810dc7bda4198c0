-- ===== src/Paths/Tests.antt =====
-- Runs of the path checks of scripts/execution_record.py, and the theorems at these inputs.
use hh_ai_v.Base.{
  ◌≡◌, refl, [], ok, codes, text_eq, starts_with, contains_text, strip_prefix?, split_on, is_space,
  strip,
}
use hh_ai_v.Paths.Syntax.{
  with_slashes, drop_dot_slash, normalize_repo_path, is_blank, has_drive, is_part, is_wildcard,
  is_forbidden, suffix_of, child_of_git, validate_path_syntax, validate_external_artifact_path,
}
use hh_ai_v.Paths.Confined.{Confined, validate_path_syntax-Inside}
use hh_ai_v.Paths.Artifact.{IsArtifact, validate_external_artifact_path-IsArtifact}

syntax_run : validate_path_syntax (codes " ./docs\\a.md ") ≡ ok (codes "docs/a.md")
unfolding validate_path_syntax normalize_repo_path with_slashes drop_dot_slash strip is_space
    strip_prefix? is_blank starts_with has_drive is_part text_eq split_on is_wildcard
syntax_run = refl

artifact_run :
    validate_external_artifact_path (codes ".git\\T1-log.txt") (codes "T1")
    ≡ ok (codes ".git/T1-log.txt")
unfolding validate_external_artifact_path normalize_repo_path with_slashes drop_dot_slash strip
    is_space strip_prefix? is_blank starts_with has_drive text_eq split_on is_wildcard is_forbidden
    suffix_of child_of_git contains_text
artifact_run = refl

validate_path_syntax-Inside_example : Confined [] (codes " ./docs\\a.md ") (codes "docs/a.md")
validate_path_syntax-Inside_example =
    validate_path_syntax-Inside (codes " ./docs\\a.md ") (codes "docs/a.md") [] syntax_run

validate_external_artifact_path-IsArtifact_example :
    (codes ".git/T1-log.txt" ≡ normalize_repo_path (codes ".git\\T1-log.txt"))
    × IsArtifact (codes "T1") (codes ".git/T1-log.txt")
validate_external_artifact_path-IsArtifact_example =
    validate_external_artifact_path-IsArtifact (codes ".git\\T1-log.txt") (codes "T1")
      (codes ".git/T1-log.txt") artifact_run
