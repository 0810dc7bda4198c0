-- ===== src/Intake/Tests.antt =====
-- Runs of scripts/prompt_intake.py with fixed answers, and the theorems at them.
use hh_ai_v.Base.{
  ℕ, zero, suc, ◌≡◌, ◌⊎◌, inr, refl, true, false, Text, codes, text_eq, none, some, [], ◌∷◌, ok,
  stop, in_range, is_hex, is_sha256, is_space, lower, strip,
}
use hh_ai_v.Intake.{
  Label, target_exists, Stat, is_link_or_reparse, is_real_directory, is_real_file, is_prompt_size,
  size_of, is_safe_task_id, is_empty, World, ensure_safe_directory_chain, checked_usage,
  checked_source, checked, written, Copying, verified, written_copy, create_copy, copied, intake,
}
use hh_ai_v.Intake.Passes.{Copied, intake-Copied, intake_keeps}

abbrev repeated : ℕ → ℕ → Text
repeated zero c = []
repeated (suc n) c = c ∷ repeated n c

abbrev directory_stat : Stat
directory_stat = record {
  mode_link = false;
  path_link = false;
  reparse_tag = 0;
  reparse_attribute = false;
  directory = true;
  regular = false;
  size = 0;
}

abbrev file_stat : Stat
file_stat = record {
  mode_link = false;
  path_link = false;
  reparse_tag = 0;
  reparse_attribute = false;
  directory = false;
  regular = true;
  size = 2;
}

abbrev world : World
world = record {
  is_absolute = λ path. true;
  raw_path_ok = λ path. true;
  directory_of = λ path. codes "/in";
  ancestors = λ path. codes "/" ∷ (path ∷ []);
  lstat = λ path. some directory_stat;
  source_exists = true;
  source_stat = some file_stat;
  source_bytes = some (codes "hi");
  sha256_hex = λ bytes. repeated 64 b'a';
  git_dir = some (codes "/repo/.git");
}

abbrev copying : Copying
copying = record { appears = none; write = written; target_stat = some file_stat; readable = true }

-- the expected hash in upper case
abbrev expected : Text
expected = repeated 64 b'A'

passes :
    intake world copying none (codes "B-1") (codes "/in/p.txt") expected
    ≡ (ok tt, some (codes "hi"))
unfolding intake checked checked_usage is_safe_task_id in_range is_sha256 is_hex lower strip
    is_space is_empty checked_source ensure_safe_directory_chain is_real_directory
    is_link_or_reparse is_real_file size_of is_prompt_size text_eq copied create_copy written_copy
    verified
passes = refl

intake-Copied_example : Copied world copying none (some (codes "hi")) expected
intake-Copied_example =
    intake-Copied world copying none (some (codes "hi")) (codes "B-1") (codes "/in/p.txt") expected
      passes

-- another process creates the target behind the test
abbrev overtaken : Copying
overtaken = record {
  appears = some (codes "old");
  write = written;
  target_stat = some file_stat;
  readable = true;
}

intake_keeps_example :
    ((label : Label) × (checked world (codes "B-1") (codes "/in/p.txt") expected ≡ stop label)
      × (intake world overtaken none (codes "B-1") (codes "/in/p.txt") expected
          ≡ (stop label, none)))
    ⊎ (intake world overtaken none (codes "B-1") (codes "/in/p.txt") expected
        ≡ (stop target_exists, some (codes "old")))
intake_keeps_example =
    intake_keeps world overtaken none (codes "old") (codes "B-1") (codes "/in/p.txt") expected
      (inr (refl, refl))
