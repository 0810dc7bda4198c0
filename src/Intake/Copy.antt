-- ===== src/Intake/Copy.antt =====
-- scripts/prompt_intake.py: the exclusive creation of the target and its verification.
use hh_ai_v.Base.{ℕ, Bool, Text, text_eq, Option, none, some, List, Either, ok, stop, ◌>>◌, require}
use hh_ai_v.Intake.Checks.{
  Label, target_exists, copy_verify_failed, Stat, is_real_file, World, checked,
}

-- the target file: none, or its bytes
abbrev pub Target : Type 0
Target = Option (List ℕ)

-- how the write of the new file comes back; an OSError leaves some file or none
pub data Write : Type 0 where
  written : Write
  write_error : Target → Write

-- What the copy meets: a file that another process puts there between the test and the creation, the
-- write, `lstat` of the target behind it, and whether it can be read.
pub record Copying : Type 0 where
  pub appears : Target
  pub write : Write
  pub target_stat : Option Stat
  pub readable : Bool

-- the verification of the bytes that stand in the target
unfoldable pub verified : World → Copying → Text → List ℕ → Either Label (Unit {0})
verified w c expected bytes = do
  require (is_real_file c.target_stat) copy_verify_failed
  require c.readable copy_verify_failed
  require (text_eq (w.sha256_hex bytes) expected) copy_verify_failed

-- what follows the creation of the file
unfoldable pub written_copy :
    World → Copying → Text → List ℕ → Write → Either Label (Unit {0}) × Target
written_copy w c expected bytes written = (verified w c expected bytes, some bytes)
written_copy w c expected bytes (write_error left) = (stop copy_verify_failed, left)

-- `open(target, "xb")` on what stands there
unfoldable pub create_copy :
    World → Copying → Text → List ℕ → Target → Either Label (Unit {0}) × Target
create_copy w c expected bytes none = written_copy w c expected bytes c.write
create_copy w c expected bytes (some other) = (stop target_exists, some other)

-- the test of the target, and the copy where it is free
unfoldable pub copied : World → Copying → Target → Text × List ℕ → Either Label (Unit {0}) × Target
copied w c (some old) source = (stop target_exists, some old)
copied w c none (expected, bytes) = create_copy w c expected bytes c.appears

-- `intake`: its outcome, and the target behind it
unfoldable pub intake :
    World → Copying → Target → Text → Text → Text → Either Label (Unit {0}) × Target
intake w c target task_id source expected_sha256 = elim (checked w task_id source expected_sha256) [
  | stop label ↦ (stop label, target)
  | ok found ↦ copied w c target found
]
