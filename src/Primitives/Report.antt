-- ===== src/Primitives/Report.antt =====
-- scripts/verification_primitives.py: what the commands report, and what they ask for.
use hh_ai_v.Base.{
  ℕ, ◌==◌, Bool, true, ◌&&◌, ◌||◌, Text, Option, none, some, List, all, in_range, is_hex, length,
  Either, ok, stop, ℤ,
}

-- the reasons of `emit_unable`
pub data Reason : Type 0 where
  file_read_error needle_has_bom utf8_decode_error empty_needle invalid_expect : Reason
  invalid_base git_exec_error git_timeout base_not_found git_nonzero_exit : Reason

pub data Status : Type 0 where
  report pass candidate_invalid : Status

-- How `subprocess.run` comes back: the return code with what was printed, FileNotFoundError,
-- TimeoutExpired or another exception.
pub data GitRun : Type 0 where
  exited : ℤ → List ℕ → GitRun
  not_found timed_out other_exception : GitRun

-- What stands outside: the bytes of a file (`none` for any exception), the UTF-8 codec, the hash in
-- hex, the runs of git by their number, and the decoding with surrogate escapes.
pub record World : Type 0 where
  pub read_bytes : Text → Option (List ℕ)
  pub decode : List ℕ → Option Text
  pub sha256_hex : List ℕ → Text
  pub git : ℕ → List Text → GitRun
  pub decode_path : List ℕ → Text

-- the value, or `emit_unable`
abbrev pub or_unable {ℓ} : {A : Type ℓ} → Option A → Reason → Either Reason A
or_unable none reason = stop reason
or_unable (some a) reason = ok a

-- the exit code, the second value beside each status
unfoldable pub exit_code : Status → ℕ
exit_code report = 0
exit_code pass = 0
exit_code candidate_invalid = 1

-- `_is_64_hex`
unfoldable pub is_64_hex : Text → Bool
is_64_hex text = length text == 64 && all (λ c. is_hex c || in_range b'A' b'F' c) text

-- no expectation, or one in the right form
unfoldable pub is_expectation : Option Text → Bool
is_expectation none = true
is_expectation (some text) = is_64_hex text
