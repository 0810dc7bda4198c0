-- ===== src/Primitives/Digest.antt =====
-- scripts/verification_primitives.py: `cmd_sha256`.
use hh_ai_v.Base.{
  lower, Bool, true, ◌&&◌, Text, text_eq, Option, none, some, List, ℕ, Either, ok, ◌>>=◌, ◌>>◌,
  require, if◌then◌else◌, is_none, crlf_to_lf,
}
use hh_ai_v.Primitives.Report.{
  Reason, file_read_error, invalid_expect, Status, report, pass, candidate_invalid, World,
  or_unable, is_expectation,
}

pub record DigestArguments : Type 0 where
  pub file : Text
  pub expect_raw : Option Text
  pub expect_lf : Option Text

pub record Digested : Type 0 where
  pub sha256_raw : Text
  pub sha256_lf : Text
  pub status : Status

-- `(expected is None) or (expected.lower() == digest)`
unfoldable pub is_met : Option Text → Text → Bool
is_met none digest = true
is_met (some expected) digest = text_eq (lower expected) digest

unfoldable pub digest_status : DigestArguments → Text → Text → Status
digest_status a raw lf =
    if is_none a.expect_raw && is_none a.expect_lf
    then report
    else if is_met a.expect_raw raw && is_met a.expect_lf lf
    then pass
    else candidate_invalid

unfoldable pub digested : World → DigestArguments → List ℕ → Digested
digested w a raw_bytes =
    let raw = w.sha256_hex raw_bytes in
    let lf = w.sha256_hex (crlf_to_lf raw_bytes) in
    record { sha256_raw = raw; sha256_lf = lf; status = digest_status a raw lf }

unfoldable pub sha256 : World → DigestArguments → Either Reason Digested
sha256 w a = do
  require (is_expectation a.expect_raw) invalid_expect
  require (is_expectation a.expect_lf) invalid_expect
  raw_bytes ← or_unable (w.read_bytes a.file) file_read_error
  ok (digested w a raw_bytes)
