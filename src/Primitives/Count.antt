-- ===== src/Primitives/Count.antt =====
-- scripts/verification_primitives.py: `cmd_count`.
use hh_ai_v.Base.{
  ℕ, ◌==◌, Bool, true, false, not, Text, Option, none, some, List, [], ◌∷◌, Either, ok, ◌>>=◌, ◌>>◌,
  require, ℤ, if◌then◌else◌, starts_with, count_text, crlf_to_lf,
}
use hh_ai_v.Primitives.Report.{
  Reason, file_read_error, needle_has_bom, utf8_decode_error, empty_needle, Status, report, pass,
  candidate_invalid, World, or_unable,
}

pub record CountArguments : Type 0 where
  pub target : Text
  pub needle_file : Text
  pub expect : Option ℤ

pub record Counted : Type 0 where
  pub count : ℕ
  pub status : Status
  pub target_sha256 : Text

-- the text without one line end at its end
unfoldable pub drop_line_end : Text → Text
drop_line_end [] = []
drop_line_end (c ∷ []) = if c == 10 then [] else c ∷ []
drop_line_end (c ∷ (d ∷ [])) = if d == 10 then (if c == 13 then [] else c ∷ []) else c ∷ (d ∷ [])
drop_line_end (c ∷ (d ∷ (e ∷ cs))) = c ∷ drop_line_end (d ∷ (e ∷ cs))

unfoldable pub has_bom : List ℕ → Bool
has_bom bytes = starts_with bytes (239 ∷ (187 ∷ (191 ∷ [])))

unfoldable pub is_empty : Text → Bool
is_empty [] = true
is_empty (_ ∷ _) = false

-- `match_count == args.expect`
unfoldable pub is_count_of : ℕ → ℤ → Bool
is_count_of n (ℤ.pos m) = n == m
is_count_of n (ℤ.negsuc m) = false

unfoldable pub count_status : ℕ → Option ℤ → Status
count_status n none = report
count_status n (some expected) = if is_count_of n expected then pass else candidate_invalid

-- `match_count`
unfoldable pub match_count : Text → Text → ℕ
match_count target needle = count_text (crlf_to_lf needle) (crlf_to_lf target)

unfoldable pub counted : World → CountArguments → List ℕ → Text → Text → Counted
counted w a target_bytes target needle = record {
  count = match_count target needle;
  status = count_status (match_count target needle) a.expect;
  target_sha256 = w.sha256_hex target_bytes;
}

unfoldable pub count : World → CountArguments → Either Reason Counted
count w a = do
  target_bytes ← or_unable (w.read_bytes a.target) file_read_error
  needle_bytes ← or_unable (w.read_bytes a.needle_file) file_read_error
  require (not (has_bom needle_bytes)) needle_has_bom
  target ← or_unable (w.decode target_bytes) utf8_decode_error
  needle_text ← or_unable (w.decode needle_bytes) utf8_decode_error
  require (not (is_empty (drop_line_end needle_text))) empty_needle
  ok (counted w a target_bytes target (drop_line_end needle_text))
