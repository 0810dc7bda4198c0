-- ===== src/Primitives/Tests.antt =====
-- Runs of the commands of scripts/verification_primitives.py, and the theorems at them.
use hh_ai_v.Base.{
  lower, ℕ, zero, suc, ◌≡◌, ◌≤◌, ◌↔◌, refl, true, Text, text_eq, Option, none, some, List, [], ◌∷◌,
  ok, codes, if◌then◌else◌, ℤ, is_oid, is_hex, in_range, starts_with, count_text, count_from,
  crlf_to_lf, split_on,
}
use hh_ai_v.Primitives.{
  pass, exited, World, is_64_hex, is_expectation, CountArguments, Counted, has_bom, is_empty,
  drop_line_end, is_count_of, count_status, match_count, counted, count, DigestArguments, Digested,
  is_met, digest_status, digested, sha256, DiffArguments, Diffed, worktree, output_of, paths_of,
  diff_status, diffed, git_diff_digest,
}
use hh_ai_v.Primitives.Occurrences.{Disjoint, no_more, skipped, hit, match_count-largest}
use hh_ai_v.Primitives.Platforms.{
  lf_to_crlf, no_cr, count_verdict, lf_verdict, count-platforms, sha256-platforms,
}
use hh_ai_v.Primitives.Passes.{CountPass, count-pass_iff, DigestPass, sha256-DigestPass}
use hh_ai_v.Primitives.DiffPasses.{DiffPass, git_diff_digest-DiffPass}

abbrev repeated : ℕ → ℕ → Text
repeated zero c = []
repeated (suc n) c = c ∷ repeated n c

-- a hash, which a number of bytes decides
abbrev hash : List ℕ → Text
hash bytes = repeated 64 (if text_eq bytes (codes "a\nb\na\n") then b'1' else b'2')

abbrev files : Text → Option (List ℕ)
files name =
    if text_eq name (codes "unix")
    then some (codes "a\nb\na\n")
    else if text_eq name (codes "windows")
    then some (codes "a\r\nb\r\na\r\n")
    else if text_eq name (codes "needle")
    then some (codes "a\r\n")
    else none

abbrev world : World
world = record {
  read_bytes = files;
  decode = some;
  sha256_hex = hash;
  git = λ n command. exited (ℤ.pos 0) (codes "a\nb\na\n");
  decode_path = λ path. path;
}

abbrev count_arguments : CountArguments
count_arguments = record {
  target = codes "unix";
  needle_file = codes "needle";
  expect = some (ℤ.pos 2);
}

abbrev digest_arguments : DigestArguments
digest_arguments = record {
  file = codes "unix";
  expect_raw = none;
  expect_lf = some (repeated 64 b'1');
}

abbrev diff_arguments : DiffArguments
diff_arguments = record {
  repo_root = codes ".";
  base = repeated 40 b'a';
  mode = worktree;
  expect = some (repeated 64 b'1');
}

abbrev counted_result : Counted
counted_result = record { count = 2; status = pass; target_sha256 = repeated 64 b'1' }

abbrev digest_result : Digested
digest_result = record {
  sha256_raw = repeated 64 b'1';
  sha256_lf = repeated 64 b'1';
  status = pass;
}

abbrev diff_result : Diffed
diff_result = record {
  diff_sha256 = repeated 64 b'1';
  changed_paths = codes "a\nb\na\n" ∷ [];
  untracked_paths = codes "a\nb\na\n" ∷ [];
  status = pass;
}

count_passes : count world count_arguments ≡ ok counted_result
unfolding count text_eq has_bom starts_with is_empty drop_line_end counted match_count count_text
    count_from crlf_to_lf count_status is_count_of
count_passes = refl

sha256_passes : sha256 world digest_arguments ≡ ok digest_result
unfolding sha256 text_eq is_expectation is_64_hex is_hex in_range digested crlf_to_lf digest_status
    is_met lower
sha256_passes = refl

diff_passes : git_diff_digest world diff_arguments ≡ ok diff_result
unfolding git_diff_digest text_eq is_expectation is_64_hex is_oid is_hex in_range output_of diffed
    paths_of split_on is_empty diff_status lower
diff_passes = refl

count-pass_iff_example :
    ((r : Counted) × (count world count_arguments ≡ ok r) × (r.status ≡ pass))
    ↔ CountPass world count_arguments
count-pass_iff_example = count-pass_iff world count_arguments

sha256-DigestPass_example : DigestPass world digest_arguments digest_result
sha256-DigestPass_example =
    sha256-DigestPass world digest_arguments digest_result sha256_passes refl

git_diff_digest-DiffPass_example : DiffPass world diff_arguments
git_diff_digest-DiffPass_example =
    git_diff_digest-DiffPass world diff_arguments diff_result diff_passes refl

no_cr_text : no_cr (codes "a\nb\na\n") ≡ true
unfolding no_cr
no_cr_text = refl

unix_read : files (codes "unix") ≡ some (codes "a\nb\na\n")
unfolding text_eq
unix_read = refl

windows_read : files (codes "windows") ≡ some (lf_to_crlf (codes "a\nb\na\n"))
unfolding text_eq lf_to_crlf
windows_read = refl

count-platforms_example :
    count_verdict (
      count world (record {
        target = codes "windows";
        needle_file = codes "needle";
        expect = some (ℤ.pos 2);
      }))
    ≡ count_verdict (count world count_arguments)
count-platforms_example =
    count-platforms world count_arguments (codes "windows") (codes "a\nb\na\n")
      (lf_to_crlf (codes "a\nb\na\n")) (codes "a\nb\na\n") no_cr_text unix_read refl windows_read
      refl

sha256-platforms_example :
    lf_verdict (
      sha256 world
        (record { file = codes "windows"; expect_raw = none; expect_lf = some (repeated 64 b'1') }))
    ≡ lf_verdict (sha256 world digest_arguments)
sha256-platforms_example =
    sha256-platforms world digest_arguments (codes "windows") (codes "a\nb\na\n") no_cr_text refl
      unix_read windows_read

needle_lines : crlf_to_lf (codes "a") ≡ codes "a"
unfolding crlf_to_lf
needle_lines = refl

two_hits : Disjoint (codes "a") 2 (crlf_to_lf (codes "aXa"))
unfolding crlf_to_lf
two_hits = hit {text = codes "Xa"} (skipped b'X' (hit {text = []} no_more))

match_count-largest_example :
    Disjoint (codes "a") (match_count (codes "aXa") (codes "a")) (crlf_to_lf (codes "aXa"))
    × (2 ≤ match_count (codes "aXa") (codes "a"))
match_count-largest_example =
    match_count-largest (codes "aXa") (codes "a") b'a' [] 2 needle_lines two_hits
