-- ===== src/Gate/Lines.antt =====
-- scripts/gate_runner.py: which lines of a log are markers of a run, and which are not.
use hh_ai_v.Base.{
  ℕ, ◌+◌, ◌≤◌, ◌≡◌, refl, ◌∙◌, Text, Bool, true, false, not, ◌&&◌, List, [], ◌∷◌, ◌++◌, arith,
  codes, decimal, leb, ◌==◌, length, text_eq, text_eq-append, text_eq_refl, starts_with,
  starts_with-append, ends_with, ends_with-append, no_newline, join_with, length-append,
}
use hh_ai_v.Gate.Format.{
  Stage, precommit, staged, postcommit, stages, Command, display, run_prefix, marker, run_header,
  gate_tail, gate_header, complete_marker, failed_tail, failed_marker,
}
use hh_ai_v.Gate.Run.{is_start}
use hh_ai_v.Gate.Verify.{is_failed_marker, is_end_marker}

-- What a gate's command must not do to the log: hold a line feed, or end its header like a run's.
unfoldable pub is_clean : ℕ → Command → Bool
is_clean i cmd =
    no_newline (display cmd)
    && not (ends_with (gate_tail i cmd) (codes " START ==="))
    && not (ends_with (failed_tail i) (codes " START ==="))
    && leb 10 (length (gate_tail i cmd))
    && leb 10 (length (failed_tail i))

unfoldable pub are_clean : ℕ → List Command → Bool
are_clean i [] = true
are_clean i (cmd ∷ gates) = is_clean i cmd && are_clean (i + 1) gates

-- The gates of every stage are clean.
pub stages_clean : (s : Stage) → are_clean 1 (stages s) ≡ true
unfolding are_clean is_clean stages gate_tail failed_tail display ends_with no_newline decimal
    text_eq join_with
stages_clean precommit = refl
stages_clean staged = refl
stages_clean postcommit = refl

-- A line that does not begin with `=` is no marker.
abbrev pub is_plain : Text → Bool
is_plain [] = true
is_plain (c ∷ cs) = not (c == 61)

module _ (s : Stage) where
  pub is_start_plain : (line : Text) → is_plain line ≡ true → is_start s line ≡ false
  unfolding is_start starts_with run_prefix
  is_start_plain [] h = refl
  is_start_plain (c ∷ cs) h = ground arith

  ends_with-marker :
      (n : ℕ) (tail suffix : Text)
      → length suffix ≤ length tail
      → ends_with (marker s n tail) suffix ≡ ends_with tail suffix
  unfolding marker
  ends_with-marker n tail suffix h =
      ends_with-append (run_prefix s) (decimal n ++ tail) suffix
        (omega (arith, length-append {0} (decimal n) tail))
      ∙ ends_with-append (decimal n) tail suffix h

  pub is_start-marker :
      (n : ℕ) (tail : Text)
      → ends_with tail (codes " START ===") ≡ false
      → 10 ≤ length tail
      → is_start s (marker s n tail) ≡ false
  unfolding is_start
  is_start-marker n tail h long = ground (arith, ends_with-marker n tail (codes " START ===") long)

  starts_with-marker : (n : ℕ) (tail : Text) → starts_with (marker s n tail) (run_prefix s) ≡ true
  unfolding marker
  starts_with-marker n tail = starts_with-append (run_prefix s) (decimal n ++ tail)

  start_suffix : ends_with (codes " START ===") (codes " START ===") ≡ true
  unfolding ends_with text_eq
  start_suffix = refl

  pub is_start-run_header : (n : ℕ) → is_start s (run_header s n) ≡ true
  unfolding is_start run_header
  is_start-run_header n = cc (
    ends_with-marker n (codes " START ===") (codes " START ===") (omega arith),
    starts_with-marker n (codes " START ==="),
    start_suffix,
  )

  module _ (n : ℕ) where
    not_failed_plain :
        (i : ℕ) (gates : List Command) (line : Text)
        → is_plain line ≡ true
        → is_failed_marker s n i gates line ≡ false
    unfolding is_failed_marker failed_marker marker run_prefix text_eq
    not_failed_plain i [] line h = refl
    not_failed_plain i (g ∷ gates) [] h = not_failed_plain (i + 1) gates [] h
    not_failed_plain i (g ∷ gates) (c ∷ cs) h =
        ground (arith, not_failed_plain (i + 1) gates (c ∷ cs) h)

    pub not_end_plain :
        (gates : List Command) (line : Text)
        → is_plain line ≡ true
        → is_end_marker s n gates line ≡ false
    unfolding is_end_marker complete_marker marker run_prefix text_eq
    not_end_plain gates [] h = not_failed_plain 1 gates [] h
    not_end_plain gates (c ∷ cs) h = ground (arith, not_failed_plain 1 gates (c ∷ cs) h)

    text_eq-marker : (a b : Text) → text_eq (marker s n a) (marker s n b) ≡ text_eq a b
    unfolding marker
    text_eq-marker a b = text_eq-append (run_prefix s) _ _ ∙ text_eq-append (decimal n) a b

    gate_tail_not_failed :
        (k : ℕ) (cmd : Command) (i : ℕ) → text_eq (gate_tail k cmd) (failed_tail i) ≡ false
    unfolding gate_tail failed_tail text_eq
    gate_tail_not_failed k cmd i = refl

    header_not_failed :
        (k : ℕ) (cmd : Command) (i : ℕ) (gates : List Command)
        → is_failed_marker s n i gates (gate_header s n k cmd) ≡ false
    unfolding is_failed_marker failed_marker gate_header
    header_not_failed k cmd i [] = refl
    header_not_failed k cmd i (g ∷ gates) =
        rw (text_eq-marker (gate_tail k cmd) (failed_tail i))
          (rw (gate_tail_not_failed k cmd i) (header_not_failed k cmd (i + 1) gates))

    pub header_not_end :
        (k : ℕ) (cmd : Command) (gates : List Command)
        → is_end_marker s n gates (gate_header s n k cmd) ≡ false
    unfolding is_end_marker gate_header complete_marker gate_tail text_eq
    header_not_end k cmd gates =
        rw (text_eq-marker (gate_tail k cmd) (codes " COMPLETE ==="))
          (header_not_failed k cmd 1 gates)

    pub complete_is_end :
        (gates : List Command) → is_end_marker s n gates (complete_marker s n) ≡ true
    unfolding is_end_marker
    complete_is_end gates = rw (text_eq_refl (complete_marker s n)) refl
