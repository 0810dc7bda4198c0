-- ===== src/Push/Words.antt =====
-- scripts/governance_preflight.py: how a line of four words is read.
use mathlib.Core.List.{append_assoc}
use hh_ai_v.Base.{
  ◌≡◌, refl, ap, ◌∙◌, true, false, Text, codes, List, [], ◌∷◌, ◌++◌, arith, ok, is_space, strip,
  is_solid, strip_solid, lower,
}
use hh_ai_v.Push.Updates.{words, Update, update_of, is_blank, updates_of, main_ref}
use hh_ai_v.Push.Verify.{main_line}

is_space_32 : is_space 32 ≡ true
unfolding is_space
is_space_32 = refl

words_gap : (rest : Text) → words (32 ∷ rest) ≡ words rest
unfolding words is_space
words_gap [] = refl
words_gap (c ∷ rest) = refl

words-solid : (w rest : Text) → is_solid w ≡ true → words (w ++ (32 ∷ rest)) ≡ w ∷ words rest
unfolding is_solid words
words-solid [] rest h = absurd (ground arith)
words-solid (c ∷ []) rest h = let gap = words_gap rest in ground (arith, h, gap, is_space_32)
words-solid (c ∷ (d ∷ w)) rest h =
    let more = words-solid (d ∷ w) rest (ground (arith, h)) in ground (arith, h, more)

words_last : (w : Text) → is_solid w ≡ true → words w ≡ w ∷ []
unfolding is_solid words
words_last [] h = absurd (ground arith)
words_last (c ∷ []) h = ground (arith, h)
words_last (c ∷ (d ∷ w)) h =
    let more = words_last (d ∷ w) (ground (arith, h)) in ground (arith, h, more)

-- the four words with one space between them
four : Text → Text → Text → Text → Text
four a b c d = a ++ (32 ∷ (b ++ (32 ∷ (c ++ (32 ∷ d)))))

words-four :
    (a b c d : Text)
    → is_solid a ≡ true
    → is_solid b ≡ true
    → is_solid c ≡ true
    → is_solid d ≡ true
    → words (four a b c d) ≡ a ∷ (b ∷ (c ∷ (d ∷ [])))
unfolding four
words-four a b c d sa sb sc sd =
    words-solid a (b ++ (32 ∷ (c ++ (32 ∷ d)))) sa
    ∙ ap (λ x. a ∷ x)
        (words-solid b (c ++ (32 ∷ d)) sb
          ∙ ap (λ x. b ∷ x) (words-solid c d sc ∙ ap (λ x. c ∷ x) (words_last d sd)))

main_line-four : (new remote : Text) → main_line new remote ≡ four main_ref new main_ref remote
unfolding main_line four
main_line-four new remote =
    append_assoc ((codes "refs/heads/main ") ++ new) (codes " refs/heads/main ") remote
    ∙ append_assoc (codes "refs/heads/main ") new (codes " refs/heads/main " ++ remote)

is_solid_main : is_solid main_ref ≡ true
unfolding is_solid is_space
is_solid_main = refl

-- what `verify_and_consume_main_advancement` asks for
abbrev pub main_update : Text → Text → Update
main_update new remote = record {
  local_ref = main_ref;
  local_sha = lower new;
  remote_ref = main_ref;
  remote_sha = lower remote;
}

strip-main_line :
    (new remote : Text)
    → is_solid remote ≡ true
    → strip (main_line new remote) ≡ main_line new remote
unfolding main_line
strip-main_line new remote h =
    strip_solid b'r' ((codes "efs/heads/main " ++ new) ++ codes " refs/heads/main ") remote
      (unfold is_space in refl) h

line-update :
    (raw : Text) (up : Update) (parts : List Text)
    → is_blank (strip raw) ≡ false
    → words (strip raw) ≡ parts
    → update_of parts ≡ ok up
    → updates_of (raw ∷ []) ≡ ok (up ∷ [])
unfolding updates_of
line-update raw up parts h e u = ground (arith, h, e, u)

pub updates_of-main_line :
    (new remote : Text)
    → is_solid new ≡ true
    → is_solid remote ≡ true
    → updates_of (main_line new remote ∷ []) ≡ ok (main_update new remote ∷ [])
unfolding update_of is_blank main_line
updates_of-main_line new remote sn sr =
    let line = strip-main_line new remote sr in
    line-update (main_line new remote) (main_update new remote)
      (main_ref ∷ (new ∷ (main_ref ∷ (remote ∷ [])))) (ap is_blank line)
      (ap words line
        ∙ ap words (main_line-four new remote)
        ∙ words-four main_ref new main_ref remote is_solid_main sn is_solid_main sr)
      refl
