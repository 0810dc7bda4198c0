-- ===== src/History/Ledger/Conversion.antt =====
-- scripts/history_guard.py: what the conversion pattern matches, against a description of the two
-- formats of a converted line.
use mathlib.Core.List.{cons≢nil}
use mathlib.Core.Option.{none-ne-some}
use hh_ai_v.Base.{
  ◌≡◌, refl, ap, ◌∙◌, ◌≢◌, ◌↔◌, inl, inr, true, Text, some, [], ◌∷◌, ◌++◌, arith, ◌==◌, text_eq_iff,
  strip_prefix?, strip_prefix?-append, append-strip_prefix?, Bool-cases, Option-cases, All,
}
use hh_ai_v.History.Ledger.{
  close_paren, semicolon, note_char, after_note_tail, after_note, converted_head, converted_rest,
  is_conversion,
}

-- a note of at least one character, with no bracket and no line feed
pub IsNote : Text → Type 0
IsNote note = (note ≢ []) × All (λ c. note_char c ≡ true) note

after_note_tail-some :
    (text rest : Text)
    → after_note_tail text ≡ some rest
    → (note : Text) × All (λ c. note_char c ≡ true) note × (text ≡ note ++ (close_paren ∷ rest))
unfolding after_note_tail
after_note_tail-some [] rest h = absurd (none-ne-some rest h)
after_note_tail-some (c ∷ cs) rest h = elim (Bool-cases (c == close_paren)) [
  | inl closed ↦ ([], tt, ground arith)
  | inr more ↦ elim (Bool-cases (note_char c)) [
    | inl plain ↦
        let (note, ok, e) = after_note_tail-some cs rest (ground arith) in
        (c ∷ note, (plain, ok), ap (◌∷◌ c) e)
    | inr other ↦ absurd (none-ne-some rest (ground arith))
  ]
]

after_note_tail_total :
    (note rest : Text)
    → All (λ c. note_char c ≡ true) note
    → after_note_tail (note ++ (close_paren ∷ rest)) ≡ some rest
unfolding after_note_tail note_char
after_note_tail_total [] rest h = refl
after_note_tail_total (c ∷ note) rest h = ground (arith, after_note_tail_total note rest h.1)

after_note_iff :
    (text rest : Text)
    → (after_note text ≡ some rest)
      ↔ ((note : Text) × IsNote note × (text ≡ note ++ (close_paren ∷ rest)))
unfolding after_note IsNote
after_note_iff text rest = (sound text, complete)
  where
    sound :
        (t : Text)
        → after_note t ≡ some rest
        → (note : Text) × IsNote note × (t ≡ note ++ (close_paren ∷ rest))
    sound [] h = absurd (none-ne-some rest h)
    sound (c ∷ cs) h = elim (Bool-cases (note_char c)) [
      | inl plain ↦
          let (note, ok, e) = after_note_tail-some cs rest (ground arith) in
          (c ∷ note, (cons≢nil, (plain, ok)), ap (◌∷◌ c) e)
      | inr other ↦ absurd (none-ne-some rest (ground arith))
    ]

    by_note : (note : Text) → IsNote note → after_note (note ++ (close_paren ∷ rest)) ≡ some rest
    by_note [] n = absurd (n.0 refl)
    by_note (c ∷ note) n = ground (arith, after_note_tail_total note rest n.1.1)

    complete :
        (note : Text) × IsNote note × (text ≡ note ++ (close_paren ∷ rest))
        → after_note text ≡ some rest
    complete (note, n, e) = rw e (by_note note n)

-- The two formats of a converted line: the commit and the task in brackets, with or without a note
-- behind a semicolon, between the unchanged texts before and behind the placeholder.
pub data IsConverted (before behind base_oid task line : Text) : Type 0 where
  plain :
      line ≡ converted_head before base_oid task ++ (close_paren ∷ behind)
      → IsConverted before behind base_oid task line
  noted :
      (note : Text)
      → IsNote note
      → line ≡ converted_head before base_oid task ++ (semicolon ∷ (note ++ (close_paren ∷ behind)))
      → IsConverted before behind base_oid task line

data IsTail (behind rest : Text) : Type 0 where
  plain : rest ≡ close_paren ∷ behind → IsTail behind rest
  noted :
      (note : Text)
      → IsNote note
      → rest ≡ semicolon ∷ (note ++ (close_paren ∷ behind))
      → IsTail behind rest

converted_rest-IsTail :
    (behind rest : Text) → converted_rest behind rest ≡ true → IsTail behind rest
unfolding converted_rest
converted_rest-IsTail behind [] h = cc
converted_rest-IsTail behind (c ∷ cs) h = elim (Bool-cases (c == close_paren)) [
  | inl closed ↦ IsTail.plain (ground (arith, text_eq_iff cs behind))
  | inr more ↦ elim (Option-cases (after_note cs)) [
    | inl no_note ↦ absurd (ground arith)
    | inr (rest, e) ↦
        let (note, n, s) = (after_note_iff cs rest).0 e in
        IsTail.noted note n (ground (arith, s, text_eq_iff rest behind))
  ]
]

IsTail-converted_rest :
    (behind rest : Text) → IsTail behind rest → converted_rest behind rest ≡ true
unfolding converted_rest
IsTail-converted_rest behind rest (IsTail.plain e) = rw e ((text_eq_iff behind behind).1 refl)
IsTail-converted_rest behind rest (IsTail.noted note n e) = rw e (
    rw ((after_note_iff (note ++ (close_paren ∷ behind)) behind).1 (note, n, refl))
      ((text_eq_iff behind behind).1 refl))

-- The pattern of a converted line matches exactly the lines with the commit in back quotes and the
-- task in full-width brackets, alone or with a semicolon and a note behind it, between the text that
-- stood before the placeholder and the text that stood behind it.
pub is_conversion_iff :
    (before behind base_oid task line : Text)
    → (is_conversion before behind base_oid task line ≡ true)
      ↔ IsConverted before behind base_oid task line
unfolding is_conversion
is_conversion_iff before behind base_oid task line = (sound, complete)
  where
    head : Text
    head = converted_head before base_oid task

    of_tail :
        (rest : Text)
        → line ≡ head ++ rest
        → IsTail behind rest
        → IsConverted before behind base_oid task line
    of_tail rest e (IsTail.plain p) = IsConverted.plain (e ∙ ap (◌++◌ head) p)
    of_tail rest e (IsTail.noted note n p) = IsConverted.noted note n (e ∙ ap (◌++◌ head) p)

    sound :
        is_conversion before behind base_oid task line ≡ true
        → IsConverted before behind base_oid task line
    sound h = elim (Option-cases (strip_prefix? head line)) [
      | inl e ↦ absurd (ground arith)
      | inr (rest, e) ↦
          of_tail rest (append-strip_prefix? head line rest e)
            (converted_rest-IsTail behind rest (ground arith))
    ]

    by_tail :
        (rest : Text)
        → line ≡ head ++ rest
        → IsTail behind rest
        → is_conversion before behind base_oid task line ≡ true
    by_tail rest e t =
        rw e
          (rw (strip_prefix?-append head rest, is_conversion) (IsTail-converted_rest behind rest t))

    complete :
        IsConverted before behind base_oid task line
        → is_conversion before behind base_oid task line ≡ true
    complete (IsConverted.plain e) = by_tail _ e (IsTail.plain refl)
    complete (IsConverted.noted note n e) = by_tail _ e (IsTail.noted note n refl)
