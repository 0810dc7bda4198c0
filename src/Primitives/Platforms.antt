-- ===== src/Primitives/Platforms.antt =====
-- scripts/verification_primitives.py: what the line ends of a file do to a report.
use hh_ai_v.Base.{
  ℕ, ◌==◌, ◌≡◌, refl, sym, ap, ◌∙◌, Bool, true, false, not, all, inl, inr, Text, none, some, List,
  [], ◌∷◌, arith, Either, ok, stop, if◌then◌else◌, crlf_to_lf, &&-eq-true, Bool-cases,
}
use hh_ai_v.Primitives.{
  Reason, Status, World, CountArguments, Counted, match_count, counted, count, DigestArguments,
  Digested, is_met, digest_status, digested, sha256,
}

-- the text with each LF written as CRLF
unfoldable pub lf_to_crlf : Text → Text
lf_to_crlf [] = []
lf_to_crlf (c ∷ cs) = let rest = lf_to_crlf cs in if c == 10 then 13 ∷ (10 ∷ rest) else c ∷ rest

unfoldable pub no_cr : Text → Bool
no_cr text = all (λ c. not (c == 13)) text

crlf_to_lf_other : (c : ℕ) (cs : Text) → (c == 13) ≡ false → crlf_to_lf (c ∷ cs) ≡ c ∷ crlf_to_lf cs
unfolding crlf_to_lf
crlf_to_lf_other c [] h = refl
crlf_to_lf_other c (d ∷ cs) h = ground (arith, h)

crlf_to_lf_keeps : (t : Text) → no_cr t ≡ true → crlf_to_lf t ≡ t
unfolding no_cr crlf_to_lf
crlf_to_lf_keeps [] h = refl
crlf_to_lf_keeps (c ∷ cs) h =
    let (head, tail) = &&-eq-true (not (c == 13)) (no_cr cs) h in
    crlf_to_lf_other c cs (ground (arith, head)) ∙ ap (λ x. c ∷ x) (crlf_to_lf_keeps cs tail)

crlf_to_lf_pair : (cs : Text) → crlf_to_lf (13 ∷ (10 ∷ cs)) ≡ 10 ∷ crlf_to_lf cs
unfolding crlf_to_lf
crlf_to_lf_pair cs = refl

lf_to_crlf_line :
    (c : ℕ) (cs : Text) → (c == 10) ≡ true → lf_to_crlf (c ∷ cs) ≡ 13 ∷ (10 ∷ lf_to_crlf cs)
unfolding lf_to_crlf
lf_to_crlf_line c cs h = ground (arith, h)

lf_to_crlf_other : (c : ℕ) (cs : Text) → (c == 10) ≡ false → lf_to_crlf (c ∷ cs) ≡ c ∷ lf_to_crlf cs
unfolding lf_to_crlf
lf_to_crlf_other c cs h = ground (arith, h)

crlf_to_lf-lf_to_crlf : (t : Text) → no_cr t ≡ true → crlf_to_lf (lf_to_crlf t) ≡ t
unfolding no_cr
crlf_to_lf-lf_to_crlf [] h = unfold lf_to_crlf crlf_to_lf in refl
crlf_to_lf-lf_to_crlf (c ∷ cs) h =
    let (head, tail) = &&-eq-true (not (c == 13)) (no_cr cs) h in
    let more = crlf_to_lf-lf_to_crlf cs tail in
    elim (Bool-cases (c == 10)) [
      | inl e ↦
          ap crlf_to_lf (lf_to_crlf_line c cs e)
          ∙ crlf_to_lf_pair (lf_to_crlf cs)
          ∙ ground (arith, more, e)
      | inr e ↦
          ap crlf_to_lf (lf_to_crlf_other c cs e)
          ∙ crlf_to_lf_other c (lf_to_crlf cs) (ground (arith, head))
          ∙ ap (λ x. c ∷ x) more
    ]

-- a file in its two forms: the same text without a CR, and with CRLF for each LF
same_lf : (t : Text) → no_cr t ≡ true → crlf_to_lf (lf_to_crlf t) ≡ crlf_to_lf t
same_lf t h = crlf_to_lf-lf_to_crlf t h ∙ sym (crlf_to_lf_keeps t h)

-- the count and the status, without the hash of the raw bytes
abbrev pub count_verdict : Either Reason Counted → Either Reason (ℕ × Status)
count_verdict (stop reason) = stop reason
count_verdict (ok r) = ok (r.count, r.status)

-- the hash of the normalised bytes and the status
abbrev pub lf_verdict : Either Reason Digested → Either Reason (Text × Status)
lf_verdict (stop reason) = stop reason
lf_verdict (ok r) = ok (r.sha256_lf, r.status)

-- Two targets whose texts differ only in their line ends, LF in one and CRLF in the other, have the
-- same count and the same status, whatever the needle.
pub count-platforms :
    (w : World) (a : CountArguments) (windows : Text) (x y : List ℕ) (t : Text)
    → no_cr t ≡ true
    → w.read_bytes a.target ≡ some x
    → w.decode x ≡ some t
    → w.read_bytes windows ≡ some y
    → w.decode y ≡ some (lf_to_crlf t)
    → count_verdict
        (count w (record { target = windows; needle_file = a.needle_file; expect = a.expect }))
      ≡ count_verdict (count w a)
unfolding count counted match_count
count-platforms w a windows x y t h read text read_windows text_windows =
    let same = same_lf t h in ground (arith, same, read, text, read_windows, text_windows)

-- Two files whose bytes differ only in their line ends, LF in one and CRLF in the other, have the
-- same normalised hash, and the same status where no raw hash is expected.
pub sha256-platforms :
    (w : World) (a : DigestArguments) (windows : Text) (x : List ℕ)
    → no_cr x ≡ true
    → a.expect_raw ≡ none
    → w.read_bytes a.file ≡ some x
    → w.read_bytes windows ≡ some (lf_to_crlf x)
    → lf_verdict
        (sha256 w (record { file = windows; expect_raw = a.expect_raw; expect_lf = a.expect_lf }))
      ≡ lf_verdict (sha256 w a)
unfolding sha256 digested digest_status is_met
sha256-platforms w a windows x h no_raw read read_windows =
    let same = same_lf x h in ground (arith, same, no_raw, read, read_windows)
