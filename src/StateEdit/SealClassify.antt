-- ===== src/StateEdit/SealClassify.antt =====
-- scripts/state_edit.py: what `classify` makes of the entries that `seal` has written.
use mathlib.Core.Path.{subst, ap₂}
use hh_ai_v.Base.{
  is_sha256, ok, >>=-eq-ok, require-eq-ok, ok-injective, ◌≡◌, refl, sym, ◌≢◌, inl, inr, true, false,
  not, Text, some, List, [], ◌∷◌, text_eq, text_eq_iff, text_eq_refl, All, Bool-cases,
}
use hh_ai_v.StateEdit.Ops.{run_ops}
use hh_ai_v.StateEdit.Checks.{
  Bytes, Files, Entry, World, source, clean_text, check_result, check_ops, target_of, read_target,
}
use hh_ai_v.StateEdit.Apply.{
  Step, changed_step, classify_data, classify_entry, classify_entries, paths_of,
}
use hh_ai_v.StateEdit.Outcome.{classify_entries-ok}
use hh_ai_v.StateEdit.Seal.{Request, seal_request, seal_requests}
use hh_ai_v.StateEdit.Sorted.{request_paths}

-- an entry with two hashes, as a file and its other content have them
unfoldable pub IsChange : Entry → Type 0
IsChange entry = entry.before_sha256 ≢ entry.after_sha256

text_eq-apart : (a b : Text) → a ≢ b → text_eq a b ≡ false
text_eq-apart a b apart = elim (Bool-cases (text_eq a b)) [
  | inl same ↦ absurd (apart ((text_eq_iff a b).0 same))
  | inr differs ↦ differs
]

module _ (w : World) (files : Files)
    (well_formed : (d : Bytes) → is_sha256 (w.sha256 d) ≡ true) where
  classified :
      (r : Request) (d : Bytes) (text changed : Text) {u v c : Unit {0}}
      → check_ops r.ops ≡ ok u
      → target_of w r.path ≡ ok v
      → read_target files r.path ≡ ok d
      → clean_text w d source ≡ ok text
      → run_ops text r.ops ≡ ok changed
      → check_result w text (w.encode changed) ≡ ok c
      → text_eq (w.sha256 d) (w.sha256 (w.encode changed)) ≡ false
      → classify_entry w files (record {
        path = r.path;
        before_sha256 = w.sha256 d;
        after_sha256 = w.sha256 (w.encode changed);
        ops = r.ops;
      })
        ≡ ok (r.path, some (w.encode changed))
  unfolding classify_entry classify_data changed_step
  classified r d text changed ops target read clean run check apart = rw (well_formed d) (
      rw (well_formed (w.encode changed)) (
        rw apart (
          rw ops (
            rw target (
              rw read (
                rw apart (
                  rw (text_eq_refl (w.sha256 d)) (
                    rw clean (
                      rw run
                        (rw (text_eq_refl (w.sha256 (w.encode changed))) (rw check refl)))))))))))

  -- what a sealed entry is to the file that it was made from
  seal_request-classify :
      (r : Request) {entry : Entry}
      → seal_request w files r ≡ ok entry
      → IsChange entry
      → (entry.path ≡ r.path) × (s : Step) × (classify_entry w files entry ≡ ok s)
  unfolding seal_request IsChange
  seal_request-classify r {entry} h change =
      let (u, ops, h1) = >>=-eq-ok (check_ops r.ops) _ h in
      let (v, target, h2) = >>=-eq-ok (target_of w r.path) _ h1 in
      let (d, read, h3) = >>=-eq-ok (read_target files r.path) _ h2 in
      let (text, clean, h4) = >>=-eq-ok (clean_text w d source) _ h3 in
      let (changed, run, h5) = >>=-eq-ok (run_ops text r.ops) _ h4 in
      let (c, check, h6) = >>=-eq-ok (check_result w text (w.encode changed)) _ h5 in
      let (differs, h7) = require-eq-ok (not (text_eq (w.encode changed) d)) _ _ h6 in
      let apart =
        text_eq-apart (w.sha256 d) (w.sha256 (w.encode changed))
          (subst (λ e. e.before_sha256 ≢ e.after_sha256) (sym (ok-injective h7)) change) in
      subst (λ e. (e.path ≡ r.path) × (s : Step) × (classify_entry w files e ≡ ok s))
        (ok-injective h7)
        (
          refl,
          (r.path, some (w.encode changed)),
          classified r d text changed ops target read clean run check apart,
        )

  pub seal_requests-classify :
      (rs : List Request) {entries : List Entry}
      → seal_requests w files rs ≡ ok entries
      → All IsChange entries
      → (paths_of entries ≡ request_paths rs)
        × (steps : List Step) × (classify_entries w files entries ≡ ok steps)
  unfolding seal_requests
  seal_requests-classify [] h changes =
      subst
        (λ es. (paths_of es ≡ []) × (steps : List Step) × (classify_entries w files es ≡ ok steps))
        (ok-injective h) (refl, [], unfold classify_entries in refl)
  seal_requests-classify (r ∷ rs) h changes =
      let (e, one, h1) = >>=-eq-ok (seal_request w files r) _ h in
      let (es, more, h2) = >>=-eq-ok (seal_requests w files rs) _ h1 in
      let (change, others) = subst (All IsChange) (sym (ok-injective h2)) changes in
      let (path, s, first) = seal_request-classify r one change in
      let (paths, ss, rest) = seal_requests-classify rs more others in
      subst
        (λ l.
          (paths_of l ≡ request_paths (r ∷ rs))
          × (steps : List Step) × (classify_entries w files l ≡ ok steps))
        (ok-injective h2) (ap₂ ◌∷◌ path paths, s ∷ ss, classify_entries-ok w files e es first rest)
