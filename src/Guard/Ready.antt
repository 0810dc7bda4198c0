-- ===== src/Guard/Ready.antt =====
-- scripts/c9_base_guard.py: when `classify` reports READY.
use hh_ai_v.Base.{
  is_oid, ℕ, ◌+◌, ◌≡◌, refl, ap, ◌∙◌, ◌↔◌, Bool, true, ◌&&◌, Text, List, [], ◌∷◌, arith, ok,
  ok-injective, >>=-eq-ok, require-eq-ok, codes, text_eq, text_eq_iff, text_eq_refl, split_on,
  splitlines, &&-eq-true,
}
use hh_ai_v.Guard.Git.{Git, remote_main_invalid}
use hh_ai_v.Guard.Classify.{Reason, Report, ask, decide, only_line, remote_oid, is_empty, classify}

-- The worktree is at Base, clean, and so is what origin has, by the answers from query `n` on.
pub record AtBase (git : Git) (n : ℕ) (workspace : Bool) (base : Text) : Type 0 where
  pub base_is_oid : is_oid base ≡ true
  pub is_workspace : workspace ≡ true
  pub is_full : ask git n ("rev-parse" ∷ "--is-shallow-repository" ∷ []) ≡ ok (codes "false")
  pub head : ask git (n + 1) ("rev-parse" ∷ "--verify" ∷ "HEAD^{commit}" ∷ []) ≡ ok base
  pub local_main :
      ask git (n + 2) ("rev-parse" ∷ "--verify" ∷ "refs/remotes/origin/main" ∷ []) ≡ ok base
  pub branch : Text
  pub on_branch : ask git (n + 3) ("branch" ∷ "--show-current" ∷ []) ≡ ok branch
  pub is_clean :
      ask git (n + 4) ("status" ∷ "--porcelain=v1" ∷ "--untracked-files=all" ∷ []) ≡ ok []
  pub listed : Text
  pub line : Text
  pub on_origin : ask git (n + 5) ("ls-remote" ∷ "origin" ∷ "refs/heads/main" ∷ []) ≡ ok listed
  pub one_line : splitlines listed ≡ line ∷ []
  pub two_parts : split_on 9 line ≡ base ∷ codes "refs/heads/main" ∷ []

decide-ready :
    (base head local_main branch dirty remote : Text)
    → (decide base head local_main branch dirty remote).ready ≡ true
    → (remote ≡ base) × (local_main ≡ base) × (dirty ≡ []) × (head ≡ base)
unfolding decide
decide-ready base head local_main branch [] remote h =
    let a : text_eq remote base ≡ true = ground arith in
    let b : text_eq local_main base ≡ true = ground arith in
    let c : text_eq head base ≡ true = ground arith in
    (
      (text_eq_iff remote base).0 a,
      (text_eq_iff local_main base).0 b,
      refl,
      (text_eq_iff head base).0 c,
    )
decide-ready base head local_main branch (d ∷ dirty) remote h = absurd (ground arith)

only_line-eq-ok : (lines : List Text) {l : Text} → only_line lines ≡ ok l → lines ≡ l ∷ []
unfolding only_line
only_line-eq-ok [] h = absurd (ground arith)
only_line-eq-ok (x ∷ []) h = ap (λ y. y ∷ []) (ok-injective h)
only_line-eq-ok (x ∷ (y ∷ lines)) h = absurd (ground arith)

remote_oid-eq-ok :
    (parts : List Text) {oid : Text}
    → remote_oid parts ≡ ok oid
    → parts ≡ oid ∷ codes "refs/heads/main" ∷ []
unfolding remote_oid
remote_oid-eq-ok [] h = absurd (ground arith)
remote_oid-eq-ok (x ∷ []) h = absurd (ground arith)
remote_oid-eq-ok (x ∷ (y ∷ [])) {oid} h =
    let (both, k) =
      require-eq-ok (is_oid x && text_eq y (codes "refs/heads/main")) remote_main_invalid (ok x)
        h in
    let (a, b) = &&-eq-true (is_oid x) (text_eq y (codes "refs/heads/main")) both in
    let name = (text_eq_iff y (codes "refs/heads/main")).0 b in
    ap (λ z. z ∷ y ∷ []) (ok-injective k) ∙ ap (λ z. oid ∷ z ∷ []) name
remote_oid-eq-ok (x ∷ (y ∷ (z ∷ parts))) h = absurd (ground arith)

pub classify-AtBase :
    (git : Git) (n : ℕ) (workspace : Bool) (base : Text) {r : Report}
    → classify git n workspace base ≡ ok r
    → r.ready ≡ true
    → AtBase git n workspace base
unfolding classify
classify-AtBase git n workspace base h ready =
    let (base_ok, h1) = require-eq-ok (is_oid base) _ _ h in
    let (is_dir, h2) = require-eq-ok workspace _ _ h1 in
    let (shallow, q0, h3) =
      >>=-eq-ok (ask git n ("rev-parse" ∷ "--is-shallow-repository" ∷ [])) _ h2 in
    let (full, h4) = require-eq-ok (text_eq shallow (codes "false")) _ _ h3 in
    let (head, q1, h5) =
      >>=-eq-ok (ask git (n + 1) ("rev-parse" ∷ "--verify" ∷ "HEAD^{commit}" ∷ [])) _ h4 in
    let (local_main, q2, h6) =
      >>=-eq-ok (ask git (n + 2) ("rev-parse" ∷ "--verify" ∷ "refs/remotes/origin/main" ∷ [])) _
        h5 in
    let (branch, q3, h7) = >>=-eq-ok (ask git (n + 3) ("branch" ∷ "--show-current" ∷ [])) _ h6 in
    let (dirty, q4, h8) =
      >>=-eq-ok (ask git (n + 4) ("status" ∷ "--porcelain=v1" ∷ "--untracked-files=all" ∷ [])) _
        h7 in
    let (oids, h9) = require-eq-ok (is_oid head && is_oid local_main) _ _ h8 in
    let (listed, q5, h10) =
      >>=-eq-ok (ask git (n + 5) ("ls-remote" ∷ "origin" ∷ "refs/heads/main" ∷ [])) _ h9 in
    let (line, one, h11) = >>=-eq-ok (only_line (splitlines listed)) _ h10 in
    let (remote, two, h12) = >>=-eq-ok (remote_oid (split_on 9 line)) _ h11 in
    let (at_remote, at_main, clean, at_head) =
      decide-ready base head local_main branch dirty remote
        (ap (λ x. x.ready) (ok-injective h12) ∙ ready) in
    record {
      base_is_oid = base_ok;
      is_workspace = is_dir;
      is_full = q0 ∙ ap ok ((text_eq_iff shallow (codes "false")).0 full);
      head = q1 ∙ ap ok at_head;
      local_main = q2 ∙ ap ok at_main;
      branch = branch;
      on_branch = q3;
      is_clean = q4 ∙ ap ok clean;
      listed = listed;
      line = line;
      on_origin = q5;
      one_line = only_line-eq-ok (splitlines listed) one;
      two_parts =
          remote_oid-eq-ok (split_on 9 line) two
          ∙ ap (λ x. x ∷ codes "refs/heads/main" ∷ []) at_remote;
    }

pub AtBase-classify :
    (git : Git) (n : ℕ) (workspace : Bool) (base : Text)
    → AtBase git n workspace base
    → (r : Report) × (classify git n workspace base ≡ ok r) × (r.ready ≡ true)
unfolding classify only_line remote_oid decide text_eq is_empty
AtBase-classify git n workspace base a = (
  record {
    ready = true;
    reason = Reason.at_base;
    head = base;
    branch = a.branch;
    remote_main = base;
  },
  rw a.base_is_oid (
      rw a.is_workspace (
        rw a.is_full (
          rw a.head (
            rw a.local_main (
              rw a.on_branch (
                rw a.is_clean (
                  rw a.base_is_oid (
                    rw a.on_origin (
                      rw a.one_line
                        (rw a.two_parts (rw a.base_is_oid (rw (text_eq_refl base) refl)))))))))))),
  refl,
)

-- `classify` reports READY exactly when the answers of git put the worktree at Base: the Base oid is
-- well formed, the path is a directory, the history is full, HEAD, origin/main and the main branch
-- that origin lists are Base, and the status is empty.
pub classify-ready_iff :
    (git : Git) (n : ℕ) (workspace : Bool) (base : Text)
    → ((r : Report) × (classify git n workspace base ≡ ok r) × (r.ready ≡ true))
      ↔ AtBase git n workspace base
classify-ready_iff git n workspace base =
    (λ h. classify-AtBase git n workspace base h.1 h.2, AtBase-classify git n workspace base)
