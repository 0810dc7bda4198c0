-- ===== src/Ci/Bounds.antt =====
-- scripts/verification_primitives.py: how many attempts `ci-status` makes, and what a stop reports.
use mathlib.Core.Path.{subst}
use hh_ai_v.Base.{
  ℕ, zero, suc, ◌+◌, ◌≤◌, ◌≡◌, refl, ap, inl, inr, Option, none, some, List, [], ◌∷◌, arith, Either,
  ok, stop, ok-injective, stop-injective, >>=-eq-ok, >>=-eq-stop, codes, Bool-cases,
}
use hh_ai_v.Json.{Json, null, Fields}
use hh_ai_v.Ci.Transport.{get_body}
use hh_ai_v.Ci.Poll.{
  Arguments, invalid_response, http_failure, unable, Query, runs_of, World, Result, no_run, or_stop,
  get_json, list_at, matching_runs, is_completed, picked, attempt_runs, next_attempt, poll,
}
use hh_ai_v.Ci.Green.{next_attempt-cases}

-- a stop at this attempt: UNABLE, after so many attempts
abbrev pub StopsAt : ℕ → Result → Type 0
StopsAt n r = (r.attempts_used ≡ n) × (r.status ≡ unable)

pub or_stop-StopsAt {ℓ} :
    {A : Type ℓ} (o : Option A) (s : Result) (n : ℕ) {r : Result}
    → or_stop o s ≡ stop r
    → StopsAt n s
    → StopsAt n r
or_stop-StopsAt none s n h e = subst (StopsAt n) (stop-injective h) e
or_stop-StopsAt (some x) s n h e = absurd (ground arith)

pub get_json-StopsAt :
    (w : World) (a : Arguments) (q : Query) (n : ℕ) (id : Json) {r : Result}
    → get_json w a q n id ≡ stop r
    → StopsAt n r
unfolding get_json
get_json-StopsAt w a q n id h =
    elim (>>=-eq-stop (or_stop (get_body (w.serve a q) 0 3) (no_run http_failure n id)) _ h) [
      | inl s ↦ or_stop-StopsAt _ _ n s (refl, refl)
      | inr (body, b, h1) ↦
          elim (>>=-eq-stop (or_stop (w.loads body) (no_run invalid_response n id)) _ h1) [
            | inl s ↦ or_stop-StopsAt _ _ n s (refl, refl)
            | inr (data_json, d, h2) ↦ or_stop-StopsAt _ _ n h2 (refl, refl)
          ]
    ]

picked-StopsAt : (n : ℕ) (runs : List Fields) {r : Result} → picked n runs ≡ stop r → StopsAt n r
unfolding picked
picked-StopsAt n [] h = absurd (ground arith)
picked-StopsAt n (x ∷ []) h = absurd (ground arith)
picked-StopsAt n (x ∷ (y ∷ runs)) h = subst (StopsAt n) (stop-injective h) (refl, refl)

attempt_runs-StopsAt :
    (w : World) (a : Arguments) (n : ℕ) {r : Result} → attempt_runs w a n ≡ stop r → StopsAt n r
unfolding attempt_runs
attempt_runs-StopsAt w a n h = elim (>>=-eq-stop (get_json w a (runs_of n) n null) _ h) [
  | inl s ↦ get_json-StopsAt w a (runs_of n) n null s
  | inr (answer, e, h1) ↦
      elim (>>=-eq-stop
        (or_stop (list_at (codes "workflow_runs") answer) (no_run invalid_response n null)) _ h1) [
          | inl s ↦ or_stop-StopsAt _ _ n s (refl, refl)
          | inr (runs, l, h2) ↦ picked-StopsAt n (matching_runs a runs) h2
        ]
]

-- a number of attempts after `n` of them and with `left` more allowed
abbrev pub Used : ℕ → ℕ → ℕ → Type 0
Used n left m = (n ≤ m) × (m ≤ n + left)

next_attempt-stop :
    (n : ℕ) (run : Option Fields) (rest : Either Result (ℕ × Option Fields)) {r : Result}
    → next_attempt n run rest ≡ stop r
    → rest ≡ stop r
unfolding next_attempt
next_attempt-stop n none rest h = h
next_attempt-stop n (some run) rest {r} h = elim (Bool-cases (is_completed run)) [
  | inl e ↦ absurd (ground (arith, e))
  | inr e ↦ ground (arith, e)
]

module _ (w : World) (a : Arguments) where
  pub poll-Used :
      (n left : ℕ) (selected : Option Fields) {m : ℕ} {o : Option Fields}
      → poll w a n left selected ≡ ok (m, o)
      → Used n left m
  unfolding poll
  poll-Used n zero selected {m} {o} h =
      let same : n ≡ m = ap (λ p. p.0) (ok-injective h) in
      (omega (arith, same), omega (arith, same))
  poll-Used n (suc left) selected {m} {o} h =
      let (run, r, k) = >>=-eq-ok (attempt_runs w a (n + 1)) _ h in
      elim (next_attempt-cases (n + 1) run _ k) [
        | inl more ↦
            let (low, high) = poll-Used (n + 1) left run {m = m} {o = o} more in
            (omega (arith, low), omega (arith, high))
        | inr ended ↦
            let same : n + 1 ≡ m = ap (λ p. p.0) ended in (omega (arith, same), omega (arith, same))
      ]

  pub poll-started :
      (left : ℕ) (selected : Option Fields) {m : ℕ} {o : Option Fields}
      → poll w a 0 (suc left) selected ≡ ok (m, o)
      → 1 ≤ m
  unfolding poll
  poll-started left selected {m} {o} h =
      let (run, r, k) = >>=-eq-ok (attempt_runs w a (0 + 1)) _ h in
      elim (next_attempt-cases (0 + 1) run _ k) [
        | inl more ↦ (poll-Used (0 + 1) left run {m = m} {o = o} more).0
        | inr ended ↦ let same : 0 + 1 ≡ m = ap (λ p. p.0) ended in omega (arith, same)
      ]

  pub poll-stop :
      (n left : ℕ) (selected : Option Fields) {r : Result}
      → poll w a n left selected ≡ stop r
      → (n + 1 ≤ r.attempts_used) × (r.attempts_used ≤ n + left) × (r.status ≡ unable)
  unfolding poll
  poll-stop n zero selected h = absurd (ground arith)
  poll-stop n (suc left) selected h = elim (>>=-eq-stop (attempt_runs w a (n + 1)) _ h) [
    | inl s ↦
        let (same, status) = attempt_runs-StopsAt w a (n + 1) s in
        (omega (arith, same), omega (arith, same), status)
    | inr (run, e, k) ↦
        let (low, high, status) = poll-stop (n + 1) left run (next_attempt-stop (n + 1) run _ k) in
        (omega (arith, low), omega (arith, high), status)
  ]
