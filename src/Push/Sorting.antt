-- ===== src/Push/Sorting.antt =====
-- scripts/governance_preflight.py: what the operations of a push are when two kinds of them are
-- missing.
use mathlib.Core.List.{cons≢nil}
use hh_ai_v.Base.{
  ◌≡◌, sym, ap, ◌∙◌, ◌⊎◌, inl, inr, true, false, List, [], ◌∷◌, arith, Either, ok, ok-injective,
  >>=-eq-ok, Bool-cases, All,
}
use hh_ai_v.Push.Authorization.{Problem}
use hh_ai_v.Push.Updates.{
  Update, is_main, is_delete, Operations, with_main, with_deletion, with_ordinary, add_update,
  operations_of,
}

-- an update of main, the deletion of another branch, or neither
unfoldable pub Advance : Update → Type 0
Advance up = (is_main up ≡ true) × (is_delete up ≡ false)

unfoldable pub Deletion : Update → Type 0
Deletion up = (is_main up ≡ false) × (is_delete up ≡ true)

unfoldable pub Ordinary : Update → Type 0
Ordinary up = (is_main up ≡ false) × (is_delete up ≡ false)

add_update-cases :
    (up : Update) (o : Operations) {o2 : Operations}
    → add_update up o ≡ ok o2
    → (Advance up × (with_main up o ≡ o2))
      ⊎ (Deletion up × (with_deletion up o ≡ o2))
      ⊎ (Ordinary up × (with_ordinary up o ≡ o2))
unfolding add_update Advance Deletion Ordinary
add_update-cases up o {o2} h = elim (Bool-cases (is_main up)) [
  | inl m ↦ elim (Bool-cases (is_delete up)) [
    | inl d ↦ absurd (ground (arith, m, d))
    | inr d ↦
        let same : ◌≡◌ {A = Either Problem Operations} (ok (with_main up o)) (ok o2) =
          ground (arith, m, d) in
        inl ((m, d), ok-injective same)
  ]
  | inr m ↦ elim (Bool-cases (is_delete up)) [
    | inl d ↦
        let same : ◌≡◌ {A = Either Problem Operations} (ok (with_deletion up o)) (ok o2) =
          ground (arith, m, d) in
        inr (inl ((m, d), ok-injective same))
    | inr d ↦
        let same : ◌≡◌ {A = Either Problem Operations} (ok (with_ordinary up o)) (ok o2) =
          ground (arith, m, d) in
        inr (inr ((m, d), ok-injective same))
  ]
]

pub calm_only :
    (ups : List Update) {o : Operations}
    → operations_of ups ≡ ok o
    → o.main_updates ≡ []
    → o.remote_deletions ≡ []
    → All Ordinary ups
unfolding operations_of
calm_only [] h m d = tt
calm_only (up ∷ ups) {o} h m d =
    let (o1, h1, added) = >>=-eq-ok (operations_of ups) _ h in
    elim (add_update-cases up o1 added) [
      | inl (a, same) ↦ absurd (cons≢nil (ap (λ x. x.main_updates) same ∙ m))
      | inr (inl (a, same)) ↦ absurd (cons≢nil (ap (λ x. x.remote_deletions) same ∙ d))
      | inr (inr (a, same)) ↦ (
        a,
        calm_only ups h1 (ap (λ x. x.main_updates) same ∙ m)
            (ap (λ x. x.remote_deletions) same ∙ d),
      )
    ]

pub deletions_only :
    (ups : List Update) {o : Operations}
    → operations_of ups ≡ ok o
    → o.main_updates ≡ []
    → o.ordinary_updates ≡ []
    → All Deletion ups × (o.remote_deletions ≡ ups)
unfolding operations_of
deletions_only [] h m d = (tt, sym (ap (λ x. x.remote_deletions) (ok-injective h)))
deletions_only (up ∷ ups) {o} h m d =
    let (o1, h1, added) = >>=-eq-ok (operations_of ups) _ h in
    elim (add_update-cases up o1 added) [
      | inl (a, same) ↦ absurd (cons≢nil (ap (λ x. x.main_updates) same ∙ m))
      | inr (inl (a, same)) ↦
          let (more, rest) =
            deletions_only ups h1 (ap (λ x. x.main_updates) same ∙ m)
              (ap (λ x. x.ordinary_updates) same ∙ d) in
          ((a, more), sym (ap (λ x. x.remote_deletions) same) ∙ ap (λ x. up ∷ x) rest)
      | inr (inr (a, same)) ↦ absurd (cons≢nil (ap (λ x. x.ordinary_updates) same ∙ d))
    ]

pub mains_only :
    (ups : List Update) {o : Operations}
    → operations_of ups ≡ ok o
    → o.remote_deletions ≡ []
    → o.ordinary_updates ≡ []
    → All Advance ups × (o.main_updates ≡ ups)
unfolding operations_of
mains_only [] h m d = (tt, sym (ap (λ x. x.main_updates) (ok-injective h)))
mains_only (up ∷ ups) {o} h m d =
    let (o1, h1, added) = >>=-eq-ok (operations_of ups) _ h in
    elim (add_update-cases up o1 added) [
      | inl (a, same) ↦
          let (more, rest) =
            mains_only ups h1 (ap (λ x. x.remote_deletions) same ∙ m)
              (ap (λ x. x.ordinary_updates) same ∙ d) in
          ((a, more), sym (ap (λ x. x.main_updates) same) ∙ ap (λ x. up ∷ x) rest)
      | inr (inl (a, same)) ↦ absurd (cons≢nil (ap (λ x. x.remote_deletions) same ∙ m))
      | inr (inr (a, same)) ↦ absurd (cons≢nil (ap (λ x. x.ordinary_updates) same ∙ d))
    ]
