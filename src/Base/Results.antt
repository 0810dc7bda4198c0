-- ===== src/Base/Results.antt =====
-- A value, or the error that stops the computation: an exception as a value.
use mathlib.Core.Path.{◌≡◌, refl, ap}
use mathlib.Core.Bool.{Bool, true, false}
use mathlib.Core.Logic.{◌⊎◌, inl, inr}

pub data Either {ε ℓ} (E : Type ε) (A : Type ℓ) : Type (ε ⊔ ℓ) where
  stop : E → Either E A
  ok : A → Either E A

module _ {ε} {E : Type ε} where
  infixl 5 ◌>>=◌ ◌>>◌
  abbrev pub ◌>>=◌ {ℓ κ} : {A : Type ℓ} {B : Type κ} → Either E A → (A → Either E B) → Either E B
  stop e >>= next = stop e
  ok a >>= next = next a

  abbrev pub ◌>>◌ {κ} : {B : Type κ} → Either E (Unit {0}) → Either E B → Either E B
  check >> next = check >>= (λ passed. next)

  -- raises the error unless the condition holds
  abbrev pub require : Bool → E → Either E (Unit {0})
  require condition error = elim condition [ true ↦ ok tt | false ↦ stop error ]

  pub Result-cases {ℓ} :
      {A : Type ℓ} (r : Either E A) → ((e : E) × (r ≡ stop e)) ⊎ ((a : A) × (r ≡ ok a))
  Result-cases (stop e) = inl (e, refl)
  Result-cases (ok a) = inr (a, refl)

  pub ok-injective {ℓ} : {A : Type ℓ} {x y : A} → ◌≡◌ {A = Either E A} (ok x) (ok y) → x ≡ y
  ok-injective h = cc

  pub require-eq-ok {κ} :
      {B : Type κ} (condition : Bool) (error : E) (next : Either E B) {y : B}
      → (require condition error >> next) ≡ ok y
      → (condition ≡ true) × (next ≡ ok y)
  require-eq-ok false error next h = cc
  require-eq-ok true error next h = (refl, h)

  -- A chain that ends in a value has one at its first link.
  pub >>=-eq-ok {ℓ κ} :
      {A : Type ℓ} {B : Type κ} (first : Either E A) (next : A → Either E B) {y : B}
      → (first >>= next) ≡ ok y
      → (x : A) × (first ≡ ok x) × (next x ≡ ok y)
  >>=-eq-ok (stop e) next h = cc
  >>=-eq-ok (ok x) next h = (x, refl, h)

  pub stop-injective {ℓ} : {A : Type ℓ} {x y : E} → ◌≡◌ {A = Either E A} (stop x) (stop y) → x ≡ y
  stop-injective h = cc

  -- A chain that stops has stopped at its first link or behind it.
  pub >>=-eq-stop {ℓ κ} :
      {A : Type ℓ} {B : Type κ} (first : Either E A) (next : A → Either E B) {e : E}
      → (first >>= next) ≡ stop e
      → (first ≡ stop e) ⊎ ((x : A) × (first ≡ ok x) × (next x ≡ stop e))
  >>=-eq-stop (stop e) next h = inl (ap stop (stop-injective h))
  >>=-eq-stop (ok x) next h = inr (x, refl, h)
