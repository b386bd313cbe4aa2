-- ===== src/Prelude/Results.antt =====
-- A Go function that returns `(value, error)`: an `err` carries the error and no value.
use mathlib.Core.Path.{◌≡◌, refl}
use mathlib.Core.Logic.{◌⊎◌, inl, inr}
use mathlib.Core.Bool.{Bool, true, false}

pub data Result {ℓ κ} (E : Type ℓ) (A : Type κ) : Type (ℓ ⊔ κ) where
  ok : A → Result E A
  err : E → Result E A

module _ {ℓ} {E : Type ℓ} where
  infixl 5 ◌>>=◌ ◌>>◌
  abbrev pub ◌>>=◌ {κ μ} : {A : Type κ} {B : Type μ} → Result E A → (A → Result E B) → Result E B
  ok a >>= f = f a
  err e >>= f = err e

  abbrev pub ◌>>◌ {μ} : {B : Type μ} → Result E (Unit {0}) → Result E B → Result E B
  m >> k = m >>= λ _. k

  -- `if bad { return err }`
  abbrev pub reject_if : Bool → E → Result E (Unit {0})
  reject_if true e = err e
  reject_if false e = ok tt

  -- Inversion of a successful `x, err := r; if err != nil { return err }; k x`.
  pub >>=-eq-ok {κ μ} :
      {A : Type κ} {B : Type μ} (r : Result E A) (k : A → Result E B) {out : B}
      → (r >>= k) ≡ ok out
      → (x : A) × (r ≡ ok x) × (k x ≡ ok out)
  >>=-eq-ok (err failure) k stopped = cc
  >>=-eq-ok (ok x) k returned = (x, refl, returned)

  -- Inversion of a successful `if bad { return err }; k`.
  pub reject_if-eq-ok {μ} :
      {B : Type μ} (bad : Bool) (e : E) (k : Result E B) {b : B}
      → (reject_if bad e >> k) ≡ ok b
      → (bad ≡ false) × (k ≡ ok b)
  reject_if-eq-ok true e k h = cc
  reject_if-eq-ok false e k h = (refl, h)

  pub ok-injective {κ} : {A : Type κ} {a b : A} → ◌≡◌ {A = Result E A} (ok a) (ok b) → a ≡ b
  ok-injective h = cc

  pub Result-cases {κ} :
      {A : Type κ} (r : Result E A) → ((a : A) × (r ≡ ok a)) ⊎ ((e : E) × (r ≡ err e))
  Result-cases (ok a) = inl (a, refl)
  Result-cases (err e) = inr (e, refl)

  pub ok≢err {κ} : {A : Type κ} {a : A} {e : E} → ◌≡◌ {A = Result E A} (ok a) (err e) → ⊥
  ok≢err h = cc
