-- ===== src/Base/Results.antt =====
-- A Go function that returns `(value, error)`: the value or the error, with `do`.
use mathlib.Core.Bool.{Bool, true, false}
use mathlib.Core.Path.{◌≡◌, refl, ap}
use mathlib.Core.Logic.{◌⊎◌, inl, inr}

pub data Result {ℓ κ} (E : Type κ) (A : Type ℓ) : Type (ℓ ⊔ κ) where
  ok : A → Result E A
  err : E → Result E A

module _ {ℓ κ ι} {E : Type ι} {A : Type ℓ} {B : Type κ} where
  infixl 5 ◌>>=◌
  abbrev pub ◌>>=◌ : Result E A → (A → Result E B) → Result E B
  ok a >>= f = f a
  err e >>= f = err e

module _ {κ ι} {E : Type ι} {B : Type κ} where
  infixl 5 ◌>>◌
  abbrev pub ◌>>◌ : Result E (Unit {0}) → Result E B → Result E B
  m >> k = m >>= λ _. k

-- `if !test { return err }`
abbrev pub check {ι} : {E : Type ι} → Bool → E → Result E (Unit {0})
check true e = ok tt
check false e = err e

module _ {ℓ κ ι} {E : Type ι} {A : Type ℓ} {B : Type κ} where
  -- A chain that gives a value has a first call that gives one.
  pub bind-ok :
      (r : Result E A) (k : A → Result E B) (b : B)
      → (r >>= k) ≡ ok b
      → (a : A) × (r ≡ ok a) × (k a ≡ ok b)
  bind-ok (ok a) k b h = (a, refl, h)
  bind-ok (err e) k b h = cc

pub check-ok :
    {E : Type 0} {B : Type 0} (t : Bool) (e : E) (r : Result E B) (b : B)
    → (check t e >> r) ≡ ok b
    → (t ≡ true) × (r ≡ ok b)
check-ok true e r b h = (refl, h)
check-ok false e r b h = cc

module _ {ℓ ι} {E : Type ι} {A : Type ℓ} where
  -- To split on a computed result and keep the equation.
  pub Result-cases : (r : Result E A) → ((a : A) × (r ≡ ok a)) ⊎ ((e : E) × (r ≡ err e))
  Result-cases (ok a) = inl (a, refl)
  Result-cases (err e) = inr (e, refl)

module _ {ℓ ι} {E : Type ι} {A : Type ℓ} where
  pub ok-same : (a b : A) → ◌≡◌ {A = Result E A} (ok a) (ok b) → a ≡ b
  ok-same a b h = ap (λ x. elim x [ ok c ↦ c | err e ↦ a ]) h
