-- ===== src/Prelude/Outcome.antt =====
-- A call that may raise: the exception that it raises, or its value.
use mathlib.Core.Path.{◌≡◌, refl}
use native.Mathlib.Omega.{arith}
use testudo.Prelude.Tests.{if◌then◌else◌}
use mathlib.Core.Logic.{◌⊎◌, inl, inr}
use mathlib.Core.Bool.{Bool, true, false}

pub data Result {ε ℓ} (E : Type ε) (A : Type ℓ) : Type (ε ⊔ ℓ) where
  err : E → Result E A
  ok : A → Result E A

module _ {ε ℓ κ} {E : Type ε} {A : Type ℓ} {B : Type κ} where
  infixl 5 ◌>>=◌
  abbrev pub ◌>>=◌ : Result E A → (A → Result E B) → Result E B
  ◌>>=◌ (err raised) rest = err raised
  ◌>>=◌ (ok value) rest = rest value

module _ {ε} {E : Type ε} where
  -- `if b: raise e`
  abbrev pub raise_if : Bool → E → Result E (Unit {0})
  raise_if false e = ok tt
  raise_if true e = err e

module _ {ε κ} {E : Type ε} {B : Type κ} where
  infixl 5 ◌>>◌
  abbrev pub ◌>>◌ : Result E (Unit {0}) → Result E B → Result E B
  ◌>>◌ check rest = ◌>>=◌ check (λ _. rest)

  -- Inversion of a check that a call passed.
  pub raise_if-eq-ok :
      (b : Bool) (e : E) (k : Result E B) {a : B}
      → (raise_if b e >> k) ≡ ok a
      → (b ≡ false) × (k ≡ ok a)
  raise_if-eq-ok true e k h = cc
  raise_if-eq-ok false e k h = (refl, h)

module _ {ε ℓ} {E : Type ε} {A : Type ℓ} where
  pub ok-injective : {a b : A} → ◌≡◌ {A = Result E A} (ok a) (ok b) → a ≡ b
  ok-injective p = ground arith

  pub Result-cases : (r : Result E A) → ((e : E) × (r ≡ err e)) ⊎ ((a : A) × (r ≡ ok a))
  Result-cases (err e) = inl (e, refl)
  Result-cases (ok a) = inr (a, refl)

-- Inversion of a chain that returned.
module _ {ε ℓ κ} {E : Type ε} {A : Type ℓ} {B : Type κ} where
  pub bind-ok :
      (r : Result E A) (rest : A → Result E B) (b : B)
      → (r >>= rest) ≡ ok b
      → (a : A) × (r ≡ ok a) × (rest a ≡ ok b)
  bind-ok (ok a) rest b returned = (a, refl, returned)
  bind-ok (err e) rest b returned = cc

  -- A step that cannot raise passes on what was raised before it.
  pub bind_ok-err : (r : Result E A) (f : A → B) (e : E) → (r >>= λ a. ok (f a)) ≡ err e → r ≡ err e
  bind_ok-err (ok a) f e raised = cc
  bind_ok-err (err x) f e raised = ground arith

module _ {ε κ} {E : Type ε} {B : Type κ} where
  pub if_err-ok :
      (b : Bool) (e : E) (r : Result E B) {a : B}
      → (if b then err e else r) ≡ ok a
      → (b ≡ false) × (r ≡ ok a)
  if_err-ok true e r h = cc
  if_err-ok false e r h = (refl, h)
