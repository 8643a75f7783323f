-- ===== src/Prelude/Members.antt =====
-- Membership of a list, with the predicates that range over its members.
use mathlib.Core.Path.{◌≡◌, refl, subst, sym}
use mathlib.Core.Bool.{Bool, true, false, ◌&&◌, ◌||◌}
use mathlib.Core.Logic.{◌⊎◌, inl, inr}
use mathlib.Core.List.{List, [], ◌∷◌, ◌++◌}
use native.Mathlib.Omega.{arith}
use testudo.Prelude.Tests.{distinct, Comparable, ==_iff, elem, ◌==◌, ==_refl}
use testudo.Prelude.Lists.{all, All}

pub &&-left : (b c : Bool) → (b && c) ≡ true → b ≡ true
&&-left b c h = ground arith

pub &&-right : (b c : Bool) → (b && c) ≡ true → c ≡ true
&&-right b c h = ground arith

pub ||-cases : (b c : Bool) → (b || c) ≡ true → (b ≡ true) ⊎ (c ≡ true)
||-cases true c h = inl h
||-cases false c h = inr h

module _ {ℓ} {A : Type ℓ} ⦃comparable : Comparable A⦄ where
  pub elem-head : (x : A) (xs : List A) → elem x (x ∷ xs) ≡ true
  elem-head x xs = ground (arith, ==_refl x)

  pub elem-tail : (k x : A) (xs : List A) → elem k xs ≡ true → elem k (x ∷ xs) ≡ true
  elem-tail k x xs h = ground arith

  pub All-elem {κ} : (P : A → Type κ) (xs : List A) (k : A) → All P xs → elem k xs ≡ true → P k
  All-elem P [] k h m = cc
  All-elem P (x ∷ xs) k h m = elim (||-cases (k == x) (elem k xs) m) [
    | inl here ↦ subst P (sym ((==_iff k x).0 here)) h.0
    | inr there ↦ All-elem P xs k h.1 there
  ]

  pub elem-All {κ} : (P : A → Type κ) (xs : List A) → ((k : A) → elem k xs ≡ true → P k) → All P xs
  elem-All P [] h = tt
  elem-All P (x ∷ xs) h = (h x (elem-head x xs), elem-All P xs (λ k m. h k (elem-tail k x xs m)))

  pub elem-all :
      (p : A → Bool) (xs : List A) (k : A) → all p xs ≡ true → elem k xs ≡ true → p k ≡ true
  elem-all p [] k h m = cc
  elem-all p (x ∷ xs) k h m = ground (arith, ==_iff k x, elem-all p xs k)

  pub all-elem :
      (p : A → Bool) (xs : List A) → ((k : A) → elem k xs ≡ true → p k ≡ true) → all p xs ≡ true
  all-elem p [] h = refl
  all-elem p (x ∷ xs) h =
      ground (arith, h x (elem-head x xs), all-elem p xs (λ k m. h k (elem-tail k x xs m)))

  pub elem-append : (k : A) (xs ys : List A) → elem k (xs ++ ys) ≡ (elem k xs || elem k ys)
  elem-append k [] ys = refl
  elem-append k (x ∷ xs) ys = ground (arith, elem-append k xs ys)

  pub ==_sym : (x y : A) → (x == y) ≡ (y == x)
  ==_sym x y = ground (arith, ==_iff x y, ==_iff y x)

  pub distinct-append_one :
      (xs : List A) (x : A)
      → distinct xs ≡ true
      → elem x xs ≡ false
      → distinct (xs ++ x ∷ []) ≡ true
  distinct-append_one [] x d e = refl
  distinct-append_one (y ∷ xs) x d e =
      ground (arith, distinct-append_one xs x, elem-append y xs (x ∷ []), ==_sym x y)
