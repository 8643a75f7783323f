-- ===== src/Prelude/Tests.antt =====
-- Boolean tests on numbers and texts, and the conditional.
use Prim.Native.Nat.{ℕ, ◌≤◌, ◌<◌, compare, Ordering}
use Prim.Native.String.{String}
use mathlib.Core.Path.{◌≡◌, refl, subst}
use mathlib.Core.Logic.{◌↔◌, ◌⊎◌, inl, inr}
use mathlib.Core.Bool.{Bool, true, false, not, ◌&&◌, ◌||◌}
use mathlib.Core.List.{List, [], ◌∷◌}
use mathlib.Core.Option.{Option, none, some}
use native.Mathlib.Omega.{arith}
use text.Mathlib.Text.{◌==◌ as text_eq}
use text.Mathlib.TextEquality.{eq_iff as text_eq_iff}

abbrev pub ltb : ℕ → ℕ → Bool
ltb a b = elim (compare a b) [ Ordering.lt ↦ true | _ ↦ false ]

abbrev pub leb : ℕ → ℕ → Bool
leb a b = elim (compare a b) [ Ordering.gt ↦ false | _ ↦ true ]

abbrev pub nat_eq : ℕ → ℕ → Bool
nat_eq a b = elim (compare a b) [ Ordering.eq ↦ true | _ ↦ false ]

pub nat_eq_iff : (a b : ℕ) → (nat_eq a b ≡ true) ↔ (a ≡ b)
nat_eq_iff a b = ground arith

-- Python's `==` at a type whose values the program compares.
pub record Comparable {ℓ} (A : Type ℓ) : Type ℓ where
  pub same : A → A → Bool
  pub reflexive : (x : A) → same x x ≡ true
  pub sound : (x y : A) → same x y ≡ true → x ≡ y

infix 50 ◌==◌
abbrev pub ◌==◌ {ℓ} : {A : Type ℓ} ⦃comparable : Comparable A⦄ → A → A → Bool
◌==◌ ⦃comparable⦄ x y = comparable.same x y

instance abbrev pub Comparable-nat : Comparable ℕ
Comparable-nat = record {
  same = nat_eq;
  reflexive = λ n. (nat_eq_iff n n).1 refl;
  sound = λ m n. (nat_eq_iff m n).0;
}

instance abbrev pub Comparable-string : Comparable String
Comparable-string = record {
  same = text_eq;
  reflexive = λ s. (text_eq_iff s s).1 refl;
  sound = λ s t. (text_eq_iff s t).0;
}

module _ {ℓ} {A : Type ℓ} ⦃comparable : Comparable A⦄ where
  pub ==_refl : (x : A) → (x == x) ≡ true
  ==_refl = comparable.reflexive

  pub ==_iff : (x y : A) → ((x == y) ≡ true) ↔ (x ≡ y)
  ==_iff x y = (comparable.sound x y, λ p. subst (λ z. (x == z) ≡ true) p (==_refl x))

  -- `a in xs` and `a not in xs` for a tuple, a set or a list.
  abbrev pub elem : A → List A → Bool
  elem a [] = false
  elem a (x ∷ xs) = a == x || elem a xs

  -- `len(set(xs)) == len(xs)`.
  abbrev pub distinct : List A → Bool
  distinct [] = true
  distinct (x ∷ xs) = not (elem x xs) && distinct xs

infix 1 if◌then◌else◌
abbrev pub if◌then◌else◌ {ℓ} : {A : Type ℓ} → Bool → A → A → A
if true then x else y = x
if false then x else y = y

pub ltb→lt : (a b : ℕ) → ltb a b ≡ true → a < b
ltb→lt a b h = ground arith

pub lt→ltb : (a b : ℕ) → a < b → ltb a b ≡ true
lt→ltb a b h = ground arith

pub leb→le : (a b : ℕ) → leb a b ≡ true → a ≤ b
leb→le a b h = ground arith

pub le→leb : (a b : ℕ) → a ≤ b → leb a b ≡ true
le→leb a b h = ground arith

pub ltb_of_le : (a b : ℕ) → b ≤ a → ltb a b ≡ false
ltb_of_le a b h = ground arith

pub nat_eq_of_pos : (a : ℕ) → 0 < a → nat_eq a 0 ≡ false
nat_eq_of_pos a h = ground arith

-- To split on a computed value and keep the equation.
pub Bool-cases : (b : Bool) → (b ≡ true) ⊎ (b ≡ false)
Bool-cases true = inl refl
Bool-cases false = inr refl

pub Option-cases {ℓ} : {A : Type ℓ} (o : Option A) → (o ≡ none) ⊎ ((a : A) × (o ≡ some a))
Option-cases none = inl refl
Option-cases (some a) = inr (a, refl)

-- `xs == ys` for lists and byte strings.
module _ {ℓ} {A : Type ℓ} ⦃comparable : Comparable A⦄ where
  abbrev pub list_eq : List A → List A → Bool
  list_eq [] [] = true
  list_eq [] (y ∷ ys) = false
  list_eq (x ∷ xs) [] = false
  list_eq (x ∷ xs) (y ∷ ys) = x == y && list_eq xs ys

  pub list_eq_refl : (xs : List A) → list_eq xs xs ≡ true
  list_eq_refl [] = refl
  list_eq_refl (x ∷ xs) = ground (arith, ==_refl x, list_eq_refl xs)

  pub list_eq_sound : (xs ys : List A) → list_eq xs ys ≡ true → xs ≡ ys
  list_eq_sound [] [] h = refl
  list_eq_sound [] (y ∷ ys) h = cc
  list_eq_sound (x ∷ xs) [] h = cc
  list_eq_sound (x ∷ xs) (y ∷ ys) h = ground (arith, ==_iff x y, list_eq_sound xs ys)

  instance abbrev pub Comparable-list : Comparable (List A)
  Comparable-list = record { same = list_eq; reflexive = list_eq_refl; sound = list_eq_sound }

-- What holds of either branch, under its test.
pub if_holds {ℓ κ} :
    {A : Type ℓ} (Q : A → Type κ) (b : Bool) (x y : A)
    → (b ≡ true → Q x)
    → (b ≡ false → Q y)
    → Q (if b then x else y)
if_holds Q true x y first second = first refl
if_holds Q false x y first second = second refl
