-- ===== src/Prelude/Dict.antt =====
-- Python's `dict` with text keys, as the list of its entries. `set` keeps the place of a key that
-- is there, as Python does.
use Prim.Native.String.{String}
use mathlib.Core.Path.{◌≡◌, refl}
use mathlib.Core.Bool.{Bool, true, false, ◌||◌}
use mathlib.Core.Logic.{inl, inr}
use mathlib.Core.List.{List, [], ◌∷◌}
use mathlib.Core.Option.{Option, none, some}
use native.Mathlib.Omega.{arith}
use text.Mathlib.TextEquality.{eq_iff}
use testudo.Prelude.Tests.{elem, ◌==◌, ==_refl, Bool-cases, Comparable-string, if◌then◌else◌}

abbrev pub Dict {ℓ} : Type ℓ → Type ℓ
Dict V = List (String × V)

module _ {ℓ} {V : Type ℓ} where
  -- d.get(k)
  unfoldable pub get : Dict V → String → Option V
  get [] k = none
  get ((j, v) ∷ d) k = if j == k then some v else get d k

  -- d[k] = v
  unfoldable pub set : Dict V → String → V → Dict V
  set [] k v = (k, v) ∷ []
  set ((j, w) ∷ d) k v = if j == k then (j, v) ∷ d else (j, w) ∷ set d k v

  -- k in d
  unfoldable pub has : Dict V → String → Bool
  has d k = elim (get d k) [ none ↦ false | some _ ↦ true ]

  abbrev pub keys : Dict V → List String
  keys [] = []
  keys ((j, v) ∷ d) = j ∷ keys d

  pub get-empty : (k : String) → get [] k ≡ none
  unfolding get
  get-empty k = refl

  pub get-set :
      (d : Dict V) (k j : String) (v : V) → get (set d k v) j ≡ (if k == j then some v else get d j)
  unfolding get set
  get-set [] k j v = refl
  get-set ((i, w) ∷ d) k j v = ground (arith, eq_iff k j, eq_iff i k, eq_iff i j, get-set d k j v)

  pub has-set : (d : Dict V) (k j : String) (v : V) → has (set d k v) j ≡ (k == j || has d j)
  unfolding has
  has-set d k j v =
      rw (get-set d k j v, has)
        (elim (Bool-cases (k == j)) [ inl same ↦ rw same refl | inr other ↦ rw other refl ])

  pub has-set_kept : (d : Dict V) (k j : String) (v : V) → has d j ≡ true → has (set d k v) j ≡ true
  has-set_kept d k j v there = ground (arith, has-set d k j v)

  pub has-set_same : (d : Dict V) (k : String) (v : V) → has (set d k v) k ≡ true
  has-set_same d k v = ground (arith, has-set d k k v, ==_refl k)

  pub elem-keys : (d : Dict V) (k : String) → elem k (keys d) ≡ has d k
  unfolding get has
  elem-keys [] k = refl
  elem-keys ((j, v) ∷ d) k = ground (arith, eq_iff k j, eq_iff j k, elem-keys d k)

-- Two dicts that Python's `==` does not tell apart, whatever the order of their entries.
abbrev pub SameDict {ℓ} : {V : Type ℓ} → Dict V → Dict V → Type ℓ
SameDict d e = (k : String) → get d k ≡ get e k
