-- ===== src/Prelude/State.antt =====
-- Calls that read and change a state and may raise, as functions of the state, and the reasoning on them.
use mathlib.Core.Path.{◌≡◌, refl}
use mathlib.Core.Bool.{Bool, true, false}
use testudo.Prelude.Tests.{if◌then◌else◌}
use testudo.Prelude.Outcome.{Result, ok, err, ok-injective}

abbrev pub Act : Type 0 → Type 0 → Type 0 → Type 0
Act S E A = S → Result E A × S

module _ {E A : Type 0} where
  -- What a `finally` block leaves of the result before it.
  abbrev pub after : Result E A → Result E (Unit {0}) → Result E A
  after r (ok _) = r
  after r (err e) = err e

module _ {S E A : Type 0} where
  abbrev pub return : A → Act S E A
  return a s = (ok a, s)

  abbrev pub raise : E → Act S E A
  raise e s = (err e, s)

  -- `try: m` with `finally: k`
  unfoldable pub finally : Act S E A → Act S E (Unit {0}) → Act S E A
  finally m k s = let (r, s1) = m s in let (r2, s2) = k s1 in (after r r2, s2)

module _ {S E A B : Type 0} where
  abbrev pub continue : (A → Act S E B) → Result E A → Act S E B
  continue k (ok a) s = k a s
  continue k (err e) s = (err e, s)

  infixl 5 ◌>>=◌ ◌>>◌
  unfoldable pub ◌>>=◌ : Act S E A → (A → Act S E B) → Act S E B
  ◌>>=◌ m k s = let (r, next) = m s in continue k r next

  abbrev pub ◌>>◌ : Act S E A → Act S E B → Act S E B
  m >> k = m >>= λ _. k

module _ {S E A : Type 0} where
  -- From a state with `P` a call leads to one with `Q`, whether it returns or raises.
  abbrev pub Leads : (S → Type 0) → (S → Type 0) → Act S E A → Type 0
  Leads P Q m = (s : S) → P s → Q (m s).1

  -- A call returns this value, in this state.
  pub record Returns (m : Act S E A) (s : S) (a : A) (t : S) : Type 0 where
    pub result : (m s).0 ≡ ok a
    pub left : (m s).1 ≡ t

module _ {S E A : Type 0} (Q : S → Type 0) where
  -- What holds of the state behind either branch.
  pub if-left :
      (b : Bool) (x y : Result E A × S)
      → (b ≡ true → Q x.1)
      → (b ≡ false → Q y.1)
      → Q (if b then x else y).1
  if-left true x y first second = first refl
  if-left false x y first second = second refl

module _ {S E A : Type 0} (P Q R : S → Type 0) where
  pub finally-Leads :
      (m : Act S E A) (k : Act S E (Unit {0})) → Leads P Q m → Leads Q R k → Leads P R (finally m k)
  unfolding finally
  finally-Leads m k first last s h = last (m s).1 (first s h)

module _ {S E A B : Type 0} (P Q R : S → Type 0) where
  pub bind-Leads :
      (m : Act S E A) (k : A → Act S E B)
      → Leads P Q m
      → ((s : S) → Q s → R s)
      → ((a : A) → Leads Q R (k a))
      → Leads P R (m >>= k)
  unfolding ◌>>=◌
  bind-Leads m k first weaker rest s h = either (m s).0 (m s).1 (first s h)
    where
      either : (r : Result E A) (t : S) → Q t → R (continue k r t).1
      either (ok a) t h = rest a t h
      either (err e) t h = weaker t h

module _ {S E A B : Type 0} where
  continue-Returns :
      (k : A → Act S E B) (r : Result E A) (u : S) (b : B) (t : S)
      → (continue k r u).0 ≡ ok b
      → (continue k r u).1 ≡ t
      → (a : A) × (r ≡ ok a) × Returns (k a) u b t
  continue-Returns k (ok a) u b t h l = (a, refl, record { result = h; left = l })
  continue-Returns k (err e) u b t h l = cc

  -- A chain that returned: its first call did, and so did the rest from the state it left.
  pub bind-Returns :
      (m : Act S E A) (k : A → Act S E B) (s : S) (b : B) (t : S)
      → Returns (m >>= k) s b t
      → (a : A) × (u : S) × Returns m s a u × Returns (k a) u b t
  unfolding ◌>>=◌
  bind-Returns m k s b t h =
      let (a, first, rest) = continue-Returns k (m s).0 (m s).1 b t h.result h.left in
      (a, (m s).1, record { result = first; left = refl }, rest)

module _ {E A : Type 0} where
  after-Returns :
      (r : Result E A) (q : Result E (Unit {0})) (a : A)
      → after r q ≡ ok a
      → (r ≡ ok a) × (q ≡ ok tt)
  after-Returns r (ok _) a h = (h, refl)
  after-Returns r (err e) a h = cc

module _ {S E A : Type 0} where
  pub return-Returns :
      (x : A) (s : S) (a : A) (t : S) → Returns {E = E} (return x) s a t → (x ≡ a) × (s ≡ t)
  return-Returns x s a t h = (ok-injective h.result, h.left)

  -- A `try` with `finally` that returned: so did both blocks.
  pub finally-Returns :
      (m : Act S E A) (k : Act S E (Unit {0})) (s : S) (a : A) (t : S)
      → Returns (finally m k) s a t
      → (u : S) × Returns m s a u × Returns k u tt t
  unfolding finally
  finally-Returns m k s a t h =
      let (first, last) = after-Returns (m s).0 (k (m s).1).0 a h.result in
      ((m s).1, record { result = first; left = refl }, record { result = last; left = h.left })

  pub if-Returns :
      (b : Bool) (x y : Result E A × S) (r : Result E A) (t : S) (C : Type 0)
      → ((if b then x else y).0 ≡ r)
      → ((if b then x else y).1 ≡ t)
      → (b ≡ true → x.0 ≡ r → x.1 ≡ t → C)
      → (b ≡ false → y.0 ≡ r → y.1 ≡ t → C)
      → C
  if-Returns true x y r t C h l first second = first refl h l
  if-Returns false x y r t C h l first second = second refl h l
