-- ===== src/Policy/Contained.antt =====
-- Where a guest path leads that `_validate_guest_path` accepts.
use mathlib.Core.Path.{subst}
use testudo.Prelude.{
  ◌≡◌, refl, sym, ap, ◌∙◌, Bool, true, false, not, ◌&&◌, ◌||◌, inl, inr, List, [], ◌∷◌, ◌++◌, ok,
  raise_if-eq-ok, ok-injective, ◌==◌, ==_iff, Comparable-nat, Comparable-list, all, elem,
  Bool-cases, ||-cases, &&-left, &&-right, arith, if◌then◌else◌, append_assoc,
}
use testudo.Policy.Path.{
  PolicyError, Text, starts, folder, under, push, split_slash, is_dots, validate_guest_path,
  has_double, ends_slash, is_forbidden,
}

-- The folders of a path from the innermost, as the kernel walks it: "." and empty parts stay, ".."
-- leaves the innermost folder.
abbrev pub tail_of : List Text → List Text
tail_of [] = []
tail_of (x ∷ xs) = xs

abbrev pub go_to : Text → List Text → List Text
go_to part at =
    if part == []
    then at
    else if part == b'.' ∷ []
    then at
    else if part == b'.' ∷ b'.' ∷ []
    then tail_of at
    else part ∷ at

abbrev pub walk_to : List Text → List Text → List Text
walk_to [] at = at
walk_to (part ∷ parts) at = walk_to parts (go_to part at)

abbrev pub place : Text → List Text
place path = walk_to (split_slash path) []

pub starts-append :
    (s prefix : Text) → starts s prefix ≡ true → (rest : Text) × (s ≡ prefix ++ rest)
unfolding starts
starts-append s [] h = (s, refl)
starts-append [] (d ∷ prefix) h = cc
starts-append (c ∷ s) (d ∷ prefix) h =
    let (rest, same) = starts-append s prefix (&&-right (c == d) (starts s prefix) h) in
    let head : c ≡ d = (==_iff c d).0 (&&-left (c == d) (starts s prefix) h) in
    (rest, ap (λ x. x ∷ s) head ∙ ap (λ l. d ∷ l) same)

split_first : (s : Text) → (p : Text) × (ps : List Text) × (split_slash s ≡ p ∷ ps)
unfolding split_slash
split_first [] = ([], [], refl)
split_first (c ∷ s) = elim (Bool-cases (c == b'/')) [
  | inl slash ↦ ([], split_slash s, rw (slash) refl)
  | inr other ↦ let (p, ps, same) = split_first s in (c ∷ p, ps, rw (other) (ap (push c) same))
]

split-append : (a b : Text) → split_slash (a ++ b'/' ∷ b) ≡ split_slash a ++ split_slash b
unfolding split_slash
split-append [] b = refl
split-append (c ∷ a) b = elim (Bool-cases (c == b'/')) [
  | inl slash ↦ rw (slash) (ap (λ l. [] ∷ l) (split-append a b))
  | inr other ↦
      let (p, ps, same) = split_first a in
      rw (other) (
        ap (push c) (split-append a b ∙ ap (λ l. l ++ split_slash b) same)
        ∙ ap (λ l. push c l ++ split_slash b) (sym same))
]

walk-append :
    (xs ys : List Text) (at : List Text) → walk_to (xs ++ ys) at ≡ walk_to ys (walk_to xs at)
walk-append [] ys at = refl
walk-append (x ∷ xs) ys at = walk-append xs ys (go_to x at)

abbrev pub Inside : List Text → List Text → Type 0
Inside at base = (rest : List Text) × (at ≡ rest ++ base)

go_to-Inside : (part : Text) (at : List Text) → is_dots part ≡ false → Inside (go_to part at) at
go_to-Inside part at plain = elim (Bool-cases (part == [])) [
  | inl empty ↦ ([], rw empty refl)
  | inr full ↦ (part ∷ [], ground (arith, plain, full))
]

not-true : (b : Bool) → not b ≡ true → b ≡ false
not-true true h = cc
not-true false h = refl

not-false : (b : Bool) → not b ≡ false → b ≡ true
not-false true h = refl
not-false false h = cc

walk_to-Inside :
    (parts at : List Text)
    → all (λ part. not (is_dots part)) parts ≡ true
    → Inside (walk_to parts at) at
walk_to-Inside [] at plain = ([], refl)
walk_to-Inside (part ∷ parts) at plain =
    let here : not (is_dots part) ≡ true =
      &&-left (not (is_dots part)) (all (λ p. not (is_dots p)) parts) plain in
    let (first, one) = go_to-Inside part at (not-true (is_dots part) here) in
    let (rest, more) =
      walk_to-Inside parts (go_to part at)
        (&&-right (not (is_dots part)) (all (λ p. not (is_dots p)) parts) plain) in
    (rest ++ first, more ∙ ap (λ l. rest ++ l) one ∙ sym (append_assoc rest first at))

||-false : (b c : Bool) → (b || c) ≡ false → (b ≡ false) × (c ≡ false)
||-false false c h = (refl, h)
||-false true c h = cc

abbrev two_dots : Text
two_dots = b'.' ∷ b'.' ∷ []

climbless-Inside_step :
    (part : Text) (at : List Text) → (two_dots == part) ≡ false → Inside (go_to part at) at
climbless-Inside_step part at level = elim (Bool-cases (part == [])) [
  | inl empty ↦ ([], rw empty refl)
  | inr full ↦ elim (Bool-cases (part == b'.' ∷ [])) [
    | inl here ↦ ([], simp (full, here) refl)
    | inr other ↦ (part ∷ [], ground (arith, level, full, other))
  ]
]

-- A path without a part ".." leads from any folder to one inside it.
pub walk_to-Inside_climbless :
    (parts at : List Text) → elem two_dots parts ≡ false → Inside (walk_to parts at) at
walk_to-Inside_climbless [] at level = ([], refl)
walk_to-Inside_climbless (part ∷ parts) at level =
    let (here, later) = ||-false (two_dots == part) (elem two_dots parts) level in
    let (first, one) = climbless-Inside_step part at here in
    let (rest, more) = walk_to-Inside_climbless parts (go_to part at) later in
    (rest ++ first, more ∙ ap (λ l. rest ++ l) one ∙ sym (append_assoc rest first at))

all-append_right : (p : Text → Bool) (xs ys : List Text) → all p (xs ++ ys) ≡ true → all p ys ≡ true
all-append_right p [] ys h = h
all-append_right p (x ∷ xs) ys h = all-append_right p xs ys (&&-right (p x) (all p (xs ++ ys)) h)

under-Inside :
    (prefix path : Text)
    → under path prefix ≡ true
    → all (λ part. not (is_dots part)) (split_slash path) ≡ true
    → Inside (place path) (place prefix)
unfolding under
under-Inside prefix path h plain =
    elim (||-cases (path == prefix) (starts path (folder prefix)) h) [
      | inl equal ↦ ([], ap place ((==_iff path prefix).0 equal))
      | inr below ↦
          let (rest, same) = starts-append path (folder prefix) below in
          let longer : path ≡ prefix ++ b'/' ∷ rest = same ∙ append_assoc prefix (b'/' ∷ []) rest in
          let parts : split_slash path ≡ split_slash prefix ++ split_slash rest =
            ap split_slash longer ∙ split-append prefix rest in
          let plain_rest =
            all-append_right (λ part. not (is_dots part)) (split_slash prefix) (split_slash rest)
              (subst (λ ps. all (λ part. not (is_dots part)) ps ≡ true) parts plain) in
          let (deeper, grown) = walk_to-Inside (split_slash rest) (place prefix) plain_rest in
          (
            deeper,
            ap (λ ps. walk_to ps []) parts
                ∙ walk-append (split_slash prefix) (split_slash rest) []
                ∙ grown,
          )
    ]

-- A path that is accepted comes back unchanged, leads to a folder inside the one that the prefix leads
-- to, and has no character that is forbidden.
pub validate_guest_path-Inside :
    (prefix path p : Text)
    → validate_guest_path prefix path ≡ ok p
    → (path ≡ p) × Inside (place p) (place prefix) × (all (λ c. not (is_forbidden c)) p ≡ true)
unfolding validate_guest_path
validate_guest_path-Inside prefix path p h =
    let (absolute, h1) =
      raise_if-eq-ok (not (starts path (b'/' ∷ []))) PolicyError.not_absolute _ h in
    let (canonical, h2) =
      raise_if-eq-ok
        (not (all (λ c. not (is_forbidden c)) path)
          || has_double path
          || ends_slash path && not (path == b'/' ∷ []))
        PolicyError.not_canonical _ h1 in
    let (straight, h3) =
      raise_if-eq-ok (not (all (λ part. not (is_dots part)) (split_slash path)))
        PolicyError.traversal _ h2 in
    let (inside, h4) = raise_if-eq-ok (not (under path prefix)) PolicyError.outside _ h3 in
    let same : path ≡ p = ok-injective h4 in
    let plain = not-false (all (λ part. not (is_dots part)) (split_slash path)) straight in
    let contained = under-Inside prefix path (not-false (under path prefix) inside) plain in
    let allowed : all (λ c. not (is_forbidden c)) path ≡ true = ground (arith, canonical) in
    (
      same,
      subst (λ q. Inside (place q) (place prefix)) same contained,
      subst (λ q. all (λ c. not (is_forbidden c)) q ≡ true) same allowed,
    )
