-- ===== src/Assignment/Recovery/Grows.antt =====
-- What the recovery of a root only adds to: the identities that are taken, and the doubts about them.
use testudo.Prelude.{
  Result, ok, err, false, String, ◌≡◌, refl, Bool, true, ◌||◌, inl, inr, ◌⊎◌, List, [], ◌∷◌,
  Bool-cases, Comparable-string, elem, arith,
}
use testudo.Prelude.Dict.{Dict, has, has-set_kept, has-set_same}
use testudo.Assignment.Identity.{some_left}
use testudo.Assignment.Recovery.{
  Name, Root, Tombstone, Loaded, Aborted, World, ids, envelopes, texts, is_among, add_name,
  set_default, register_tombstone, add_ambiguous,
}

-- The assignment id is a run's or a tombstone's.
abbrev pub taken_id : String → Loaded → Bool
taken_id a s = elem a (ids s.runs) || has s.tombstones a

-- So is the envelope id.
abbrev pub taken_envelope : String → Loaded → Bool
taken_envelope e s = elem e (envelopes s.runs) || has s.envelope_tombstones e

abbrev pub is_doubtful : Loaded → Bool
is_doubtful s = some_left (texts s.ambiguous)

-- Neither the identity nor its envelope can be used again, or the whole root is in doubt.
abbrev pub Held : String → String → Loaded → Type 0
Held a e s = (is_doubtful s ≡ true) ⊎ ((taken_id a s ≡ true) × (taken_envelope e s ≡ true))

pub record Grows (s t : Loaded) : Type 0 where
  pub doubts : is_doubtful s ≡ true → is_doubtful t ≡ true
  pub same_ids : (a : String) → taken_id a s ≡ true → taken_id a t ≡ true
  pub same_envelopes : (e : String) → taken_envelope e s ≡ true → taken_envelope e t ≡ true

pub Grows-Held : (a e : String) (s t : Loaded) → Grows s t → Held a e s → Held a e t
Grows-Held a e s t h (inl doubt) = inl (h.doubts doubt)
Grows-Held a e s t h (inr (id, envelope)) = inr (h.same_ids a id, h.same_envelopes e envelope)

-- A call that returned has left a state, or a value, with `Q`; one that raised could not make a tombstone.
abbrev pub Holds : World → {A : Type 0} → (A → Type 0) → Result Aborted A → Type 0
Holds world Q (ok x) = Q x
Holds world Q (err (Aborted.invalid_tombstone t s)) = world.accepts t ≡ false

pub Holds-map :
    (world : World) {A : Type 0} (Q R : A → Type 0) (r : Result Aborted A)
    → ((x : A) → Q x → R x)
    → Holds world Q r
    → Holds world R r
Holds-map world Q R (ok x) f h = f x h
Holds-map world Q R (err (Aborted.invalid_tombstone t s)) f h = h

-- A change of the root alone.
pub root-Grows : (s : Loaded) (root : Root) → Grows s (record s { root = root })
root-Grows s root = record { doubts = λ h. h; same_ids = λ a h. h; same_envelopes = λ e h. h }

pub Grows-trans : (s t u : Loaded) → Grows s t → Grows t u → Grows s u
Grows-trans s t u h k = record {
  doubts = λ d. k.doubts (h.doubts d);
  same_ids = λ a d. k.same_ids a (h.same_ids a d);
  same_envelopes = λ e d. k.same_envelopes e (h.same_envelopes e d);
}

add_name-some_left : (name : Name) (l : List Name) → some_left (texts (add_name name l)) ≡ true
add_name-some_left name [] = refl
add_name-some_left name (n ∷ l) = elim (Bool-cases (is_among name (n ∷ l))) [
  | inl there ↦ simp (there) refl
  | inr new ↦ simp (new) refl
]

pub add_ambiguous-doubt : (name : Name) (s : Loaded) → is_doubtful (add_ambiguous name s) ≡ true
add_ambiguous-doubt name s = add_name-some_left name s.ambiguous

pub add_ambiguous-Grows : (name : Name) (s : Loaded) → Grows s (add_ambiguous name s)
add_ambiguous-Grows name s = record {
  doubts = λ d. add_ambiguous-doubt name s;
  same_ids = λ a h. h;
  same_envelopes = λ e h. h;
}

has-set_default_kept :
    (d : Dict String) (k v j : String) → has d j ≡ true → has (set_default d k v) j ≡ true
has-set_default_kept d k v j h = elim (Bool-cases (has d k)) [
  | inl there ↦ simp (there) h
  | inr new ↦ simp (new) (has-set_kept d k j v h)
]

has-set_default_same : (d : Dict String) (k v : String) → has (set_default d k v) k ≡ true
has-set_default_same d k v = elim (Bool-cases (has d k)) [
  | inl there ↦ simp (there) refl
  | inr new ↦ simp (new) (has-set_same d k v)
]

pub register_tombstone-Grows : (t : Tombstone) (s : Loaded) → Grows s (register_tombstone t s)
unfolding register_tombstone
register_tombstone-Grows t s = record {
  doubts = λ d. d;
  same_ids = λ a h. ground (arith, h, has-set_kept s.tombstones t.assignment_id a t);
  same_envelopes = λ e h.
      ground (arith, h, has-set_default_kept s.envelope_tombstones t.envelope_id t.assignment_id e);
}

-- A tombstone takes both of its ids.
pub register_tombstone-taken :
    (t : Tombstone) (s : Loaded)
    → (taken_id t.assignment_id (register_tombstone t s) ≡ true)
      × (taken_envelope t.envelope_id (register_tombstone t s) ≡ true)
unfolding register_tombstone
register_tombstone-taken t s = (
  ground (arith, has-set_same s.tombstones t.assignment_id t),
  ground (arith, has-set_default_same s.envelope_tombstones t.envelope_id t.assignment_id),
)

pub register_tombstone-Held :
    (t : Tombstone) (s : Loaded) → Held t.assignment_id t.envelope_id (register_tombstone t s)
register_tombstone-Held t s = inr (register_tombstone-taken t s)
