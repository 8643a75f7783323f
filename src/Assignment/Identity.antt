-- ===== src/Assignment/Identity.antt =====
-- The identities that `AssignmentService.start` admits: its lock over the runs, the tombstones and the
-- directories of the state root, and `reconcile`. A request has been verified before.
use mathlib.Core.Path.{subst}
use testudo.Prelude.{
  String, ◌≡◌, refl, sym, ap, ◌∙◌, Bool, true, false, ◌||◌, List, [], ◌∷◌, ◌++◌, Option, none, some,
  Result, ok, err, ◌>>◌, raise_if, raise_if-eq-ok, ok-injective, ◌==◌, Comparable-string, elem,
  distinct, distinct-append_one, bind-ok, Bool-cases, inl, inr, &&-right, ==_iff, ==_sym, arith,
  ◌≢◌, if◌then◌else◌,
}

-- A directory of the state root, with the envelope of its request where that can be read.
pub record RunDir : Type 0 where
  pub name : String
  pub envelope : Option String

pub record Request : Type 0 where
  pub assignment_id : String
  pub envelope_id : String

-- The fields of the service: the runs in the order of their admission, the keys of the tombstones.
pub record Service : Type 0 where
  pub runs : List Request
  pub tombstones : List String
  pub envelope_tombstones : List String
  pub ambiguous : List String
  pub root : List RunDir

pub data IdentityError : Type 0 where
  ambiguous_root identity_exists identity_quarantined envelope_quarantined : IdentityError
  durable_identity envelope_exists durable_envelope multiple_runs : IdentityError

abbrev pub assignment_ids : List Request → List String
assignment_ids [] = []
assignment_ids (r ∷ runs) = r.assignment_id ∷ assignment_ids runs

abbrev pub envelope_ids : List Request → List String
envelope_ids [] = []
envelope_ids (r ∷ runs) = r.envelope_id ∷ envelope_ids runs

abbrev pub names : List RunDir → List String
names [] = []
names (d ∷ root) = d.name ∷ names root

abbrev pub same_envelope : String → Option String → Bool
same_envelope id none = false
same_envelope id (some e) = e == id

abbrev pub any_durable : String → List RunDir → Bool
any_durable id [] = false
any_durable id (d ∷ root) = same_envelope id d.envelope || any_durable id root

abbrev pub some_left : List String → Bool
some_left [] = false
some_left (x ∷ xs) = true

-- `_reject_duplicate_identity`
unfoldable pub reject_duplicate_identity : Request → Service → Result IdentityError (Unit {0})
reject_duplicate_identity r s =
    raise_if (elem r.assignment_id (assignment_ids s.runs)) IdentityError.identity_exists
    >> (raise_if (elem r.assignment_id s.tombstones) IdentityError.identity_quarantined
        >> (raise_if (elem r.envelope_id s.envelope_tombstones) IdentityError.envelope_quarantined
            >> (raise_if (elem r.assignment_id (names s.root)) IdentityError.durable_identity
                >> (raise_if (elem r.envelope_id (envelope_ids s.runs))
                      IdentityError.envelope_exists
                    >> (raise_if (any_durable r.envelope_id s.root) IdentityError.durable_envelope
                        >> ok tt)))))

-- The section of `start` that holds the service's lock.
unfoldable pub start : Request → Service → Result IdentityError Service
start r s =
    raise_if (some_left s.ambiguous) IdentityError.ambiguous_root
    >> (reject_duplicate_identity r s
        >> ok (record s {
          runs = s.runs ++ r ∷ [];
          root = s.root ++ record { name = r.assignment_id; envelope = some r.envelope_id } ∷ [];
        }))

abbrev pub after : Result IdentityError Service → Service → Service
after (err e) s = s
after (ok t) s = t

-- Starts that came one after the other, with those that were refused.
abbrev pub start_all : List Request → Service → Service
start_all [] s = s
start_all (r ∷ requests) s = start_all requests (after (start r s) s)

unfoldable pub matches : String → List Request → List Request
matches id [] = []
matches id (r ∷ runs) = let rest = matches id runs in if r.envelope_id == id then r ∷ rest else rest

-- `reconcile`, up to the state of the run that it finds: `none` for "absent".
abbrev pub at_most_one : List Request → Result IdentityError (Option Request)
at_most_one [] = ok none
at_most_one (r ∷ []) = ok (some r)
at_most_one (r ∷ q ∷ runs) = err IdentityError.multiple_runs

unfoldable pub reconcile : String → Service → Result IdentityError (Option Request)
reconcile id s = at_most_one (matches id s.runs)

pub record Unique (s : Service) : Type 0 where
  pub assignments : distinct (assignment_ids s.runs) ≡ true
  pub envelopes : distinct (envelope_ids s.runs) ≡ true

assignment_ids-append :
    (runs : List Request) (r : Request)
    → assignment_ids (runs ++ r ∷ []) ≡ assignment_ids runs ++ r.assignment_id ∷ []
assignment_ids-append [] r = refl
assignment_ids-append (x ∷ runs) r = ap (λ l. x.assignment_id ∷ l) (assignment_ids-append runs r)

envelope_ids-append :
    (runs : List Request) (r : Request)
    → envelope_ids (runs ++ r ∷ []) ≡ envelope_ids runs ++ r.envelope_id ∷ []
envelope_ids-append [] r = refl
envelope_ids-append (x ∷ runs) r = ap (λ l. x.envelope_id ∷ l) (envelope_ids-append runs r)

-- What a request that is not rejected is new to.
pub record New (r : Request) (s : Service) : Type 0 where
  pub id : elem r.assignment_id (assignment_ids s.runs) ≡ false
  pub envelope : elem r.envelope_id (envelope_ids s.runs) ≡ false
  pub buried_id : elem r.assignment_id s.tombstones ≡ false
  pub buried_envelope : elem r.envelope_id s.envelope_tombstones ≡ false

reject-absent :
    (r : Request) (s : Service) (u : Unit {0}) → reject_duplicate_identity r s ≡ ok u → New r s
unfolding reject_duplicate_identity
reject-absent r s u h =
    let (fresh, h1) =
      raise_if-eq-ok (elem r.assignment_id (assignment_ids s.runs)) IdentityError.identity_exists _
        h in
    let (unburied, h2) =
      raise_if-eq-ok (elem r.assignment_id s.tombstones) IdentityError.identity_quarantined _ h1 in
    let (open_envelope, h3) =
      raise_if-eq-ok (elem r.envelope_id s.envelope_tombstones) IdentityError.envelope_quarantined _
        h2 in
    let (_, h4) =
      raise_if-eq-ok (elem r.assignment_id (names s.root)) IdentityError.durable_identity _ h3 in
    let (new, h5) =
      raise_if-eq-ok (elem r.envelope_id (envelope_ids s.runs)) IdentityError.envelope_exists _
        h4 in
    record { id = fresh; envelope = new; buried_id = unburied; buried_envelope = open_envelope }

-- An admission is of a new identity, in a root without doubts.
pub start-New :
    (r : Request) (s t : Service)
    → start r s ≡ ok t
    → (some_left s.ambiguous ≡ false)
      × New r s
      × (record s {
        runs = s.runs ++ r ∷ [];
        root = s.root ++ record { name = r.assignment_id; envelope = some r.envelope_id } ∷ [];
      }
          ≡ t)
unfolding start
start-New r s t h =
    let (certain, h0) = raise_if-eq-ok (some_left s.ambiguous) IdentityError.ambiguous_root _ h in
    let (u, passed, h1) = bind-ok (reject_duplicate_identity r s) _ t h0 in
    (certain, reject-absent r s u passed, ok-injective h1)

start-Unique : (r : Request) (s t : Service) → start r s ≡ ok t → Unique s → Unique t
start-Unique r s t h unique =
    let (_, new, same) = start-New r s t h in
    subst Unique same (record {
      assignments =
          ap distinct (assignment_ids-append s.runs r)
          ∙ distinct-append_one (assignment_ids s.runs) r.assignment_id unique.assignments new.id;
      envelopes =
          ap distinct (envelope_ids-append s.runs r)
          ∙ distinct-append_one (envelope_ids s.runs) r.envelope_id unique.envelopes new.envelope;
    })

after-Unique :
    (s : Service) (result : Result IdentityError Service)
    → ((t : Service) → result ≡ ok t → Unique t)
    → Unique s
    → Unique (after result s)
after-Unique s (err e) returned unique = unique
after-Unique s (ok t) returned unique = returned t refl

-- After any starts, admitted or refused, no two runs have the same assignment id and no two have the
-- same envelope id.
pub start_all-Unique :
    (requests : List Request) (s : Service) → Unique s → Unique (start_all requests s)
start_all-Unique [] s unique = unique
start_all-Unique (r ∷ requests) s unique =
    start_all-Unique requests (after (start r s) s)
      (after-Unique s (start r s) (λ t h. start-Unique r s t h unique) unique)

matches-absent :
    (id : String) (runs : List Request) → elem id (envelope_ids runs) ≡ false → matches id runs ≡ []
unfolding matches
matches-absent id [] h = refl
matches-absent id (r ∷ runs) h = ground (arith, matches-absent id runs, ==_sym r.envelope_id id)

one_match :
    (id : String) (runs : List Request)
    → distinct (envelope_ids runs) ≡ true
    → at_most_one (matches id runs) ≢ err IdentityError.multiple_runs
unfolding matches
one_match id [] once h = cc
one_match id (r ∷ runs) once h = elim (Bool-cases (r.envelope_id == id)) [
  | inr other ↦ one_match id runs (&&-right _ _ once) (rw other at h)
  | inl same ↦
      let absent : elem id (envelope_ids runs) ≡ false =
        subst (λ j. elem j (envelope_ids runs) ≡ false) ((==_iff r.envelope_id id).0 same)
          (ground (arith, once)) in
      cc (ap (λ l. at_most_one (r ∷ l)) (sym (matches-absent id runs absent)) ∙ (rw same at h))
]

-- After any starts, admitted or refused, `reconcile` never finds several runs for one envelope.
pub reconcile-start_all :
    (id : String) (requests : List Request) (s : Service)
    → Unique s
    → reconcile id (start_all requests s) ≢ err IdentityError.multiple_runs
unfolding reconcile
reconcile-start_all id requests s unique =
    one_match id (start_all requests s).runs (start_all-Unique requests s unique).envelopes
