-- ===== src/Assignment/Recovery/Operator.antt =====
-- `reconcile_quarantine` of src/testudo/runtime/assignment.py, with the verdict of the operator's verifier.
-- Ids without the lengths and patterns that pydantic asks of a tombstone raise (`not_accepted`).
use testudo.Prelude.{
  ◌≡◌, refl, ap, sym, ◌∙◌, Bool, true, false, not, ◌&&◌, ◌||◌, inl, inr, List, [], ◌∷◌, Option,
  none, some, Result, ok, err, Bool-cases, ◌==◌, Comparable-string, arith, ok-injective,
  if◌then◌else◌,
}
use testudo.Prelude.State.{if-Returns}
use testudo.Prelude.Text.{has_char}
use testudo.Assignment.Recovery.{
  Aborted, Name, Files, Node, Root, DurableRequest, QuarantineReason, Tombstone, World, Loaded,
  text, is_among, remove_node,
}
use testudo.Assignment.Recovery.Quarantine.{tombstone_for, write_tombstone}
use testudo.Assignment.Recovery.Grows.{Holds, taken_id, taken_envelope}
use testudo.Assignment.Recovery.Held.{Taken, write_tombstone-Taken}

pub data ReconcileError : Type 0 where
  not_bare not_authorized unknown_entry not_needed identity_exists envelope_exists : ReconcileError
  not_persisted not_accepted : ReconcileError

abbrev has_no_slash : Name → Bool
has_no_slash (Name.base s) = not (has_char b'/' s || has_char b'\\' s)
has_no_slash (Name.quarantined n) = has_no_slash n
has_no_slash (Name.marker n) = has_no_slash n

abbrev pub is_bare : Name → Bool
is_bare name = not (text name == "" || text name == "." || text name == "..") && has_no_slash name

-- `is_dir` of the quarantined run: its files.
abbrev pub files_of : Node → Option Files
files_of (Node.directory files) = some files
files_of _ = none

abbrev pub find_files : Root → Name → Option Files
find_files [] name = none
find_files ((n, node) ∷ root) name =
    let rest = find_files root name in if text n == text name then files_of node else rest

-- `self._ambiguous.discard(name)`
abbrev pub discard_name : Name → List Name → List Name
discard_name name [] = []
discard_name name (n ∷ others) =
    let rest = discard_name name others in if text n == text name then rest else n ∷ rest

module _ (world : World) (unmarks : Bool) where
  -- Behind the tombstone, by whether it persisted; `unmarks` says whether the marker can be removed.
  abbrev pub cleared :
      Name → Tombstone → Result Aborted (Bool × Loaded) → Result ReconcileError Tombstone × Loaded
  cleared name t (err (Aborted.invalid_tombstone bad s)) = (err ReconcileError.not_accepted, s)
  cleared name t (ok (false, s)) = (err ReconcileError.not_persisted, s)
  cleared name t (ok (true, s)) = (
    ok t,
    record s {
      ambiguous = discard_name name s.ambiguous;
      root = if unmarks then remove_node s.root (Name.marker name) else s.root;
    },
  )

  abbrev pub in_directory :
      Name → DurableRequest → Option Files → Loaded → Result ReconcileError Tombstone × Loaded
  in_directory name q none s = (err ReconcileError.unknown_entry, s)
  in_directory name q (some files) s =
      if not (is_among name s.ambiguous)
      then (err ReconcileError.not_needed, s)
      else if taken_id q.assignment_id s
      then (err ReconcileError.identity_exists, s)
      else if taken_envelope q.envelope_id s
      then (err ReconcileError.envelope_exists, s)
      else cleared name (tombstone_for world q QuarantineReason.operator_reconciliation)
          (write_tombstone world name files q QuarantineReason.operator_reconciliation s)

  unfoldable pub reconcile_quarantine :
      Bool → Name → DurableRequest → Loaded → Result ReconcileError Tombstone × Loaded
  reconcile_quarantine authorized name q s =
      if not (is_bare name)
      then (err ReconcileError.not_bare, s)
      else if not authorized
      then (err ReconcileError.not_authorized, s)
      else in_directory name q (find_files s.root (Name.quarantined name)) s

  is_among-discard_name :
      (name : Name) (l : List Name) → is_among name (discard_name name l) ≡ false
  is_among-discard_name name [] = refl
  is_among-discard_name name (n ∷ l) = elim (Bool-cases (text n == text name)) [
    | inl same ↦ simp (same) (is_among-discard_name name l)
    | inr other ↦ simp (other) (is_among-discard_name name l)
  ]

  -- What an operator has settled: the identity was free and is so no longer, and the run is not in doubt.
  pub record Reconciled (name : Name) (q : DurableRequest) (t : Tombstone) (s u : Loaded)
      : Type 0 where
    pub same_id : t.assignment_id ≡ q.assignment_id
    pub same_envelope : t.envelope_id ≡ q.envelope_id
    pub was_doubtful : is_among name s.ambiguous ≡ true
    pub free_id : taken_id q.assignment_id s ≡ false
    pub free_envelope : taken_envelope q.envelope_id s ≡ false
    pub id : taken_id q.assignment_id u ≡ true
    pub envelope : taken_envelope q.envelope_id u ≡ true
    pub certain : is_among name u.ambiguous ≡ false

  cleared-Reconciled :
      (name : Name) (q : DurableRequest) (t : Tombstone) (p : Result Aborted (Bool × Loaded))
      (s u : Loaded)
      → is_among name s.ambiguous ≡ true
      → taken_id q.assignment_id s ≡ false
      → taken_envelope q.envelope_id s ≡ false
      → Holds world (λ (x : Bool × Loaded). Taken world q x.1) p
      → (cleared name (tombstone_for world q QuarantineReason.operator_reconciliation) p).0 ≡ ok t
      → (cleared name (tombstone_for world q QuarantineReason.operator_reconciliation) p).1 ≡ u
      → Reconciled name q t s u
  cleared-Reconciled name q t (err (Aborted.invalid_tombstone bad v)) s u doubt free unused taken r
        l =
      cc
  cleared-Reconciled name q t (ok (false, v)) s u doubt free unused taken r l = cc
  cleared-Reconciled name q t (ok (true, v)) s u doubt free unused taken r l = record {
    same_id = sym (ap (λ (x : Tombstone). x.assignment_id) (ok-injective r));
    same_envelope = sym (ap (λ (x : Tombstone). x.envelope_id) (ok-injective r));
    was_doubtful = doubt;
    free_id = free;
    free_envelope = unused;
    id = ap (λ x. taken_id q.assignment_id x) (sym l) ∙ taken.0;
    envelope = ap (λ x. taken_envelope q.envelope_id x) (sym l) ∙ taken.1;
    certain =
        ap (λ (x : Loaded). is_among name x.ambiguous) (sym l)
        ∙ is_among-discard_name name v.ambiguous;
  }

  in_directory-Reconciled :
      (name : Name) (q : DurableRequest) (o : Option Files) (t : Tombstone) (s u : Loaded)
      → (in_directory name q o s).0 ≡ ok t
      → (in_directory name q o s).1 ≡ u
      → Reconciled name q t s u
  in_directory-Reconciled name q none t s u r l = cc
  in_directory-Reconciled name q (some files) t s u r l =
      let C = Reconciled name q t s u in
      if-Returns (not (is_among name s.ambiguous)) _ _ (ok t) u C r l (λ _ r l. cc)
        (λ doubt r l.
          if-Returns (taken_id q.assignment_id s) _ _ (ok t) u C r l (λ _ r l. cc)
            (λ free r l.
              if-Returns (taken_envelope q.envelope_id s) _ _ (ok t) u C r l (λ _ r l. cc)
                (λ unused r l.
                  let taken =
                    write_tombstone-Taken world name files q
                      QuarantineReason.operator_reconciliation s in
                  cleared-Reconciled name q t
                    (write_tombstone world name files q QuarantineReason.operator_reconciliation s)
                    s u (ground (arith, doubt)) free unused taken r l)))

  -- A reconciliation that returns was authorized, is of a run that was in doubt and of an identity that
  -- no run and no tombstone had; its tombstone takes both ids, and the run is in doubt no longer.
  pub reconcile_quarantine-Reconciled :
      (authorized : Bool) (name : Name) (q : DurableRequest) (t : Tombstone) (s u : Loaded)
      → (reconcile_quarantine authorized name q s).0 ≡ ok t
      → (reconcile_quarantine authorized name q s).1 ≡ u
      → (authorized ≡ true) × Reconciled name q t s u
  unfolding reconcile_quarantine
  reconcile_quarantine-Reconciled authorized name q t s u r l =
      let C = (authorized ≡ true) × Reconciled name q t s u in
      if-Returns (not (is_bare name)) _ _ (ok t) u C r l (λ _ r l. cc)
        (λ _ r l.
          if-Returns (not authorized) _ _ (ok t) u C r l (λ _ r l. cc)
            (λ allowed r l. (
              ground (arith, allowed),
              in_directory-Reconciled name q (find_files s.root (Name.quarantined name)) t s u r l,
            )))
