-- ===== src/Assignment/Recovery/Held.antt =====
-- A restart holds every identity that the state root has evidence of.
use mathlib.Core.Path.{subst}
use testudo.Prelude.{
  not, String, ◌≡◌, refl, sym, ◌∙◌, Bool, true, false, ◌||◌, inl, inr, List, [], ◌∷◌, ◌++◌, Option,
  none, some, Result, ok, err, ◌==◌, ==_refl, Comparable-string, elem, arith, if_holds,
}
use testudo.Prelude.Dict.{set}
use testudo.Policy.Path.{Text}
use testudo.Assignment.Recovery.{
  Aborted, Name, Entry, Files, Node, DurableRequest, LoadError, QuarantineReason, World, Run,
  Loaded, Read, Write, ids, envelopes, add_ambiguous, exists_in, put_node, is_file_in,
  is_pre_admission, read,
}
use testudo.Assignment.Recovery.Quarantine.{
  mark_ambiguous, tombstone_for, write_tombstone, recover_identity, left_by, bury, noted_reason,
  moved_aside, quarantine,
}
use testudo.Assignment.Recovery.Load.{load_run, settle_run, with_request, load_dir}
use testudo.Assignment.Recovery.Admitted.{
  admitted, read-set, HasRequest, recover_identity-found, load_run-Keeps, load_run-request,
}
use testudo.Assignment.Recovery.Grows.{
  taken_id, taken_envelope, is_doubtful, Held, Grows, Holds, Holds-map, root-Grows, Grows-trans,
  add_ambiguous-doubt, add_ambiguous-Grows, register_tombstone-Grows, register_tombstone-taken,
}

pub Grows-refl : (s : Loaded) → Grows s s
Grows-refl s = record { doubts = λ h. h; same_ids = λ a h. h; same_envelopes = λ e h. h }

elem-ids :
    (a : String) (run : Run) (runs : List Run)
    → elem a (ids (runs ++ run ∷ [])) ≡ (elem a (ids runs) || a == run.request.assignment_id)
elem-ids a run [] = ground arith
elem-ids a run (r ∷ runs) = ground (arith, elem-ids a run runs)

elem-envelopes :
    (e : String) (run : Run) (runs : List Run)
    → elem e (envelopes (runs ++ run ∷ []))
      ≡ (elem e (envelopes runs) || e == run.request.envelope_id)
elem-envelopes e run [] = ground arith
elem-envelopes e run (r ∷ runs) = ground (arith, elem-envelopes e run runs)

module _ (world : World) where
  pub mark_ambiguous-Grows : (name : Name) (s : Loaded) → Grows s (mark_ambiguous world name s)
  unfolding mark_ambiguous
  mark_ambiguous-Grows name s =
      let t = add_ambiguous name s in
      let root = put_node s.root (Name.marker name) Node.plain_file in
      if_holds (Grows s) (is_file_in s.root (Name.marker name) || world.fails (Write.marking name))
        t (record t { root = root }) (λ _. add_ambiguous-Grows name s)
        (λ _.
          Grows-trans s t (record t { root = root }) (add_ambiguous-Grows name s)
            (root-Grows t root))

  mark_ambiguous-doubt :
      (name : Name) (s : Loaded) → is_doubtful (mark_ambiguous world name s) ≡ true
  unfolding mark_ambiguous
  mark_ambiguous-doubt name s =
      if_holds (λ t. is_doubtful t ≡ true)
        (is_file_in s.root (Name.marker name) || world.fails (Write.marking name)) _ _
        (λ _. add_ambiguous-doubt name s) (λ _. add_ambiguous-doubt name s)

  not-true : (b : Bool) → not b ≡ true → b ≡ false
  not-true true h = cc
  not-true false h = refl

  write_tombstone-Grows :
      (name : Name) (files : Files) (q : DurableRequest) (reason : QuarantineReason) (s : Loaded)
      → Holds world
          (λ (p : Bool × Loaded). Grows s p.1)
          (write_tombstone world name files q reason s)
  unfolding write_tombstone
  write_tombstone-Grows name files q reason s =
      let t = tombstone_for world q reason in
      let H : Result Aborted (Bool × Loaded) → Type 0 = λ r. Holds world (λ p. Grows s p.1) r in
      if_holds H (not (world.accepts t)) _ _ (λ bad. not-true (world.accepts t) bad)
        (λ _.
          if_holds H (world.fails (Write.burying name)) _ _
            (λ _.
              Grows-trans s (add_ambiguous name s) _ (add_ambiguous-Grows name s)
                (register_tombstone-Grows t (add_ambiguous name s)))
            (λ _. Grows-trans s _ _ (root-Grows s _) (register_tombstone-Grows t _)))

  -- The tombstone takes both ids.
  abbrev pub Taken : DurableRequest → Loaded → Type 0
  Taken q s = (taken_id q.assignment_id s ≡ true) × (taken_envelope q.envelope_id s ≡ true)

  pub write_tombstone-Taken :
      (name : Name) (files : Files) (q : DurableRequest) (reason : QuarantineReason) (s : Loaded)
      → Holds world
          (λ (p : Bool × Loaded). Taken q p.1)
          (write_tombstone world name files q reason s)
  unfolding write_tombstone
  write_tombstone-Taken name files q reason s =
      let t = tombstone_for world q reason in
      let H : Result Aborted (Bool × Loaded) → Type 0 = λ r. Holds world (λ p. Taken q p.1) r in
      if_holds H (not (world.accepts t)) _ _ (λ bad. not-true (world.accepts t) bad)
        (λ _.
          if_holds H (world.fails (Write.burying name)) _ _ (λ _. register_tombstone-taken t _)
            (λ _. register_tombstone-taken t _))

  left_by-Holds :
      (Q : Loaded → Type 0) (r : Result Aborted (Bool × Loaded))
      → Holds world (λ (p : Bool × Loaded). Q p.1) r
      → Holds world Q (left_by world r)
  left_by-Holds Q (ok (persisted, s)) h = h
  left_by-Holds Q (err (Aborted.invalid_tombstone t s)) h = h

  bury-Grows :
      (name : Name) (files : Files) (reason : QuarantineReason) (o : Option DurableRequest)
      (s : Loaded)
      → Holds world (Grows s) (bury world name files reason o s)
  bury-Grows name files reason none s = mark_ambiguous-Grows name s
  bury-Grows name files reason (some q) s =
      left_by-Holds (Grows s) (write_tombstone world name files q reason s)
        (write_tombstone-Grows name files q reason s)

  quarantine-Grows :
      (name : Name) (files : Files) (reason : QuarantineReason) (s : Loaded)
      → Holds world (Grows s) (quarantine world name files reason s)
  unfolding quarantine
  quarantine-Grows name files reason s =
      let H : Result Aborted Loaded → Type 0 = λ r. Holds world (Grows s) r in
      if_holds H (exists_in s.root (Name.quarantined name)) _ _ (λ _. mark_ambiguous-Grows name s)
        (λ _.
          if_holds H (world.fails (Write.renaming name)) _ _ (λ _. mark_ambiguous-Grows name s)
            (λ _.
              if_holds H (world.fails (Write.noting name)) _ _ (λ _. root-Grows s _)
                (λ _.
                  if_holds H (is_pre_admission files) _ _ (λ _. root-Grows s _)
                    (λ _.
                      Holds-map world (Grows _) (Grows s) _
                        (λ t h. Grows-trans s _ t (root-Grows s _) h) (bury-Grows name _ _ _ _)))))

  quarantine-Held :
      (name : Name) (files : Files) (reason : QuarantineReason) (t : Text) (q : DurableRequest)
      (s : Loaded)
      → HasRequest world t q files
      → world.parse_request t ≡ some q
      → world.fails (Write.noting name) ≡ false
      → Holds world (Held q.assignment_id q.envelope_id) (quarantine world name files reason s)
  unfolding quarantine
  quarantine-Held name files reason t q s there parsed noted =
      let H : Result Aborted Loaded → Type 0 =
        λ r. Holds world (Held q.assignment_id q.envelope_id) r in
      let why = noted_reason world files reason in
      let note = Entry.file (world.print_note name why) in
      let found : recover_identity world (set files "quarantine.json" note) ≡ some q =
        recover_identity-found world t q (set files "quarantine.json" note)
          (read-set files "quarantine.json" note refl ∙ there) parsed in
      if_holds H (exists_in s.root (Name.quarantined name)) _ _
        (λ _. inl (mark_ambiguous-doubt name s))
        (λ _.
          if_holds H (world.fails (Write.renaming name)) _ _
            (λ _. inl (mark_ambiguous-doubt name s))
            (λ _.
              if_holds H (world.fails (Write.noting name)) _ _ (λ failed. cc)
                (λ _.
                  if_holds H (is_pre_admission files) _ _ (λ empty. cc (admitted files t there))
                    (λ _.
                      subst
                        (λ o. H (
                          bury world name (set files "quarantine.json" note) why o
                            (moved_aside world name (set files "quarantine.json" note) s)))
                        (sym found)
                        (left_by-Holds (Held q.assignment_id q.envelope_id) _ (
                          Holds-map world (λ (p : Bool × Loaded). Taken q p.1)
                            (λ p. Held q.assignment_id q.envelope_id p.1) _ (λ p taken. inr taken)
                            (write_tombstone-Taken name (set files "quarantine.json" note) q why
                              (moved_aside world name (set files "quarantine.json" note) s))))))))

  run-Grows : (run : Run) (s : Loaded) → Grows s (record s { runs = s.runs ++ run ∷ [] })
  run-Grows run s = record {
    doubts = λ d. d;
    same_ids = λ a h. ground (arith, h, elem-ids a run s.runs);
    same_envelopes = λ e h. ground (arith, h, elem-envelopes e run s.runs);
  }

  settle_run-Grows :
      (name : Name) (files : Files) (r : Result LoadError Run) (s : Loaded)
      → Holds world (Grows s) (settle_run world name files r s)
  settle_run-Grows name files (err e) s = quarantine-Grows name files (QuarantineReason.raised e) s
  settle_run-Grows name files (ok run) s =
      if_holds (λ (x : Result Aborted Loaded). Holds world (Grows s) x)
        (elem run.request.assignment_id (ids s.runs)) _ _
        (λ _. quarantine-Grows name files (QuarantineReason.raised LoadError.duplicate_identity) s)
        (λ _. run-Grows run s)

  with_request-Grows :
      (name : Name) (files : Files) (s : Loaded)
      → Holds world (Grows s) (with_request world name files s)
  with_request-Grows name files s =
      let q = load_run world name files in
      let begun : Loaded = record s { root = put_node s.root name (Node.directory q.1) } in
      Holds-map world (Grows begun) (Grows s) _
        (λ t h. Grows-trans s begun t (root-Grows s begun.root) h)
        (settle_run-Grows name q.1 q.0 begun)

  pub load_dir-Grows :
      (name : Name) (files : Files) (r : Read) (s : Loaded)
      → Holds world (Grows s) (load_dir world name files r s)
  unfolding load_dir
  load_dir-Grows name files Read.missing s =
      quarantine-Grows name files QuarantineReason.missing_request s
  load_dir-Grows name files Read.failed s = with_request-Grows name files s
  load_dir-Grows name files (Read.content t) s = with_request-Grows name files s

  -- The directory of a run whose request can be read.
  settle_run-Held :
      (name : Name) (files left : Files) (r : Result LoadError Run) (t : Text) (q : DurableRequest)
      (s : Loaded)
      → HasRequest world t q left
      → world.parse_request t ≡ some q
      → world.fails (Write.noting name) ≡ false
      → ((run : Run) → r ≡ ok run → run.request ≡ q)
      → Holds world (Held q.assignment_id q.envelope_id) (settle_run world name left r s)
  settle_run-Held name files left (err e) t q s there parsed noted same =
      quarantine-Held name left (QuarantineReason.raised e) t q s there parsed noted
  settle_run-Held name files left (ok run) t q s there parsed noted same =
      let of_run : run.request ≡ q = same run refl in
      if_holds (λ (x : Result Aborted Loaded). Holds world (Held q.assignment_id q.envelope_id) x)
        (elem run.request.assignment_id (ids s.runs)) _ _
        (λ _.
          quarantine-Held name left (QuarantineReason.raised LoadError.duplicate_identity) t q s
            there parsed noted)
        (λ _.
          subst
            (λ (x : DurableRequest).
              Held x.assignment_id x.envelope_id (record s { runs = s.runs ++ run ∷ [] }))
            of_run
            (inr (
              ground (
                arith,
                elem-ids run.request.assignment_id run s.runs,
                ==_refl run.request.assignment_id,
              ),
              ground (
                arith,
                elem-envelopes run.request.envelope_id run s.runs,
                ==_refl run.request.envelope_id,
              ),
            )))

  pub load_dir-Held :
      (name : Name) (files : Files) (t : Text) (q : DurableRequest) (s : Loaded)
      → HasRequest world t q files
      → world.parse_request t ≡ some q
      → world.fails (Write.noting name) ≡ false
      → Holds world
          (Held q.assignment_id q.envelope_id)
          (load_dir world name files (read files "request.json") s)
  unfolding load_dir
  load_dir-Held name files t q s there parsed noted =
      let p = load_run world name files in
      let begun : Loaded = record s { root = put_node s.root name (Node.directory p.1) } in
      subst (λ r. Holds world (Held q.assignment_id q.envelope_id) (load_dir world name files r s))
        (sym there)
        (settle_run-Held name files p.1 p.0 t q begun (load_run-Keeps world t q name files there)
          parsed noted
          (λ run h.
            load_run-request world t q name files p.1 run there parsed
              (record { result = h; left = refl })))
