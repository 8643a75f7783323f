-- ===== src/Assignment/Recovery/Quarantine.antt =====
-- The tombstones and the quarantine of runs that cannot be recovered (runtime/assignment.py).
use testudo.Prelude.{
  Result, ok, err, not, Bool, true, false, ◌||◌, Option, none, some, Comparable-string,
  if◌then◌else◌,
}
use testudo.Prelude.Dict.{set}
use testudo.Assignment.Recovery.{
  Aborted, Name, Entry, Files, Node, DurableRequest, DurableReceipt, QuarantineReason, Tombstone,
  Write, World, Loaded, Read, read, exists_in, is_file_in, put_node, remove_node,
  register_tombstone, add_ambiguous, has_evidence, is_pre_admission,
}

module _ (world : World) where
  abbrev pub on_tombstone : Name → Option Tombstone → Loaded → Loaded
  on_tombstone name none s = add_ambiguous name s
  on_tombstone name (some t) s = register_tombstone t s

  -- `_load_tombstone`, by the file of the tombstone
  unfoldable pub load_tombstone : Name → Files → Read → Loaded → Loaded
  load_tombstone name files Read.missing s = if has_evidence files then add_ambiguous name s else s
  load_tombstone name files Read.failed s = add_ambiguous name s
  load_tombstone name files (Read.content t) s = on_tombstone name (world.parse_tombstone t) s

  -- `_mark_ambiguous`
  unfoldable pub mark_ambiguous : Name → Loaded → Loaded
  mark_ambiguous name s =
      let t = add_ambiguous name s in
      if is_file_in s.root (Name.marker name) || world.fails (Write.marking name)
      then t
      else record t { root = put_node s.root (Name.marker name) Node.plain_file }

  abbrev pub tombstone_for : DurableRequest → QuarantineReason → Tombstone
  tombstone_for q reason = record {
    assignment_id = q.assignment_id;
    envelope_id = q.envelope_id;
    envelope_sha256 = q.envelope_sha256;
    quarantined_at = world.now;
    reason = reason;
  }

  -- `_write_tombstone` into the files of a quarantined run, with whether it persisted. The tombstone is made,
  -- and checked, outside the `try`.
  unfoldable pub write_tombstone :
      Name → Files → DurableRequest → QuarantineReason → Loaded → Result Aborted (Bool × Loaded)
  write_tombstone name files q reason s =
      let t = tombstone_for q reason in
      if not (world.accepts t)
      then err (Aborted.invalid_tombstone t s)
      else if world.fails (Write.burying name)
      then ok (false, register_tombstone t (add_ambiguous name s))
      else ok (
        true,
        register_tombstone t (record s {
          root = put_node s.root (Name.quarantined name) (
              Node.directory
                (set files "identity-tombstone.json" (Entry.file (world.print_tombstone t))));
        }),
      )

  abbrev pub of_request : Read → Option DurableRequest
  of_request (Read.content t) = world.parse_request t
  of_request _ = none

  abbrev pub from_receipt : Option DurableReceipt → Option DurableRequest
  from_receipt none = none
  from_receipt (some r) = some (record {
    assignment_id = r.assignment_id;
    envelope_id = r.envelope_id;
    envelope_sha256 = r.envelope_sha256;
    backend = r.backend;
  })

  abbrev pub of_receipt : Read → Option DurableRequest
  of_receipt (Read.content t) = from_receipt (world.parse_receipt t)
  of_receipt _ = none

  abbrev pub first_of : Option DurableRequest → Option DurableRequest → Option DurableRequest
  first_of none q = q
  first_of (some q) r = some q

  -- `_recover_identity`
  unfoldable pub recover_identity : Files → Option DurableRequest
  recover_identity files =
      first_of (of_request (read files "request.json")) (of_receipt (read files "receipt.json"))

  abbrev pub left_by : Result Aborted (Bool × Loaded) → Result Aborted Loaded
  left_by (ok (persisted, s)) = ok s
  left_by (err e) = err e

  abbrev pub bury :
      Name → Files → QuarantineReason → Option DurableRequest → Loaded → Result Aborted Loaded
  bury name files reason none s = ok (mark_ambiguous name s)
  bury name files reason (some q) s = left_by (write_tombstone name files q reason s)

  -- `_quarantine` behind the note
  abbrev pub after_note : Name → Files → QuarantineReason → Loaded → Result Aborted Loaded
  after_note name files reason s =
      if is_pre_admission files
      then ok s
      else let noted = set files "quarantine.json" (Entry.file (world.print_note name reason)) in
        bury name noted reason (recover_identity noted) s

  abbrev pub noted_reason : Files → QuarantineReason → QuarantineReason
  noted_reason files reason =
      if is_pre_admission files then QuarantineReason.pre_admission else reason

  abbrev pub moved_aside : Name → Files → Loaded → Loaded
  moved_aside name files s = record s {
    root = put_node (remove_node s.root name) (Name.quarantined name) (Node.directory files);
  }

  unfoldable pub quarantine : Name → Files → QuarantineReason → Loaded → Result Aborted Loaded
  quarantine name files reason s =
      if exists_in s.root (Name.quarantined name)
      then ok (mark_ambiguous name s)
      else if world.fails (Write.renaming name)
      then ok (mark_ambiguous name s)
      else if world.fails (Write.noting name)
      then ok (moved_aside name files s)
      else after_note name files (noted_reason files reason) (
          moved_aside name
            (set files "quarantine.json"
              (Entry.file (world.print_note name (noted_reason files reason))))
            s)
