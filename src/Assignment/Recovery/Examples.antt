-- ===== src/Assignment/Recovery/Examples.antt =====
-- A log that a crash cuts off, and state roots with a run that is whole, corrupt or in doubt.
use testudo.Prelude.{
  not, Result, List, String, ℕ, zero, suc, ◌<◌, ◌≡◌, refl, arith, Bool, true, false, [], ◌∷◌, none,
  some, ok, err, take, ◌==◌, Comparable-list, Comparable-nat, Comparable-string, if◌then◌else◌,
}
use testudo.Prelude.Dict.{get, set, has}
use testudo.Prelude.State.{◌>>=◌}
use testudo.Value.{end}
use testudo.Assignment.{EventName}
use testudo.Assignment.EventLog.{
  LogEvent, LogError, Codec, split_lines, log_of, accept_record, read_lines, read_tail,
  read_durable_events,
}
use testudo.Assignment.EventLog.RoundTrip.{Contiguous}
use testudo.Assignment.EventLog.Crash.{Survives, cut_log, read-Survives, read-Contiguous}
use testudo.Assignment.Identity.{
  Request, Service, assignment_ids, reject_duplicate_identity, start, after,
}
use testudo.Assignment.Recovery.{
  Aborted, Name, Entry, Files, Node, DurableRequest, QuarantineReason, World, Write, Loaded,
  register_tombstone,
}
use testudo.Assignment.Recovery.Quarantine.{
  tombstone_for, write_tombstone, quarantine, recover_identity,
}
use testudo.Assignment.Recovery.Load.{load_run, load_dir, load_durable_state, new_service}
use testudo.Assignment.Recovery.Restart.{restarted}
use testudo.Assignment.Recovery.Operator.{
  Reconciled, reconcile_quarantine, reconcile_quarantine-Reconciled,
}

abbrev event : ℕ → EventName → LogEvent
event n name = record {
  assignment_id = "a";
  run_id = "a";
  sequence = n;
  event = name;
  at = 5;
  details = end;
}

abbrev first_event : LogEvent
first_event = event 0 EventName.admitted

abbrev second_event : LogEvent
second_event = event 1 EventName.started

-- A record is printed as two bytes and its number.
abbrev codec : Codec
codec = record {
  parse = λ t.
      if t == (7 ∷ 8 ∷ 0 ∷ [])
      then some first_event
      else if t == (7 ∷ 8 ∷ 1 ∷ [])
      then some second_event
      else none;
  canonical = λ e. 7 ∷ 8 ∷ e.sequence ∷ [];
}

torn_fails : (m : ℕ) → m < 3 → codec.parse (take m (7 ∷ 8 ∷ 1 ∷ [])) ≡ none
torn_fails zero h = refl
torn_fails (suc zero) h = refl
torn_fails (suc (suc zero)) h = refl
torn_fails (suc (suc (suc m))) h = absurd (omega (arith, h))

read-Survives_example :
    Survives codec "a" "a"
      (first_event ∷ [])
      second_event
      (cut_log codec "a" "a" (first_event ∷ []) second_event 2)
read-Survives_example =
    read-Survives codec "a" "a" (first_event ∷ []) second_event 2
      (record { back = refl; one_line = refl }, tt) (record { back = refl; one_line = refl })
      ((refl, refl, refl), tt) (refl, refl, refl) torn_fails refl

torn_log :
    read_durable_events codec "a" "a" (7 ∷ 8 ∷ 0 ∷ 10 ∷ 7 ∷ [])
    ≡ ok (first_event ∷ [], some (7 ∷ 8 ∷ 0 ∷ 10 ∷ []))
unfolding read_durable_events split_lines read_lines read_tail accept_record log_of
torn_log = refl

corrupt_log :
    read_durable_events codec "a" "a" (7 ∷ 10 ∷ 7 ∷ 8 ∷ 0 ∷ 10 ∷ []) ≡ err LogError.unparsable
unfolding read_durable_events split_lines read_lines read_tail accept_record log_of
corrupt_log = refl

read-Contiguous_example : Contiguous "a" "a" 0 (first_event ∷ [])
read-Contiguous_example =
    read-Contiguous codec "a" "a" (7 ∷ 8 ∷ 0 ∷ 10 ∷ 7 ∷ []) (first_event ∷ [])
      (some (7 ∷ 8 ∷ 0 ∷ 10 ∷ [])) torn_log

abbrev asked : DurableRequest
asked = record {
  assignment_id = "a";
  envelope_id = "e";
  envelope_sha256 = "digest";
  backend = "microvm";
}

abbrev world : (Write → Bool) → World
world fails = record {
  codec = codec;
  parse_request = λ t. if t == (1 ∷ []) then some asked else none;
  parse_receipt = λ t. none;
  parse_tombstone = λ t. none;
  print_tombstone = λ t. 2 ∷ [];
  accepts = λ t. not (t.assignment_id == "");
  print_note = λ name reason. 3 ∷ [];
  digest = λ events. "events";
  now = 20;
  fails = fails;
}

-- A run with its request, and one whose receipt is corrupt.
abbrev whole : Files
whole = ("request.json", Entry.file (1 ∷ [])) ∷ []

abbrev corrupt : Files
corrupt = ("request.json", Entry.file (1 ∷ [])) ∷ ("receipt.json", Entry.file (9 ∷ [])) ∷ []

abbrev calm : World
calm = world (λ w. false)

abbrev is_there : Result Aborted Service → Bool
is_there (ok service) = true
is_there (err e) = false

there_is_a_service :
    is_there (
      restarted calm
        ((Name.base "z", Node.plain_file) ∷ (Name.base "a", Node.directory corrupt) ∷ []))
    ≡ true
unfolding load_durable_state load_dir load_run quarantine write_tombstone recover_identity
    register_tombstone get set has ◌>>=◌
there_is_a_service = refl

-- A tombstone whose reason is too long: the constructor raises, and no run of the root is there.
abbrev strict : World
strict = record calm { accepts = λ t. false }

no_constructor :
    is_there (
      restarted strict
        ((Name.base "a", Node.directory corrupt) ∷ (Name.base "b", Node.directory whole) ∷ []))
    ≡ false
unfolding load_durable_state load_dir load_run quarantine write_tombstone recover_identity get set
    ◌>>=◌
no_constructor = refl

-- The note of the quarantine cannot be written: the run has no tombstone, the root is in no doubt, and its
-- assignment id is given away again.
abbrev noteless : World
noteless = world (λ w. elim w [
  | Write.noting n ↦ true
  | Write.renaming n ↦ false
  | Write.burying n ↦ false
  | Write.marking n ↦ false
  | Write.rewriting n ↦ false
])

abbrev forgotten : Result Aborted Service
forgotten = restarted noteless ((Name.base "a", Node.directory corrupt) ∷ [])

abbrev ids_after : Request → Result Aborted Service → List String
ids_after r (err e) = []
ids_after r (ok service) = assignment_ids (after (start r service) service).runs

reused : ids_after (record { assignment_id = "a"; envelope_id = "f" }) forgotten ≡ "a" ∷ []
unfolding start reject_duplicate_identity load_durable_state load_dir load_run quarantine get set
    ◌>>=◌
reused = refl

abbrev doubtful : Loaded
doubtful = record (new_service calm ((Name.quarantined (Name.base "x"), Node.directory []) ∷ [])) {
  ambiguous = Name.base "x" ∷ [];
}

abbrev settled : Loaded
settled = (reconcile_quarantine calm true true (Name.base "x") asked doubtful).1

reconcile_quarantine-Reconciled_example :
    (true ≡ true)
    × Reconciled calm true
        (Name.base "x")
        asked
        (tombstone_for calm asked QuarantineReason.operator_reconciliation)
        doubtful
        settled
unfolding reconcile_quarantine write_tombstone register_tombstone get set has
reconcile_quarantine-Reconciled_example =
    reconcile_quarantine-Reconciled calm true true (Name.base "x") asked
      (tombstone_for calm asked QuarantineReason.operator_reconciliation) doubtful settled refl refl
