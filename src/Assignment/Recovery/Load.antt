-- ===== src/Assignment/Recovery/Load.antt =====
-- The recovery of one run, the three loops of `_load_durable_state`, and the service that they leave.
use testudo.Prelude.{
  String, Bool, not, ◌&&◌, List, [], ◌∷◌, ◌++◌, Option, none, some, Result, ok, err, ◌==◌,
  Comparable-string, elem, if◌then◌else◌,
}
use testudo.Prelude.Dict.{set, keys}
use testudo.Prelude.State.{Act, return, raise, ◌>>=◌}
use testudo.Policy.Path.{Text}
use testudo.Assignment.EventLog.{LogEvent, LogError, read_durable_events}
use testudo.Assignment.Identity.{RunDir, Service}
use testudo.Assignment.Recovery.{
  Aborted, texts, Name, text, Entry, Files, Node, Root, DurableRequest, DurableReceipt, LoadError,
  QuarantineReason, Write, World, Run, Loaded, Read, read, requests, ids, put_node, add_ambiguous,
}
use testudo.Assignment.Recovery.Quarantine.{load_tombstone, of_request, quarantine}

module _ (world : World) where
  abbrev pub parsed_request : Option DurableRequest → Act Files LoadError DurableRequest
  parsed_request none = raise LoadError.bad_request
  parsed_request (some q) = return q

  abbrev pub load_request : Read → Act Files LoadError DurableRequest
  load_request (Read.content t) = parsed_request (world.parse_request t)
  load_request _ = raise LoadError.not_read

  abbrev pub rewrite :
      Name → Result LogError (List LogEvent × Option Text) → Act Files LoadError (List LogEvent)
  rewrite name (err e) files = (err (LoadError.event_log e), files)
  rewrite name (ok (events, none)) files = (ok events, files)
  rewrite name (ok (events, some payload)) files =
      if world.fails (Write.rewriting name)
      then (err LoadError.not_rewritten, files)
      else (ok events, set files "events.jsonl" (Entry.file payload))

  abbrev pub load_events : Name → DurableRequest → Read → Act Files LoadError (List LogEvent)
  load_events name q Read.missing = return []
  load_events name q Read.failed = raise LoadError.not_read
  load_events name q (Read.content raw) =
      rewrite name (read_durable_events world.codec q.assignment_id q.assignment_id raw)

  abbrev pub is_same_identity : DurableReceipt → DurableRequest → Bool
  is_same_identity r q =
      r.assignment_id == q.assignment_id
      && r.envelope_id == q.envelope_id
      && r.envelope_sha256 == q.envelope_sha256
      && r.run_id == q.assignment_id
      && r.backend == q.backend

  abbrev pub checked_receipt :
      DurableRequest
      → List LogEvent
      → Option DurableReceipt
      → Act Files LoadError (Option DurableReceipt)
  checked_receipt q events none files = (err LoadError.bad_receipt, files)
  checked_receipt q events (some r) files =
      if not (is_same_identity r q)
      then (err LoadError.receipt_identity, files)
      else if not (r.events_sha256 == world.digest events)
      then (err LoadError.receipt_events, files)
      else (ok (some r), files)

  abbrev pub load_receipt :
      DurableRequest → List LogEvent → Read → Act Files LoadError (Option DurableReceipt)
  load_receipt q events Read.missing = return none
  load_receipt q events Read.failed = raise LoadError.not_read
  load_receipt q events (Read.content t) = checked_receipt q events (world.parse_receipt t)

  -- The body of `try`; each file is read from the directory as it then is.
  unfoldable pub load_run : Name → Act Files LoadError Run
  load_run name = do
    q ← λ files. load_request (read files "request.json") files
    events ← λ files. load_events name q (read files "events.jsonl") files
    receipt ← λ files. load_receipt q events (read files "receipt.json") files
    return (record { request = q; events = events; receipt = receipt })

  abbrev pub settle_run : Name → Files → Result LoadError Run → Loaded → Result Aborted Loaded
  settle_run name files (err e) s = quarantine world name files (QuarantineReason.raised e) s
  settle_run name files (ok run) s =
      if elem run.request.assignment_id (ids s.runs)
      then quarantine world name files (QuarantineReason.raised LoadError.duplicate_identity) s
      else ok (record s { runs = s.runs ++ run ∷ [] })

  abbrev pub with_request : Name → Files → Loaded → Result Aborted Loaded
  with_request name files s =
      let (r, left) = load_run name files in
      settle_run name left r (record s { root = put_node s.root name (Node.directory left) })

  -- The body of the last loop.
  unfoldable pub load_dir : Name → Files → Read → Loaded → Result Aborted Loaded
  load_dir name files Read.missing s =
      quarantine world name files QuarantineReason.missing_request s
  load_dir name files Read.failed s = with_request name files s
  load_dir name files (Read.content t) s = with_request name files s

  -- The bodies of the three loops over the listing.
  abbrev pub first_pass : Name × Node → Loaded → Loaded
  first_pass (Name.quarantined n, Node.directory files) s =
      load_tombstone world n files (read files "identity-tombstone.json") s
  first_pass _ s = s

  abbrev pub second_pass : Name × Node → Loaded → Loaded
  second_pass (Name.marker n, Node.plain_file) s = add_ambiguous n s
  second_pass _ s = s

  abbrev pub third_pass : Name × Node → Loaded → Result Aborted Loaded
  third_pass (Name.quarantined n, Node.directory files) s = ok s
  third_pass (name, Node.directory files) s = load_dir name files (read files "request.json") s
  third_pass _ s = ok s

  abbrev pub each_node : (Name × Node → Loaded → Loaded) → Root → Loaded → Loaded
  each_node pass [] s = s
  each_node pass (x ∷ root) s = each_node pass root (pass x s)

  -- A body that raises ends its loop.
  abbrev pub and_then :
      Result Aborted Loaded → (Loaded → Result Aborted Loaded) → Result Aborted Loaded
  and_then (ok s) rest = rest s
  and_then (err e) rest = err e

  abbrev pub each_run :
      (Name × Node → Loaded → Result Aborted Loaded) → Root → Loaded → Result Aborted Loaded
  each_run pass [] s = ok s
  each_run pass (x ∷ root) s = and_then (pass x s) (each_run pass root)

  abbrev pub new_service : Root → Loaded
  new_service root = record {
    runs = [];
    tombstones = [];
    envelope_tombstones = [];
    ambiguous = [];
    root = root;
  }

  unfoldable pub load_durable_state : Root → Result Aborted Loaded
  load_durable_state root =
      each_run third_pass root
        (each_node second_pass root (each_node first_pass root (new_service root)))

  abbrev pub envelope_of : Node → Option String
  envelope_of (Node.directory files) = elim (of_request world (read files "request.json")) [
    | none ↦ none
    | some q ↦ some q.envelope_id
  ]
  envelope_of _ = none

  abbrev pub dirs : Root → List RunDir
  dirs [] = []
  dirs ((name, node) ∷ root) = record { name = text name; envelope = envelope_of node } ∷ dirs root

  -- The service that `start` sees.
  abbrev pub service_of : Loaded → Service
  service_of s = record {
    runs = requests s.runs;
    tombstones = keys s.tombstones;
    envelope_tombstones = keys s.envelope_tombstones;
    ambiguous = texts s.ambiguous;
    root = dirs s.root;
  }
