-- ===== src/Lib.antt =====
-- A verification library for Testudo (src/testudo), which runs workflows of agents under policies
-- and supervises the workers that it starts in virtual machines.
--
-- The parts, and how they interact. A workflow is a list of steps; the executor sorts them by their
-- needs and calls the tools of a registry, with arguments in which references to inputs and earlier
-- outputs are resolved, and writes an audit log. A governed run happens in a worker: the host issues
-- it a capability token, the supervisor grants or refuses its requests by that token and kills the
-- worker when it leaves its scope, host and worker exchange frames over a socket in a broker session,
-- and declared policies bound the storage and the network of the run; an enforcer decides on each mount,
-- path, network request, launch and publication of the run under them. The host controller launches the
-- worker, passes on what it says, and issues a receipt for a result that it has verified. The assignment
-- service admits a request, runs it in a thread, and closes it with a receipt.
--
-- The files, by the code that they model:
-- * Transport (src/testudo/runtime/transport.py): `Frame` with its checks (post_init, to_mapping,
--   from_mapping), encode_frame and decode_frame, the length prefix, `_read_exact` over a socket that
--   is a list of segments (read_exact, read_loop), write_frame and read_frame.
-- * Broker (src/testudo/runtime/broker.py): `BrokerSession` as a record that its methods pass on:
--   send, receive, bootstrap, run, stop, close, with the tables of its states.
-- * Orchestrator (src/testudo/orchestrator): the workflow model (workflow.py). Its module Sort is
--   `Executor._topological_sort`, Refs is `_resolve`, `_resolve_ref` and `_eval_when`, Executor is the
--   registry (registry.py), the context (context.py) and the audit event (audit/events.py), and
--   Executor/Run is the loop `Executor.run` (executor.py).
-- * Capability (src/testudo/runtime/capability.py): the token and its payload; Verify and Issue are the
--   class methods of those names with `_from_payload` and `_sign_payload`; Supervisor is
--   `WorkerSupervisor`, whose callbacks are recorded as a list of calls.
-- * Lifecycle (src/testudo/runtime/worker.py): `WorkerLifecycle` on the calls of Prelude.State. The trip
--   of its supervisor is written with the callbacks that it is given, whose flags it changes; a call of
--   the host is recorded and may raise, and the loop of `wait` is a list of turns. Counts is how often the
--   host is called, Exit what the block behind an exit calls, Released what has been done when `wait` or
--   `stop` returns.
-- * Policy (src/testudo/runtime/policy.py): Path is `_under`, `_validate_guest_path` and
--   `_validate_limit`, Host is `_validate_host`, Storage and Network are the two policies with their
--   validators; Contained says where an accepted path leads, Egress what a network policy allows.
-- * Enforcer (src/testudo/runtime/policy_enforcer.py): receipts, decisions and the state of a
--   `PolicyEnforcer`. Decisions is `_decision` and the guards that its checks share, Paths is where
--   guest and host paths lead, Mounts is check_mount, check_storage and before_launch, Egress is
--   check_network, Publication is before_publication, check_policy_digest and the wipe, Init is
--   `__init__`. A check reads the clock and takes a number as the code does, and what is between its
--   guards and its decision is a `judge_` function of the arguments. Guards, Ways, Outcomes and Effects
--   say what a call comes to, Course and Limits what any calls keep to, Listed, Allowed, Plan, Bindings,
--   Sound, Launch and Mismatch when a check allows.
-- * Controller (src/testudo/runtime/controller.py): `HostController` with its events, its stop and its
--   cleanup; Checks is what it asks of a contract, a result and a receipt, Receive is the loop of `run`
--   over the frames, Run is the rest of `run`. A call is one of Prelude.State; the
--   worker's adapter is a record of what each of its calls raises or returns, with the frames that it
--   receives as a list of turns. Keeps and Returned are the reasoning on such calls, Unstopped, Stop and
--   Ended how a worker is ended, Counting and Numbered its events, Verified, Concluded and Correct what
--   stands behind a result.
-- * Assignment (src/testudo/runtime/assignment.py): one run of the assignment service, as the sections
--   that hold its lock (`start`, `cancel`, `terminalize` and the two of `_execute`) with the thread of
--   `_execute` between them; Life is the step relation, Course what holds over any interleaving.
--   Identity is the part of `start` that rejects duplicates, with `reconcile`; Request is the validation
--   and `verify` of `AssignmentRequest`. EventLog is `_read_durable_events` on bytes, with RoundTrip and
--   Crash on what a log gives back; Recovery is `_load_durable_state` over a state root of named nodes,
--   with Quarantine (`_quarantine`, `_write_tombstone`, `_mark_ambiguous`, `_load_tombstone`), Load (the
--   three loops) and Operator (`reconcile_quarantine`); Grows, Admitted, Held and Restart are the proofs.
-- * Value is the data that cross these boundaries: dicts, lists, texts, integers, Booleans, None, and
--   numbered objects for everything else. Prelude holds the helpers: Python's dict as an association
--   list, its text methods, results, lists.
--
-- Bounds and fuel. `visit` of Sort has as fuel one more than the number of steps: each nested call
-- holds another id of the workflow in `visiting`, so that no workflow exhausts it. `read_loop` has as
-- fuel the number of bytes wanted, since each segment received has a byte at least. All other loops
-- are structural: the loop of the controller is by recursion on the turns, behind which receive raises.
-- Python's integers have no bound; the four bytes of a length prefix are written out.
--
-- Parameters: cbor2 with what the round trip of a frame needs of it, `getattr`, `str` and `bool` of
-- objects, the tools, the file of the audit log, JSON, HMAC, signers, the format of timestamps, the clock
-- and random ids, IP addresses, and the case mapping of Unicode texts; for the enforcer and the
-- controller also SHA-256, the resolution of paths, the callback of a wipe, the sink of events and the
-- adapter of the worker; for the recovery the parsers and printers of its files, which of its writes
-- raise, and what pydantic accepts as a tombstone. Listings do not raise.
--
-- Writes that raise: what the audit log raises on an event leaves `run` of the executor (`writing`). An
-- event of an assignment is appended before it is written, so that a failing write leaves the same events;
-- whether that of a terminal event returns is an argument. `Path.resolve` is assumed to return, though it
-- raises on a loop of symbolic links (`expected_host_path`, `check_mount`).
--
-- Not modelled: the wall clock of events, the text of messages (an exception is told by its class and
-- its data), fractions of seconds, stops of a run by another thread but between two of its frames,
-- the syncing of files, the promotion of artifacts, and the parts of the program beyond these
-- modules: most of them are adapters of the host's processes, containers and remote services.
pub mod Assignment
pub mod Broker
pub mod Capability
pub mod Controller
pub mod Enforcer
pub mod Lifecycle
pub mod Orchestrator
pub mod Policy
pub mod Prelude
pub mod Transport
pub mod Value
