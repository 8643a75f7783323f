-- ===== src/Assignment/Examples.antt =====
-- A run that is cancelled while its runner works, and the run of an operator after a restart.
use testudo.Prelude.{
  ◌<◌, String, none, List, [], ◌∷◌, ok, err, ◌≡◌, refl, true, false, [], ◌∷◌, some, ok, err,
  Comparable-nat,
}
use testudo.Assignment.{
  Status, EventName, AssignmentError, Thread, RunState, Outcome, emit_event, admit, any_started,
  mark, cancel, choose, launched, launch, leave, receipted, close, finish, terminalize,
}
use testudo.Prelude.Text.{starts_with}
use testudo.Policy.Path.{starts, split_slash}
use testudo.Assignment.Request.{
  AssignmentRequest, RequestError, has_digest, validate_request, verify_request, accept, Scoped,
  accept-Scoped,
}
use testudo.Assignment.Identity.{
  Request, Service, assignment_ids, reject_duplicate_identity, start, start_all, Unique,
  start_all-Unique,
}
use testudo.Assignment.Life.{Step, Steps, Life}
use testudo.Assignment.Course.{admit-Life, Steps-Life, Steps-final}

abbrev running : RunState
running = launch admit

abbrev cancelled : RunState
cancelled = emit_event EventName.cancel_requested (record running { is_cancelled = true })

running-cancelled : cancel 5 running ≡ ok cancelled
unfolding cancel mark launch launched admit emit_event any_started
running-cancelled = refl

abbrev left : RunState
left = leave (Outcome.exit 0) cancelled

abbrev over : RunState
over = finish true Status.cancelled left

admit_prepares : admit.thread ≡ Thread.preparing
unfolding admit emit_event
admit_prepares = refl

cancelled_runs : cancelled.thread ≡ Thread.running
unfolding launch launched admit emit_event
cancelled_runs = refl

left_decided : left.thread ≡ Thread.decided Status.cancelled
unfolding leave choose launch launched admit emit_event
left_decided = refl

abbrev whole_run : Steps admit over
whole_run = Steps.then admit running over (Step.launches admit admit_prepares) (
    Steps.then running cancelled over (Step.cancels 5 running cancelled running-cancelled) (
      Steps.then cancelled left over (Step.returns (Outcome.exit 0) cancelled cancelled_runs) (
        Steps.then left over over (Step.finishes true Status.cancelled left left_decided)
          (Steps.here over))))

over_events :
    over.events
    ≡ record { sequence = 0; event = EventName.admitted }
      ∷ record { sequence = 1; event = EventName.started }
      ∷ record { sequence = 2; event = EventName.cancel_requested }
      ∷ record { sequence = 3; event = EventName.terminal Status.cancelled }
      ∷ []
unfolding finish close receipted leave choose launch launched admit emit_event
over_events = refl

no_second_end : terminalize true true Status.failed 5 over ≡ err AssignmentError.already_terminal
unfolding terminalize finish close receipted
no_second_end = refl

-- A terminal event that could not be written: there is no receipt, and a second attempt makes a second
-- terminal event.
abbrev interrupted : RunState
interrupted = record admit { thread = Thread.absent; recovered = true }

abbrev torn : RunState
torn = close false Status.failed (record interrupted { is_cancelled = true })

torn_left : terminalize false true Status.failed 5 interrupted ≡ ok torn
unfolding terminalize admit emit_event
torn_left = refl

two_ends :
    (close true Status.failed torn).events
    ≡ record { sequence = 0; event = EventName.admitted }
      ∷ record { sequence = 1; event = EventName.terminal Status.failed }
      ∷ record { sequence = 2; event = EventName.terminal Status.failed }
      ∷ []
unfolding close receipted admit emit_event
two_ends = refl

two_ends_left : terminalize true true Status.failed 5 torn ≡ ok (close true Status.failed torn)
unfolding terminalize close receipted admit emit_event
two_ends_left = refl

Steps-Life_example : Life over
Steps-Life_example = Steps-Life admit over whole_run refl admit-Life

over_receipt : over.receipt ≡ some (record { status = Status.cancelled; events = over.events })
unfolding finish close receipted emit_event
over_receipt = refl

Steps-final_example : over ≡ over
Steps-final_example =
    Steps-final over over (record { status = Status.cancelled; events = over.events })
      (Steps.here over) (Steps-Life admit over whole_run refl admit-Life) over_receipt

abbrev empty : Service
empty = record { runs = []; tombstones = []; envelope_tombstones = []; ambiguous = []; root = [] }

abbrev asked : List Request
asked =
    record { assignment_id = "a"; envelope_id = "e" }
    ∷ record { assignment_id = "b"; envelope_id = "e" }
    ∷ record { assignment_id = "a"; envelope_id = "f" }
    ∷ record { assignment_id = "c"; envelope_id = "g" }
    ∷ []

two_admitted : assignment_ids (start_all asked empty).runs ≡ "a" ∷ "c" ∷ []
unfolding start reject_duplicate_identity
two_admitted = refl

start_all-Unique_example : Unique (start_all asked empty)
start_all-Unique_example =
    start_all-Unique asked empty (record { assignments = refl; envelopes = refl })

abbrev request : AssignmentRequest
request = record {
  branch = "agent/fix";
  allowed_paths = (b's' ∷ b'r' ∷ b'c' ∷ b'/' ∷ b'a' ∷ []) ∷ [];
  capabilities = "git.push" ∷ [];
  expires_at = 30;
  image = b'i' ∷ b'@' ∷ b's' ∷ b'h' ∷ b'a' ∷ b'2' ∷ b'5' ∷ b'6' ∷ b':' ∷ b'1' ∷ [];
  artifact_store_id = none;
  egress_scanner_id = none;
  envelope_sha256 = "digest";
}

request_accepted : accept (λ r. "digest") 20 request ≡ ok request
unfolding accept validate_request verify_request has_digest starts_with starts split_slash
request_accepted = refl

climbing_refused :
    accept
      (λ r. "digest")
      20
      (record request { allowed_paths = (b'a' ∷ b'/' ∷ b'.' ∷ b'.' ∷ []) ∷ [] })
    ≡ err RequestError.unsafe_path
unfolding accept validate_request verify_request has_digest starts_with starts split_slash
climbing_refused = refl

accept-Scoped_example :
    (request ≡ request)
    × Scoped request
    × ◌≡◌ {A = String} "digest" request.envelope_sha256
    × (20 < 30)
accept-Scoped_example = accept-Scoped (λ r. "digest") 20 request request request_accepted
