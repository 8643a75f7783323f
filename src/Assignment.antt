-- ===== src/Assignment.antt =====
-- `AssignmentService` of src/testudo/runtime/assignment.py: the life of one run, as the sections that
-- hold the lock of its `_RunState` and the thread of `_execute` between them. Files, digests and the
-- runner are outside.
pub mod Life
pub mod Course
pub mod Request
pub mod Identity
pub mod EventLog
pub mod Recovery
mod Examples
use testudo.Prelude.{
  ℕ, ◌+◌, String, Bool, true, false, not, ◌&&◌, ◌||◌, List, [], ◌∷◌, ◌++◌, Option, none, some,
  Result, ok, err, length, ltb, ◌==◌, Comparable-nat, if◌then◌else◌,
}

pub data Status : Type 0 where
  succeeded failed cancelled refused : Status

-- `AssignmentEventName`
pub data EventName : Type 0 where
  admitted started cancel_requested : EventName
  terminal : Status → EventName

pub record AssignmentEvent : Type 0 where
  pub sequence : ℕ
  pub event : EventName

-- `AssignmentReceipt`: its status, and the events that its digest binds.
pub record AssignmentReceipt : Type 0 where
  pub status : Status
  pub events : List AssignmentEvent

pub data AssignmentError : Type 0 where
  bad_reason already_terminal needs_reconciliation not_authorized not_interrupted : AssignmentError
  cancelled_before_startup : AssignmentError

-- Where the thread of `_execute` is: before its first section, in `runner.run`, before its last
-- section with the status that it has chosen, or at its end. A recovered run has none.
pub data Thread : Type 0 where
  preparing running ended absent : Thread
  decided : Status → Thread

pub record RunState : Type 0 where
  pub thread : Thread
  pub has_runner : Bool
  pub events : List AssignmentEvent
  pub receipt : Option AssignmentReceipt
  pub is_cancelled : Bool
  pub recovered : Bool

-- What `_emit` leaves: the event stands in `state.events` before it is written, so that a write that
-- raises leaves the same state. For `cancel` and `start` nothing else depends on it, and in `_execute` a
-- "started" whose write raises is followed by what any exception of the runner is followed by; the
-- terminal events are those for which `written` says whether the write, and what follows it before the
-- receipt is kept, returned.
unfoldable pub emit_event : EventName → RunState → RunState
emit_event name s = record s {
  events = s.events ++ record { sequence = length s.events; event = name } ∷ [];
}

-- What `start` makes of a request that it admits.
unfoldable pub admit : RunState
unfolding emit_event
admit = emit_event EventName.admitted (record {
  thread = Thread.preparing;
  has_runner = false;
  events = [];
  receipt = none;
  is_cancelled = false;
  recovered = false;
})

abbrev pub is_started : EventName → Bool
is_started EventName.started = true
is_started EventName.admitted = false
is_started EventName.cancel_requested = false
is_started (EventName.terminal status) = false

-- `any(event.event == "started" for event in state.events)`
unfoldable pub any_started : List AssignmentEvent → Bool
any_started [] = false
any_started (e ∷ events) = is_started e.event || any_started events

abbrev pub is_some : {A : Type 0} → Option A → Bool
is_some none = false
is_some (some a) = true

-- `not reason or len(reason) > 1024`, by the reason's length
abbrev pub is_bad_reason : ℕ → Bool
is_bad_reason size = size == 0 || ltb 1024 size

-- The end of `cancel`, by whether the run was cancelled before.
unfoldable pub mark : Bool → RunState → RunState
mark true s = s
mark false s = emit_event EventName.cancel_requested (record s { is_cancelled = true })

-- `cancel`: the state that it leaves, or what it raises. The call of the stop handle is outside.
unfoldable pub cancel : ℕ → RunState → Result AssignmentError RunState
cancel size s =
    if is_bad_reason size
    then err AssignmentError.bad_reason
    else if is_some s.receipt
    then err AssignmentError.already_terminal
    else if not s.has_runner && any_started s.events
    then err AssignmentError.needs_reconciliation
    else ok (mark s.is_cancelled s)

-- What ended the work of the thread: the exit of the runner, an AssignmentError, or another exception.
pub data Outcome : Type 0 where
  exit : ℕ → Outcome
  assignment_error other_error : Outcome

-- The status that `_execute` chooses, before its last section.
unfoldable pub choose : Bool → Outcome → Status
choose true outcome = Status.cancelled
choose false (Outcome.exit n) = if n == 0 then Status.succeeded else Status.failed
choose false Outcome.assignment_error = Status.refused
choose false Outcome.other_error = Status.failed

-- The section that registers the runner, by whether the run is cancelled.
unfoldable pub launched : Bool → RunState → RunState
launched true s = record s { thread = Thread.decided (choose true Outcome.assignment_error) }
launched false s = emit_event EventName.started (record s { thread = Thread.running })

unfoldable pub launch : RunState → RunState
launch s = launched s.is_cancelled (record s { has_runner = true })

-- The thread leaves its work.
unfoldable pub leave : Outcome → RunState → RunState
leave outcome s = record s { thread = Thread.decided (choose s.is_cancelled outcome) }

-- The receipt for the events so far, if the write of the terminal event returned.
unfoldable pub receipted : Bool → Status → RunState → RunState
receipted true status s = record s {
  receipt = some (record { status = status; events = s.events });
}
receipted false status s = s

unfoldable pub close : Bool → Status → RunState → RunState
close written status s = receipted written status (emit_event (EventName.terminal status) s)

-- The last section. The thread ends with it, also where it raises.
unfoldable pub finish : Bool → Status → RunState → RunState
finish written status s =
    close written status (record s { has_runner = false; thread = Thread.ended })

-- `terminalize`, with the verdict of the operator's verifier: what its guards raise, or the state that it
-- leaves. It raises behind that state if the event was not written.
unfoldable pub terminalize : Bool → Bool → Status → ℕ → RunState → Result AssignmentError RunState
terminalize written authorized status size s =
    if not authorized
    then err AssignmentError.not_authorized
    else if is_bad_reason size
    then err AssignmentError.bad_reason
    else if is_some s.receipt
    then err AssignmentError.already_terminal
    else if s.has_runner || not s.recovered
    then err AssignmentError.not_interrupted
    else ok (close written status (record s { is_cancelled = true }))
