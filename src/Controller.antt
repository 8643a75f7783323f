-- ===== src/Controller.antt =====
-- The data and the state of `HostController` of src/testudo/runtime/controller.py, with its events. What the
-- worker's adapter and the sink of events do is a parameter: each call may raise.
pub mod Checks
pub mod Receive
pub mod Run
pub mod Keeps
pub mod Unstopped
pub mod Stop
pub mod Ended
pub mod Returned
pub mod Verified
pub mod Concluded
pub mod Correct
pub mod Counting
pub mod Numbered
mod Examples
use testudo.Prelude.{
  ℕ, suc, ◌+◌, String, Bool, true, false, not, ◌||◌, List, [], ◌∷◌, ◌++◌, Option, none, some, ℤ,
  Result, ok, err, ◌==◌, Comparable-string, if◌then◌else◌,
}
use testudo.Prelude.State.{return, raise, continue, ◌>>=◌, ◌>>◌}
use testudo.Value.{Value, Fields, str, int, dict, field, end}
use testudo.Transport.{Frame}

-- `HostControllerError` by what it says, and the exceptions of the adapter and of the sink.
pub data Fault : Type 0 where
  identity_required workflow_not_map timeout_not_positive already_active no_active_run : Fault
  reason_required event_identity_required timed_out not_text stdout_exceeded stderr_exceeded : Fault
  duplicate_receipt guest_failed hash_mismatch bad_exit_status missing_receipt bad_containment :
      Fault
  containment_mismatch unrequested_containment bad_artifact_digest exit_disagrees : Fault
  bad_receipt : Fault
  contract_mismatch receipt_mismatch_of : String → Fault
  adapter_raised : ℕ → Fault

-- `HostEvent`
pub record HostEvent : Type 0 where
  pub event : String
  pub run_id : String
  pub token_id : String
  pub sequence : ℕ
  pub details : Fields
  pub receipt_id : String

-- The calls of the adapter that end a worker.
pub data Ending : Type 0 where
  lifecycle_stop broker_stop : String → Ending
  closed : Ending

-- `HostController`, with the events that its sink was given and the calls that end its workers.
pub record HostController : Type 0 where
  pub active : Option String
  pub stop_called : Bool
  pub sequence : ℕ
  pub events : List HostEvent
  pub endings : List Ending

-- One turn of the loop of `run`: a stop by the operator before it, the check of the lifecycle, the reading
-- of the clock, and the frame that is received. A stop between two turns stands for one that another
-- thread or the sink asks for.
pub record Turn : Type 0 where
  pub operator : Option String
  pub check : Option Fault
  pub now : ℕ
  pub received : Result Fault Frame

pub record Output : Type 0 where
  pub stdout : String
  pub stderr : String
  pub stdout_truncated : Bool
  pub stderr_truncated : Bool

-- What a worker does on the calls of its adapter; `after` is what `receive` raises when no turn is left.
pub record Worker : Type 0 where
  pub launch : Option Fault
  pub token_id : String
  pub bootstrap : Option Fault
  pub start : Option Fault
  pub turns : List Turn
  pub after : Fault
  pub last_check : Option Fault
  pub waiting_at : ℕ
  pub wait : Option ℕ → Result Fault ℤ
  pub output : Option ℕ → Result Fault Output
  pub stop : Option Fault
  pub close : Option Fault
  pub ended_at : ℕ

-- Hashes, the sink, Python's equality of values, and the clock at the start.
pub record World : Type 0 where
  pub sha256 : Fields → String
  pub sha256_text : String → String
  pub sink : HostEvent → Option Fault
  pub equal : Value → Value → Bool
  pub started : ℕ

-- A call of a method of the controller.
abbrev pub Act : Type 0 → Type 0
Act A = testudo.Prelude.State.Act HostController Fault A

-- A result that does not depend on the state.
abbrev pub lift : {A : Type 0} → Result Fault A → Act A
lift r s = (r, s)

-- A call that may raise.
abbrev pub call : Option Fault → Act (Unit {0})
call none s = (ok tt, s)
call (some e) s = (err e, s)

-- The sequence of an event as a value of its payload.
abbrev natural : ℕ → Value
natural n = int (ℤ.pos n)

-- `HostEvent.to_dict` without the hash, which is that of this payload.
abbrev pub event_payload : String → String → String → ℕ → Fields → Fields
event_payload event run_id token_id sequence details =
    field "schema" (str "testudo.host.event.v1") (
      field "event" (str event) (
        field "run_id" (str run_id) (
          field "token_id" (str token_id)
            (field "sequence" (natural sequence) (field "details" (dict details) end)))))

abbrev pub reason_details : String → Fields
reason_details reason = field "reason" (str reason) end

module _ (world : World) where
  abbrev pub new_event : String → String → String → ℕ → Fields → HostEvent
  new_event event run_id token_id sequence details = record {
    event = event;
    run_id = run_id;
    token_id = token_id;
    sequence = sequence;
    details = details;
    receipt_id = world.sha256 (event_payload event run_id token_id sequence details);
  }

  -- `self._events(record)`: the sink has the event whether or not it raises.
  abbrev pub deliver : HostEvent → Act (Unit {0})
  deliver record_of s =
      call (world.sink record_of)
        (record s { sequence = suc s.sequence; events = s.events ++ record_of ∷ [] })

  -- `_emit`, with the check of `HostEvent.__post_init__`
  unfoldable pub emit_host : String → String → String → Fields → Act (Unit {0})
  emit_host event run_id token_id details s =
      if run_id == "" || token_id == ""
      then (err Fault.event_identity_required, s)
      else deliver (new_event event run_id token_id s.sequence details) s

  abbrev pub ending : Ending → Option Fault → Act (Unit {0})
  ending e fault s = call fault (record s { endings = s.endings ++ e ∷ [] })

  abbrev pub mark_stopped : Act (Unit {0})
  mark_stopped s = (ok tt, record s { stop_called = true })

  -- `stop` from `_stop_called` on, where what the broker raises is suppressed.
  unfoldable pub stop_active : Worker → String → String → Act (Unit {0})
  stop_active worker run_id reason = do
    mark_stopped
    emit_host "supervisor" run_id worker.token_id (reason_details reason)
    ending (Ending.broker_stop reason) none
    ending (Ending.lifecycle_stop reason) worker.stop
    emit_host "revoke" run_id worker.token_id (reason_details reason)
    emit_host "wipe" run_id worker.token_id (reason_details reason)

  abbrev pub stop_of : Worker → Option String → String → Act (Unit {0})
  stop_of worker none reason s = (err Fault.no_active_run, s)
  stop_of worker (some run_id) reason s =
      if reason == ""
      then (err Fault.reason_required, s)
      else if s.stop_called
      then (ok tt, s)
      else stop_active worker run_id reason s

  unfoldable pub stop_host : Worker → String → Act (Unit {0})
  stop_host worker reason s = stop_of worker s.active reason s

  -- An operation of the cleanup, whose exception becomes a note.
  abbrev pub noted : Act (Unit {0}) → HostController → HostController
  noted operation s = (operation s).1

  abbrev pub failure : Fields
  failure = reason_details "controller_failure"

  abbrev pub clean_up : Worker → String → String → HostController → HostController
  clean_up worker run_id token_id s = noted (emit_host "wipe" run_id token_id failure) (
      noted (emit_host "revoke" run_id token_id failure) (
        noted (ending (Ending.lifecycle_stop "controller_failure") worker.stop) (
          noted (emit_host "supervisor" run_id token_id failure)
            (record s { stop_called = true }))))

  unfoldable pub stop_after_failure : Worker → String → String → HostController → HostController
  stop_after_failure worker run_id token_id s =
      if s.stop_called then s else clean_up worker run_id token_id s
