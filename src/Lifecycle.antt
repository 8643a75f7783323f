-- ===== src/Lifecycle.antt =====
-- `WorkerLifecycle` of src/testudo/runtime/worker.py, with the trip of its supervisor made of the callbacks
-- that the lifecycle gives to it. Each reading of a clock is an argument, and each call of the host's
-- handle, sink, revocation or wipe may raise.
pub mod Counts
pub mod Exit
pub mod Released
mod Examples
use testudo.Prelude.{
  ℕ, ◌+◌, String, Bool, true, false, not, List, [], ◌∷◌, ◌++◌, Option, none, some, ℤ, Result, ok,
  err, ◌==◌, Comparable-nat, leb, length, if◌then◌else◌,
}
use testudo.Prelude.State.{Act, return, raise, finally, ◌>>=◌, ◌>>◌}
use testudo.Capability.{Raised, Token, to_dict}
use testudo.Capability.Verify.{Library, Keys, verify}
use testudo.Capability.Supervisor.{TripReason, SupervisorEvent}

-- What the sink is told: a trip, or `worker_exit` with its status, token and time.
pub data Event : Type 0 where
  worker_trip : SupervisorEvent → Event
  worker_exit : ℤ → String → String → Event

-- `event_sink`, `revoke_token`, `handle.terminate`, `handle.cleanup` and `wipe_vm`.
pub data HostCall : Type 0 where
  sink : Event → HostCall
  revoke : String → HostCall
  terminate cleanup wipe : HostCall

-- The flags, with that of the supervisor and the calls of the host so far.
pub record Lifecycle : Type 0 where
  pub token : Token
  pub keys : Keys
  pub tripped : Bool
  pub closed : Bool
  pub revoked : Bool
  pub wiped : Bool
  pub calls : List HostCall

-- What a method raises; `fault_of` stands for an exception of the host's.
pub data Halt : Type 0 where
  interval_not_positive lifecycle_closed : Halt
  worker_terminated : TripReason → Halt
  refused : Raised → Halt
  fault_of : String → Halt

-- `fault` says what the n-th call of the host raises.
pub record World : Type 0 where
  pub lib : Library
  pub fault : ℕ → HostCall → Option String

-- One turn of the loop of `wait`: the readings of the clocks and the poll of the process.
pub record WaitTurn : Type 0 where
  pub now : ℕ
  pub at : ℕ
  pub poll : Result String (Option ℤ)
  pub monotonic : ℕ

-- What has come of `wait` after some turns.
pub data Waited : Type 0 where
  running : Waited
  exited : ℤ → Waited

unfoldable pub new_lifecycle : Token → Keys → Lifecycle
new_lifecycle token keys = record {
  token = token;
  keys = keys;
  tripped = false;
  closed = false;
  revoked = false;
  wiped = false;
  calls = [];
}

abbrev pub raised_by : Option String → Result Halt (Unit {0})
raised_by none = ok tt
raised_by (some f) = err (Halt.fault_of f)

-- `self._closed = True`
abbrev pub mark_closed : Act Lifecycle Halt (Unit {0})
mark_closed s = (ok tt, record s { closed = true })

-- `except WorkerTerminated: self._closed = True; raise`
abbrev pub on_raised : Result Halt (Unit {0}) → Lifecycle → Lifecycle
on_raised (err (Halt.worker_terminated reason)) s = record s { closed = true }
on_raised _ s = s

abbrev pub closing : Act Lifecycle Halt (Unit {0}) → Act Lifecycle Halt (Unit {0})
closing m s = let (r, next) = m s in (r, on_raised r next)

abbrev pub polled : Result String (Option ℤ) → Act Lifecycle Halt (Option ℤ)
polled (ok status) s = (ok status, s)
polled (err f) s = (err (Halt.fault_of f), s)

abbrev pub is_past : Option ℕ → ℕ → Bool
is_past none now = false
is_past (some deadline) now = leb deadline now

abbrev pub is_positive : ℤ → Bool
is_positive (ℤ.pos n) = not (n == 0)
is_positive (ℤ.negsuc n) = false

abbrev pub deadline_of : ℕ → Option ℕ → Option ℕ
deadline_of started none = none
deadline_of started (some timeout) = some (started + timeout)

module _ (world : World) where
  unfoldable pub call_host : HostCall → Act Lifecycle Halt (Unit {0})
  call_host c s =
      (raised_by (world.fault (length s.calls) c), record s { calls = s.calls ++ c ∷ [] })

  unfoldable pub kill_vm : Act Lifecycle Halt (Unit {0})
  kill_vm = finally (call_host HostCall.terminate) (call_host HostCall.cleanup)

  abbrev pub wipe_and_clean : Act Lifecycle Halt (Unit {0})
  wipe_and_clean = finally (call_host HostCall.wipe) (call_host HostCall.cleanup)

  unfoldable pub wipe_vm : Act Lifecycle Halt (Unit {0})
  wipe_vm s = if s.wiped then (ok tt, s) else wipe_and_clean (record s { wiped = true })

  unfoldable pub revoke_once : String → Act Lifecycle Halt (Unit {0})
  revoke_once token_id s =
      if s.revoked
      then (ok tt, s)
      else call_host (HostCall.revoke token_id) (record s { revoked = true })

  abbrev pub event_of : TripReason → ℕ → Lifecycle → SupervisorEvent
  event_of reason at s = record {
    reason = reason;
    token_id = s.token.token_id;
    at = world.lib.format_time at;
  }

  -- The callbacks of the supervisor, in its order.
  unfoldable pub call_back : SupervisorEvent → Act Lifecycle Halt SupervisorEvent
  call_back event = do
    call_host (HostCall.sink (Event.worker_trip event))
    revoke_once event.token_id
    kill_vm
    wipe_vm
    return event

  -- `WorkerSupervisor.trip` with them
  unfoldable pub trip_worker : TripReason → ℕ → Act Lifecycle Halt SupervisorEvent
  trip_worker reason at s =
      if s.tripped
      then (ok (event_of reason at s), s)
      else call_back (event_of reason at s) (record s { tripped = true })

  abbrev pub terminate_worker : TripReason → ℕ → Act Lifecycle Halt (Unit {0})
  terminate_worker reason at = trip_worker reason at >>= λ _. raise (Halt.worker_terminated reason)

  abbrev pub on_token : Result Raised Token → ℕ → Act Lifecycle Halt (Unit {0})
  on_token (ok token) at s = (ok tt, s)
  on_token (err (Raised.capability_error reason)) at s =
      terminate_worker (TripReason.token_invalid_or_expired reason) at s
  on_token (err Raised.type_error) at s = (err (Halt.refused Raised.type_error), s)

  -- `check`
  unfoldable pub check : ℕ → ℕ → Act Lifecycle Halt (Unit {0})
  check now at = closing (λ s. on_token (verify world.lib s.keys now (to_dict s.token)) at s)

  -- `stop`
  unfoldable pub stop_worker : String → ℕ → Act Lifecycle Halt SupervisorEvent
  stop_worker reason at = do
    event ← trip_worker (TripReason.requested_by reason) at
    mark_closed
    return event

  -- The `finally` block of `_finish`
  abbrev pub tell_exit : ℤ → ℕ → Lifecycle → Act Lifecycle Halt (Unit {0})
  tell_exit status at s = do
    revoke_once s.token.token_id
    wipe_vm
    call_host (HostCall.sink (Event.worker_exit status s.token.token_id (world.lib.format_time at)))
    mark_closed

  unfoldable pub finish_exit : ℤ → ℕ → Act Lifecycle Halt (Unit {0})
  finish_exit status at s =
      if s.closed
      then (ok tt, s)
      else finally (call_host HostCall.cleanup) (tell_exit status at s) s

  abbrev pub time_out : ℕ → Act Lifecycle Halt Waited
  time_out at = do
    trip_worker (TripReason.requested_by "worker_timeout") at
    mark_closed
    raise (Halt.worker_terminated (TripReason.requested_by "worker_timeout"))

  abbrev pub on_status : Option ℕ → WaitTurn → Option ℤ → Act Lifecycle Halt Waited
  on_status deadline t (some status) = finish_exit status t.at >> return (Waited.exited status)
  on_status deadline t none =
      if is_past deadline t.monotonic then time_out t.at else return Waited.running

  unfoldable pub wait_turn : Option ℕ → WaitTurn → Act Lifecycle Halt Waited
  wait_turn deadline t = do
    closing (check t.now t.at)
    status ← polled t.poll
    on_status deadline t status

  abbrev pub unless_exited : Act Lifecycle Halt Waited → Waited → Act Lifecycle Halt Waited
  unless_exited rest Waited.running = rest
  unless_exited rest (Waited.exited status) = return (Waited.exited status)

  -- The loop of `wait`, for as many turns as it takes.
  unfoldable pub wait_turns : Option ℕ → List WaitTurn → Act Lifecycle Halt Waited
  wait_turns deadline [] = return Waited.running
  wait_turns deadline (t ∷ ts) = wait_turn deadline t >>= unless_exited (wait_turns deadline ts)

  unfoldable pub wait : ℤ → ℕ → Option ℕ → List WaitTurn → Act Lifecycle Halt Waited
  wait poll_interval started timeout ts s =
      if not (is_positive poll_interval)
      then (err Halt.interval_not_positive, s)
      else if s.closed
      then (err Halt.lifecycle_closed, s)
      else wait_turns (deadline_of started timeout) ts s

  -- A method with its arguments, and what the clocks and the process answer.
  pub data Operation : Type 0 where
    checking : ℕ → ℕ → Operation
    stopping : String → ℕ → Operation
    waiting : ℤ → ℕ → Option ℕ → List WaitTurn → Operation

  abbrev pub operate : Operation → Lifecycle → Lifecycle
  operate (checking now at) s = (check now at s).1
  operate (stopping reason at) s = (stop_worker reason at s).1
  operate (waiting poll_interval started timeout ts) s = (wait poll_interval started timeout ts s).1

  -- The lifecycle after some methods, whatever each returned or raised.
  abbrev pub operate_all : List Operation → Lifecycle → Lifecycle
  operate_all [] s = s
  operate_all (o ∷ os) s = operate_all os (operate o s)
