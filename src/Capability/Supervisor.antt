-- ===== src/Capability/Supervisor.antt =====
-- `WorkerSupervisor` of src/testudo/runtime/capability.py. Each reading of the clock is an argument;
-- the callbacks are recorded in the order of their calls, and `fault` says which of them raises.
pub mod Correct
pub mod Closed
mod Examples
use testudo.Prelude.{
  ℕ, ◌-◌, ◌+◌, ◌≤◌, String, Bool, true, false, not, List, [], ◌∷◌, ◌++◌, Option, none, some, Result,
  ok, err, ◌==◌, Comparable-string, elem, leb, if◌then◌else◌,
}
use testudo.Capability.{Reason, Raised, Token, to_dict}
use testudo.Capability.Verify.{Library, Keys, parse_time, verify, not_one}

pub data TripReason : Type 0 where
  token_invalid_or_expired : Reason → TripReason
  host_boundary_operation_attempt unauthorized_destructive_operation : TripReason
  requested_by : String → TripReason

-- `SupervisorEvent`, whose name is always `worker_trip`.
pub record SupervisorEvent : Type 0 where
  pub reason : TripReason
  pub token_id : String
  pub at : String

-- The calls of the callbacks `event_sink`, `revoke_token`, `kill_vm` and `wipe_vm`.
pub data Call : Type 0 where
  sink : SupervisorEvent → Call
  revoke : String → Call
  kill wipe : Call

pub record Supervisor : Type 0 where
  pub token : Token
  pub keys : Keys
  pub tripped : Bool
  pub calls : List Call

-- What a method raises.
pub data Stop : Type 0 where
  worker_terminated : TripReason → Stop
  refused : Raised → Stop
  fault_of : String → Stop

unfoldable pub new_supervisor : Token → Keys → Result Raised Supervisor
new_supervisor token keys =
    if not_one keys.signing_key keys.signer
    then err (Raised.capability_error Reason.no_verifier)
    else ok (record { token = token; keys = keys; tripped = false; calls = [] })

-- The exception of a callback ends what was to follow it.
abbrev pub resume :
    Option String → Option String × Supervisor → Supervisor → Option String × Supervisor
resume none rest next = rest
resume (some f) rest next = (some f, next)

module _ (lib : Library) (fault : Call → Option String) where
  -- The callbacks of a trip, as far as none of them raises.
  unfoldable pub perform : List Call → Supervisor → Option String × Supervisor
  perform [] s = (none, s)
  perform (c ∷ cs) s =
      let next = record s { calls = s.calls ++ c ∷ [] } in resume (fault c) (perform cs next) next

  abbrev pub event_of : TripReason → ℕ → Supervisor → SupervisorEvent
  event_of reason at s = record {
    reason = reason;
    token_id = s.token.token_id;
    at = lib.format_time at;
  }

  abbrev pub callbacks : SupervisorEvent → Supervisor → List Call
  callbacks event s = Call.sink event ∷ Call.revoke s.token.token_id ∷ Call.kill ∷ Call.wipe ∷ []

  abbrev pub returned : SupervisorEvent → Option String → Result Stop SupervisorEvent
  returned event none = ok event
  returned event (some f) = err (Stop.fault_of f)

  unfoldable pub trip : TripReason → ℕ → Supervisor → Result Stop SupervisorEvent × Supervisor
  trip reason at s =
      let event = event_of reason at s in
      if s.tripped
      then (ok event, s)
      else let (raised, next) = perform (callbacks event s) (record s { tripped = true }) in
        (returned event raised, next)

  -- `self.trip(...)`, then `raise WorkerTerminated(...)`.
  abbrev pub terminated : TripReason → Result Stop SupervisorEvent → Stop
  terminated reason (ok event) = Stop.worker_terminated reason
  terminated reason (err stop) = stop

  unfoldable pub terminate : TripReason → ℕ → Supervisor → Result Stop (Unit {0}) × Supervisor
  terminate reason at s =
      let (result, next) = trip reason at s in (err (terminated reason result), next)

  -- `except CapabilityError` of `check_expiry`
  unfoldable pub on_verified :
      Result Raised Token → ℕ → Supervisor → Result Stop (Unit {0}) × Supervisor
  on_verified (ok token) at s = (ok tt, s)
  on_verified (err (Raised.capability_error reason)) at s =
      terminate (TripReason.token_invalid_or_expired reason) at s
  on_verified (err Raised.type_error) at s = (err (Stop.refused Raised.type_error), s)

  unfoldable pub check_expiry : ℕ → ℕ → Supervisor → Result Stop (Unit {0}) × Supervisor
  check_expiry now at s = on_verified (verify lib s.keys now (to_dict s.token)) at s

  -- `checkpoint_due`, with its reading of the clock `later`
  unfoldable pub due : Result Raised ℕ → ℕ → ℕ → Result Stop Bool
  due (ok expires) margin later = ok (leb expires (later + margin))
  due (err raised) margin later = err (Stop.refused raised)

  unfoldable pub on_checkpoint :
      ℕ → ℕ → Result Stop (Unit {0}) → Supervisor → Result Stop Bool × Supervisor
  on_checkpoint margin later (err stop) s = (err stop, s)
  on_checkpoint margin later (ok _) s = (due (parse_time lib s.token.expires_at) margin later, s)

  unfoldable pub checkpoint_due : ℕ → ℕ → ℕ → ℕ → Supervisor → Result Stop Bool × Supervisor
  checkpoint_due margin now at later s =
      let (checked, next) = check_expiry now at s in on_checkpoint margin later checked next

  unfoldable pub after_check :
      String → String → Bool → ℕ → Supervisor → Result Stop (Unit {0}) × Supervisor
  after_check capability target destructive at s =
      if not (target == "microvm")
      then terminate TripReason.host_boundary_operation_attempt at s
      else if elem capability s.token.capabilities
      then (ok tt, s)
      else if destructive
      then terminate TripReason.unauthorized_destructive_operation at s
      else (err (Stop.refused (Raised.capability_error (Reason.not_granted capability))), s)

  unfoldable pub on_checked :
      String
      → String
      → Bool
      → ℕ
      → Result Stop (Unit {0})
      → Supervisor
      → Result Stop (Unit {0}) × Supervisor
  on_checked capability target destructive at (err stop) s = (err stop, s)
  on_checked capability target destructive at (ok _) s =
      after_check capability target destructive at s

  unfoldable pub request :
      String → String → Bool → ℕ → ℕ → Supervisor → Result Stop (Unit {0}) × Supervisor
  request capability target destructive now at s =
      let (checked, next) = check_expiry now at s in
      on_checked capability target destructive at checked next

  -- A method with its arguments and the readings of the clock.
  pub data Operation : Type 0 where
    tripping : TripReason → ℕ → Operation
    checking : ℕ → ℕ → Operation
    asking : ℕ → ℕ → ℕ → ℕ → Operation
    requesting : String → String → Bool → ℕ → ℕ → Operation

  -- The supervisor after a method, whatever it returned or raised.
  abbrev pub operate : Operation → Supervisor → Supervisor
  operate (tripping reason at) s = (trip reason at s).1
  operate (checking now at) s = (check_expiry now at s).1
  operate (asking margin now at later) s = (checkpoint_due margin now at later s).1
  operate (requesting capability target destructive now at) s =
      (request capability target destructive now at s).1

  abbrev pub operate_all : List Operation → Supervisor → Supervisor
  operate_all [] s = s
  operate_all (o ∷ os) s = operate_all os (operate o s)
