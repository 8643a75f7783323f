-- ===== src/Orchestrator/Executor.antt =====
-- `Executor.run` of src/testudo/orchestrator/executor.py, with the registry of registry.py. The
-- audit log is the list of the events given to it; the world is what the tools change.
pub mod Run
pub mod Ways
pub mod Results
pub mod Correct
pub mod Log
mod Examples
use testudo.Prelude.{
  ℕ, String, Bool, List, [], ◌∷◌, ◌++◌, Option, none, some, Result, ok, err, if◌then◌else◌,
}
use testudo.Prelude.Dict.{Dict, get, set, has}
use testudo.Value.{Value, Fields}
use testudo.Orchestrator.Refs.{Raised}

pub record StepContext : Type 0 where
  pub permissions : Value
  pub audited : Bool
  pub run_id : String
  pub workflow_name : String
  pub step_id : String

-- What a tool raises: `is_exception` tells the subclasses of `Exception` from the others, which
-- `except Exception` does not catch.
pub record ToolError : Type 0 where
  pub name : String
  pub text : String
  pub is_exception : Bool

-- The text of `StepResult.error` and of the event's error.
pub data ErrorText : Type 0 where
  text_of : Raised → ErrorText
  named : ToolError → ErrorText
  when_eval_failed reference_resolution_failed tool_resolution_failed : Raised → ErrorText

pub data EventType : Type 0 where
  workflow_start workflow_end step_start step_end permission_decision host_event error : EventType

pub record AuditEvent : Type 0 where
  pub type : EventType
  pub run_id : String
  pub workflow : String
  pub step_id : Option String
  pub args : Option Fields
  pub decision : Option Fields
  pub error : Option ErrorText
  pub exit_status : Option ℕ

pub record StepResult : Type 0 where
  pub id : String
  pub output : Value
  pub skipped : Bool
  pub error : Option ErrorText

-- A call of a tool: what it returns or raises, the events that it gives to the log of its context,
-- and the world that it leaves.
pub record Called (W : Type 0) : Type 0 where
  pub outcome : Result ToolError Value
  pub emitted : List AuditEvent
  pub world : W

abbrev pub Tool : Type 0 → Type 0
Tool W = StepContext → Fields → W → Called W

-- `ToolRegistry`: its names with the callables under them.
pub data RegistryError : Type 0 where
  already_registered : String → RegistryError

module _ {W : Type 0} where
  unfoldable pub register : Dict (Tool W) → String → Tool W → Result RegistryError (Dict (Tool W))
  register tools name fn =
      if has tools name then err (RegistryError.already_registered name) else ok (set tools name fn)

  unfoldable pub lookup : Dict (Tool W) → String → Result Raised (Tool W)
  lookup tools name = elim (get tools name) [
    | none ↦ err (Raised.not_registered name)
    | some tool ↦ ok tool
  ]
