-- ===== src/Orchestrator/Executor/Run.antt =====
-- The loop of `Executor.run`. A step changes the log, the outputs, the results and the world, and
-- ends the run with an exception where the source does not catch it.
use testudo.Prelude.{
  String, Bool, true, false, List, [], ◌∷◌, ◌++◌, Option, none, some, Result, ok, err,
  if◌then◌else◌,
}
use testudo.Prelude.Dict.{Dict, set}
use testudo.Value.{Value, Fields}
use testudo.Orchestrator.{Step, Workflow}
use testudo.Orchestrator.Refs.{Objects, Raised, ExceptionClass, class_of, resolve_fields, eval_when}
use testudo.Orchestrator.Sort.{WorkflowError, topological_sort}
use testudo.Orchestrator.Executor.{
  StepContext, ToolError, ErrorText, EventType, AuditEvent, StepResult, Called, Tool, lookup,
}

-- What leaves `run` as an exception.
pub data Escaped : Type 0 where
  workflow_error : WorkflowError → Escaped
  uncaught : Raised → Escaped
  aborted : ToolError → Escaped
  unlogged : String → Escaped

pub data Ending : Type 0 where
  completed : Ending
  escaped : Escaped → Ending

pub record State (W : Type 0) : Type 0 where
  pub world : W
  pub log : List AuditEvent
  pub step_outputs : Dict Value
  pub results : Dict StepResult

-- The arguments of `run` beside the steps, with the executor's registry and whether it has a log; `writes`
-- is what `AuditLog.emit` raises for an event behind those of the log.
pub record Setting (W : Type 0) : Type 0 where
  pub objects : Objects
  pub registry : Dict (Tool W)
  pub audited : Bool
  pub writes : List AuditEvent → AuditEvent → Option String
  pub inputs : Fields
  pub permissions : Value
  pub run_id : String

abbrev pub is_caught : ExceptionClass → Bool
is_caught ExceptionClass.key_error = true
is_caught ExceptionClass.value_error = true
is_caught ExceptionClass.other_error = false

abbrev pub fresh : {W : Type 0} → W → List AuditEvent → State W
fresh world log = record { world = world; log = log; step_outputs = []; results = [] }

module _ {W : Type 0} (setting : Setting W) (workflow : String) where
  -- `AuditEvent(type=..., run_id=run_id, workflow=workflow.name, step_id=step.id)`
  abbrev pub event_of : EventType → Step → AuditEvent
  event_of type step = record {
    type = type;
    run_id = setting.run_id;
    workflow = workflow;
    step_id = some step.id;
    args = none;
    decision = none;
    error = none;
    exit_status = none;
  }

  abbrev pub context_of : Step → StepContext
  context_of step = record {
    permissions = setting.permissions;
    audited = setting.audited;
    run_id = setting.run_id;
    workflow_name = workflow;
    step_id = step.id;
  }

  -- The state behind `_emit`, if the write returned.
  unfoldable pub emit : AuditEvent → State W → State W
  emit event state =
      if setting.audited then record state { log = state.log ++ event ∷ [] } else state

  abbrev pub on_write : Option String → State W → State W × Ending → State W × Ending
  on_write none state rest = rest
  on_write (some fault) state rest = (state, Ending.escaped (Escaped.unlogged fault))

  -- `_emit`, with what comes to pass behind it: a write that raises leaves `run`.
  unfoldable pub writing : AuditEvent → State W → State W × Ending → State W × Ending
  writing event state rest =
      if setting.audited then on_write (setting.writes state.log event) state rest else rest

  abbrev pub failure_event : Step → ErrorText → AuditEvent
  failure_event step shown = record (event_of EventType.step_end step) { error = some shown }

  abbrev pub skip_event : Step → AuditEvent
  skip_event step = record (event_of EventType.step_end step) {
    decision = some (
        Fields.field "skipped" (Value.bool true)
          (Fields.field "reason" (Value.str "when=false") Fields.end));
  }

  abbrev pub success_event : Step → AuditEvent
  success_event step = record (event_of EventType.step_end step) { exit_status = some 0 }

  abbrev pub start_event : Step → Fields → AuditEvent
  start_event step args = record (event_of EventType.step_start step) { args = some args }

  -- An event and a result without output, and `continue`.
  unfoldable pub fail : Step → ErrorText → ErrorText → State W → State W
  fail step shown kept state =
      let next = emit (failure_event step shown) state in
      record next {
        results =
            set next.results step.id
              (record { id = step.id; output = Value.null; skipped = false; error = some kept });
      }

  unfoldable pub skip : Step → State W → State W
  skip step state =
      let next = emit (skip_event step) state in
      record next {
        results =
            set next.results step.id
              (record { id = step.id; output = Value.null; skipped = true; error = none });
      }

  unfoldable pub succeed : Step → Value → State W → State W
  succeed step output state =
      let next = emit (success_event step) state in
      record next {
        step_outputs = set next.step_outputs step.id output;
        results =
            set next.results step.id
              (record { id = step.id; output = output; skipped = false; error = none });
      }

  -- `except (KeyError, ValueError)`; `shown` is the text of the event.
  unfoldable pub catch : Step → ErrorText → Raised → State W → State W × Ending
  catch step shown raised state =
      if is_caught (class_of raised)
      then writing (failure_event step shown) state
          (fail step shown (ErrorText.text_of raised) state, Ending.completed)
      else (state, Ending.escaped (Escaped.uncaught raised))

  -- What `tool(ctx, **args)` left: the tool may have used the log of its context.
  unfoldable pub after_call : Called W → State W → State W
  after_call called state = record state {
    world = called.world;
    log = if setting.audited then state.log ++ called.emitted else state.log;
  }

  unfoldable pub after_tool : Step → Result ToolError Value → State W → State W × Ending
  after_tool step (err e) state =
      if e.is_exception
      then writing (failure_event step (ErrorText.named e)) state
          (fail step (ErrorText.named e) (ErrorText.named e) state, Ending.completed)
      else (state, Ending.escaped (Escaped.aborted e))
  after_tool step (ok output) state =
      writing (success_event step) state (succeed step output state, Ending.completed)

  unfoldable pub call_tool : Step → Fields → Tool W → State W → State W × Ending
  call_tool step args tool state =
      let began = emit (start_event step args) state in
      let called = tool (context_of step) args began.world in
      writing (start_event step args) state
        (after_tool step called.outcome (after_call called began))

  -- `registry.resolve` raises nothing but the `KeyError` that is caught here.
  unfoldable pub on_tool : Step → Fields → Result Raised (Tool W) → State W → State W × Ending
  on_tool step args (err raised) state =
      writing (failure_event step (ErrorText.tool_resolution_failed raised)) state (
        fail step (ErrorText.tool_resolution_failed raised) (ErrorText.text_of raised) state,
        Ending.completed,
      )
  on_tool step args (ok tool) state = call_tool step args tool state

  unfoldable pub on_args : Step → Result Raised Fields → State W → State W × Ending
  on_args step (err raised) state =
      catch step (ErrorText.reference_resolution_failed raised) raised state
  on_args step (ok args) state = on_tool step args (lookup setting.registry step.uses) state

  -- The body behind the condition.
  unfoldable pub proceed : Step → State W → State W × Ending
  proceed step state =
      on_args step (resolve_fields setting.objects setting.inputs state.step_outputs step.with_)
        state

  unfoldable pub on_condition : Step → Result Raised Bool → State W → State W × Ending
  on_condition step (err raised) state = catch step (ErrorText.when_eval_failed raised) raised state
  on_condition step (ok true) state = proceed step state
  on_condition step (ok false) state =
      writing (skip_event step) state (skip step state, Ending.completed)

  unfoldable pub on_when : Step → Option String → State W → State W × Ending
  on_when step none state = proceed step state
  on_when step (some expr) state =
      on_condition step (eval_when setting.objects setting.inputs state.step_outputs expr) state

  -- The body of the loop.
  unfoldable pub run_step : Step → State W → State W × Ending
  run_step step state = on_when step step.when state

  unfoldable pub run_steps : List Step → State W → State W × Ending
  run_steps [] state = (state, Ending.completed)
  run_steps (step ∷ steps) state =
      let (next, ending) = run_step step state in
      elim ending [
        | Ending.completed ↦ run_steps steps next
        | Ending.escaped e ↦ (next, Ending.escaped e)
      ]

unfoldable pub on_order :
    {W : Type 0}
    → Setting W
    → String
    → Result WorkflowError (List Step)
    → State W
    → State W × Ending
on_order setting workflow (err e) state = (state, Ending.escaped (Escaped.workflow_error e))
on_order setting workflow (ok ordered) state = run_steps setting workflow ordered state

unfoldable pub run : {W : Type 0} → Setting W → Workflow → W → List AuditEvent → State W × Ending
run setting workflow world log =
    on_order setting workflow.name (topological_sort workflow.steps) (fresh world log)
