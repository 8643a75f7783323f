-- ===== src/Orchestrator/Executor/Ways.antt =====
-- The ways in which the body of the loop of `Executor.run` ends.
use testudo.Prelude.{
  if_holds, List, [], ◌∷◌, sym, String, ◌≡◌, refl, ◌∙◌, ap, Bool, true, false, inl, inr, Option,
  none, some, Result, ok, err, Bool-cases,
}
use testudo.Value.{Value, Fields}
use testudo.Orchestrator.{Step, Workflow}
use testudo.Orchestrator.Sort.{WorkflowError, topological_sort}
use testudo.Orchestrator.Refs.{Raised, class_of, resolve_fields, eval_when}
use testudo.Orchestrator.Executor.{ToolError, ErrorText, AuditEvent, Called, Tool, lookup}
use testudo.Orchestrator.Executor.Run.{
  Setting, State, Ending, Escaped, is_caught, context_of, emit, on_write, writing, failure_event,
  skip_event, success_event, start_event, fail, skip, succeed, catch, after_call, after_tool,
  call_tool, on_tool, on_args, on_when, proceed, on_condition, run_step, run_steps, fresh, on_order,
  run,
}

module _ {W : Type 0} (setting : Setting W) (workflow : String) where
  abbrev pub began : Step → Fields → State W → State W
  began step args s = emit setting workflow (start_event setting workflow step args) s

  -- The log raised this on an event.
  abbrev pub Unwritten : State W → String → Type 0
  Unwritten s fault =
      (event : AuditEvent) × (setting.audited ≡ true) × (setting.writes s.log event ≡ some fault)

  -- The end of the body for the step, started in the state `s`.
  pub data Way (step : Step) (s : State W) (r : State W × Ending) : Type 0 where
    failed :
        (shown kept : ErrorText)
        → r ≡ (fail setting workflow step shown kept s, Ending.completed)
        → Way step s r
    skipped : r ≡ (skip setting workflow step s, Ending.completed) → Way step s r
    uncaught :
        (raised : Raised)
        → is_caught (class_of raised) ≡ false
        → r ≡ (s, Ending.escaped (Escaped.uncaught raised))
        → Way step s r
    returned :
        (args : Fields) (called : Called W) (output : Value)
        → r ≡ (
          succeed setting workflow step output
              (after_call setting workflow called (began step args s)),
          Ending.completed,
        )
        → Way step s r
    threw :
        (args : Fields) (called : Called W) (e : ErrorText)
        → r ≡ (
          fail setting workflow step e e (after_call setting workflow called (began step args s)),
          Ending.completed,
        )
        → Way step s r
    aborted :
        (args : Fields) (called : Called W) (e : ToolError)
        → e.is_exception ≡ false
        → r ≡ (
          after_call setting workflow called (began step args s),
          Ending.escaped (Escaped.aborted e),
        )
        → Way step s r
    unwritten :
        (fault : String)
        → Unwritten s fault
        → r ≡ (s, Ending.escaped (Escaped.unlogged fault))
        → Way step s r
    unfinished :
        (args : Fields) (called : Called W) (fault : String)
        → Unwritten (after_call setting workflow called (began step args s)) fault
        → r ≡ (
          after_call setting workflow called (began step args s),
          Ending.escaped (Escaped.unlogged fault),
        )
        → Way step s r

  -- An event before the tool is called, and one behind it.
  writing_way :
      (step : Step) (event : AuditEvent) (s : State W) (rest : State W × Ending)
      → Way step s rest
      → Way step s (writing setting workflow event s rest)
  unfolding writing
  writing_way step event s rest way =
      if_holds (Way step s) setting.audited _ _
        (λ on. on_write_way (setting.writes s.log event) refl on) (λ _. way)
    where
      on_write_way :
          (o : Option String)
          → setting.writes s.log event ≡ o
          → setting.audited ≡ true
          → Way step s (on_write setting workflow o s rest)
      on_write_way none same on = way
      on_write_way (some fault) same on = Way.unwritten fault (event, on, same) refl

  writing_way_behind :
      (step : Step) (args : Fields) (called : Called W) (event : AuditEvent) (s : State W)
      (rest : State W × Ending)
      → Way step s rest
      → Way step s (
          writing setting workflow event
            (after_call setting workflow called (began step args s))
            rest)
  unfolding writing
  writing_way_behind step args called event s rest way =
      let u = after_call setting workflow called (began step args s) in
      if_holds (Way step s) setting.audited _ _
        (λ on. on_write_way (setting.writes u.log event) refl on) (λ _. way)
    where
      on_write_way :
          (o : Option String)
          → setting.writes (after_call setting workflow called (began step args s)).log event ≡ o
          → setting.audited ≡ true
          → Way step s (
              on_write setting workflow o
                (after_call setting workflow called (began step args s))
                rest)
      on_write_way none same on = way
      on_write_way (some fault) same on = Way.unfinished args called fault (event, on, same) refl

  catch_way :
      (step : Step) (shown : ErrorText) (raised : Raised) (s : State W)
      → Way step s (catch setting workflow step shown raised s)
  unfolding catch
  catch_way step shown raised s = elim (Bool-cases (is_caught (class_of raised))) [
    | inl caught ↦ rw caught (
        writing_way step (failure_event setting workflow step shown) s _
          (Way.failed shown (ErrorText.text_of raised) refl))
    | inr other ↦ Way.uncaught raised other (rw other refl)
  ]

  after_tool_way :
      (step : Step) (args : Fields) (called : Called W) (r : Result ToolError Value) (s : State W)
      → Way step s (
          after_tool setting workflow step r
            (after_call setting workflow called (began step args s)))
  unfolding after_tool
  after_tool_way step args called (ok output) s =
      writing_way_behind step args called (success_event setting workflow step) s _
        (Way.returned args called output refl)
  after_tool_way step args called (err e) s = elim (Bool-cases e.is_exception) [
    | inl caught ↦ simp (caught) (
        writing_way_behind step args called
          (failure_event setting workflow step (ErrorText.named e)) s _
          (Way.threw args called (ErrorText.named e) refl))
    | inr other ↦ Way.aborted args called e other (simp (other))
  ]

  on_tool_way :
      (step : Step) (args : Fields) (r : Result Raised (Tool W)) (s : State W)
      → Way step s (on_tool setting workflow step args r s)
  unfolding on_tool call_tool
  on_tool_way step args (err raised) s =
      writing_way step
        (failure_event setting workflow step (ErrorText.tool_resolution_failed raised)) s _
        (Way.failed (ErrorText.tool_resolution_failed raised) (ErrorText.text_of raised) refl)
  on_tool_way step args (ok tool) s =
      let called = tool (context_of setting workflow step) args (began step args s).world in
      writing_way step (start_event setting workflow step args) s _
        (after_tool_way step args called called.outcome s)

  on_args_way :
      (step : Step) (r : Result Raised Fields) (s : State W)
      → Way step s (on_args setting workflow step r s)
  unfolding on_args
  on_args_way step (err raised) s =
      catch_way step (ErrorText.reference_resolution_failed raised) raised s
  on_args_way step (ok args) s = on_tool_way step args (lookup setting.registry step.uses) s

  proceed_way : (step : Step) (s : State W) → Way step s (proceed setting workflow step s)
  unfolding proceed
  proceed_way step s =
      on_args_way step (resolve_fields setting.objects setting.inputs s.step_outputs step.with_) s

  on_condition_way :
      (step : Step) (r : Result Raised Bool) (s : State W)
      → Way step s (on_condition setting workflow step r s)
  unfolding on_condition
  on_condition_way step (err raised) s = catch_way step (ErrorText.when_eval_failed raised) raised s
  on_condition_way step (ok true) s = proceed_way step s
  on_condition_way step (ok false) s =
      writing_way step (skip_event setting workflow step) s _ (Way.skipped refl)

  on_when_way :
      (step : Step) (when : Option String) (s : State W)
      → Way step s (on_when setting workflow step when s)
  unfolding on_when
  on_when_way step none s = proceed_way step s
  on_when_way step (some expr) s =
      on_condition_way step (eval_when setting.objects setting.inputs s.step_outputs expr) s

  pub run_step_way : (step : Step) (s : State W) → Way step s (run_step setting workflow step s)
  unfolding run_step
  run_step_way step s = on_when_way step step.when s

-- The loop goes on behind a step that completed, and stops at an exception that escapes.
module _ {W : Type 0} (setting : Setting W) (workflow : String) where
  pub data LoopWay (step : Step) (steps : List Step) (s t : State W) (ending : Ending)
      : Type 0 where
    goes_on :
        (m : State W)
        → run_step setting workflow step s ≡ (m, Ending.completed)
        → run_steps setting workflow steps m ≡ (t, ending)
        → LoopWay step steps s t ending
    stops :
        (x : Escaped)
        → run_step setting workflow step s ≡ (t, Ending.escaped x)
        → ending ≡ Ending.escaped x
        → LoopWay step steps s t ending

  split_loop :
      (step : Step) (steps : List Step) (s t : State W) (ending : Ending) (r : State W × Ending)
      → run_step setting workflow step s ≡ r
      → (elim r.1 [
        | Ending.completed ↦ run_steps setting workflow steps r.0
        | Ending.escaped x ↦ (r.0, Ending.escaped x)
      ])
        ≡ (t, ending)
      → LoopWay step steps s t ending
  split_loop step steps s t ending (m, Ending.completed) first h = LoopWay.goes_on m first h
  split_loop step steps s t ending (m, Ending.escaped x) first h =
      LoopWay.stops x (first ∙ ap (λ p. (p.0, Ending.escaped x)) h) (sym (ap (λ p. p.1) h))

  pub loop_way :
      (step : Step) (steps : List Step) (s t : State W) (ending : Ending)
      → run_steps setting workflow (step ∷ steps) s ≡ (t, ending)
      → LoopWay step steps s t ending
  unfolding run_steps
  loop_way step steps s t ending h =
      split_loop step steps s t ending (run_step setting workflow step s) refl h

  pub run_steps-nil :
      (s t : State W) (ending : Ending)
      → run_steps setting workflow [] s ≡ (t, ending)
      → (s ≡ t) × (Ending.completed ≡ ending)
  unfolding run_steps
  run_steps-nil s t ending h = (ap (λ p. p.0) h, ap (λ p. p.1) h)

-- A run is refused by the sort, or is the loop over the order.
module _ {W : Type 0} (setting : Setting W) (workflow : Workflow) (world : W)
    (log : List AuditEvent) where
  pub data RunWay (t : State W) (ending : Ending) : Type 0 where
    refused :
        (e : WorkflowError)
        → topological_sort workflow.steps ≡ err e
        → fresh world log ≡ t
        → Ending.escaped (Escaped.workflow_error e) ≡ ending
        → RunWay t ending
    sorted :
        (ordered : List Step)
        → topological_sort workflow.steps ≡ ok ordered
        → run_steps setting workflow.name ordered (fresh world log) ≡ (t, ending)
        → RunWay t ending

  split_run :
      (t : State W) (ending : Ending) (r : Result WorkflowError (List Step))
      → topological_sort workflow.steps ≡ r
      → on_order setting workflow.name r (fresh world log) ≡ (t, ending)
      → RunWay t ending
  unfolding on_order
  split_run t ending (err e) same h = RunWay.refused e same (ap (λ p. p.0) h) (ap (λ p. p.1) h)
  split_run t ending (ok ordered) same h = RunWay.sorted ordered same h

  pub run_way :
      (t : State W) (ending : Ending)
      → run setting workflow world log ≡ (t, ending)
      → RunWay t ending
  unfolding run
  run_way t ending h = split_run t ending (topological_sort workflow.steps) refl h
