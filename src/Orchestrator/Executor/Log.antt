-- ===== src/Orchestrator/Executor/Log.antt =====
-- The audit log of `Executor.run`, and the exceptions that leave it.
use mathlib.Core.Path.{subst}
use testudo.Prelude.{
  String, ◌≡◌, refl, sym, ap, ◌∙◌, true, false, arith, List, [], ◌∷◌, ◌++◌, some, ok, err,
  append-nil, append_assoc,
}
use testudo.Value.{Value, Fields}
use testudo.Orchestrator.{Step, Workflow}
use testudo.Orchestrator.Refs.{class_of}
use testudo.Orchestrator.Sort.{topological_sort}
use testudo.Orchestrator.Executor.{AuditEvent, EventType, ErrorText, Called}
use testudo.Orchestrator.Executor.Run.{
  Setting, State, Ending, Escaped, is_caught, emit, event_of, fail, skip, succeed, after_call,
  run_step, run_steps, fresh, run,
}
use testudo.Orchestrator.Executor.Ways.{
  Way, began, run_step_way, LoopWay, loop_way, RunWay, run_way, run_steps-nil,
}

-- An event of this type about this step.
pub record Marks (run_id : String) (type : EventType) (step : Step) (event : AuditEvent)
    : Type 0 where
  pub typed : event.type ≡ type
  pub owner : event.step_id ≡ some step.id
  pub within : event.run_id ≡ run_id

-- The events of one step: its end alone, or its start and its end with the tool's between.
pub data StepTrace (run_id : String) (step : Step) (l : List AuditEvent) : Type 0 where
  alone :
      (end : AuditEvent)
      → Marks run_id EventType.step_end step end
      → l ≡ end ∷ []
      → StepTrace run_id step l
  around :
      (start end : AuditEvent) (emitted : List AuditEvent)
      → Marks run_id EventType.step_start step start
      → Marks run_id EventType.step_end step end
      → l ≡ start ∷ emitted ++ end ∷ []
      → StepTrace run_id step l

abbrev pub RunTrace : String → List Step → List AuditEvent → Type 0
RunTrace run_id [] l = l ≡ []
RunTrace run_id (step ∷ steps) l =
    (front : List AuditEvent) × (rest : List AuditEvent) × StepTrace run_id step front
    × RunTrace run_id steps rest
    × (l ≡ front ++ rest)

module _ {W : Type 0} (setting : Setting W) (workflow : String)
    (audited : setting.audited ≡ true) where
  emit-log :
      (event : AuditEvent) (s : State W) → (emit setting workflow event s).log ≡ s.log ++ event ∷ []
  unfolding emit
  emit-log event s = simp (audited)

  after_call-log :
      (called : Called W) (s : State W)
      → (after_call setting workflow called s).log ≡ s.log ++ called.emitted
  unfolding after_call
  after_call-log called s = simp (audited)

  abbrev Ends : Step → State W → State W → Type 0
  Ends step s t =
      (end : AuditEvent) × Marks setting.run_id EventType.step_end step end
      × (t.log ≡ s.log ++ end ∷ [])

  fail-Ends :
      (step : Step) (shown kept : ErrorText) (s : State W)
      → Ends step s (fail setting workflow step shown kept s)
  unfolding fail
  fail-Ends step shown kept s =
      (_, record { typed = refl; owner = refl; within = refl }, emit-log _ s)

  skip-Ends : (step : Step) (s : State W) → Ends step s (skip setting workflow step s)
  unfolding skip
  skip-Ends step s = (_, record { typed = refl; owner = refl; within = refl }, emit-log _ s)

  succeed-Ends :
      (step : Step) (output : Value) (s : State W)
      → Ends step s (succeed setting workflow step output s)
  unfolding succeed
  succeed-Ends step output s =
      (_, record { typed = refl; owner = refl; within = refl }, emit-log _ s)

  abbrev Traced : Step → State W → State W → Type 0
  Traced step s t = (l : List AuditEvent) × StepTrace setting.run_id step l × (t.log ≡ s.log ++ l)

  Ends-Traced : (step : Step) (s t : State W) → Ends step s t → Traced step s t
  Ends-Traced step s t (end, marks, logged) = (end ∷ [], StepTrace.alone end marks refl, logged)

  abbrev called_in : Step → Fields → Called W → State W → State W
  called_in step args called s =
      after_call setting workflow called (began setting workflow step args s)

  call-Traced :
      (step : Step) (args : Fields) (called : Called W) (s t : State W)
      → Ends step (called_in step args called s) t
      → Traced step s t
  call-Traced step args called s t (end, marks, logged) =
      let start : AuditEvent = record (event_of setting workflow EventType.step_start step) {
        args = some args;
      } in
      (
        start ∷ called.emitted ++ end ∷ [],
        StepTrace.around start end called.emitted
            (record { typed = refl; owner = refl; within = refl }) marks refl,
        logged
            ∙ ap (λ l. l ++ end ∷ [])
                (after_call-log called (began setting workflow step args s)
                  ∙ ap (λ l. l ++ called.emitted) (emit-log start s))
            ∙ append_assoc (s.log ++ start ∷ []) called.emitted (end ∷ [])
            ∙ append_assoc s.log (start ∷ []) (called.emitted ++ end ∷ []),
      )

  run_step-Traced :
      (step : Step) (s t : State W)
      → run_step setting workflow step s ≡ (t, Ending.completed)
      → Traced step s t
  run_step-Traced step s t h = elim (run_step_way setting workflow step s) [
    | Way.failed shown kept e ↦
        Ends-Traced step s t
          (subst (Ends step s) (ap (λ p. p.0) (sym e ∙ h)) (fail-Ends step shown kept s))
    | Way.skipped e ↦
        Ends-Traced step s t (subst (Ends step s) (ap (λ p. p.0) (sym e ∙ h)) (skip-Ends step s))
    | Way.uncaught raised other e ↦ cc (ap (λ p. p.1) (sym e ∙ h))
    | Way.aborted args called raised other e ↦ cc (ap (λ p. p.1) (sym e ∙ h))
    | Way.unwritten fault why e ↦ cc (ap (λ p. p.1) (sym e ∙ h))
    | Way.unfinished args called fault why e ↦ cc (ap (λ p. p.1) (sym e ∙ h))
    | Way.returned args called output e ↦ call-Traced step args called s t (
        subst (Ends step (called_in step args called s)) (ap (λ p. p.0) (sym e ∙ h))
          (succeed-Ends step output (called_in step args called s)))
    | Way.threw args called raised e ↦ call-Traced step args called s t (
        subst (Ends step (called_in step args called s)) (ap (λ p. p.0) (sym e ∙ h))
          (fail-Ends step raised raised (called_in step args called s)))
  ]

  run_steps-Traced :
      (steps : List Step) (s t : State W)
      → run_steps setting workflow steps s ≡ (t, Ending.completed)
      → (l : List AuditEvent) × RunTrace setting.run_id steps l × (t.log ≡ s.log ++ l)
  run_steps-Traced [] s t h = (
    [],
    refl,
    ap (λ (u : State W). u.log) (sym (run_steps-nil setting workflow s t Ending.completed h).0)
        ∙ sym (append-nil s.log),
  )
  run_steps-Traced (step ∷ steps) s t h =
      elim (loop_way setting workflow step steps s t Ending.completed h) [
        | LoopWay.stops x stopped e ↦ cc
        | LoopWay.goes_on m first rest ↦
            let (front, traced, at_m) = run_step-Traced step s m first in
            let (back, behind, at_t) = run_steps-Traced steps m t rest in
            (
              front ++ back,
              (front, back, traced, behind, refl),
              at_t ∙ ap (λ l. l ++ back) at_m ∙ append_assoc s.log front back,
            )
      ]

escaped-injective : {x y : Escaped} → Ending.escaped x ≡ Ending.escaped y → x ≡ y
escaped-injective p = ground arith

-- Where an exception that leaves `run` comes from.
abbrev pub EscapeOf : {W : Type 0} → Setting W → Workflow → Escaped → Type 0
EscapeOf setting workflow (Escaped.workflow_error e) = topological_sort workflow.steps ≡ err e
EscapeOf setting workflow (Escaped.uncaught raised) = is_caught (class_of raised) ≡ false
EscapeOf setting workflow (Escaped.aborted e) = e.is_exception ≡ false
EscapeOf setting workflow (Escaped.unlogged fault) =
    (log : List AuditEvent) × (event : AuditEvent) × (setting.audited ≡ true)
    × (setting.writes log event ≡ some fault)

module _ {W : Type 0} (setting : Setting W) (workflow : Workflow) where
  run_step-EscapeOf :
      (step : Step) (s t : State W) (x : Escaped)
      → run_step setting workflow.name step s ≡ (t, Ending.escaped x)
      → EscapeOf setting workflow x
  run_step-EscapeOf step s t x h = elim (run_step_way setting workflow.name step s) [
    | Way.failed shown kept e ↦ cc (ap (λ p. p.1) (sym e ∙ h))
    | Way.skipped e ↦ cc (ap (λ p. p.1) (sym e ∙ h))
    | Way.returned args called output e ↦ cc (ap (λ p. p.1) (sym e ∙ h))
    | Way.threw args called raised e ↦ cc (ap (λ p. p.1) (sym e ∙ h))
    | Way.unwritten fault (event, on, raised) e ↦
        escape_of _ (ap (λ p. p.1) (sym e ∙ h)) (s.log, event, on, raised)
    | Way.unfinished args called fault (event, on, raised) e ↦
        escape_of _ (ap (λ p. p.1) (sym e ∙ h)) (_, event, on, raised)
    | Way.uncaught raised other e ↦ escape_of _ (ap (λ p. p.1) (sym e ∙ h)) other
    | Way.aborted args called raised other e ↦ escape_of _ (ap (λ p. p.1) (sym e ∙ h)) other
  ]
    where
      escape_of :
          (y : Escaped)
          → Ending.escaped y ≡ Ending.escaped x
          → EscapeOf setting workflow y
          → EscapeOf setting workflow x
      escape_of y same holds = subst (EscapeOf setting workflow) (escaped-injective same) holds

  run_steps-EscapeOf :
      (steps : List Step) (s t : State W) (x : Escaped)
      → run_steps setting workflow.name steps s ≡ (t, Ending.escaped x)
      → EscapeOf setting workflow x
  run_steps-EscapeOf [] s t x h =
      cc ((run_steps-nil setting workflow.name s t (Ending.escaped x) h).1)
  run_steps-EscapeOf (step ∷ steps) s t x h =
      elim (loop_way setting workflow.name step steps s t (Ending.escaped x) h) [
        | LoopWay.stops y stopped e ↦ run_step-EscapeOf step s t x (rw (sym e) at stopped)
        | LoopWay.goes_on m first rest ↦ run_steps-EscapeOf steps m t x rest
      ]

module _ {W : Type 0} (setting : Setting W) (workflow : Workflow) (world : W)
    (log : List AuditEvent) where
  -- A run that returns with an audit log has appended, for each step in the order of the sort, its
  -- end alone, or its start, what its tool emitted, and its end.
  pub run-RunTrace :
      (t : State W)
      → setting.audited ≡ true
      → run setting workflow world log ≡ (t, Ending.completed)
      → (ordered : List Step) × (l : List AuditEvent) × (topological_sort workflow.steps
          ≡ ok ordered)
        × RunTrace setting.run_id ordered l
        × (t.log ≡ log ++ l)
  run-RunTrace t audited h = elim (run_way setting workflow world log t Ending.completed h) [
    | RunWay.refused e refusal same out ↦ cc
    | RunWay.sorted ordered order loop ↦
        let (l, traced, logged) =
          run_steps-Traced setting workflow.name audited ordered (fresh world log) t loop in
        (ordered, l, order, traced, logged)
  ]

  -- An exception that leaves `run` is the refusal of the sort, an exception of a reference, or of `str` or
  -- `bool` of what it gives, that is neither KeyError nor ValueError, one of a tool that is no
  -- Exception, or what the audit log, if there is one, raised on an event.
  pub run-EscapeOf :
      (t : State W) (x : Escaped)
      → run setting workflow world log ≡ (t, Ending.escaped x)
      → EscapeOf setting workflow x
  run-EscapeOf t x h = elim (run_way setting workflow world log t (Ending.escaped x) h) [
    | RunWay.refused e refusal same out ↦
        subst (EscapeOf setting workflow) (escaped-injective out) refusal
    | RunWay.sorted ordered order loop ↦
        run_steps-EscapeOf setting workflow ordered (fresh world log) t x loop
  ]
