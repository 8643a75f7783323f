-- ===== src/Orchestrator/Executor/Correct.antt =====
-- What a whole run of `Executor.run` leaves in its results and its outputs.
use mathlib.Core.Path.{subst}
use testudo.Prelude.{
  String, ◌≡◌, refl, sym, ap, ◌∙◌, true, false, ◌||◌, inl, inr, List, [], ◌∷◌, ◌++◌, ok,
  Comparable-string, ◌==◌, ==_iff, ==_sym, elem, elem-head, elem-tail, distinct, All, All-map,
  All-elem, arith, Bool-cases, ||-cases,
}
use testudo.Prelude.Dict.{Dict, get, has}
use testudo.Value.{Value}
use testudo.Orchestrator.{Step, Workflow}
use testudo.Orchestrator.Sort.{ids, topological_sort}
use testudo.Orchestrator.Sort.Order.{Among, Placed, IsOrder, topological_sort-IsOrder}
use testudo.Orchestrator.Executor.{AuditEvent, StepResult}
use testudo.Orchestrator.Executor.Run.{Setting, State, Ending, run_steps, fresh, run}
use testudo.Orchestrator.Executor.Ways.{LoopWay, loop_way, RunWay, run_way, run_steps-nil}
use testudo.Orchestrator.Executor.Results.{
  success_of, Tables, Kept, run_step-Kept, run_step-stopped, Kept-Tables, Kept-has,
}

module _ {W : Type 0} (setting : Setting W) (workflow : String) where
  abbrev Unused : State W → List Step → Type 0
  Unused s steps = All (λ k. has s.results k ≡ false) (ids steps)

  Unused-Kept :
      (step : Step) (s t : State W) (steps : List Step)
      → Kept step s t
      → elem step.id (ids steps) ≡ false
      → Unused s steps
      → Unused t steps
  Unused-Kept step s t [] kept absent unused = tt
  Unused-Kept step s t (x ∷ steps) kept absent unused = (
    ground (arith, Kept-has step s t kept x.id, ==_sym step.id x.id, unused.0),
    Unused-Kept step s t steps kept (ground (arith, absent)) unused.1,
  )

  -- However the loop ends, the two tables agree.
  run_steps-Tables :
      (steps : List Step) (s t : State W) (ending : Ending)
      → run_steps setting workflow steps s ≡ (t, ending)
      → Tables s
      → Unused s steps
      → distinct (ids steps) ≡ true
      → Tables t
  run_steps-Tables [] s t ending h tables unused once =
      subst Tables (run_steps-nil setting workflow s t ending h).0 tables
  run_steps-Tables (step ∷ steps) s t ending h tables unused once =
      elim (loop_way setting workflow step steps s t ending h) [
        | LoopWay.stops x stopped e ↦
            let (same, outputs_same) = run_step-stopped setting workflow step s t x stopped in
            λ k.
              ap (λ (d : Dict Value). get d k) outputs_same
              ∙ tables k
              ∙ sym (ap (λ (d : Dict StepResult). success_of (get d k)) same)
        | LoopWay.goes_on m first rest ↦
            let kept = run_step-Kept setting workflow step s m first in
            let absent : elem step.id (ids steps) ≡ false = ground (arith, once) in
            run_steps-Tables steps m t ending rest (Kept-Tables step s m kept tables unused.0)
              (Unused-Kept step s m steps kept absent unused.1) (ground (arith, once))
      ]

  -- A loop that completes leaves a result for each of its steps, beside those that were there.
  run_steps-has :
      (steps : List Step) (s t : State W)
      → run_steps setting workflow steps s ≡ (t, Ending.completed)
      → (k : String) → has t.results k ≡ (has s.results k || elem k (ids steps))
  run_steps-has [] s t h k =
      let same = (run_steps-nil setting workflow s t Ending.completed h).0 in
      ap (λ (u : State W). has u.results k) (sym same) ∙ ground arith
  run_steps-has (step ∷ steps) s t h k =
      elim (loop_way setting workflow step steps s t Ending.completed h) [
        | LoopWay.stops x stopped e ↦ cc
        | LoopWay.goes_on m first rest ↦
            let kept = run_step-Kept setting workflow step s m first in
            ground
              (arith, run_steps-has steps m t rest k, Kept-has step s m kept k, ==_sym k step.id)
      ]

  fresh-has :
      (world : W) (log : List AuditEvent) (k : String) → has (fresh world log).results k ≡ false
  unfolding has get
  fresh-has world log k = refl

  fresh-Tables : (world : W) (log : List AuditEvent) → Tables (fresh world log)
  unfolding get
  fresh-Tables world log k = refl

  fresh-Unused :
      (world : W) (log : List AuditEvent) (steps : List Step) → Unused (fresh world log) steps
  fresh-Unused world log [] = tt
  fresh-Unused world log (s ∷ steps) = (fresh-has world log s.id, fresh-Unused world log steps)

  Placed-needs :
      (seen : List String) (before after : List Step) (step : Step)
      → Placed seen (before ++ step ∷ after)
      → All (λ d. (elem d seen || elem d (ids before)) ≡ true) step.needs
  Placed-needs seen [] after step placed =
      All-map _ _ step.needs (λ d e. ground (arith, e)) placed.0
  Placed-needs seen (x ∷ before) after step placed =
      All-map _ _ step.needs (λ d e. ground (arith, e))
        (Placed-needs (x.id ∷ seen) before after step placed.1)

Among-elem : (s : Step) (steps : List Step) → Among s steps → elem s.id (ids steps) ≡ true
Among-elem s [] nowhere = elim nowhere [ ]
Among-elem s (x ∷ steps) (inl here) =
    subst (λ (y : Step). elem y.id (ids (x ∷ steps)) ≡ true) (sym here) (elem-head x.id (ids steps))
Among-elem s (x ∷ steps) (inr there) = elem-tail s.id x.id (ids steps) (Among-elem s steps there)

ids_sound :
    (steps ordered : List Step) (k : String)
    → All (λ s. Among s steps) ordered
    → elem k (ids ordered) ≡ true
    → elem k (ids steps) ≡ true
ids_sound steps [] k among named = cc
ids_sound steps (s ∷ ordered) k among named =
    elim (||-cases (k == s.id) (elem k (ids ordered)) named) [
      | inl same ↦ rw ((==_iff k s.id).0 same) (Among-elem s steps among.0)
      | inr later ↦ ids_sound steps ordered k among.1 later
    ]

order-ids :
    (steps ordered : List Step) (k : String)
    → IsOrder steps ordered
    → elem k (ids ordered) ≡ elem k (ids steps)
order-ids steps ordered k order = elim (Bool-cases (elem k (ids steps))) [
  | inl named ↦ All-elem _ (ids steps) k order.complete named ∙ sym named
  | inr unnamed ↦ elim (Bool-cases (elem k (ids ordered))) [
    | inl stray ↦ cc (ids_sound steps ordered k order.sound stray)
    | inr absent ↦ absent ∙ sym unnamed
  ]
]

module _ {W : Type 0} (setting : Setting W) (workflow : Workflow) (world : W)
    (log : List AuditEvent) where
  -- When the loop comes to a step, each of the steps that it needs has its result, whatever the tools
  -- did.
  pub run-needs_ready :
      (before after : List Step) (step : Step) (s : State W)
      → topological_sort workflow.steps ≡ ok (before ++ step ∷ after)
      → run_steps setting workflow.name before (fresh world log) ≡ (s, Ending.completed)
      → All (λ d. has s.results d ≡ true) step.needs
  run-needs_ready before after step s sorted h =
      let order = topological_sort-IsOrder workflow.steps (before ++ step ∷ after) sorted in
      All-map _ _ step.needs
        (λ d e.
          run_steps-has setting workflow.name before (fresh world log) s h d
          ∙ ground (arith, e, fresh-has setting workflow.name world log d))
        (Placed-needs setting workflow.name [] before after step order.placed)

  -- However `run` ends, the outputs that references can see are exactly the outputs in the results of
  -- the steps that were neither skipped nor failed.
  pub run-Tables :
      (t : State W) (ending : Ending) → run setting workflow world log ≡ (t, ending) → Tables t
  run-Tables t ending h = elim (run_way setting workflow world log t ending h) [
    | RunWay.refused e refusal same out ↦
        subst Tables same (fresh-Tables setting workflow.name world log)
    | RunWay.sorted ordered order loop ↦
        run_steps-Tables setting workflow.name ordered (fresh world log) t ending loop
          (fresh-Tables setting workflow.name world log)
          (fresh-Unused setting workflow.name world log ordered)
          (topological_sort-IsOrder workflow.steps ordered order).once
  ]

  -- A run that returns has a result for each id of the workflow, and for no other.
  pub run-has :
      (t : State W)
      → run setting workflow world log ≡ (t, Ending.completed)
      → (k : String) → has t.results k ≡ elem k (ids workflow.steps)
  run-has t h k = elim (run_way setting workflow world log t Ending.completed h) [
    | RunWay.refused e refusal same out ↦ cc
    | RunWay.sorted ordered order loop ↦
        run_steps-has setting workflow.name ordered (fresh world log) t loop k
        ∙ rw (fresh-has setting workflow.name world log k) (
            order-ids workflow.steps ordered k
              (topological_sort-IsOrder workflow.steps ordered order))
  ]
