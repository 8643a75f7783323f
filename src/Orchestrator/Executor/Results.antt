-- ===== src/Orchestrator/Executor/Results.antt =====
-- The results and the outputs that `Executor.run` keeps: one result for each step, and an output
-- exactly for the steps that succeeded.
use mathlib.Core.Path.{subst}
use testudo.Prelude.{
  String, ◌≡◌, refl, sym, ap, ◌∙◌, true, false, ◌||◌, ◌⊎◌, inl, inr, Option, none, some, Bool-cases,
  Option-cases, Comparable-string, ◌==◌, ==_iff, ==_refl, if◌then◌else◌,
}
use testudo.Prelude.Dict.{Dict, get, set, has, get-set, has-set}
use testudo.Value.{Value}
use testudo.Orchestrator.{Step}
use testudo.Orchestrator.Executor.{ErrorText, AuditEvent, StepResult, Called}
use testudo.Orchestrator.Executor.Run.{
  Setting, State, Ending, Escaped, emit, fail, skip, succeed, after_call, run_step,
}
use testudo.Orchestrator.Executor.Ways.{Way, began, run_step_way}

-- The output of a step that succeeded.
abbrev pub success : StepResult → Option Value
success r = if r.skipped then none else elim r.error [ none ↦ some r.output | some _ ↦ none ]

abbrev pub success_of : Option StepResult → Option Value
success_of none = none
success_of (some r) = success r

-- What the two tables of a run have in common.
abbrev pub Tables : {W : Type 0} → State W → Type 0
Tables s = (k : String) → get s.step_outputs k ≡ success_of (get s.results k)

pub record Kept {W : Type 0} (step : Step) (s t : State W) : Type 0 where
  pub result : StepResult
  pub named : result.id ≡ step.id
  pub recorded : t.results ≡ set s.results step.id result
  pub output :
      ((success result ≡ none) × (t.step_outputs ≡ s.step_outputs))
      ⊎ ((success result ≡ some result.output)
          × (t.step_outputs ≡ set s.step_outputs step.id result.output))

module _ {W : Type 0} (setting : Setting W) (workflow : String) where
  emit-results :
      (event : AuditEvent) (s : State W) → (emit setting workflow event s).results ≡ s.results
  unfolding emit
  emit-results event s = elim (Bool-cases setting.audited) [
    | inl on ↦ simp (on)
    | inr off ↦ simp (off)
  ]

  emit-step_outputs :
      (event : AuditEvent) (s : State W)
      → (emit setting workflow event s).step_outputs ≡ s.step_outputs
  unfolding emit
  emit-step_outputs event s = elim (Bool-cases setting.audited) [
    | inl on ↦ simp (on)
    | inr off ↦ simp (off)
  ]

  fail-Kept :
      (step : Step) (shown kept : ErrorText) (s : State W)
      → Kept step s (fail setting workflow step shown kept s)
  unfolding fail
  fail-Kept step shown kept s = record {
    result = record { id = step.id; output = Value.null; skipped = false; error = some kept };
    named = refl;
    recorded = ap (λ (d : Dict StepResult). set d step.id _) (emit-results _ s);
    output = inl (refl, emit-step_outputs _ s);
  }

  skip-Kept : (step : Step) (s : State W) → Kept step s (skip setting workflow step s)
  unfolding skip
  skip-Kept step s = record {
    result = record { id = step.id; output = Value.null; skipped = true; error = none };
    named = refl;
    recorded = ap (λ (d : Dict StepResult). set d step.id _) (emit-results _ s);
    output = inl (refl, emit-step_outputs _ s);
  }

  succeed-Kept :
      (step : Step) (output : Value) (s : State W)
      → Kept step s (succeed setting workflow step output s)
  unfolding succeed
  succeed-Kept step output s = record {
    result = record { id = step.id; output = output; skipped = false; error = none };
    named = refl;
    recorded = ap (λ (d : Dict StepResult). set d step.id _) (emit-results _ s);
    output = inr (refl, ap (λ (d : Dict Value). set d step.id _) (emit-step_outputs _ s));
  }

  -- A call changes neither table.
  Kept-call :
      (step : Step) (args : _) (called : Called W) (s t : State W)
      → Kept step (after_call setting workflow called (began setting workflow step args s)) t
      → Kept step s t
  unfolding after_call
  Kept-call step args called s t kept = record {
    result = kept.result;
    named = kept.named;
    recorded =
        kept.recorded ∙ ap (λ (d : Dict StepResult). set d step.id kept.result) (emit-results _ s);
    output = elim kept.output [
      | inl without ↦ inl (without.0, without.1 ∙ emit-step_outputs _ s)
      | inr with_one ↦ inr (
        with_one.0,
        with_one.1
            ∙ ap (λ (d : Dict Value). set d step.id kept.result.output) (emit-step_outputs _ s),
      )
    ];
  }

  pub run_step-Kept :
      (step : Step) (s t : State W)
      → run_step setting workflow step s ≡ (t, Ending.completed)
      → Kept step s t
  run_step-Kept step s t h = elim (run_step_way setting workflow step s) [
    | Way.failed shown kept e ↦
        subst (Kept step s) (ap (λ p. p.0) (sym e ∙ h)) (fail-Kept step shown kept s)
    | Way.skipped e ↦ subst (Kept step s) (ap (λ p. p.0) (sym e ∙ h)) (skip-Kept step s)
    | Way.uncaught raised other e ↦ cc (ap (λ p. p.1) (sym e ∙ h))
    | Way.aborted args called raised other e ↦ cc (ap (λ p. p.1) (sym e ∙ h))
    | Way.unwritten fault why e ↦ cc (ap (λ p. p.1) (sym e ∙ h))
    | Way.unfinished args called fault why e ↦ cc (ap (λ p. p.1) (sym e ∙ h))
    | Way.returned args called output e ↦
        Kept-call step args called s t
          (subst (Kept step _) (ap (λ p. p.0) (sym e ∙ h)) (succeed-Kept step output _))
    | Way.threw args called raised e ↦
        Kept-call step args called s t
          (subst (Kept step _) (ap (λ p. p.0) (sym e ∙ h)) (fail-Kept step raised raised _))
  ]

  pub run_step-stopped :
      (step : Step) (s t : State W) (x : Escaped)
      → run_step setting workflow step s ≡ (t, Ending.escaped x)
      → (t.results ≡ s.results) × (t.step_outputs ≡ s.step_outputs)
  unfolding after_call
  run_step-stopped step s t x h = elim (run_step_way setting workflow step s) [
    | Way.failed shown kept e ↦ cc (ap (λ p. p.1) (sym e ∙ h))
    | Way.skipped e ↦ cc (ap (λ p. p.1) (sym e ∙ h))
    | Way.returned args called output e ↦ cc (ap (λ p. p.1) (sym e ∙ h))
    | Way.threw args called raised e ↦ cc (ap (λ p. p.1) (sym e ∙ h))
    | Way.uncaught raised other e ↦
        let same = ap (λ p. p.0) (sym h ∙ e) in
        (ap (λ (u : State W). u.results) same, ap (λ (u : State W). u.step_outputs) same)
    | Way.unwritten fault why e ↦
        let same = ap (λ p. p.0) (sym h ∙ e) in
        (ap (λ (u : State W). u.results) same, ap (λ (u : State W). u.step_outputs) same)
    | Way.unfinished args called fault why e ↦
        let same = ap (λ p. p.0) (sym h ∙ e) in
        (
          ap (λ (u : State W). u.results) same ∙ emit-results _ s,
          ap (λ (u : State W). u.step_outputs) same ∙ emit-step_outputs _ s,
        )
    | Way.aborted args called raised other e ↦
        let same = ap (λ p. p.0) (sym h ∙ e) in
        (
          ap (λ (u : State W). u.results) same ∙ emit-results _ s,
          ap (λ (u : State W). u.step_outputs) same ∙ emit-step_outputs _ s,
        )
  ]

has-none : (d : Dict StepResult) (k : String) → has d k ≡ false → get d k ≡ none
unfolding has
has-none d k h = elim (Option-cases (get d k)) [
  | inl missing ↦ missing
  | inr (r, found) ↦ cc (rw (found, has) at h)
]

module _ {W : Type 0} (step : Step) (s t : State W) (kept : Kept step s t) where
  got :
      (k : String) → get t.results k ≡ (if step.id == k then some kept.result else get s.results k)
  got k =
      ap (λ (d : Dict StepResult). get d k) kept.recorded ∙ get-set s.results step.id k kept.result

  Kept-Tables_here :
      Tables s
      → has s.results step.id ≡ false
      → get t.step_outputs step.id ≡ success_of (get t.results step.id)
  Kept-Tables_here tables unused =
      let found : get t.results step.id ≡ some kept.result =
        got step.id ∙ rw (==_refl step.id) refl in
      elim kept.output [
        | inl (without, same) ↦
            ap (λ (d : Dict Value). get d step.id) same
            ∙ tables step.id
            ∙ ap success_of (has-none s.results step.id unused)
            ∙ sym without
            ∙ sym (ap success_of found)
        | inr (with_one, extended) ↦
            ap (λ (d : Dict Value). get d step.id) extended
            ∙ get-set s.step_outputs step.id step.id kept.result.output
            ∙ rw (==_refl step.id) refl
            ∙ sym with_one
            ∙ sym (ap success_of found)
      ]

  Kept-Tables_other :
      Tables s
      → (k : String) → (step.id == k) ≡ false
      → get t.step_outputs k ≡ success_of (get t.results k)
  Kept-Tables_other tables k other =
      let found : get t.results k ≡ get s.results k = got k ∙ rw other refl in
      elim kept.output [
        | inl (without, same) ↦
            ap (λ (d : Dict Value). get d k) same ∙ tables k ∙ sym (ap success_of found)
        | inr (with_one, extended) ↦
            ap (λ (d : Dict Value). get d k) extended
            ∙ get-set s.step_outputs step.id k kept.result.output
            ∙ rw other refl
            ∙ tables k
            ∙ sym (ap success_of found)
      ]

  pub Kept-Tables : Tables s → has s.results step.id ≡ false → Tables t
  Kept-Tables tables unused k = elim (Bool-cases (step.id == k)) [
    | inl here ↦
        subst (λ j. get t.step_outputs j ≡ success_of (get t.results j)) ((==_iff step.id k).0 here)
          (Kept-Tables_here tables unused)
    | inr other ↦ Kept-Tables_other tables k other
  ]

  pub Kept-has : (k : String) → has t.results k ≡ (step.id == k || has s.results k)
  Kept-has k =
      ap (λ (d : Dict StepResult). has d k) kept.recorded ∙ has-set s.results step.id k kept.result
