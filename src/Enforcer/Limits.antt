-- ===== src/Enforcer/Limits.antt =====
-- What any calls of an enforcer's methods keep to: the bytes of the policy, one publication, the numbers
-- of the receipts, and what a wipe ends.
use mathlib.Core.Path.{subst}
use mathlib.Core.Bool.{true≢false}
use testudo.Prelude.{
  ℕ, suc, ◌+◌, ◌≤◌, ◌≡◌, refl, sym, ap, ◌∙◌, Bool, true, false, List, [], ◌∷◌, Option, none, some,
  arith, All,
}
use testudo.Enforcer.{
  PolicyReason, PolicyReceipt, PolicyDecision, WipeState, PolicySetting, Enforcer, World,
}
use testudo.Enforcer.Publication.{past}
use testudo.Enforcer.Course.{
  PolicyCall, add, perform_call, run_calls, Wiping, CallStep, perform_call-CallStep,
}
use testudo.Enforcer.Effects.{bytes_of, publication_of, flag, number_of, Bound, Effect, Way-Effect}

-- The bytes of the requests that were allowed.
abbrev pub total_bytes : List PolicyDecision → ℕ
total_bytes [] = 0
total_bytes (d ∷ ds) = bytes_of d + total_bytes ds

abbrev pub publications : List PolicyDecision → ℕ
publications [] = 0
publications (d ∷ ds) = publication_of d + publications ds

-- Each number is greater than those before it.
abbrev pub Ascending : ℕ → List PolicyDecision → Type 0
Ascending s [] = Unit
Ascending s (d ∷ ds) = (s ≤ number_of d) × Ascending (suc (number_of d)) ds

abbrev pub Denied : PolicyDecision → Type 0
Denied d = d.allowed ≡ false

module _ (world : World) (set : PolicySetting) where
  -- A course of calls is nothing, or a decision with its effect and a course, or a move of the state of
  -- the wipe and a course.
  record Course (P : Enforcer → List PolicyDecision → Enforcer → Type 0) : Type 0 where
    pub stay : (e : Enforcer) → P e [] e
    pub on_decision :
        (e : Enforcer) (q : PolicyDecision × Enforcer) (ds : List PolicyDecision) (last : Enforcer)
        → Effect world set e q
        → P q.1 ds last
        → P e (q.0 ∷ ds) last
    pub move :
        (e : Enforcer) (n : ℕ) (w : WipeState) (ds : List PolicyDecision) (last : Enforcer)
        → Wiping world set e.wipe_state w
        → P (record e { readings = n; wipe_state = w }) ds last
        → P e ds last

  step-Course :
      (P : Enforcer → List PolicyDecision → Enforcer → Type 0) (e : Enforcer)
      (o : Option PolicyDecision × Enforcer) (ds : List PolicyDecision) (last : Enforcer)
      → Course P
      → CallStep world set e o
      → P o.1 ds last
      → P e (add o.0 ds) last
  step-Course P e _ ds last course (CallStep.deciding q way) rest =
      course.on_decision e q ds last (Way-Effect world set e q way) rest
  step-Course P e _ ds last course (CallStep.moving n w moves) rest =
      course.move e n w ds last moves rest

  run_calls-Course :
      (P : Enforcer → List PolicyDecision → Enforcer → Type 0) (cs : List PolicyCall) (e : Enforcer)
      → Course P
      → P e (run_calls world set cs e).0 (run_calls world set cs e).1
  unfolding run_calls
  run_calls-Course P [] e course = course.stay e
  run_calls-Course P (c ∷ cs) e course =
      let q = perform_call world set c e in
      let (ds, last) = run_calls world set cs q.1 in
      step-Course P e q ds last course (perform_call-CallStep world set c e)
        (run_calls-Course P cs q.1 course)

  abbrev pub Within : Enforcer → Type 0
  Within e = past e.network_bytes set.network_policy.max_bytes ≡ false

  abbrev pub Counted : Enforcer → List PolicyDecision → Enforcer → Type 0
  Counted e ds last =
      (last.network_bytes ≡ e.network_bytes + total_bytes ds) × (Within e → Within last)

  -- Over any calls, the bytes that the enforcer has counted grow by exactly those of the requests that it
  -- allowed, and stay within the limit of the policy if they were.
  pub run_calls-Counted :
      (cs : List PolicyCall) (e : Enforcer)
      → Counted e (run_calls world set cs e).0 (run_calls world set cs e).1
  run_calls-Counted cs e = run_calls-Course Counted cs e (record {
    stay = λ e. (omega arith, λ h. h);
    on_decision = λ e q ds last effect rest.
        (omega (arith, effect.bytes, rest.0), λ h. rest.1 (effect.within h));
    move = λ e n w ds last moves rest. rest;
  })

  abbrev pub Published : Enforcer → List PolicyDecision → Enforcer → Type 0
  Published e ds last =
      (flag last.published ≡ flag e.published + publications ds) × All (Bound world set) ds

  -- Over any calls at most one publication is allowed, none if one was before, and it names the receipt of
  -- an allowed launch that verifies for the policy.
  pub run_calls-Published :
      (cs : List PolicyCall) (e : Enforcer)
      → (flag e.published + publications (run_calls world set cs e).0 ≤ 1)
        × All (Bound world set) (run_calls world set cs e).0
  run_calls-Published cs e =
      let (ds, last) = run_calls world set cs e in
      let (same, bound) : Published e ds last = run_calls-Course Published cs e (record {
        stay = λ e. (omega arith, tt);
        on_decision = λ e q ds last effect rest.
            (omega (arith, effect.published, rest.0), (effect.bound, rest.1));
        move = λ e n w ds last moves rest. rest;
      }) in
      (omega (arith, same, flag_le_one last.published), bound)
    where
      flag_le_one : (b : Bool) → flag b ≤ 1
      flag_le_one true = omega arith
      flag_le_one false = omega arith

  abbrev Numbered : Enforcer → List PolicyDecision → Enforcer → Type 0
  Numbered e ds last = Ascending e.sequence ds

  -- The receipts of any calls carry ascending numbers, from the next one of the enforcer on.
  run_calls-Ascending :
      (cs : List PolicyCall) (e : Enforcer) → Ascending e.sequence (run_calls world set cs e).0
  run_calls-Ascending cs e = run_calls-Course Numbered cs e (record {
    stay = λ e. tt;
    on_decision =
        λ e q ds last effect rest. (effect.number, subst (λ s. Ascending s ds) effect.next rest);
    move = λ e n w ds last moves rest. rest;
  })

  moves-wiped : (w v : WipeState) → Wiping world set w v → w.wiped ≡ true → v.wiped ≡ true
  moves-wiped w _ Wiping.kept h = h
  moves-wiped w _ (Wiping.recorded r) h = refl
  moves-wiped w _ (Wiping.called_back r fresh) h = refl

  not-true : (b : Bool) → (b ≡ true → ⊥) → b ≡ false
  not-true true h = absurd (h refl)
  not-true false h = refl

  abbrev Ended : Enforcer → List PolicyDecision → Enforcer → Type 0
  Ended e ds last = e.wipe_state.wiped ≡ true → All Denied ds × (last.wipe_state.wiped ≡ true)

  -- Once the state has been wiped, every decision is a denial, whatever is called, and it stays wiped.
  pub run_calls-Ended :
      (cs : List PolicyCall) (e : Enforcer)
      → e.wipe_state.wiped ≡ true
      → All Denied (run_calls world set cs e).0
        × ((run_calls world set cs e).1.wipe_state.wiped ≡ true)
  run_calls-Ended cs e = run_calls-Course Ended cs e (record {
    stay = λ e gone. (tt, gone);
    on_decision = λ e q ds last effect rest gone.
        let (denied, still) = rest (ap (λ (w : WipeState). w.wiped) effect.same_wipe ∙ gone) in
        ((not-true q.0.allowed (λ h. true≢false (sym gone ∙ (effect.living h).1)), denied), still);
    move = λ e n w ds last moves rest gone. rest (moves-wiped e.wipe_state w moves gone);
  })

  -- The callback has not been called, or a receipt keeps it from being called again.
  pub data CalledOnce (w : WipeState) : Type 0 where
    uncalled : w.calls ≡ 0 → CalledOnce w
    called_back : (r : PolicyReceipt) → w.receipt ≡ some r → w.calls ≡ 1 → CalledOnce w

  none_or_some : {A : Type 0} (o : Option A) (r : A) → o ≡ none → o ≡ some r → ⊥
  none_or_some none r h k = cc
  none_or_some (some x) r h k = cc

  moves-CalledOnce : (w v : WipeState) → Wiping world set w v → CalledOnce w → CalledOnce v
  moves-CalledOnce w _ Wiping.kept once = once
  moves-CalledOnce w _ (Wiping.recorded r) (CalledOnce.uncalled h) = CalledOnce.uncalled h
  moves-CalledOnce w _ (Wiping.recorded r) (CalledOnce.called_back x same h) =
      CalledOnce.called_back r refl h
  moves-CalledOnce w _ (Wiping.called_back r fresh) (CalledOnce.uncalled h) =
      CalledOnce.called_back r refl (ap suc h)
  moves-CalledOnce w _ (Wiping.called_back r fresh) (CalledOnce.called_back x same h) =
      absurd (none_or_some w.receipt x fresh same)

  abbrev Once : Enforcer → List PolicyDecision → Enforcer → Type 0
  Once e ds last = CalledOnce e.wipe_state → CalledOnce last.wipe_state

  -- Over any calls, also where the callback raises or a wipe was recorded from outside, the callback of the
  -- wipe is called at most once.
  pub run_calls-CalledOnce :
      (cs : List PolicyCall) (e : Enforcer)
      → CalledOnce e.wipe_state
      → CalledOnce (run_calls world set cs e).1.wipe_state
  run_calls-CalledOnce cs e = run_calls-Course Once cs e (record {
    stay = λ e once. once;
    on_decision =
        λ e q ds last effect rest once. rest (subst CalledOnce (sym effect.same_wipe) once);
    move = λ e n w ds last moves rest once. rest (moves-CalledOnce e.wipe_state w moves once);
  })

  abbrev Unbound : Enforcer → List PolicyDecision → Enforcer → Type 0
  Unbound e ds last = (reason : PolicyReason) → set.binding_error ≡ some reason → All Denied ds

  -- An enforcer that is not bound to its policies denies every call, whatever its state.
  pub run_calls-Unbound :
      (cs : List PolicyCall) (e : Enforcer) (reason : PolicyReason)
      → set.binding_error ≡ some reason
      → All Denied (run_calls world set cs e).0
  run_calls-Unbound cs e = run_calls-Course Unbound cs e (record {
    stay = λ e reason broken. tt;
    on_decision = λ e q ds last effect rest reason broken. (
      not-true q.0.allowed (λ h. none_or_some set.binding_error reason (effect.living h).0 broken),
      rest reason broken,
    );
    move = λ e n w ds last moves rest. rest;
  })
