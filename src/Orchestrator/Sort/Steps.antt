-- ===== src/Orchestrator/Sort/Steps.antt =====
-- The ways out of one call of `visit`.
use testudo.Prelude.{
  ℕ, zero, suc, ◌≡◌, refl, String, true, false, inl, inr, ◌∷◌, none, some, ok, err, ◌>>=◌,
  Comparable-string, elem, Bool-cases, Option-cases,
}
use testudo.Prelude.Dict.{Dict, get}
use testudo.Orchestrator.{Step}
use testudo.Orchestrator.Sort.{Progress, no_fuel, cycle_at, unknown_step, each, finish, visit}

pub visit-zero :
    (index : Dict Step) (id : String) (p : Progress) → visit zero index id p ≡ err no_fuel
unfolding visit
visit-zero index id p = refl

module _ (fuel : ℕ) (index : Dict Step) (id : String) (p : Progress) where
  pub visit-visited : elem id p.visited ≡ true → visit (suc fuel) index id p ≡ ok p
  unfolding visit
  visit-visited h = rw h

  -- What the other calls find out about their node.
  pub data Way : Type 0 where
    cycle : elem id p.visiting ≡ true → visit (suc fuel) index id p ≡ err (cycle_at id) → Way
    unknown : get index id ≡ none → visit (suc fuel) index id p ≡ err (unknown_step id) → Way
    enter :
        (step : Step)
        → get index id ≡ some step
        → elem id p.visiting ≡ false
        → visit (suc fuel) index id p ≡ (
            each (visit fuel index) step.needs (record p { visiting = id ∷ p.visiting }) >>= λ q.
            ok (finish id step q))
        → Way

  pub visit_way : elem id p.visited ≡ false → Way
  unfolding visit
  visit_way h = elim (Bool-cases (elem id p.visiting)) [
    | inl entered ↦ Way.cycle entered (rw (h, entered))
    | inr unentered ↦ elim (Option-cases (get index id)) [
      | inl missing ↦ Way.unknown missing (rw (h, unentered, missing))
      | inr (step, found) ↦ Way.enter step found unentered (rw (h, unentered, found))
    ]
  ]
