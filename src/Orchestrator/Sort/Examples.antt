-- ===== src/Orchestrator/Sort/Examples.antt =====
-- A workflow of three steps, of which the first needs the last: the sort is run, and its theorems
-- are applied to it.
use mathlib.Core.Path.{subst}
use testudo.Prelude.{
  ◌<◌, inl, inr, All, arith, ℕ, ◌≡◌, ◌≢◌, refl, String, true, List, [], ◌∷◌, none, ok, err, length,
  Comparable-string, Comparable-nat, ◌==◌, if◌then◌else◌,
}
use testudo.Prelude.Dict.{get, set, has}
use testudo.Value.{Fields}
use testudo.Orchestrator.{Step}
use testudo.Orchestrator.Sort.{
  WorkflowError, topological_sort, each, visit, finish, discard, by_id, index_from,
}
use testudo.Orchestrator.Sort.Order.{Among, by_id-get, IsOrder, topological_sort-IsOrder}
use testudo.Orchestrator.Sort.Complete.{Ranked, topological_sort-returns}
use testudo.Orchestrator.Sort.Fuel.{topological_sort-ne-no_fuel}

abbrev step_of : String → List String → Step
step_of id needs = record { id = id; uses = "noop"; needs = needs; with_ = Fields.end; when = none }

abbrev report : Step
report = step_of "report" ("load" ∷ "clean" ∷ [])

abbrev clean : Step
clean = step_of "clean" ("load" ∷ [])

abbrev load : Step
load = step_of "load" []

abbrev three : List Step
three = report ∷ clean ∷ load ∷ []

three_sorted : topological_sort three ≡ ok (load ∷ clean ∷ report ∷ [])
unfolding topological_sort each visit finish discard by_id index_from get set
three_sorted = refl

cycle_found :
    topological_sort (step_of "a" ("b" ∷ []) ∷ step_of "b" ("a" ∷ []) ∷ [])
    ≡ err (WorkflowError.cycle_at "a")
unfolding topological_sort each visit finish discard by_id index_from get set
cycle_found = refl

dangling_found :
    topological_sort (step_of "a" ("b" ∷ []) ∷ []) ≡ err (WorkflowError.unknown_step "b")
unfolding topological_sort each visit finish discard by_id index_from get set
dangling_found = refl

duplicate_found : topological_sort (load ∷ load ∷ []) ≡ err WorkflowError.duplicate_ids
unfolding topological_sort by_id index_from get set
duplicate_found = refl

topological_sort-IsOrder_example : IsOrder three (load ∷ clean ∷ report ∷ [])
topological_sort-IsOrder_example =
    topological_sort-IsOrder three (load ∷ clean ∷ report ∷ []) three_sorted

topological_sort-ne-no_fuel_example : topological_sort three ≢ err WorkflowError.no_fuel
topological_sort-ne-no_fuel_example = topological_sort-ne-no_fuel three

abbrev depth : String → ℕ
depth k = if k == "report" then 2 else if k == "clean" then 1 else 0

three_distinct : (length (by_id three) == length three) ≡ true
unfolding by_id index_from set
three_distinct = refl

three_ranked :
    (s : Step)
    → Among s three
    → All (λ d. (has (by_id three) d ≡ true) × (depth d < depth s.id)) s.needs
unfolding by_id index_from get set has
three_ranked s (inl is_report) = rw is_report ((refl, omega arith), ((refl, omega arith), tt))
three_ranked s (inr (inl is_clean)) = rw is_clean ((refl, omega arith), tt)
three_ranked s (inr (inr (inl is_load))) = rw is_load tt
three_ranked s (inr (inr (inr nowhere))) = elim nowhere [ ]

three-Ranked : Ranked depth (by_id three)
three-Ranked k s found =
    let (among, named) = by_id-get three k s found in
    subst (λ (j : String). All (λ d. (has (by_id three) d ≡ true) × (depth d < depth j)) s.needs)
      named (three_ranked s among)

topological_sort-returns_example : (ordered : List Step) × (topological_sort three ≡ ok ordered)
topological_sort-returns_example = topological_sort-returns three depth three_distinct three-Ranked
