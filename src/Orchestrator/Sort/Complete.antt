-- ===== src/Orchestrator/Sort/Complete.antt =====
-- A workflow that has no cycle and no dangling need is sorted.
use testudo.Prelude.{
  ℕ, zero, suc, ◌<◌, ◌≡◌, refl, ◌∙◌, String, true, false, inl, inr, List, [], ◌∷◌, none, some,
  Result, ok, Comparable-string, Comparable-nat, elem, length, arith, Bool-cases, ==_iff, ◌==◌, All,
  elem-head, elem-tail, All-elem, ||-cases,
}
use testudo.Prelude.Dict.{Dict, get, set, has-set_kept, has-set_same, has, keys}
use testudo.Orchestrator.{Step}
use testudo.Orchestrator.Sort.{
  WorkflowError, Progress, each, finish, visit, ids, start, by_id, index_from, topological_sort,
}
use testudo.Orchestrator.Sort.Steps.{Way, visit_way, visit-visited}
use testudo.Orchestrator.Sort.Order.{Consistent, visit-Visits, Keyed, by_id-Keyed, start-Consistent}
use testudo.Orchestrator.Sort.Fuel.{free, free-enter, get-elem-keys, room_at_start}

-- A rank for the steps that falls from each step to the steps that it needs, which are all there.
abbrev pub Ranked : (String → ℕ) → Dict Step → Type 0
Ranked rank index =
    (k : String) (s : Step)
    → get index k ≡ some s
    → All (λ d. (has index d ≡ true) × (rank d < rank k)) s.needs

has-missing : (index : Dict Step) (k : String) → get index k ≡ none → has index k ≡ false
unfolding has
has-missing index k h = rw (h, has)

module _ (index : Dict Step) (keyed : Keyed index) (rank : String → ℕ)
    (ranked : Ranked rank index) where
  abbrev Above : String → List String → Type 0
  Above id entered = (k : String) → elem k entered ≡ true → rank id < rank k

  Above-cons : (id x : String) (v : List String) → rank x < rank id → Above id v → Above x (id ∷ v)
  Above-cons id x v less above k h = elim (||-cases (k == id) (elem k v) h) [
    | inl here ↦ rw ((==_iff k id).0 here) less
    | inr there ↦ omega (arith, above k there)
  ]

  abbrev Returns : Result WorkflowError Progress → Type 0
  Returns r = (q : Progress) × (r ≡ ok q)

  each-Returns :
      (fuel : ℕ) (v xs : List String) (p : Progress)
      → ((x : String) (m : Progress)
          → Consistent index m
          → m.visiting ≡ v
          → elem x xs ≡ true
          → Returns (visit fuel index x m))
      → Consistent index p
      → p.visiting ≡ v
      → Returns (each (visit fuel index) xs p)
  unfolding each
  each-Returns fuel v [] p one c same = (p, refl)
  each-Returns fuel v (x ∷ xs) p one c same =
      let (m, first) = one x p c same (elem-head x xs) in
      let grew = (visit-Visits index keyed fuel x p m first c).0 in
      let (q, rest) =
        each-Returns fuel v xs m (λ y n cn at_v h. one y n cn at_v (elem-tail y x xs h))
          grew.consistent (grew.same ∙ same) in
      (q, rw first rest)

  visit-Returns :
      (fuel : ℕ) (id : String) (p : Progress)
      → Consistent index p
      → has index id ≡ true
      → Above id p.visiting
      → free (keys index) p.visiting < fuel
      → Returns (visit fuel index id p)
  visit-Returns zero id p c there above room = absurd (omega arith)
  visit-Returns (suc fuel) id p c there above room = elim (Bool-cases (elem id p.visited)) [
    | inl seen ↦ (p, visit-visited fuel index id p seen)
    | inr unvisited ↦ elim (visit_way fuel index id p unvisited) [
      | Way.cycle entered e ↦ absurd (omega (arith, above id entered))
      | Way.unknown missing e ↦ cc (there, has-missing index id missing)
      | Way.enter step found unentered e ↦
          let inside : Progress = record p { visiting = id ∷ p.visiting } in
          let began : Consistent index inside = record {
            matches = c.matches;
            placed = c.placed;
            known = c.known;
            unique = c.unique;
          } in
          let less =
            free-enter (keys index) p.visiting id (get-elem-keys index keyed id step found)
              unentered in
          let (q, run) =
            each-Returns fuel inside.visiting step.needs inside
              (λ x m cm same needed.
                let held = All-elem _ step.needs x (ranked id step found) needed in
                visit-Returns fuel x m cm held.0 (rw same (Above-cons id x p.visiting held.1 above))
                  (rw same (omega (arith, less))))
              began refl in
          (finish id step q, e ∙ rw run)
    ]
  ]

index_from-kept :
    (d : Dict Step) (steps : List Step) (k : String)
    → has d k ≡ true
    → has (index_from d steps) k ≡ true
unfolding index_from
index_from-kept d [] k there = there
index_from-kept d (s ∷ steps) k there =
    index_from-kept (set d s.id s) steps k (has-set_kept d s.id k s there)

index_from-has :
    (d : Dict Step) (steps : List Step) (k : String)
    → elem k (ids steps) ≡ true
    → has (index_from d steps) k ≡ true
unfolding index_from
index_from-has d [] k named = cc
index_from-has d (s ∷ steps) k named = elim (||-cases (k == s.id) (elem k (ids steps)) named) [
  | inl same ↦
      rw ((==_iff k s.id).0 same)
        (index_from-kept (set d s.id s) steps s.id (has-set_same d s.id s))
  | inr later ↦ index_from-has (set d s.id s) steps k later
]

by_id-has :
    (steps : List Step) (k : String) → elem k (ids steps) ≡ true → has (by_id steps) k ≡ true
unfolding by_id
by_id-has = index_from-has []

-- `_topological_sort` returns an order for each workflow whose ids are distinct, whose needs are
-- ids of the workflow, and whose needs have a rank that falls.
pub topological_sort-returns :
    (steps : List Step) (rank : String → ℕ)
    → (length (by_id steps) == length steps) ≡ true
    → Ranked rank (by_id steps)
    → (ordered : List Step) × (topological_sort steps ≡ ok ordered)
unfolding topological_sort
topological_sort-returns steps rank same ranked =
    let index = by_id steps in
    let fuel = suc (length steps) in
    let (q, run) =
      each-Returns index (by_id-Keyed steps) rank ranked fuel [] (ids steps) start
        (λ x m cm at_start named.
          visit-Returns index (by_id-Keyed steps) rank ranked fuel x m cm (by_id-has steps x named)
            (λ k h. cc (rw at_start at h)) (rw at_start (room_at_start steps same)))
        (start-Consistent index) refl in
    (q.ordered, rw (same, run))
