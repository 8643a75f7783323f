-- ===== src/Orchestrator/Sort.antt =====
-- `Executor._topological_sort` of src/testudo/orchestrator/executor.py. Its sets and its list are
-- the state that `visit` passes on; an exception leaves no state behind.
mod Steps
pub mod Order
pub mod Fuel
pub mod Complete
mod Examples
use testudo.Prelude.{
  ℕ, zero, suc, String, Bool, not, ◌||◌, List, [], ◌∷◌, ◌++◌, Option, none, some, Result, ok, err,
  ◌>>=◌, ◌==◌, Comparable-nat, Comparable-string, elem, length, if◌then◌else◌,
}
use testudo.Prelude.Dict.{Dict, get, set}
use testudo.Orchestrator.{Step}

-- `WorkflowError`, by its messages. `no_fuel` is no error of the program.
pub data WorkflowError : Type 0 where
  duplicate_ids no_fuel : WorkflowError
  cycle_at unknown_step : String → WorkflowError

pub record Progress : Type 0 where
  pub visiting : List String
  pub visited : List String
  pub ordered : List Step

-- `{s.id: s for s in steps}`, from the entries made before.
unfoldable pub index_from : Dict Step → List Step → Dict Step
index_from d [] = d
index_from d (s ∷ steps) = index_from (set d s.id s) steps

unfoldable pub by_id : List Step → Dict Step
unfolding index_from
by_id = index_from []

-- `visiting.discard(node_id)`
unfoldable pub discard : String → List String → List String
discard k [] = []
discard k (x ∷ xs) = let rest = discard k xs in if x == k then rest else x ∷ rest

-- A loop whose body may raise.
unfoldable pub each :
    (String → Progress → Result WorkflowError Progress)
    → List String
    → Progress
    → Result WorkflowError Progress
each body [] p = ok p
each body (x ∷ xs) p = body x p >>= each body xs

-- The three lines behind the loop of `visit`.
unfoldable pub finish : String → Step → Progress → Progress
unfolding discard
finish id step p = record {
  visiting = discard id p.visiting;
  visited = id ∷ p.visited;
  ordered = p.ordered ++ step ∷ [];
}

-- `visit` calls itself at most as deep as there are steps, since each call puts another known id
-- into `visiting`.
unfoldable pub visit : ℕ → Dict Step → String → Progress → Result WorkflowError Progress
visit zero index id p = err no_fuel
visit (suc fuel) index id p =
    if elem id p.visited
    then ok p
    else if elem id p.visiting
    then err (cycle_at id)
    else elim (get index id) [
      | none ↦ err (unknown_step id)
      | some step ↦
          each (visit fuel index) step.needs (record p { visiting = id ∷ p.visiting }) >>= λ q.
          ok (finish id step q)
    ]

abbrev pub ids : List Step → List String
ids [] = []
ids (s ∷ steps) = s.id ∷ ids steps

abbrev pub start : Progress
start = record { visiting = []; visited = []; ordered = [] }

unfoldable pub topological_sort : List Step → Result WorkflowError (List Step)
topological_sort steps =
    let index = by_id steps in
    if not (length index == length steps)
    then err duplicate_ids
    else (each (visit (suc (length steps)) index) (ids steps) start >>= λ q. ok q.ordered)
