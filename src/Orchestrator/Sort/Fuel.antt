-- ===== src/Orchestrator/Sort/Fuel.antt =====
-- The recursion of `visit` ends: each nested call has entered one more known id.
use testudo.Prelude.{
  ℕ, zero, suc, ◌≤◌, ◌<◌, ◌≡◌, ◌≢◌, refl, sym, ap, ◌∙◌, String, true, false, inl, inr, List, [],
  ◌∷◌, some, err, Comparable-string, Comparable-nat, elem, length, arith, Bool-cases, ==_iff,
  if◌then◌else◌, bind_ok-err, Result-cases, ◌==◌,
}
use testudo.Prelude.Dict.{Dict, get, has, keys, elem-keys}
use testudo.Orchestrator.{Step}
use testudo.Orchestrator.Sort.{
  no_fuel, Progress, each, finish, visit, ids, start, by_id, topological_sort,
}
use testudo.Orchestrator.Sort.Steps.{Way, visit_way, visit-visited}
use testudo.Orchestrator.Sort.Order.{Consistent, visit-Visits, Keyed, by_id-Keyed, start-Consistent}

-- How many of the keys have not been entered.
abbrev pub free : List String → List String → ℕ
free [] entered = 0
free (k ∷ ks) entered = if elem k entered then free ks entered else suc (free ks entered)

free-cons-le : (ks v : List String) (k : String) → free ks (k ∷ v) ≤ free ks v
free-cons-le [] v k = omega arith
free-cons-le (x ∷ ks) v k = ground (arith, free-cons-le ks v k)

pub free-enter :
    (ks v : List String) (k : String)
    → elem k ks ≡ true
    → elem k v ≡ false
    → free ks (k ∷ v) < free ks v
free-enter [] v k h n = cc
free-enter (x ∷ ks) v k h n =
    ground (arith, free-enter ks v k, free-cons-le ks v k, ==_iff k x, ==_iff x k)

free-le-length : (ks v : List String) → free ks v ≤ length ks
free-le-length [] v = omega arith
free-le-length (k ∷ ks) v = ground (arith, free-le-length ks v)

pub length-keys {ℓ} : {V : Type ℓ} (d : Dict V) → length (keys d) ≡ length d
length-keys [] = refl
length-keys ((k, v) ∷ d) = ap suc (length-keys d)

module _ (index : Dict Step) (keyed : Keyed index) where
  pub get-elem-keys : (k : String) (s : Step) → get index k ≡ some s → elem k (keys index) ≡ true
  unfolding has
  get-elem-keys k s h = elem-keys index k ∙ rw (h, has) refl

  each-ne-no_fuel :
      (fuel : ℕ) (xs : List String) (p : Progress)
      → ((x : String) (m : Progress)
          → Consistent index m
          → m.visiting ≡ p.visiting
          → visit fuel index x m ≢ err no_fuel)
      → Consistent index p
      → each (visit fuel index) xs p ≢ err no_fuel
  unfolding each
  each-ne-no_fuel fuel [] p one c h = cc
  each-ne-no_fuel fuel (x ∷ xs) p one c h = elim (Result-cases (visit fuel index x p)) [
    | inl (e, raised) ↦ one x p c refl (raised ∙ (rw raised at h))
    | inr (m, first) ↦
        let grew = (visit-Visits index keyed fuel x p m first c).0 in
        each-ne-no_fuel fuel xs m (λ y n cn same. one y n cn (same ∙ grew.same)) grew.consistent
          (rw first at h)
  ]

  visit-ne-no_fuel :
      (fuel : ℕ) (id : String) (p : Progress)
      → Consistent index p
      → free (keys index) p.visiting < fuel
      → visit fuel index id p ≢ err no_fuel
  visit-ne-no_fuel zero id p c room h = absurd (omega arith)
  visit-ne-no_fuel (suc fuel) id p c room h = elim (Bool-cases (elem id p.visited)) [
    | inl seen ↦ cc (h, visit-visited fuel index id p seen)
    | inr unvisited ↦ elim (visit_way fuel index id p unvisited) [
      | Way.cycle entered e ↦ cc
      | Way.unknown missing e ↦ cc
      | Way.enter step found unentered e ↦
          let inside : Progress = record p { visiting = id ∷ p.visiting } in
          let began : Consistent index inside = record {
            matches = c.matches;
            placed = c.placed;
            known = c.known;
            unique = c.unique;
          } in
          let less =
            free-enter (keys index) p.visiting id (get-elem-keys id step found) unentered in
          each-ne-no_fuel fuel step.needs inside
            (λ x m cm same. visit-ne-no_fuel fuel x m cm (rw same (omega (arith, less)))) began
            (bind_ok-err (each (visit fuel index) step.needs inside) (finish id step) no_fuel
              (sym e ∙ h))
    ]
  ]

-- At the first call every key is free, and there are as many keys as steps.
pub room_at_start :
    (steps : List Step)
    → (length (by_id steps) == length steps) ≡ true
    → free (keys (by_id steps)) [] < suc (length steps)
room_at_start steps same = omega (
  arith,
  free-le-length (keys (by_id steps)) [],
  length-keys (by_id steps),
  (==_iff (length (by_id steps)) (length steps)).0 same,
)

-- `_topological_sort` always ends, within the fuel that it is given.
pub topological_sort-ne-no_fuel : (steps : List Step) → topological_sort steps ≢ err no_fuel
unfolding topological_sort
topological_sort-ne-no_fuel steps h = elim (Bool-cases (length (by_id steps) == length steps)) [
  | inl same ↦
      each-ne-no_fuel (by_id steps) (by_id-Keyed steps) (suc (length steps)) (ids steps) start
        (λ x m cm at_start.
          visit-ne-no_fuel (by_id steps) (by_id-Keyed steps) (suc (length steps)) x m cm
            (rw at_start (room_at_start steps same)))
        (start-Consistent (by_id steps))
        (bind_ok-err (each (visit (suc (length steps)) (by_id steps)) (ids steps) start)
          (λ q. q.ordered) no_fuel (rw same at h))
  | inr other ↦ cc (rw other at h)
]
