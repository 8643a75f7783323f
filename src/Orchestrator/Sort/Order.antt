-- ===== src/Orchestrator/Sort/Order.antt =====
-- The order that `_topological_sort` returns: every step once, its needs before it.
use mathlib.Core.Path.{subst}
use testudo.Prelude.{
  ==_iff, length, if_err-ok, bind-ok, elem-head, elem-tail, ok-injective, ℕ, zero, suc, ◌≡◌, refl,
  sym, ap, ◌∙◌, String, true, false, ◌||◌, ◌⊎◌, inl, inr, List, [], ◌∷◌, ◌++◌, some, Result, ok,
  ◌>>=◌, ◌==◌, Comparable-string, elem, distinct, arith, ==_sym, All, All-map, All-append,
  elem-append, distinct-append_one, ==_refl, Bool-cases,
}
use testudo.Prelude.Dict.{Dict, get, set, get-set, get-empty}
use testudo.Orchestrator.{Step}
use testudo.Orchestrator.Sort.Steps.{visit-zero, Way, visit_way, visit-visited}
use testudo.Orchestrator.Sort.{
  WorkflowError, Progress, discard, each, finish, visit, ids, start, topological_sort, index_from,
  by_id,
}

-- Each step stands behind the steps that it needs; `seen` are the ids further ahead.
abbrev pub Placed : List String → List Step → Type 0
Placed seen [] = Unit
Placed seen (s ∷ l) = All (λ d. elem d seen ≡ true) s.needs × Placed (s.id ∷ seen) l

abbrev pub Known : Dict Step → List Step → Type 0
Known index = All (λ s. get index s.id ≡ some s)

pub record Consistent (index : Dict Step) (p : Progress) : Type 0 where
  pub matches : (k : String) → elem k p.visited ≡ elem k (ids p.ordered)
  pub placed : Placed [] p.ordered
  pub known : Known index p.ordered
  pub unique : distinct (ids p.ordered) ≡ true

-- What a visit leaves of the state that it was given.
pub record Grew (index : Dict Step) (p q : Progress) : Type 0 where
  pub consistent : Consistent index q
  pub kept : (k : String) → elem k p.visited ≡ true → elem k q.visited ≡ true
  pub frozen : (k : String) → elem k p.visiting ≡ true → elem k q.visited ≡ elem k p.visited
  pub same : q.visiting ≡ p.visiting

ids-append : (xs ys : List Step) → ids (xs ++ ys) ≡ ids xs ++ ids ys
ids-append [] ys = refl
ids-append (x ∷ xs) ys = ap (λ l. x.id ∷ l) (ids-append xs ys)

discard-absent : (k : String) (xs : List String) → elem k xs ≡ false → discard k xs ≡ xs
unfolding discard
discard-absent k [] h = refl
discard-absent k (x ∷ xs) h = ground (arith, ==_sym k x, discard-absent k xs)

discard-cons : (k : String) (xs : List String) → elem k xs ≡ false → discard k (k ∷ xs) ≡ xs
unfolding discard
discard-cons k xs h = rw (==_refl k) (discard-absent k xs h)

Placed-append :
    (seen : List String) (l : List Step) (s : Step)
    → Placed seen l
    → All (λ d. (elem d seen || elem d (ids l)) ≡ true) s.needs
    → Placed seen (l ++ s ∷ [])
Placed-append seen [] s h n = (All-map _ _ s.needs (λ d e. ground (arith, e)) n, tt)
Placed-append seen (x ∷ l) s h n =
    (h.0, Placed-append (x.id ∷ seen) l s h.1 (All-map _ _ s.needs (λ d e. ground (arith, e)) n))

module _ (index : Dict Step) where
  finish-Consistent :
      (id : String) (step : Step) (q : Progress)
      → get index id ≡ some step
      → step.id ≡ id
      → Consistent index q
      → All (λ d. elem d q.visited ≡ true) step.needs
      → elem id q.visited ≡ false
      → Consistent index (finish id step q)
  unfolding finish
  finish-Consistent id step q found named c needs fresh = record {
    matches = λ k.
        rw
          (
            ids-append q.ordered (step ∷ []),
            elem-append k (ids q.ordered) (step.id ∷ []),
            ← c.matches k,
            named,
          )
          (ground arith);
    placed =
        Placed-append [] q.ordered step c.placed
          (All-map _ _ step.needs (λ d e. sym (c.matches d) ∙ e) needs);
    known = All-append _ q.ordered (step ∷ []) c.known (ap (get index) named ∙ found, tt);
    unique = rw (ids-append q.ordered (step ∷ [])) (
        distinct-append_one (ids q.ordered) step.id c.unique
          (rw named (sym (c.matches id) ∙ fresh)));
  }

  Grew-refl : (p : Progress) → Consistent index p → Grew index p p
  Grew-refl p c = record { consistent = c; kept = λ k h. h; frozen = λ k h. refl; same = refl }

  Grew-trans : (p q r : Progress) → Grew index p q → Grew index q r → Grew index p r
  Grew-trans p q r a b = record {
    consistent = b.consistent;
    kept = λ k h. b.kept k (a.kept k h);
    frozen = λ k h. b.frozen k (rw a.same h) ∙ a.frozen k h;
    same = b.same ∙ a.same;
  }

  abbrev pub Visits : (String → Progress → Result WorkflowError Progress) → Type 0
  Visits body =
      (x : String) (p q : Progress)
      → body x p ≡ ok q
      → Consistent index p
      → Grew index p q × (elem x q.visited ≡ true)

  pub each-Grew :
      (body : String → Progress → Result WorkflowError Progress)
      → Visits body
      → (xs : List String) (p q : Progress) → each body xs p ≡ ok q
      → Consistent index p
      → Grew index p q × All (λ x. elem x q.visited ≡ true) xs
  unfolding each
  each-Grew body visits [] p q h c =
      (subst (λ r. Grew index p r) (ok-injective h) (Grew-refl p c), tt)
  each-Grew body visits (x ∷ xs) p q h c =
      let (m, first, others) = bind-ok (body x p) (each body xs) q h in
      let (grew, here) = visits x p m first c in
      let (rest, all) = each-Grew body visits xs m q others grew.consistent in
      (Grew-trans p m q grew rest, (rest.kept x here, all))

-- Each entry of the index stands under the id of its step.
abbrev pub Keyed : Dict Step → Type 0
Keyed index = (k : String) (s : Step) → get index k ≡ some s → s.id ≡ k

module _ (index : Dict Step) (keyed : Keyed index) where
  -- A node that is visited for the first time.
  enter :
      (fuel : ℕ) (id : String) (step : Step) (p q : Progress)
      → Visits index (visit fuel index)
      → get index id ≡ some step
      → elem id p.visited ≡ false
      → elem id p.visiting ≡ false
      → each (visit fuel index) step.needs (record p { visiting = id ∷ p.visiting }) ≡ ok q
      → Consistent index p
      → Grew index p (finish id step q) × (elem id (finish id step q).visited ≡ true)
  unfolding finish
  enter fuel id step p q deeper found unvisited unentered run c =
      let inside : Progress = record p { visiting = id ∷ p.visiting } in
      let began : Consistent index inside = record {
        matches = c.matches;
        placed = c.placed;
        known = c.known;
        unique = c.unique;
      } in
      let (grew, needs) = each-Grew index (visit fuel index) deeper step.needs inside q run began in
      (
        record {
          consistent =
              finish-Consistent index id step q found (keyed id step found) grew.consistent needs
                (grew.frozen id (elem-head id p.visiting) ∙ unvisited);
          kept = λ k h. elem-tail k id q.visited (grew.kept k h);
          frozen = λ k h. ground (arith, ==_iff k id, grew.frozen k (elem-tail k id p.visiting h));
          same = rw grew.same (discard-cons id p.visiting unentered);
        },
        elem-head id q.visited,
      )

  pub visit-Visits : (fuel : ℕ) → Visits index (visit fuel index)
  visit-Visits zero id p q h c = cc (h, visit-zero index id p)
  visit-Visits (suc fuel) id p q h c = elim (Bool-cases (elem id p.visited)) [
    | inl seen ↦
        let same = ok-injective (sym (visit-visited fuel index id p seen) ∙ h) in
        (
          subst (λ r. Grew index p r) same (Grew-refl index p c),
          subst (λ (r : Progress). elem id r.visited ≡ true) same seen,
        )
    | inr unvisited ↦ elim (visit_way fuel index id p unvisited) [
      | Way.cycle entered e ↦ cc
      | Way.unknown missing e ↦ cc
      | Way.enter step found unentered e ↦
          let (r, run, done) =
            bind-ok (each (visit fuel index) step.needs (record p { visiting = id ∷ p.visiting }))
              (λ q. ok (finish id step q)) q (sym e ∙ h) in
          let arrived =
            enter fuel id step p r (visit-Visits fuel) found unvisited unentered run c in
          let same = ok-injective done in
          (
            subst (λ t. Grew index p t) same arrived.0,
            subst (λ (t : Progress). elem id t.visited ≡ true) same arrived.1,
          )
    ]
  ]

-- `s` is one of the steps.
abbrev pub Among : Step → List Step → Type 0
Among s [] = ⊥
Among s (x ∷ steps) = (s ≡ x) ⊎ Among s steps

index_from-get :
    (d : Dict Step) (steps : List Step) (k : String) (s : Step)
    → get (index_from d steps) k ≡ some s
    → (Among s steps × (s.id ≡ k)) ⊎ (get d k ≡ some s)
unfolding index_from
index_from-get d [] k s h = inr h
index_from-get d (x ∷ steps) k s h = elim (index_from-get (set d x.id x) steps k s h) [
  | inl found ↦ inl (inr found.0, found.1)
  | inr before ↦ elim (Bool-cases (x.id == k)) [
    | inl here ↦
        let same : x ≡ s = ground (arith, get-set d x.id k x) in
        inl (inl (sym same), ap (λ (t : Step). t.id) (sym same) ∙ (==_iff x.id k).0 here)
    | inr other ↦ inr (ground (arith, get-set d x.id k x))
  ]
]

pub by_id-get :
    (steps : List Step) (k : String) (s : Step)
    → get (by_id steps) k ≡ some s
    → Among s steps × (s.id ≡ k)
unfolding by_id
by_id-get steps k s h = elim (index_from-get [] steps k s h) [
  | inl found ↦ found
  | inr before ↦ cc (get-empty {V = Step} k)
]

pub by_id-Keyed : (steps : List Step) → Keyed (by_id steps)
by_id-Keyed steps k s h = (by_id-get steps k s h).1

pub record IsOrder (steps ordered : List Step) : Type 0 where
  pub placed : Placed [] ordered
  pub once : distinct (ids ordered) ≡ true
  pub complete : All (λ k. elem k (ids ordered) ≡ true) (ids steps)
  pub sound : All (λ s. Among s steps) ordered

pub start-Consistent : (index : Dict Step) → Consistent index start
start-Consistent index = record { matches = λ k. refl; placed = tt; known = tt; unique = refl }

-- The order that is returned has every id of the workflow once, only steps of the workflow, and
-- each step behind all the steps that it needs.
pub topological_sort-IsOrder :
    (steps ordered : List Step) → topological_sort steps ≡ ok ordered → IsOrder steps ordered
unfolding topological_sort
topological_sort-IsOrder steps ordered h =
    let index = by_id steps in
    let fuel = suc (length steps) in
    let (_, run) =
      if_err-ok _ _ (each (visit fuel index) (ids steps) start >>= λ q. ok q.ordered) h in
    let (q, sorted, done) =
      bind-ok (each (visit fuel index) (ids steps) start) (λ q. ok q.ordered) ordered run in
    let (grew, all) =
      each-Grew index (visit fuel index) (visit-Visits index (by_id-Keyed steps) fuel) (ids steps)
        start q sorted (start-Consistent index) in
    let c = grew.consistent in
    subst (IsOrder steps) (ok-injective done) (record {
      placed = c.placed;
      once = c.unique;
      complete = All-map _ _ (ids steps) (λ k e. sym (c.matches k) ∙ e) all;
      sound = All-map _ _ q.ordered (λ s e. (by_id-get steps s.id s e).0) c.known;
    })
