-- ===== src/Controller/Counting.antt =====
-- The events of a run while it is active: each is of the run, and takes the next number.
use mathlib.Core.Path.{subst}
use testudo.Prelude.{
  ℕ, suc, ◌+◌, String, ◌≡◌, refl, sym, ap, ◌∙◌, arith, Bool, true, ◌||◌, inl, inr, List, [], ◌∷◌,
  ◌++◌, Option, none, some, All, Bool-cases, ◌==◌, Comparable-string, length, length-append,
  All-append, append_assoc, some-injective,
}
use testudo.Value.{Fields}
use testudo.Controller.{
  Fault, Ending, HostEvent, HostController, Turn, Worker, World, call, emit_host, new_event, ending,
  reason_details, stop_active, stop_of, stop_host, clean_up, failure,
}
use testudo.Controller.Checks.{Identity}
use testudo.Controller.Run.{supervise}
use testudo.Controller.Receive.{interrupted}
use testudo.Controller.Keeps.{Keeps, bind-Keeps, supervise-Keeps}

abbrev pub Consecutive : ℕ → List HostEvent → Type 0
Consecutive n [] = Unit
Consecutive n (e ∷ es) = (e.sequence ≡ n) × Consecutive (suc n) es

Consecutive-append :
    (n : ℕ) (es : List HostEvent) (e : HostEvent)
    → Consecutive n es
    → e.sequence ≡ n + length es
    → Consecutive n (es ++ e ∷ [])
Consecutive-append n [] e h same = (omega (arith, same), tt)
Consecutive-append n (x ∷ es) e (here, rest) same =
    (here, Consecutive-append (suc n) es e rest (omega (arith, same)))

module _ (i : Identity) where
  abbrev OfRun : HostEvent → Type 0
  OfRun e = e.run_id ≡ i.run_id

  -- The events since a state are those of the run, numbered from zero.
  pub record Numbered (base : List HostEvent) (t : HostController) : Type 0 where
    pub new : List HostEvent
    pub added : t.events ≡ base ++ new
    pub consecutive : Consecutive 0 new
    pub of_run : All (λ (e : HostEvent). e.run_id ≡ i.run_id) new

  pub record Counting (base : List HostEvent) (s : HostController) : Type 0 where
    pub numbered : Numbered base s
    pub next : s.sequence ≡ length numbered.new
    pub active : s.active ≡ some i.run_id

  -- A state with the same events, number and active run.
  moved :
      (base : List HostEvent) (s : HostController) (flag : Bool) (endings : List Ending)
      → Counting base s
      → Counting base (record s { stop_called = flag; endings = endings })
  moved base s flag endings c = record {
    numbered = record {
      new = c.numbered.new;
      added = c.numbered.added;
      consecutive = c.numbered.consecutive;
      of_run = c.numbered.of_run;
    };
    next = c.next;
    active = c.active;
  }

module _ (world : World) (worker : Worker) (i : Identity) where
  delivered :
      (base : List HostEvent) (event token_id : String) (details : Fields) (s : HostController)
      (o : Option Fault)
      → Counting i base s
      → Counting i base
          (call o (record s {
            sequence = suc s.sequence;
            events = s.events ++ new_event world event i.run_id token_id s.sequence details ∷ [];
          })).1
  delivered base event token_id details s o c =
      let e = new_event world event i.run_id token_id s.sequence details in
      let now = c.numbered in
      let added : Counting i base
          (record s { sequence = suc s.sequence; events = s.events ++ e ∷ [] }) =
        record {
          numbered = record {
            new = now.new ++ e ∷ [];
            added = ap (λ l. l ++ e ∷ []) now.added ∙ append_assoc base now.new (e ∷ []);
            consecutive = Consecutive-append 0 now.new e now.consecutive (omega (arith, c.next));
            of_run = All-append (OfRun i) now.new (e ∷ []) now.of_run (refl, tt);
          };
          next = omega (arith, c.next, length-append now.new (e ∷ []));
          active = c.active;
        } in
      either o added
    where
      either :
          {t : HostController} (o : Option Fault) → Counting i base t → Counting i base (call o t).1
      either none h = h
      either (some x) h = h

  emit_host-Counting :
      (base : List HostEvent) (event token_id : String) (details : Fields)
      → Keeps (Counting i base) (emit_host world event i.run_id token_id details)
  unfolding emit_host
  emit_host-Counting base event token_id details s c =
      elim (Bool-cases (i.run_id == "" || token_id == "")) [
        | inl missing ↦ simp (missing) c
        | inr named ↦ simp (named) (
            delivered base event token_id details s
              (world.sink (new_event world event i.run_id token_id s.sequence details)) c)
      ]

  ending-Counting :
      (base : List HostEvent) (e : Ending) (o : Option Fault)
      → Keeps (Counting i base) (ending world e o)
  ending-Counting base e none s c = moved i base s s.stop_called (s.endings ++ e ∷ []) c
  ending-Counting base e (some x) s c = moved i base s s.stop_called (s.endings ++ e ∷ []) c

  stop_active-Counting :
      (base : List HostEvent) (reason : String)
      → Keeps (Counting i base) (stop_active world worker i.run_id reason)
  unfolding stop_active
  stop_active-Counting base reason =
      bind-Keeps (Counting i base) _ _ (λ s c. moved i base s true s.endings c)
        (λ _.
          bind-Keeps (Counting i base) _ _
            (emit_host-Counting base "supervisor" worker.token_id (reason_details reason))
            (λ _.
              bind-Keeps (Counting i base) _ _
                (ending-Counting base (Ending.broker_stop reason) none)
                (λ _.
                  bind-Keeps (Counting i base) _ _
                    (ending-Counting base (Ending.lifecycle_stop reason) worker.stop)
                    (λ _.
                      bind-Keeps (Counting i base) _ _
                        (emit_host-Counting base "revoke" worker.token_id (reason_details reason))
                        (λ _.
                          emit_host-Counting base "wipe" worker.token_id
                            (reason_details reason))))))

  stop_of-Counting :
      (base : List HostEvent) (o : Option String) (reason : String) (s : HostController)
      → s.active ≡ o
      → Counting i base s
      → Counting i base (stop_of world worker o reason s).1
  stop_of-Counting base none reason s held c = c
  stop_of-Counting base (some run_id) reason s held c = elim (Bool-cases (reason == "")) [
    | inl empty ↦ simp (empty) c
    | inr given ↦ elim (Bool-cases s.stop_called) [
      | inl on ↦ simp (given, on) c
      | inr off ↦
          simp (given, off)
            (subst (λ r. Counting i base (stop_active world worker r reason s).1)
              (some-injective _ _ (sym c.active ∙ held)) (stop_active-Counting base reason s c))
    ]
  ]

  interrupted-Counting :
      (base : List HostEvent) (o : Option String)
      → Keeps (Counting i base) (interrupted world worker i o)
  unfolding stop_host
  interrupted-Counting base none s c = c
  interrupted-Counting base (some reason) s c = stop_of-Counting base s.active reason s refl c

  All-interrupted :
      (base : List HostEvent) (ts : List Turn)
      → All (λ t. Keeps (Counting i base) (interrupted world worker i t.operator)) ts
  All-interrupted base [] = tt
  All-interrupted base (t ∷ ts) = (interrupted-Counting base t.operator, All-interrupted base ts)

  pub supervise-Counting :
      (base : List HostEvent) (contract : Fields) (deadline : Option ℕ)
      → Keeps (Counting i base) (supervise world worker i contract deadline)
  supervise-Counting base contract deadline =
      supervise-Keeps (Counting i base) world worker i
        (λ event details. emit_host-Counting base event i.token_id details) contract deadline
        (All-interrupted base worker.turns)

  pub clean_up-Counting :
      (base : List HostEvent) (s : HostController)
      → Counting i base s
      → Counting i base (clean_up world worker i.run_id i.token_id s)
  clean_up-Counting base s c = emit_host-Counting base "wipe" i.token_id (failure world) _ (
      emit_host-Counting base "revoke" i.token_id (failure world) _ (
        ending-Counting base (Ending.lifecycle_stop "controller_failure") worker.stop _ (
          emit_host-Counting base "supervisor" i.token_id (failure world) _
            (moved i base s true s.endings c))))
