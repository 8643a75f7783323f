-- ===== src/Controller/Stop.antt =====
-- The stops of a worker while its run is active.
use mathlib.Core.Path.{subst}
use testudo.Prelude.{
  ℕ, suc, Some, String, ◌≡◌, refl, sym, ap, ◌∙◌, true, false, ◌||◌, inl, inr, List, [], ◌∷◌, ◌++◌,
  Option, none, some, Result, ok, err, All, Bool-cases, ◌==◌, Comparable-string, append-nil,
  append_assoc, some-injective,
}
use testudo.Value.{Fields}
use testudo.Controller.{
  Fault, Ending, HostEvent, HostController, Turn, Worker, World, Act, call, emit_host, new_event,
  ending, reason_details, stop_active, stop_of, stop_host,
}
use testudo.Prelude.State.{continue, ◌>>=◌, ◌>>◌}
use testudo.Controller.Checks.{Identity}
use testudo.Controller.Run.{supervise}
use testudo.Controller.Receive.{interrupted}
use testudo.Controller.Keeps.{Keeps, continue-Keeps, bind-Keeps, supervise-Keeps}
use testudo.Controller.Unstopped.{Same, emit_host-Same}

-- `told` are the events that the sink had before the run.
module _ (world : World) (worker : Worker) (i : Identity) (told : List HostEvent) where
  -- The operator asked for a stop for this reason before some turn of the loop.
  abbrev pub Asked : String → Type 0
  Asked reason = Some (λ (t : Turn). t.operator ≡ some reason) worker.turns

  -- The first event of a stop.
  abbrev pub supervisor_event : String → ℕ → HostEvent
  supervisor_event reason sequence =
      new_event world "supervisor" i.run_id worker.token_id sequence (reason_details reason)

  -- Why a stop by the operator did not come to the calls of the adapter: its first event is among those
  -- that the sink was given during the run, and the sink raised on it, or the run or the token of
  -- the worker has no id.
  pub data Unheard (reason : String) (events : List HostEvent) : Type 0 where
    sink_raised :
        (sequence : ℕ) (before after : List HostEvent) (fault : Fault)
        → events ≡ told ++ (before ++ supervisor_event reason sequence ∷ after)
        → world.sink (supervisor_event reason sequence) ≡ some fault
        → Unheard reason events
    nameless : (i.run_id == "" || worker.token_id == "") ≡ true → Unheard reason events

  -- The calls of a stop by the operator, where the sink has been given these events.
  pub data Stopping (events : List HostEvent) : List Ending → Type 0 where
    heard :
        (reason : String)
        → Asked reason
        → Stopping events (Ending.broker_stop reason ∷ Ending.lifecycle_stop reason ∷ [])
    unheard : (reason : String) → Asked reason → Unheard reason events → Stopping events []

  pub data Course (base : List Ending) (s : HostController) : Type 0 where
    undisturbed : s.stop_called ≡ false → s.endings ≡ base → Course base s
    stopped :
        (calls : List Ending)
        → s.stop_called ≡ true
        → s.endings ≡ base ++ calls
        → Stopping s.events calls
        → Course base s

  -- More events change nothing of it.
  Stopping-more :
      (events sent later : List HostEvent) (calls : List Ending)
      → later ≡ events ++ sent
      → Stopping events calls
      → Stopping later calls
  Stopping-more events sent later calls more (Stopping.heard reason asked) =
      Stopping.heard reason asked
  Stopping-more events sent later calls more (Stopping.unheard reason asked (Unheard.nameless h)) =
      Stopping.unheard reason asked (Unheard.nameless h)
  Stopping-more events sent later calls more
        (Stopping.unheard reason asked (Unheard.sink_raised n before after fault at raised)) =
      let e = supervisor_event reason n in
      Stopping.unheard reason asked (
        Unheard.sink_raised n before (after ++ sent) fault
          (more
            ∙ ap (λ l. l ++ sent) at
            ∙ append_assoc told (before ++ e ∷ after) sent
            ∙ ap (λ l. told ++ l) (append_assoc before (e ∷ after) sent))
          raised)

  -- The events of the run come behind those before it.
  abbrev pub Begun : HostController → Type 0
  Begun s = (sent : List HostEvent) × (s.events ≡ told ++ sent)

  Same-Begun : (s t : HostController) → Same s t → Begun s → Begun t
  Same-Begun s t h (sent, at) =
      let (later, more) = h.more in
      (sent ++ later, more ∙ ap (λ l. l ++ later) at ∙ append_assoc told sent later)

  Same-Course :
      (base : List Ending) (s t : HostController) → Same s t → Course base s → Course base t
  Same-Course base s t h (Course.undisturbed off at) =
      Course.undisturbed (h.same_flag ∙ off) (h.same_endings ∙ at)
  Same-Course base s t h (Course.stopped calls on at how) =
      let (sent, more) = h.more in
      Course.stopped calls (h.same_flag ∙ on) (h.same_endings ∙ at)
        (Stopping-more s.events sent t.events calls more how)

  -- The state of the run while it is active.
  abbrev pub Running : List Ending → HostController → Type 0
  Running base s = Course base s × (s.active ≡ some i.run_id) × Begun s

  Same-Running :
      (base : List Ending) (s t : HostController) → Same s t → Running base s → Running base t
  Same-Running base s t h (c, active, begun) =
      (Same-Course base s t h c, h.same_active ∙ active, Same-Begun s t h begun)

  emit_host-Running :
      (base : List Ending) (event run_id token_id : String) (details : Fields)
      → Keeps (Running base) (emit_host world event run_id token_id details)
  emit_host-Running base event run_id token_id details s c =
      Same-Running base s _ (emit_host-Same world event run_id token_id details s) c

  call-Unheard :
      (reason : String) (o : Option Fault) (s : HostController) (x : Fault)
      → world.sink (supervisor_event reason s.sequence) ≡ o
      → Begun s
      → (call o (record s {
        sequence = suc s.sequence;
        events = s.events ++ supervisor_event reason s.sequence ∷ [];
      })).0
        ≡ err x
      → Unheard reason (s.events ++ supervisor_event reason s.sequence ∷ [])
  call-Unheard reason none s x same begun h = cc
  call-Unheard reason (some fault) s x same (sent, at) h =
      let e = supervisor_event reason s.sequence in
      Unheard.sink_raised s.sequence sent [] fault
        (ap (λ l. l ++ e ∷ []) at ∙ append_assoc told sent (e ∷ [])) same

  call-events : (o : Option Fault) (s : HostController) → (call o s).1.events ≡ s.events
  call-events none s = refl
  call-events (some fault) s = refl

  emit_host-Unheard :
      (reason : String) (s : HostController) (x : Fault)
      → Begun s
      → (emit_host world "supervisor" i.run_id worker.token_id (reason_details reason) s).0 ≡ err x
      → Unheard reason
          (emit_host world "supervisor" i.run_id worker.token_id (reason_details reason) s).1.events
  unfolding emit_host
  emit_host-Unheard reason s x begun = elim (Bool-cases (i.run_id == "" || worker.token_id == "")) [
    | inl missing ↦ λ h. Unheard.nameless missing
    | inr named ↦
        let e = supervisor_event reason s.sequence in
        simp (named) (λ h.
          subst (Unheard reason)
            (sym (
              call-events (world.sink e)
                (record s { sequence = suc s.sequence; events = s.events ++ e ∷ [] })))
            (call-Unheard reason (world.sink e) s x refl begun h))
  ]

  -- A stop that has been heard.
  abbrev Heard : List Ending → HostController → Type 0
  Heard calls s =
      (s.stop_called ≡ true) × (s.endings ≡ calls) × (s.active ≡ some i.run_id) × Begun s

  Same-Heard :
      (calls : List Ending) (s t : HostController) → Same s t → Heard calls s → Heard calls t
  Same-Heard calls s t h (on, at, active, begun) =
      (h.same_flag ∙ on, h.same_endings ∙ at, h.same_active ∙ active, Same-Begun s t h begun)

  emit_host-Heard :
      (calls : List Ending) (event run_id token_id : String) (details : Fields)
      → Keeps (Heard calls) (emit_host world event run_id token_id details)
  emit_host-Heard calls event run_id token_id details s c =
      Same-Heard calls s _ (emit_host-Same world event run_id token_id details s) c

  ending-Heard :
      (calls : List Ending) (e : Ending) (o : Option Fault) (s : HostController)
      → Heard calls s
      → Heard (calls ++ e ∷ []) (ending world e o s).1
  ending-Heard calls e none s (on, at, active, begun) =
      (on, ap (λ l. l ++ e ∷ []) at, active, begun)
  ending-Heard calls e (some x) s (on, at, active, begun) =
      (on, ap (λ l. l ++ e ∷ []) at, active, begun)

  -- The calls of a stop behind its first event.
  abbrev after_event : String → String → Act (Unit {0})
  after_event run_id reason = do
    ending world (Ending.broker_stop reason) none
    ending world (Ending.lifecycle_stop reason) worker.stop
    emit_host world "revoke" run_id worker.token_id (reason_details reason)
    emit_host world "wipe" run_id worker.token_id (reason_details reason)

  after_event-Heard :
      (base : List Ending) (run_id reason : String) (s : HostController)
      → Heard base s
      → Heard
          ((base ++ Ending.broker_stop reason ∷ []) ++ Ending.lifecycle_stop reason ∷ [])
          (after_event run_id reason s).1
  unfolding ◌>>=◌
  after_event-Heard base run_id reason s h =
      let calls = (base ++ Ending.broker_stop reason ∷ []) ++ Ending.lifecycle_stop reason ∷ [] in
      let broken = record s { endings = s.endings ++ Ending.broker_stop reason ∷ [] } in
      let next = (ending world (Ending.lifecycle_stop reason) worker.stop broken).1 in
      continue-Keeps (Heard calls)
        (λ _. emit_host world "revoke" run_id worker.token_id (reason_details reason) >>= λ _.
          emit_host world "wipe" run_id worker.token_id (reason_details reason))
        (ending world (Ending.lifecycle_stop reason) worker.stop broken).0 next
        (λ _.
          bind-Keeps (Heard calls) _ _
            (emit_host-Heard calls "revoke" run_id worker.token_id (reason_details reason))
            (λ _. emit_host-Heard calls "wipe" run_id worker.token_id (reason_details reason)))
        (ending-Heard (base ++ Ending.broker_stop reason ∷ []) (Ending.lifecycle_stop reason)
          worker.stop broken (ending-Heard base (Ending.broker_stop reason) none s h))

  -- A stop that is under way, from its first event on.
  announced :
      (base : List Ending) (reason : String) (r : Result Fault (Unit {0})) (s : HostController)
      → Asked reason
      → ((x : Fault) → r ≡ err x → Unheard reason s.events)
      → Heard base s
      → Running base (continue (λ _. after_event i.run_id reason) r s).1
  announced base reason (err x) s asked failed (on, at, active, begun) = (
    Course.stopped [] on (at ∙ sym (append-nil base))
        (Stopping.unheard reason asked (failed x refl)),
    active,
    begun,
  )
  announced base reason (ok _) s asked failed h =
      let (on, at, active, begun) = after_event-Heard base i.run_id reason s h in
      (
        Course.stopped (Ending.broker_stop reason ∷ Ending.lifecycle_stop reason ∷ []) on
            (at
              ∙ append_assoc base (Ending.broker_stop reason ∷ [])
                  (Ending.lifecycle_stop reason ∷ []))
            (Stopping.heard reason asked),
        active,
        begun,
      )

  stop_active-Running :
      (base : List Ending) (reason : String) (s : HostController)
      → Asked reason
      → s.endings ≡ base
      → s.active ≡ some i.run_id
      → Begun s
      → Running base (stop_active world worker i.run_id reason s).1
  unfolding stop_active ◌>>=◌
  stop_active-Running base reason s asked at active begun =
      let s1 : HostController = record s { stop_called = true } in
      let q = emit_host world "supervisor" i.run_id worker.token_id (reason_details reason) s1 in
      announced base reason q.0 q.1 asked (λ x h. emit_host-Unheard reason s1 x begun h)
        (emit_host-Heard base "supervisor" i.run_id worker.token_id (reason_details reason) s1
          (refl, at, active, begun))

  stop_of-Running :
      (base : List Ending) (o : Option String) (reason : String) (s : HostController)
      → Asked reason
      → s.active ≡ o
      → Running base s
      → Running base (stop_of world worker o reason s).1
  stop_of-Running base none reason s asked same h = h
  stop_of-Running base (some run_id) reason s asked held
        (Course.undisturbed off at, active, begun) =
      let here : run_id ≡ i.run_id = some-injective _ _ (sym held ∙ active) in
      elim (Bool-cases (reason == "")) [
        | inl empty ↦ simp (empty) (Course.undisturbed off at, active, begun)
        | inr given ↦
            simp (given, off)
              (subst (λ r. Running base (stop_active world worker r reason s).1) (sym here)
                (stop_active-Running base reason s asked at active begun))
      ]
  stop_of-Running base (some run_id) reason s asked held
        (Course.stopped calls on at how, active, begun) =
      elim (Bool-cases (reason == "")) [
        | inl empty ↦ simp (empty) (Course.stopped calls on at how, active, begun)
        | inr given ↦ simp (given, on) (Course.stopped calls on at how, active, begun)
      ]

  interrupted-Running :
      (base : List Ending) (o : Option String)
      → ((reason : String) → o ≡ some reason → Asked reason)
      → Keeps (Running base) (interrupted world worker i o)
  unfolding stop_host
  interrupted-Running base none asked s h = h
  interrupted-Running base (some reason) asked s h =
      stop_of-Running base s.active reason s (asked reason refl) refl h

  All-interrupted :
      (base : List Ending) (ts : List Turn)
      → ((reason : String) → Some (λ (t : Turn). t.operator ≡ some reason) ts → Asked reason)
      → All (λ t. Keeps (Running base) (interrupted world worker i t.operator)) ts
  All-interrupted base [] asked = tt
  All-interrupted base (t ∷ ts) asked = (
    interrupted-Running base t.operator (λ reason h. asked reason (inl h)),
    All-interrupted base ts (λ reason h. asked reason (inr h)),
  )

  pub supervise-Running :
      (base : List Ending) (contract : Fields) (deadline : Option ℕ)
      → Keeps (Running base) (supervise world worker i contract deadline)
  supervise-Running base contract deadline =
      supervise-Keeps (Running base) world worker i
        (λ event details. emit_host-Running base event i.run_id i.token_id details) contract
        deadline (All-interrupted base worker.turns (λ reason h. h))
