-- ===== src/Controller/Unstopped.antt =====
-- An event leaves the flag, the active run and the calls of the adapter as they were; the cleanup stops the
-- lifecycle once.
use testudo.Prelude.{
  String, List, append-nil, sym, ◌≡◌, refl, ap, ◌∙◌, true, ◌||◌, inl, inr, [], ◌∷◌, ◌++◌, Option,
  none, some, Bool-cases, ◌==◌, Comparable-string,
}
use testudo.Value.{Fields}
use testudo.Controller.{
  Fault, Ending, HostEvent, HostController, Worker, World, call, emit_host, new_event, ending,
  clean_up, failure,
}
use testudo.Controller.Checks.{Identity}

-- An event changes neither flag nor endings, and comes behind the events before it.
pub record Same (s t : HostController) : Type 0 where
  pub same_flag : t.stop_called ≡ s.stop_called
  pub same_endings : t.endings ≡ s.endings
  pub same_active : t.active ≡ s.active
  pub more : (sent : List HostEvent) × (t.events ≡ s.events ++ sent)

same : (s : HostController) → Same s s
same s = record {
  same_flag = refl;
  same_endings = refl;
  same_active = refl;
  more = ([], sym (append-nil s.events));
}

call-Same : (o : Option Fault) (s : HostController) → Same s (call o s).1
call-Same none s = same s
call-Same (some e) s = same s

deliver-Same :
    (o : Option Fault) (e : HostEvent) (s t : HostController) → Same s t → Same s (call o t).1
deliver-Same none e s t h = h
deliver-Same (some x) e s t h = h

module _ (world : World) where
  pub emit_host-Same :
      (event run_id token_id : String) (details : Fields) (s : HostController)
      → Same s (emit_host world event run_id token_id details s).1
  unfolding emit_host
  emit_host-Same event run_id token_id details s =
      elim (Bool-cases (run_id == "" || token_id == "")) [
        | inl missing ↦ simp (missing) (same s)
        | inr named ↦
            let e = new_event world event run_id token_id s.sequence details in
            simp (named) (
              deliver-Same (world.sink e) e s _ (record {
                same_flag = refl;
                same_endings = refl;
                same_active = refl;
                more = (e ∷ [], refl);
              }))
      ]

  ending-endings :
      (e : Ending) (o : Option Fault) (s : HostController)
      → (ending world e o s).1.endings ≡ s.endings ++ e ∷ []
  ending-endings e none s = refl
  ending-endings e (some x) s = refl

module _ (world : World) (worker : Worker) (i : Identity) where
  -- The cleanup stops the lifecycle once, whichever of its operations raise.
  pub clean_up-endings :
      (s : HostController)
      → (clean_up world worker i.run_id i.token_id s).endings
        ≡ s.endings ++ Ending.lifecycle_stop "controller_failure" ∷ []
  clean_up-endings s =
      let s1 : HostController = record s { stop_called = true } in
      let s2 = (emit_host world "supervisor" i.run_id i.token_id (failure world) s1).1 in
      let s3 = (ending world (Ending.lifecycle_stop "controller_failure") worker.stop s2).1 in
      let s4 = (emit_host world "revoke" i.run_id i.token_id (failure world) s3).1 in
      (emit_host-Same world "wipe" i.run_id i.token_id (failure world) s4).same_endings
      ∙ (emit_host-Same world "revoke" i.run_id i.token_id (failure world) s3).same_endings
      ∙ ending-endings world (Ending.lifecycle_stop "controller_failure") worker.stop s2
      ∙ ap (λ l. l ++ Ending.lifecycle_stop "controller_failure" ∷ [])
          (emit_host-Same world "supervisor" i.run_id i.token_id (failure world) s1).same_endings
