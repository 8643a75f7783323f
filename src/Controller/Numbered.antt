-- ===== src/Controller/Numbered.antt =====
-- The events of a run: numbered without a gap, of one run, whatever the worker, the sink and an operator do.
use testudo.Prelude.{
  ℕ, ◌≡◌, refl, sym, ◌∙◌, Bool, true, false, inl, inr, List, [], Option, none, some, Result, ok,
  err, Bool-cases, Comparable-string, append-nil,
}
use testudo.Value.{Fields}
use testudo.Controller.{
  Fault, HostEvent, HostController, Worker, World, Act, clean_up, stop_after_failure,
}
use testudo.Prelude.State.{continue, ◌>>=◌, ◌>>◌}
use testudo.Controller.Checks.{Identity, validate_identity}
use testudo.Controller.Run.{
  RunResult, supervise, settle, deadline_of, launched_run, is_zero, is_active, reset, run_host,
}
use testudo.Controller.Receive.{raise_act}
use testudo.Controller.Counting.{Numbered, Counting, supervise-Counting, clean_up-Counting}

module _ (world : World) (worker : Worker) (i : Identity) where
  same-Numbered :
      (base : List HostEvent) (s t : HostController)
      → t.events ≡ s.events
      → Counting i base s
      → Numbered i base t
  same-Numbered base s t same c = record {
    new = c.numbered.new;
    added = same ∙ c.numbered.added;
    consecutive = c.numbered.consecutive;
    of_run = c.numbered.of_run;
  }

  settle-Numbered :
      (base : List HostEvent) (r : Result Fault RunResult) (s : HostController)
      → Counting i base s
      → Numbered i base (settle world worker i (r, s)).1
  unfolding stop_after_failure
  settle-Numbered base (ok r) s c = same-Numbered base s _ refl c
  settle-Numbered base (err e) s c = elim (Bool-cases s.stop_called) [
    | inl on ↦ simp (on) (same-Numbered base s _ refl c)
    | inr off ↦
        let cleaned = clean_up world worker i.run_id i.token_id s in
        simp (off) (same-Numbered base cleaned _ refl (clean_up-Counting world worker i base s c))
  ]

  nothing_new : (s t : HostController) → t.events ≡ s.events → Numbered i s.events t
  nothing_new s t same = record {
    new = [];
    added = same ∙ sym (append-nil s.events);
    consecutive = tt;
    of_run = tt;
  }

  launched_run-Numbered :
      (o : Option Fault) (contract : Fields) (timeout : Option ℕ) (s : HostController)
      → Numbered i s.events
          (launched_run world worker i o contract timeout (reset world worker i s)).1
  launched_run-Numbered (some e) contract timeout s = nothing_new s _ refl
  launched_run-Numbered none contract timeout s =
      let begun : HostController = record s {
        sequence = 0;
        stop_called = false;
        active = some i.run_id;
      } in
      let q = supervise world worker i contract (deadline_of world worker i timeout) begun in
      settle-Numbered s.events q.0 q.1 (
        supervise-Counting world worker i s.events contract (deadline_of world worker i timeout)
          begun
          (record {
            numbered = record {
              new = [];
              added = sym (append-nil s.events);
              consecutive = tt;
              of_run = tt;
            };
            next = refl;
            active = refl;
          }))

  guarded-Numbered :
      (r : Result Fault (Unit {0})) (rest : Act RunResult) (s : HostController)
      → Numbered i s.events (rest s).1
      → Numbered i s.events (continue (λ _. rest) r s).1
  guarded-Numbered (err e) rest s h = nothing_new s s refl
  guarded-Numbered (ok _) rest s h = h

  guarded_act-Numbered :
      (b : Bool) (e : Fault) (rest : Act RunResult) (s : HostController)
      → Numbered i s.events (rest s).1
      → Numbered i s.events ((raise_act b e >> rest) s).1
  unfolding ◌>>=◌
  guarded_act-Numbered true e rest s h = nothing_new s s refl
  guarded_act-Numbered false e rest s h = h

  -- However a run ends, the events that its sink was given are of this run and numbered from zero without
  -- a gap, those of an operator's stop and of the cleanup included.
  pub run_host-Numbered :
      (contract : Fields) (timeout : Option ℕ) (s : HostController)
      → Numbered i s.events (run_host world worker i contract timeout s).1
  unfolding run_host ◌>>=◌
  run_host-Numbered contract timeout s =
      guarded-Numbered (validate_identity i.run_id i.token_id i.nonce contract) _ s (
        guarded_act-Numbered (is_zero world worker i timeout) Fault.timeout_not_positive _ s (
          guarded_act-Numbered (is_active world worker i s) Fault.already_active _ s
            (launched_run-Numbered worker.launch contract timeout s)))
