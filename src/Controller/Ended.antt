-- ===== src/Controller/Ended.antt =====
-- How a run ends its worker: which calls of the adapter are made, and in which order.
use mathlib.Core.Path.{subst}
use testudo.Prelude.{
  ℕ, ◌≡◌, refl, sym, ap, ◌∙◌, Bool, true, false, List, [], ◌∷◌, ◌++◌, Option, none, some, Result,
  ok, err, append-nil, append_assoc,
}
use testudo.Value.{Fields}
use testudo.Controller.{
  Fault, Ending, HostEvent, HostController, Worker, World, Act, clean_up, stop_after_failure,
}
use testudo.Prelude.State.{continue, ◌>>=◌, ◌>>◌}
use testudo.Controller.Checks.{Identity, validate_identity}
use testudo.Controller.Run.{
  RunResult, supervise, close_result, settle, deadline_of, launched_run, is_zero, is_active, reset,
  run_host,
}
use testudo.Controller.Receive.{raise_act}
use testudo.Controller.Stop.{Stopping, Course, Running, supervise-Running}
use testudo.Controller.Unstopped.{clean_up-endings}

module _ (world : World) (worker : Worker) (i : Identity) where
  -- The calls of the adapter before its close, for a result of the run, where the sink was given the
  -- events `told` before the run and `events` in all.
  pub data Calls (told events : List HostEvent)
      : Result Fault RunResult → List Ending → Type 0 where
    completed : (r : RunResult) → Calls told events (ok r) []
    cleaned :
        (e : Fault) → Calls told events (err e) (Ending.lifecycle_stop "controller_failure" ∷ [])
    by_operator :
        (r : Result Fault RunResult) (calls : List Ending)
        → Stopping world worker i told events calls
        → Calls told events r calls
    close_failed : (e : Fault) → worker.close ≡ some e → Calls told events (err e) []

  -- How `run` leaves the controller: it refused, the launch raised, or the worker has been ended.
  pub data Ended (s : HostController) : Result Fault RunResult × HostController → Type 0 where
    refused : (e : Fault) → Ended s (err e, s)
    unlaunched : (e : Fault) → worker.launch ≡ some e → Ended s (err e, reset world worker i s)
    ended :
        (r : Result Fault RunResult) (calls : List Ending) (t : HostController)
        → t.active ≡ none
        → t.endings ≡ s.endings ++ (calls ++ Ending.closed ∷ [])
        → Calls s.events t.events r calls
        → Ended s (r, t)

  closing :
      (base : List Ending) (at calls : List Ending)
      → at ≡ base ++ calls
      → at ++ Ending.closed ∷ [] ≡ base ++ (calls ++ Ending.closed ∷ [])
  closing base at calls h =
      ap (λ l. l ++ Ending.closed ∷ []) h ∙ append_assoc base calls (Ending.closed ∷ [])

  close_completed :
      (told events : List HostEvent) (o : Option Fault) (r : RunResult)
      → worker.close ≡ o
      → Calls told events (close_result world worker i o (ok r)) []
  close_completed told events none r h = Calls.completed r
  close_completed told events (some e) r h = Calls.close_failed e h

  close_kept :
      (o : Option Fault) (e : Fault) → close_result world worker i {A = RunResult} o (err e) ≡ err e
  close_kept none e = refl
  close_kept (some x) e = refl

  settle-Ended :
      (s : HostController) (r : Result Fault RunResult) (t : HostController)
      → Running world worker i s.events s.endings t
      → Ended s (settle world worker i (r, t))
  unfolding stop_after_failure
  settle-Ended s (ok r) t (Course.undisturbed off at, active, begun) =
      Ended.ended (close_result world worker i worker.close (ok r)) [] _ refl
        (closing s.endings t.endings [] (at ∙ sym (append-nil s.endings)))
        (close_completed s.events t.events worker.close r refl)
  settle-Ended s (ok r) t (Course.stopped calls on at how, active, begun) =
      Ended.ended (close_result world worker i worker.close (ok r)) calls _ refl
        (closing s.endings t.endings calls at) (Calls.by_operator _ calls how)
  settle-Ended s (err e) t (Course.undisturbed off at, active, begun) =
      let cleaned = clean_up world worker i.run_id i.token_id t in
      simp (off) (
        Ended.ended (close_result world worker i worker.close (err e))
          (Ending.lifecycle_stop "controller_failure" ∷ []) _ refl
          (closing s.endings cleaned.endings (Ending.lifecycle_stop "controller_failure" ∷ []) (
            clean_up-endings world worker i t
            ∙ ap (λ l. l ++ Ending.lifecycle_stop "controller_failure" ∷ []) at))
          (subst
            (λ r. Calls s.events cleaned.events r (Ending.lifecycle_stop "controller_failure" ∷ []))
            (sym (close_kept worker.close e)) (Calls.cleaned e)))
  settle-Ended s (err e) t (Course.stopped calls on at how, active, begun) = simp (on) (
      Ended.ended (close_result world worker i worker.close (err e)) calls _ refl
        (closing s.endings t.endings calls at) (Calls.by_operator _ calls how))

  launched_run-Ended :
      (o : Option Fault) (contract : Fields) (timeout : Option ℕ) (s : HostController)
      → worker.launch ≡ o
      → Ended s (launched_run world worker i o contract timeout (reset world worker i s))
  launched_run-Ended (some e) contract timeout s h = Ended.unlaunched e h
  launched_run-Ended none contract timeout s h =
      let begun : HostController = record s {
        sequence = 0;
        stop_called = false;
        active = some i.run_id;
      } in
      let q = supervise world worker i contract (deadline_of world worker i timeout) begun in
      settle-Ended s q.0 q.1 (
        supervise-Running world worker i s.events s.endings contract
          (deadline_of world worker i timeout) begun
          (Course.undisturbed refl refl, refl, ([], sym (append-nil s.events))))

  guarded-Ended :
      (r : Result Fault (Unit {0})) (rest : Act RunResult) (s : HostController)
      → Ended s (rest s)
      → Ended s (continue (λ _. rest) r s)
  guarded-Ended (err e) rest s h = Ended.refused e
  guarded-Ended (ok _) rest s h = h

  guarded_act-Ended :
      (b : Bool) (e : Fault) (rest : Act RunResult) (s : HostController)
      → Ended s (rest s)
      → Ended s ((raise_act b e >> rest) s)
  unfolding ◌>>=◌
  guarded_act-Ended true e rest s h = Ended.refused e
  guarded_act-Ended false e rest s h = h

  -- However a run ends, it refused, or the launch raised, or the controller is free again and the worker
  -- has been closed once and last. Before that its lifecycle was stopped once for a failure of the
  -- controller if the run failed, and not at all if it completed, with three exceptions: an operator had
  -- asked for a stop before a turn and the broker and the lifecycle were stopped once for that reason;
  -- an operator had asked for one whose first event the sink was given in this run and raised on, or
  -- could not be made for lack of an id; or the close itself raised.
  pub run_host-Ended :
      (contract : Fields) (timeout : Option ℕ) (s : HostController)
      → Ended s (run_host world worker i contract timeout s)
  unfolding run_host ◌>>=◌
  run_host-Ended contract timeout s =
      guarded-Ended (validate_identity i.run_id i.token_id i.nonce contract) _ s (
        guarded_act-Ended (is_zero world worker i timeout) Fault.timeout_not_positive _ s (
          guarded_act-Ended (is_active world worker i s) Fault.already_active _ s
            (launched_run-Ended worker.launch contract timeout s refl)))
