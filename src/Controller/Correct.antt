-- ===== src/Controller/Correct.antt =====
-- A run that returns has verified what it returns.
use mathlib.Core.Path.{subst}
use testudo.Prelude.{
  inl, inr, Some, ℕ, ◌≡◌, refl, sym, ap, ◌∙◌, true, List, ◌++◌, Option, none, some, Result, ok, err,
  some-injective,
}
use testudo.Prelude.Dict.{get}
use testudo.Value.{Fields, int, entries}
use testudo.Controller.{Fault, HostEvent, HostController, Worker, World}
use testudo.Controller.Checks.{is_text, Identity, without_hash, Verdict, status_name, HostReceipt}
use testudo.Controller.Run.{
  on_result, RunResult, remaining, supervise, close_result, settle, deadline_of, launched_run,
  reset, run_host,
}
use testudo.Controller.Receive.{Capture, no_capture}
use testudo.Controller.Returned.{Came, Kept, receive_all-Arrived}
use testudo.Prelude.State.{Returns, bind-Returns}
use testudo.Controller.Verified.{Bound, Agreed, judge_result-Agreed}
use testudo.Controller.Concluded.{last_events, Receipt, Concluded, conclude-Concluded}

module _ (world : World) (worker : Worker) (i : Identity) where
  -- What stands behind a result that a run returns.
  pub record Verified (timeout : Option ℕ) (r : RunResult) (t : HostController) : Type 0 where
    pub payload : Fields
    pub verdict : Verdict
    pub result_came : Some (Came world worker i "result" payload) worker.turns
    pub receipt_came : Some (Came world worker i "receipt" verdict.guest_receipt) worker.turns
    pub hash_holds :
        is_text (get (entries payload) "result_sha256") (world.sha256 (without_hash payload)) ≡ true
    pub exit_holds : get (entries payload) "exit_status" ≡ some (int r.exit_status)
    pub worker_exit :
        worker.wait (remaining (deadline_of world worker i timeout) worker.waiting_at)
        ≡ ok r.exit_status
    pub guest_bound :
        Bound world worker i verdict.guest_receipt (world.sha256 (without_hash payload))
    pub output : Fields
    pub receipt : HostReceipt
    pub receipt_says : Receipt world worker i verdict receipt
    pub status_derived : receipt.status ≡ status_name r.exit_status
    pub before : List HostEvent
    pub number : ℕ
    pub logged : t.events ≡ before ++ last_events world worker i r.exit_status output receipt number

  Kept-Came :
      (o : Option Fields) (guest : Fields)
      → o ≡ some guest
      → Kept world worker i none o worker.turns
      → Some (Came world worker i "receipt" guest) worker.turns
  Kept-Came none guest same kept = cc
  Kept-Came (some x) guest same (inl held) = cc
  Kept-Came (some x) guest same (inr came) =
      subst (λ g. Some (Came world worker i "receipt" g) worker.turns) (some-injective _ _ same)
        came

  Concluded-Verified :
      (timeout : Option ℕ) (payload : Fields) (guest : Option Fields) (v : Verdict)
      (s : HostController) (r : RunResult) (t : HostController)
      → Some (Came world worker i "result" payload) worker.turns
      → Kept world worker i none guest worker.turns
      → Agreed world worker i payload guest v
      → Concluded world worker i (deadline_of world worker i timeout) v r s t
      → Verified timeout r t
  Concluded-Verified timeout payload guest v s r t came kept agreed concluded = record {
    payload = payload;
    verdict = v;
    result_came = came;
    receipt_came = Kept-Came guest v.guest_receipt agreed.same_receipt kept;
    hash_holds =
        subst (λ h. is_text (get (entries payload) "result_sha256") h ≡ true) (sym agreed.same_hash)
          agreed.hash_holds;
    exit_holds = agreed.exit_holds ∙ ap (λ n. some (int n)) (sym concluded.same_exit);
    worker_exit = concluded.worker_exit ∙ ap ok (sym concluded.same_exit);
    guest_bound = subst (Bound world worker i v.guest_receipt) (sym agreed.same_hash) agreed.bound;
    output = concluded.output;
    receipt = concluded.receipt;
    receipt_says = concluded.receipt_says;
    status_derived = concluded.receipt_says.same_status ∙ ap status_name (sym concluded.same_exit);
    before = s.events;
    number = s.sequence;
    logged =
        concluded.logged
        ∙ ap
            (λ n.
              s.events
              ++ last_events world worker i n concluded.output concluded.receipt s.sequence)
            (sym concluded.same_exit);
  }

  on_result-Verified :
      (contract : Fields) (timeout : Option ℕ) (done : Fields × Capture) (s : HostController)
      (r : RunResult) (t : HostController)
      → Some (Came world worker i "result" done.0) worker.turns
      → Kept world worker i none done.1.guest_receipt worker.turns
      → Returns (on_result world worker i contract (deadline_of world worker i timeout) done) s r t
      → Verified timeout r t
  unfolding on_result
  on_result-Verified contract timeout (payload, c) s r t came kept h =
      let (_, s1, _, h1) = bind-Returns _ _ s r t h in
      let (v, s2, judged, h2) = bind-Returns _ _ s1 r t h1 in
      Concluded-Verified timeout payload c.guest_receipt v s2 r t came kept
        (judge_result-Agreed world worker i (get (entries contract) "containment") payload
          c.guest_receipt v judged.result)
        (conclude-Concluded world worker i (deadline_of world worker i timeout) v c s2 r t h2)

  supervise-Verified :
      (contract : Fields) (timeout : Option ℕ) (s : HostController) (r : RunResult)
      (t : HostController)
      → Returns (supervise world worker i contract (deadline_of world worker i timeout)) s r t
      → Verified timeout r t
  unfolding supervise
  supervise-Verified contract timeout s r t h =
      let (_, s1, _, h1) = bind-Returns _ _ s r t h in
      let (_, s2, _, h2) = bind-Returns _ _ s1 r t h1 in
      let (_, s3, _, h3) = bind-Returns _ _ s2 r t h2 in
      let (_, s4, _, h4) = bind-Returns _ _ s3 r t h3 in
      let (_, s5, _, h5) = bind-Returns _ _ s4 r t h4 in
      let (done, s6, looped, h6) = bind-Returns _ _ s5 r t h5 in
      let (came, kept) =
        receive_all-Arrived world worker i (deadline_of world worker i timeout) worker.turns
          no_capture s5 done s6 looped in
      on_result-Verified contract timeout done s6 r t came kept h6

  Verified-events :
      (timeout : Option ℕ) (r : RunResult) (u t : HostController)
      → t.events ≡ u.events
      → Verified timeout r u
      → Verified timeout r t
  Verified-events timeout r u t same v = record {
    payload = v.payload;
    verdict = v.verdict;
    result_came = v.result_came;
    receipt_came = v.receipt_came;
    hash_holds = v.hash_holds;
    exit_holds = v.exit_holds;
    worker_exit = v.worker_exit;
    guest_bound = v.guest_bound;
    output = v.output;
    receipt = v.receipt;
    receipt_says = v.receipt_says;
    status_derived = v.status_derived;
    before = v.before;
    number = v.number;
    logged = same ∙ v.logged;
  }

  settle-Returns :
      (r : Result Fault RunResult) (u : HostController) (x : RunResult)
      → (settle world worker i (r, u)).0 ≡ ok x
      → (r ≡ ok x) × ((settle world worker i (r, u)).1.events ≡ u.events)
  settle-Returns (err e) u x h = absurd (never worker.close h)
    where
      never : (o : Option Fault) → close_result world worker i {A = RunResult} o (err e) ≡ ok x → ⊥
      never none h = cc
      never (some f) h = cc
  settle-Returns (ok y) u x h = (kept worker.close h, refl)
    where
      kept :
          (o : Option Fault)
          → close_result world worker i o (ok y) ≡ ok x
          → ◌≡◌ {A = Result Fault RunResult} (ok y) (ok x)
      kept none h = h
      kept (some f) h = cc

  launched_run-Verified :
      (o : Option Fault) (contract : Fields) (timeout : Option ℕ) (s : HostController)
      (r : RunResult)
      → (launched_run world worker i o contract timeout s).0 ≡ ok r
      → Verified timeout r (launched_run world worker i o contract timeout s).1
  launched_run-Verified (some e) contract timeout s r h = cc
  launched_run-Verified none contract timeout s r h =
      let begun : HostController = record s { active = some i.run_id } in
      let q = supervise world worker i contract (deadline_of world worker i timeout) begun in
      let (result, events) = settle-Returns q.0 q.1 r h in
      let v =
        supervise-Verified contract timeout begun r q.1 (record { result = result; left = refl }) in
      Verified-events timeout r q.1 (settle world worker i q).1 events v

  -- A run that returns had a result and a guest's receipt from the worker; the hash of the result holds, the
  -- receipt is for this run, token, nonce and result and has a digest, and the worker ended with the exit
  -- status of the result. The last events are the output, the receipt of the host, whose status is
  -- "success" exactly for an exit status of zero, and the ends of the worker and its token.
  pub run_host-Verified :
      (contract : Fields) (timeout : Option ℕ) (s : HostController) (r : RunResult)
      → (run_host world worker i contract timeout s).0 ≡ ok r
      → Verified timeout r (run_host world worker i contract timeout s).1
  unfolding run_host
  run_host-Verified contract timeout s r h =
      let (_, s1, valid, h1) = bind-Returns _ _ s r _ (record { result = h; left = refl }) in
      let (_, s2, timed, h2) = bind-Returns _ _ s1 r _ h1 in
      let (_, s3, free, h3) = bind-Returns _ _ s2 r _ h2 in
      subst (Verified timeout r) h3.left
        (launched_run-Verified worker.launch contract timeout (reset world worker i s3) r h3.result)
