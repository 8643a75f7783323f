-- ===== src/Controller/Concluded.antt =====
-- A run that returns has verified its result, and ends its events with the receipt.
use mathlib.Core.Path.{subst}
use testudo.Prelude.{
  ℕ, suc, String, ◌≡◌, refl, sym, ap, ◌∙◌, Bool, true, false, not, ◌||◌, List, [], ◌∷◌, ◌++◌,
  Option, ℤ, ok, raise_if-eq-ok, ok-injective, ==_iff, ◌==◌, Comparable-int, Comparable-string,
  arith, append-nil, append_assoc,
}
use testudo.Value.{Fields}
use testudo.Controller.{
  Fault, HostEvent, HostController, Output, Worker, World, emit_host, new_event, reason_details,
}
use testudo.Controller.Checks.{
  is_sha256, Identity, Verdict, status_name, HostReceipt, new_host_receipt, receipt_dict,
}
use testudo.Controller.Run.{
  RunResult, remaining, conclude, tell_end, captured_details, run_result, exit_details,
}
use testudo.Controller.Receive.{Capture}
use testudo.Controller.Returned.{lift-Returns, raise_act-Returns, emit_host-Returns}
use testudo.Prelude.State.{return-Returns, Returns, bind-Returns}

module _ (world : World) (worker : Worker) (i : Identity) where
  -- The last five events, from the given number on.
  abbrev pub last_events : ℤ → Fields → HostReceipt → ℕ → List HostEvent
  last_events exit_status output receipt n =
      new_event world "output" i.run_id i.token_id n output
      ∷ new_event world "receipt" i.run_id i.token_id (suc n) (receipt_dict world receipt)
      ∷ new_event world "supervisor" i.run_id i.token_id (suc (suc n))
          (exit_details world worker i exit_status)
      ∷ new_event world "revoke" i.run_id i.token_id (suc (suc (suc n)))
          (reason_details "worker_exit")
      ∷ new_event world "wipe" i.run_id i.token_id (suc (suc (suc (suc n))))
          (reason_details "worker_exit")
      ∷ []

  -- The receipt of the host says what the verdict says.
  pub record Receipt (v : Verdict) (receipt : HostReceipt) : Type 0 where
    pub same_identity : receipt.identity ≡ i
    pub same_status : receipt.status ≡ status_name v.exit_status
    pub same_exit : receipt.exit_status ≡ v.exit_status
    pub same_hash : receipt.result_sha256 ≡ v.result_sha256
    pub same_guest : receipt.guest_receipt ≡ v.guest_receipt
    pub is_hash : is_sha256 v.result_sha256 ≡ true

  new_host_receipt-Receipt :
      (v : Verdict) (receipt : HostReceipt) → new_host_receipt i v ≡ ok receipt → Receipt v receipt
  unfolding new_host_receipt
  new_host_receipt-Receipt v receipt h =
      let (named, h1) =
        raise_if-eq-ok
          (i.run_id == "" || i.token_id == "" || i.nonce == "" || v.result_sha256 == "")
          Fault.bad_receipt _ h in
      let (hashed, h2) = raise_if-eq-ok (not (is_sha256 v.result_sha256)) Fault.bad_receipt _ h1 in
      subst (Receipt v) (ok-injective h2) (record {
        same_identity = refl;
        same_status = refl;
        same_exit = refl;
        same_hash = refl;
        same_guest = refl;
        is_hash = not-false _ hashed;
      })
    where
      not-false : (b : Bool) → not b ≡ false → b ≡ true
      not-false true h = refl
      not-false false h = cc

  pub record Concluded (deadline : Option ℕ) (v : Verdict) (r : RunResult) (s t : HostController)
      : Type 0 where
    pub same_exit : r.exit_status ≡ v.exit_status
    pub worker_exit : worker.wait (remaining deadline worker.waiting_at) ≡ ok v.exit_status
    pub output : Fields
    pub receipt : HostReceipt
    pub receipt_says : Receipt v receipt
    pub logged : t.events ≡ s.events ++ last_events v.exit_status output receipt s.sequence

  -- The events since a state, and the next number.
  record Log (s t : HostController) (new : List HostEvent) (next : ℕ) : Type 0 where
    pub events : t.events ≡ s.events ++ new
    pub next_number : t.sequence ≡ next

  no_events : (s : HostController) → Log s s [] s.sequence
  no_events s = record { events = sym (append-nil s.events); next_number = refl }

  move-Log :
      {new : List HostEvent} {n : ℕ} (s : HostController) {u w : HostController}
      → u ≡ w
      → Log s u new n
      → Log s w new n
  move-Log {new} {n} s same log = subst (λ u. Log s u new n) same log

  emit_host-Log :
      {new : List HostEvent} {n : ℕ} {a : Unit {0}} {t : HostController} (event : String)
      (details : Fields) (s u : HostController)
      → Log s u new n
      → Returns (emit_host world event i.run_id i.token_id details) u a t
      → Log s t (new ++ new_event world event i.run_id i.token_id n details ∷ []) (suc n)
  emit_host-Log {new} {n} {a} {t} event details s u log h =
      let same = emit_host-Returns world event i.run_id i.token_id details u a t h in
      record {
        events =
            ap (λ (x : HostController). x.events) same
            ∙ ap (λ l. l ++ new_event world event i.run_id i.token_id u.sequence details ∷ [])
                log.events
            ∙ append_assoc s.events new _
            ∙ ap
                (λ k. s.events ++ (new ++ new_event world event i.run_id i.token_id k details ∷ []))
                log.next_number;
        next_number = ap (λ (x : HostController). x.sequence) same ∙ ap suc log.next_number;
      }

  told :
      (v : Verdict) (c : Capture) (o : Output) (s : HostController) (r : RunResult)
      (t : HostController)
      → Returns (tell_end world worker i v c o) s r t
      → (receipt : HostReceipt) × (run_result world worker i v c o ≡ r)
        × (new_host_receipt i v ≡ ok receipt)
        × (t.events
            ≡ s.events
              ++ last_events v.exit_status
                  (captured_details world worker i v c o)
                  receipt
                  s.sequence)
  unfolding tell_end
  told v c o s r t h =
      let (_, s1, told_output, h1) = bind-Returns _ _ s r t h in
      let (receipt, s2, made, h2) = bind-Returns _ _ s1 r t h1 in
      let (_, s3, told_receipt, h3) = bind-Returns _ _ s2 r t h2 in
      let (_, s4, told_supervisor, h4) = bind-Returns _ _ s3 r t h3 in
      let (_, s5, told_revoke, h5) = bind-Returns _ _ s4 r t h4 in
      let (_, s6, told_wipe, h6) = bind-Returns _ _ s5 r t h5 in
      let (result, left) = return-Returns (run_result world worker i v c o) s6 r t h6 in
      let (receipt_ok, same) = lift-Returns (new_host_receipt i v) s1 receipt s2 made in
      let log1 =
        emit_host-Log "output" (captured_details world worker i v c o) s s (no_events s)
          told_output in
      let log3 =
        emit_host-Log "receipt" (receipt_dict world receipt) s s2 (move-Log s same log1)
          told_receipt in
      let log4 =
        emit_host-Log "supervisor" (exit_details world worker i v.exit_status) s s3 log3
          told_supervisor in
      let log5 = emit_host-Log "revoke" (reason_details "worker_exit") s s4 log4 told_revoke in
      let log6 = emit_host-Log "wipe" (reason_details "worker_exit") s s5 log5 told_wipe in
      (receipt, result, receipt_ok, sym (ap (λ (x : HostController). x.events) left) ∙ log6.events)

  pub conclude-Concluded :
      (deadline : Option ℕ) (v : Verdict) (c : Capture) (s : HostController) (r : RunResult)
      (t : HostController)
      → Returns (conclude world worker i deadline v c) s r t
      → Concluded deadline v r s t
  unfolding conclude
  conclude-Concluded deadline v c s r t h =
      let (status, s1, waited, h1) = bind-Returns _ _ s r t h in
      let (_, s2, agreed, h2) = bind-Returns _ _ s1 r t h1 in
      let (o, s3, collected, h3) = bind-Returns _ _ s2 r t h2 in
      let (status_ok, to1) = lift-Returns _ s status s1 waited in
      let (same_status, to2) =
        raise_act-Returns (not (status == v.exit_status)) Fault.exit_disagrees s1 _ s2 agreed in
      let (_, to3) = lift-Returns _ s2 o s3 collected in
      let (receipt, result, receipt_ok, logged) = told v c o s3 r t h3 in
      let exit : status ≡ v.exit_status =
        (==_iff status v.exit_status).0 (ground (arith, same_status)) in
      record {
        same_exit = sym (ap (λ (x : RunResult). x.exit_status) result);
        worker_exit = status_ok ∙ ap ok exit;
        output = captured_details world worker i v c o;
        receipt = receipt;
        receipt_says = new_host_receipt-Receipt v receipt receipt_ok;
        logged =
            subst
              (λ (u : HostController).
                t.events
                ≡ u.events
                  ++ last_events v.exit_status (captured_details world worker i v c o) receipt
                      u.sequence)
              (sym (to1 ∙ to2 ∙ to3)) logged;
      }
