-- ===== src/Controller/Keeps.antt =====
-- What every part of a run keeps, if its events and the stops by an operator keep it.
use testudo.Prelude.{
  ℕ, String, Bool, true, false, List, [], ◌∷◌, Option, none, some, Result, ok, err, All,
  if◌then◌else◌, ltb, ◌+◌, ◌==◌, Comparable-string,
}
use testudo.Prelude.Dict.{get}
use testudo.Value.{Fields, entries}
use testudo.Transport.{Frame}
use testudo.Controller.{
  Fault, HostController, Turn, Output, Worker, World, Act, lift, call, emit_host,
}
use testudo.Prelude.State.{Leads, bind-Leads, continue, ◌>>=◌}
use testudo.Controller.Checks.{Identity, Verdict, judge_result, new_host_receipt}
use testudo.Controller.Run.{conclude, tell_end, on_result, supervise, remaining}
use testudo.Controller.Receive.{
  Capture, Handled, raise_act, is_late, chunk_of, on_stdout, on_stderr, on_receipt, handle_frame,
  interrupted, take_turn, proceed_with, receive_all, no_capture, max_output_bytes, utf8_length,
}

module _ (P : HostController → Type 0) where
  abbrev pub Keeps : {A : Type 0} → Act A → Type 0
  Keeps m = Leads P P m

  pub continue-Keeps :
      {A B : Type 0} (k : A → Act B) (r : Result Fault A) (s : HostController)
      → ((a : A) → Keeps (k a))
      → P s
      → P (continue k r s).1
  continue-Keeps k (ok a) s keeps h = keeps a s h
  continue-Keeps k (err e) s keeps h = h

  pub bind-Keeps :
      {A B : Type 0} (m : Act A) (k : A → Act B)
      → Keeps m
      → ((a : A) → Keeps (k a))
      → Keeps (m >>= k)
  bind-Keeps m k first rest = bind-Leads P P P m k first (λ s h. h) rest

  if-Keeps : {A : Type 0} (b : Bool) (m n : Act A) → Keeps m → Keeps n → Keeps (if b then m else n)
  if-Keeps true m n first second = first
  if-Keeps false m n first second = second

  call-Keeps : (o : Option Fault) → Keeps (call o)
  call-Keeps none s h = h
  call-Keeps (some e) s h = h

  raise_act-Keeps : (b : Bool) (e : Fault) → Keeps (raise_act b e)
  raise_act-Keeps true e s h = h
  raise_act-Keeps false e s h = h

  lift-Keeps : {A : Type 0} (r : Result Fault A) → Keeps (lift r)
  lift-Keeps r s h = h

  module _ (world : World) (worker : Worker) (i : Identity)
      (emits : (event : String) (details : Fields)
        → Keeps (emit_host world event i.run_id i.token_id details)) where
    on_stdout-Keeps : (f : Frame) (c : Capture) → Keeps (on_stdout world worker i f c)
    on_stdout-Keeps f c =
        bind-Keeps _ _ (lift-Keeps (chunk_of (get (entries f.payload) "chunk"))) (λ chunk.
          bind-Keeps _ _
            (raise_act-Keeps (ltb max_output_bytes (c.stdout_bytes + utf8_length chunk))
              Fault.stdout_exceeded)
            (λ _. bind-Keeps _ _ (emits "stdout" _) (λ _ s h. h)))

    on_stderr-Keeps : (f : Frame) (c : Capture) → Keeps (on_stderr world worker i f c)
    on_stderr-Keeps f c =
        bind-Keeps _ _ (lift-Keeps (chunk_of (get (entries f.payload) "chunk"))) (λ chunk.
          bind-Keeps _ _
            (raise_act-Keeps (ltb max_output_bytes (c.stderr_bytes + utf8_length chunk))
              Fault.stderr_exceeded)
            (λ _. bind-Keeps _ _ (emits "stderr" _) (λ _ s h. h)))

    on_receipt-Keeps :
        (o : Option Fields) (f : Frame) (c : Capture) → Keeps (on_receipt world worker i o f c)
    on_receipt-Keeps none f c s h = h
    on_receipt-Keeps (some before) f c s h = h

    handle_frame-Keeps : (f : Frame) (c : Capture) → Keeps (handle_frame world worker i f c)
    unfolding handle_frame
    handle_frame-Keeps f c = if-Keeps (f.kind == "stdout") _ _ (on_stdout-Keeps f c) (
        if-Keeps (f.kind == "stderr") _ _ (on_stderr-Keeps f c) (
          if-Keeps (f.kind == "receipt") _ _ (on_receipt-Keeps c.guest_receipt f c) (
            if-Keeps (f.kind == "result") _ _ (λ s h. h)
              (if-Keeps (f.kind == "error") _ _ (λ s h. h) (λ s h. h)))))

    take_turn-Keeps :
        (deadline : Option ℕ) (t : Turn) (c : Capture)
        → Keeps (interrupted world worker i t.operator)
        → Keeps (take_turn world worker i deadline t c)
    take_turn-Keeps deadline t c stops = bind-Keeps _ _ stops (λ _.
        bind-Keeps _ _ (call-Keeps t.check) (λ _.
          bind-Keeps _ _ (raise_act-Keeps (is_late deadline t.now) Fault.timed_out)
            (λ _. bind-Keeps _ _ (lift-Keeps t.received) (λ f. handle_frame-Keeps f c))))

    proceed_with-Keeps :
        (rest : Capture → Act (Fields × Capture)) (x : Handled)
        → ((c : Capture) → Keeps (rest c))
        → Keeps (proceed_with world worker i rest x)
    proceed_with-Keeps rest (Handled.going c) keeps = keeps c
    proceed_with-Keeps rest (Handled.finished payload c) keeps = λ s h. h

    receive_all-Keeps :
        (deadline : Option ℕ) (ts : List Turn) (c : Capture)
        → All (λ t. Keeps (interrupted world worker i t.operator)) ts
        → Keeps (receive_all world worker i deadline ts c)
    unfolding receive_all
    receive_all-Keeps deadline [] c stops = λ s h. h
    receive_all-Keeps deadline (t ∷ ts) c (stops, rest) =
        bind-Keeps _ _ (take_turn-Keeps deadline t c stops) (λ x.
          proceed_with-Keeps (receive_all world worker i deadline ts) x
            (λ d. receive_all-Keeps deadline ts d rest))

    tell_end-Keeps :
        (v : Verdict) (c : Capture) (o : Output) → Keeps (tell_end world worker i v c o)
    unfolding tell_end
    tell_end-Keeps v c o = bind-Keeps _ _ (emits "output" _) (λ _.
        bind-Keeps _ _ (lift-Keeps (new_host_receipt i v)) (λ receipt.
          bind-Keeps _ _ (emits "receipt" _) (λ _. bind-Keeps _ _ (emits "supervisor" _) (λ _.
            bind-Keeps _ _ (emits "revoke" _)
              (λ _. bind-Keeps _ _ (emits "wipe" _) (λ _ s h. h))))))

    conclude-Keeps :
        (deadline : Option ℕ) (v : Verdict) (c : Capture)
        → Keeps (conclude world worker i deadline v c)
    unfolding conclude
    conclude-Keeps deadline v c =
        bind-Keeps _ _ (lift-Keeps (worker.wait (remaining deadline worker.waiting_at))) (λ status.
          bind-Keeps _ _ (raise_act-Keeps _ Fault.exit_disagrees) (λ _.
            bind-Keeps _ _ (lift-Keeps (worker.output (remaining deadline worker.waiting_at)))
              (λ o. tell_end-Keeps v c o)))

    on_result-Keeps :
        (contract : Fields) (deadline : Option ℕ) (done : Fields × Capture)
        → Keeps (on_result world worker i contract deadline done)
    unfolding on_result
    on_result-Keeps contract deadline (payload, c) =
        bind-Keeps _ _ (call-Keeps worker.last_check) (λ _.
          bind-Keeps _ _
            (lift-Keeps
              (judge_result world i (get (entries contract) "containment") payload c.guest_receipt))
            (λ v. conclude-Keeps deadline v c))

    pub supervise-Keeps :
        (contract : Fields) (deadline : Option ℕ)
        → All (λ t. Keeps (interrupted world worker i t.operator)) worker.turns
        → Keeps (supervise world worker i contract deadline)
    unfolding supervise
    supervise-Keeps contract deadline stops = bind-Keeps _ _ (emits "transport" _) (λ _.
        bind-Keeps _ _ (call-Keeps worker.bootstrap) (λ _.
          bind-Keeps _ _ (emits "transport" _) (λ _. bind-Keeps _ _ (call-Keeps worker.start) (λ _.
            bind-Keeps _ _ (emits "transport" _) (λ _.
              bind-Keeps _ _ (receive_all-Keeps deadline worker.turns no_capture stops)
                (λ done. on_result-Keeps contract deadline done))))))
