-- ===== src/Controller/Run.antt =====
-- `HostController.run`: what follows its loop over the frames, and the cleanup.
use testudo.Prelude.{
  ℕ, ◌+◌, ◌-◌, ◌*◌, String, Bool, true, false, not, List, [], ◌∷◌, ◌++◌, Option, none, some, ℤ,
  Result, ok, err, ◌==◌, Comparable-nat, Comparable-int, Comparable-string, if◌then◌else◌,
}
use testudo.Prelude.Dict.{get}
use testudo.Value.{Fields, str, int, bool, field, end, entries}
use testudo.Controller.{
  Fault, Ending, HostController, Output, Worker, World, Act, lift, call, emit_host, reason_details,
  stop_after_failure,
}
use testudo.Prelude.State.{return, ◌>>=◌, ◌>>◌}
use testudo.Controller.Checks.{
  Identity, validate_identity, Verdict, judge_result, new_host_receipt, receipt_dict,
}
use testudo.Controller.Receive.{Capture, no_capture, raise_act, receive_all, joined}

pub record RunResult : Type 0 where
  pub exit_status : ℤ
  pub stdout : String
  pub stderr : String
  pub runtime_ms : ℕ

-- `max(0.0, deadline - self._clock())`
abbrev pub remaining : Option ℕ → ℕ → Option ℕ
remaining none now = none
remaining (some deadline) now = some (deadline - now)

module _ (world : World) (worker : Worker) (i : Identity) where
  abbrev pub output_details : ℤ → String → String → Output → Fields
  output_details exit_status stdout stderr o = field "exit_status" (int exit_status) (
      field "stdout_sha256" (str (world.sha256_text stdout)) (
        field "stderr_sha256" (str (world.sha256_text stderr)) (
          field "stdout_truncated" (bool o.stdout_truncated)
            (field "stderr_truncated" (bool o.stderr_truncated) end))))

  -- `"".join(parts) or captured`
  abbrev pub or_captured : List String → String → String
  or_captured parts captured = if joined parts == "" then captured else joined parts

  abbrev pub exit_details : ℤ → Fields
  exit_details exit_status =
      field "reason" (str "worker_exit") (field "exit_status" (int exit_status) end)

  abbrev pub captured_details : Verdict → Capture → Output → Fields
  captured_details v c o =
      output_details v.exit_status (or_captured c.stdout_parts o.stdout)
        (or_captured c.stderr_parts o.stderr) o

  abbrev pub run_result : Verdict → Capture → Output → RunResult
  run_result v c o = record {
    exit_status = v.exit_status;
    stdout = or_captured c.stdout_parts o.stdout;
    stderr = or_captured c.stderr_parts o.stderr;
    runtime_ms = (worker.ended_at - world.started) * 1000;
  }

  -- The output, the receipt and the last events.
  unfoldable pub tell_end : Verdict → Capture → Output → Act RunResult
  tell_end v c o = do
    emit_host world "output" i.run_id i.token_id (captured_details v c o)
    receipt ← lift (new_host_receipt i v)
    emit_host world "receipt" i.run_id i.token_id (receipt_dict world receipt)
    emit_host world "supervisor" i.run_id i.token_id (exit_details v.exit_status)
    emit_host world "revoke" i.run_id i.token_id (reason_details "worker_exit")
    emit_host world "wipe" i.run_id i.token_id (reason_details "worker_exit")
    return (run_result v c o)

  -- From the verdict on: the exit of the worker, its output, and what is told of them.
  unfoldable pub conclude : Option ℕ → Verdict → Capture → Act RunResult
  conclude deadline v c = do
    worker_status ← lift (worker.wait (remaining deadline worker.waiting_at))
    raise_act (not (worker_status == v.exit_status)) Fault.exit_disagrees
    o ← lift (worker.output (remaining deadline worker.waiting_at))
    tell_end v c o

  abbrev pub phase_details : String → Fields
  phase_details phase = field "phase" (str phase) end

  -- Behind the loop.
  unfoldable pub on_result : Fields → Option ℕ → Fields × Capture → Act RunResult
  on_result contract deadline (payload, c) = do
    call worker.last_check
    v ← lift (judge_result world i (get (entries contract) "containment") payload c.guest_receipt)
    conclude deadline v c

  -- The body of `try` behind the launch.
  unfoldable pub supervise : Fields → Option ℕ → Act RunResult
  supervise contract deadline = do
    emit_host world "transport" i.run_id i.token_id (phase_details "bootstrap")
    call worker.bootstrap
    emit_host world "transport" i.run_id i.token_id (phase_details "ready")
    call worker.start
    emit_host world "transport" i.run_id i.token_id (phase_details "run")
    done ← receive_all world worker i deadline worker.turns no_capture
    on_result contract deadline done

  -- `finally`
  abbrev pub close_result : {A : Type 0} → Option Fault → Result Fault A → Result Fault A
  close_result none r = r
  close_result (some fault) (ok a) = err fault
  close_result (some fault) (err e) = err e

  abbrev pub close_worker : {A : Type 0} → Result Fault A → Act A
  close_worker r s = (
    close_result worker.close r,
    record s { active = none; endings = s.endings ++ Ending.closed ∷ [] },
  )

  -- `except BaseException` and `finally`
  abbrev pub settle :
      Result Fault RunResult × HostController → Result Fault RunResult × HostController
  settle (ok result, s) = close_worker (ok result) s
  settle (err e, s) = close_worker (err e) (stop_after_failure world worker i.run_id i.token_id s)

  abbrev pub deadline_of : Option ℕ → Option ℕ
  deadline_of none = none
  deadline_of (some timeout) = some (world.started + timeout)

  abbrev pub launched_run :
      Option Fault → Fields → Option ℕ → HostController → Result Fault RunResult × HostController
  launched_run (some fault) contract timeout s = (err fault, s)
  launched_run none contract timeout s =
      settle (supervise contract (deadline_of timeout) (record s { active = some i.run_id }))

  abbrev pub is_zero : Option ℕ → Bool
  is_zero none = false
  is_zero (some timeout) = timeout == 0

  abbrev pub is_active : HostController → Bool
  is_active s = elim s.active [ none ↦ false | some _ ↦ true ]

  abbrev pub reset : HostController → HostController
  reset s = record s { sequence = 0; stop_called = false }

  unfoldable pub run_host :
      Fields → Option ℕ → HostController → Result Fault RunResult × HostController
  run_host contract timeout s =
      (lift (validate_identity i.run_id i.token_id i.nonce contract)
          >> (raise_act (is_zero timeout) Fault.timeout_not_positive
              >> (raise_act (is_active s) Fault.already_active >> λ t.
                  launched_run worker.launch contract timeout (reset t))))
        s
