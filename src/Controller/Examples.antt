-- ===== src/Controller/Examples.antt =====
-- Runs of a worker that returns, of one that fails, and of one that an operator stops.
use testudo.Prelude.{
  ℕ, ◌≡◌, refl, false, List, [], ◌∷◌, Option, none, some, ℤ, String, ok, err, map, Result,
}
use testudo.Prelude.Dict.{get, has}
use testudo.Value.{Fields, str, int, field, end}
use testudo.Transport.{Frame}
use testudo.Controller.{
  Fault, Ending, HostEvent, HostController, Turn, Worker, World, emit_host, stop_active, stop_host,
  stop_after_failure,
}
use testudo.Prelude.State.{◌>>=◌}
use testudo.Controller.Checks.{
  Identity, validate_identity, judge_containment, validate_guest_receipt, without_hash,
  judge_result, new_host_receipt, receipt_dict, is_sha256,
}
use testudo.Controller.Run.{RunResult, tell_end, conclude, on_result, supervise, run_host}
use testudo.Controller.Receive.{handle_frame, receive_all, utf8_length, joined}
use testudo.Controller.Ended.{Ended, run_host-Ended}
use testudo.Controller.Correct.{Verified, run_host-Verified}
use testudo.Controller.Numbered.{run_host-Numbered}
use testudo.Controller.Counting.{Numbered}

abbrev digest : String
digest = "aaaaaaaaaaaaaaaaaaaaaaaaaaaaaaaaaaaaaaaaaaaaaaaaaaaaaaaaaaaaaaaa"

abbrev world : World
world = record {
  sha256 = λ fs. digest;
  sha256_text = λ s. digest;
  sink = λ e. none;
  equal = λ a b. false;
  started = 10;
}

abbrev identity : Identity
identity = record { run_id = "r1"; token_id = "t1"; nonce = "n1" }

abbrev contract : Fields
contract = field "run_id" (str "r1") (field "token_id" (str "t1") (field "nonce" (str "n1") end))

abbrev frame : String → Fields → Frame
frame kind payload = record {
  sequence = ℤ.pos 0;
  run_id = "r1";
  token_id = "t1";
  nonce = "n1";
  kind = kind;
  payload = payload;
}

abbrev turn : String → Fields → Turn
turn kind payload = record {
  operator = none;
  check = none;
  now = 11;
  received = ok (frame kind payload);
}

abbrev guest_receipt : Fields
guest_receipt = field "schema" (str "testudo.guest.receipt.v1") (
    field "run_id" (str "r1") (
      field "token_id" (str "t1") (
        field "nonce" (str "n1")
          (field "result_sha256" (str digest) (field "artifact_digest" (str digest) end)))))

abbrev result_payload : Fields
result_payload = field "exit_status" (int (ℤ.pos 3)) (field "result_sha256" (str digest) end)

abbrev turns : List Turn
turns =
    turn "stdout" (field "chunk" (str "hi") end)
    ∷ turn "receipt" guest_receipt
    ∷ turn "result" result_payload
    ∷ []

abbrev worker : Worker
worker = record {
  launch = none;
  token_id = "t1";
  bootstrap = none;
  start = none;
  turns = turns;
  after = Fault.adapter_raised 0;
  last_check = none;
  waiting_at = 12;
  wait = λ o. ok (ℤ.pos 3);
  output = λ o.
      ok (record { stdout = ""; stderr = "x"; stdout_truncated = false; stderr_truncated = false });
  stop = none;
  close = none;
  ended_at = 15;
}

abbrev idle : HostController
idle = record { active = none; stop_called = false; sequence = 0; events = []; endings = [] }

abbrev exit_code : Result Fault RunResult → Option ℤ
exit_code (ok r) = some r.exit_status
exit_code (err e) = none

returned :
    (run_host world worker identity contract (some 60) idle).0
    ≡ ok (record { exit_status = ℤ.pos 3; stdout = "hi"; stderr = "x"; runtime_ms = 5000 })
unfolding run_host supervise receive_all handle_frame on_result conclude tell_end emit_host ◌>>=◌
    validate_identity judge_result validate_guest_receipt judge_containment without_hash
    new_host_receipt receipt_dict is_sha256 utf8_length joined stop_after_failure get has
returned = refl

events_told :
    map
      (λ (e : HostEvent). e.event)
      (run_host world worker identity contract (some 60) idle).1.events
    ≡ "transport" ∷ "transport" ∷ "transport" ∷ "stdout" ∷ "output" ∷ "receipt" ∷ "supervisor"
      ∷ "revoke" ∷ "wipe" ∷ []
unfolding run_host supervise receive_all handle_frame on_result conclude tell_end emit_host ◌>>=◌
    validate_identity judge_result validate_guest_receipt judge_containment without_hash
    new_host_receipt receipt_dict is_sha256 utf8_length joined stop_after_failure get has
events_told = refl

-- A worker whose result never comes, and that an operator stops.
abbrev stopped_worker : Worker
stopped_worker = record worker {
  turns = record (turn "stdout" (field "chunk" (str "hi") end)) { operator = some "enough" } ∷ [];
}

stopped_endings :
    (run_host world stopped_worker identity contract none idle).1.endings
    ≡ Ending.broker_stop "enough" ∷ Ending.lifecycle_stop "enough" ∷ Ending.closed ∷ []
unfolding run_host supervise receive_all handle_frame emit_host ◌>>=◌ validate_identity stop_host
    stop_active utf8_length stop_after_failure get
stopped_endings = refl

-- A sink that raises on the first event of a stop: the lifecycle is not stopped, then or by the cleanup.
abbrev deaf_sink : HostEvent → Option Fault
deaf_sink e = elim e.sequence [
  | ℕ.zero ↦ none
  | ℕ.suc n ↦ elim n [
    | ℕ.zero ↦ none
    | ℕ.suc m ↦ elim m [ ℕ.zero ↦ none | ℕ.suc k ↦ some (Fault.adapter_raised 1) ]
  ]
]

unheard_stop :
    (run_host
      (record world { sink = deaf_sink })
      stopped_worker
      identity
      contract
      none
      idle).1.endings
    ≡ Ending.closed ∷ []
unfolding run_host supervise receive_all handle_frame emit_host ◌>>=◌ validate_identity stop_host
    stop_active utf8_length stop_after_failure get
unheard_stop = refl

run_host-Ended_example :
    Ended world stopped_worker identity idle
      (run_host world stopped_worker identity contract none idle)
run_host-Ended_example = run_host-Ended world stopped_worker identity contract none idle

run_host-Numbered_example :
    Numbered identity [] (run_host world stopped_worker identity contract none idle).1
run_host-Numbered_example = run_host-Numbered world stopped_worker identity contract none idle

run_host-Verified_example :
    Verified world worker identity
      (some 60)
      (record { exit_status = ℤ.pos 3; stdout = "hi"; stderr = "x"; runtime_ms = 5000 })
      (run_host world worker identity contract (some 60) idle).1
run_host-Verified_example =
    run_host-Verified world worker identity contract (some 60) idle _ returned
