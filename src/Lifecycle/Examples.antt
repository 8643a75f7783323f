-- ===== src/Lifecycle/Examples.antt =====
-- The lifecycle of a worker that exits, and one whose sink raises.
use testudo.Prelude.{zero, suc, ◌≡◌, refl, arith, true, false, List, [], ◌∷◌, none, some, ℤ, ok}
use testudo.Prelude.Dict.{get}
use testudo.Prelude.State.{finally, ◌>>=◌}
use testudo.Capability.{to_dict, payload}
use testudo.Capability.Verify.{
  canonical, parse_time, text_field, list_field, gather, from_payload, compare_digest, unsigned,
  check_signature, check_times, verify,
}
use testudo.Capability.Supervisor.{TripReason}
use testudo.Capability.Toy.{library, keys, token}
use testudo.Lifecycle.{
  Event, HostCall, Lifecycle, World, WaitTurn, Waited, new_lifecycle, call_host, wipe_vm,
  revoke_once, call_back, trip_worker, event_of, check, stop_worker, finish_exit, wait_turn,
  wait_turns, wait, Operation, operate_all,
}
use testudo.Lifecycle.Counts.{Counted, operate_all-Counted}
use testudo.Lifecycle.Exit.{Exited}
use testudo.Lifecycle.Released.{wait-Exited}

abbrev calm : World
calm = record { lib = library; fault = λ n c. none }

abbrev fresh : Lifecycle
fresh = record {
  token = token;
  keys = keys;
  tripped = false;
  closed = false;
  revoked = false;
  wiped = false;
  calls = [];
}

new_is_fresh : new_lifecycle token keys ≡ fresh
unfolding new_lifecycle
new_is_fresh = refl

abbrev two_turns : List WaitTurn
two_turns =
    record { now = 20; at = 21; poll = ok none; monotonic = 5 }
    ∷ record { now = 22; at = 23; poll = ok (some (ℤ.pos 3)); monotonic = 6 }
    ∷ []

abbrev after_exit : Lifecycle
after_exit = record fresh {
  closed = true;
  revoked = true;
  wiped = true;
  calls =
      HostCall.cleanup
      ∷ HostCall.revoke "id"
      ∷ HostCall.wipe
      ∷ HostCall.cleanup
      ∷ HostCall.sink (Event.worker_exit (ℤ.pos 3) "id" "later")
      ∷ [];
}

exits : wait calm (ℤ.pos 1) 0 (some 9) two_turns fresh ≡ (ok (Waited.exited (ℤ.pos 3)), after_exit)
unfolding wait wait_turns wait_turn check finish_exit revoke_once wipe_vm call_host finally ◌>>=◌
    verify to_dict payload unsigned check_signature canonical compare_digest from_payload gather
    text_field list_field parse_time check_times get
exits = refl

wait-Exited_example : Exited calm (ℤ.pos 3) fresh after_exit
unfolding wait wait_turns wait_turn check finish_exit revoke_once wipe_vm call_host finally ◌>>=◌
    verify to_dict payload unsigned check_signature canonical compare_digest from_payload gather
    text_field list_field parse_time check_times get
wait-Exited_example =
    wait-Exited calm (ℤ.pos 1) 0 (some 9) two_turns fresh after_exit (ℤ.pos 3) refl refl
      (record { result = refl; left = refl })

-- A sink that raises when it is told first.
abbrev first_raises : World
first_raises = record {
  lib = library;
  fault = λ n c. elim n [ zero ↦ some "disk full" | suc m ↦ none ];
}

abbrev two_stops : List (Operation first_raises)
two_stops = Operation.stopping "quit" 21 ∷ Operation.stopping "quit" 22 ∷ []

operate_all-Counted_example : Counted (operate_all first_raises two_stops fresh)
operate_all-Counted_example =
    operate_all-Counted first_raises two_stops fresh (refl, refl, omega arith)

-- The first stop_worker raises; the second returns, and the worker is closed, but never killed and never wiped.
closed_alive : operate_all first_raises two_stops fresh ≡ record fresh {
  tripped = true;
  closed = true;
  calls =
      HostCall.sink
        (Event.worker_trip (event_of first_raises (TripReason.requested_by "quit") 21 fresh))
      ∷ [];
}
unfolding stop_worker trip_worker call_back call_host ◌>>=◌
closed_alive = refl
