-- ===== src/Lifecycle/Counts.antt =====
-- How often a lifecycle calls its host, over any calls of its methods.
use testudo.Prelude.{
  ℕ, ◌+◌, ◌≤◌, String, ◌≡◌, refl, ap, arith, Bool, true, false, not, List, [], ◌∷◌, ◌++◌, Option,
  none, some, ℤ, Result, ok, err, if◌then◌else◌,
}
use testudo.Prelude.State.{Act, finally, Leads, bind-Leads, finally-Leads, if-left, ◌>>=◌}
use testudo.Capability.{Raised, Token, to_dict}
use testudo.Capability.Verify.{verify}
use testudo.Capability.Supervisor.{TripReason, SupervisorEvent}
use testudo.Lifecycle.{
  Event, HostCall, Lifecycle, Halt, World, WaitTurn, Waited, on_raised, closing, polled, is_past,
  call_host, kill_vm, wipe_vm, revoke_once, event_of, call_back, trip_worker, on_token, check,
  stop_worker, tell_exit, finish_exit, on_status, wait_turn, unless_exited, wait_turns, wait,
  is_positive, deadline_of, Operation, operate, operate_all,
}

abbrev pub flag : Bool → ℕ
flag true = 1
flag false = 0

abbrev pub count : (HostCall → Bool) → List HostCall → ℕ
count p [] = 0
count p (c ∷ cs) = flag (p c) + count p cs

count-append :
    (p : HostCall → Bool) (cs : List HostCall) (c : HostCall)
    → count p (cs ++ c ∷ []) ≡ count p cs + flag (p c)
count-append p [] c = omega arith
count-append p (x ∷ cs) c = omega (arith, count-append p cs c)

abbrev pub is_wipe : HostCall → Bool
is_wipe HostCall.wipe = true
is_wipe _ = false

abbrev pub is_revoke : HostCall → Bool
is_revoke (HostCall.revoke id) = true
is_revoke _ = false

abbrev pub is_terminate : HostCall → Bool
is_terminate HostCall.terminate = true
is_terminate _ = false

-- The wipes and the revocations are counted by their flags, and at most `k` calls terminate the machine.
abbrev Bounded : ℕ → Bool → Lifecycle → Type 0
Bounded k b s =
    (count is_wipe s.calls ≡ flag s.wiped)
    × (count is_revoke s.calls ≡ flag s.revoked)
    × (count is_terminate s.calls ≤ k)
    × (s.tripped ≡ b)

-- The machine is terminated at most once, by the trip.
abbrev pub Counted : Lifecycle → Type 0
Counted s =
    (count is_wipe s.calls ≡ flag s.wiped)
    × (count is_revoke s.calls ≡ flag s.revoked)
    × (count is_terminate s.calls ≤ flag s.tripped)

Counted-Bounded : (s : Lifecycle) → Counted s → Bounded (flag s.tripped) s.tripped s
Counted-Bounded s (wipes, revokes, ends) = (wipes, revokes, ends, refl)

Bounded-Counted : (b : Bool) (s : Lifecycle) → Bounded (flag b) b s → Counted s
Bounded-Counted b s (wipes, revokes, ends, at) = (wipes, revokes, omega (arith, ends, ap flag at))

-- One more call, with the flags after it.
called :
    (k n : ℕ) (b w r : Bool) (c : HostCall) (s : Lifecycle)
    → Bounded k b s
    → flag w ≡ flag s.wiped + flag (is_wipe c)
    → flag r ≡ flag s.revoked + flag (is_revoke c)
    → k + flag (is_terminate c) ≤ n
    → Bounded n b (record s { wiped = w; revoked = r; calls = s.calls ++ c ∷ [] })
called k n b w r c s (wipes, revokes, ends, at) wiped revoked enough = (
  omega (arith, wipes, wiped, count-append is_wipe s.calls c),
  omega (arith, revokes, revoked, count-append is_revoke s.calls c),
  omega (arith, ends, enough, count-append is_terminate s.calls c),
  at,
)

module _ (world : World) where
  module _ (k : ℕ) (b : Bool) where
    sink-Bounded :
        (e : Event) → Leads (Bounded k b) (Bounded k b) (call_host world (HostCall.sink e))
    unfolding call_host
    sink-Bounded e s h =
        called k k b s.wiped s.revoked (HostCall.sink e) s h (omega arith) (omega arith)
          (omega arith)

    cleanup-Bounded : Leads (Bounded k b) (Bounded k b) (call_host world HostCall.cleanup)
    unfolding call_host
    cleanup-Bounded s h =
        called k k b s.wiped s.revoked HostCall.cleanup s h (omega arith) (omega arith)
          (omega arith)

    revoke_once-Bounded :
        (token_id : String) → Leads (Bounded k b) (Bounded k b) (revoke_once world token_id)
    unfolding revoke_once call_host
    revoke_once-Bounded token_id s h =
        if-left (Bounded k b) s.revoked _ _ (λ _. h)
          (λ off.
            called k k b s.wiped true (HostCall.revoke token_id) s h (omega arith)
              (omega (arith, ap flag off)) (omega arith))

    wipe_vm-Bounded : Leads (Bounded k b) (Bounded k b) (wipe_vm world)
    unfolding wipe_vm call_host finally
    wipe_vm-Bounded s h =
        if-left (Bounded k b) s.wiped _ _ (λ _. h)
          (λ off.
            cleanup-Bounded (record s { wiped = true; calls = s.calls ++ HostCall.wipe ∷ [] })
              (called k k b true s.revoked HostCall.wipe s h (omega (arith, ap flag off))
                (omega arith) (omega arith)))

  kill_vm-Bounded : (b : Bool) → Leads (Bounded 0 b) (Bounded 1 b) (kill_vm world)
  unfolding kill_vm call_host
  kill_vm-Bounded b =
      finally-Leads (Bounded 0 b) (Bounded 1 b) (Bounded 1 b) _ _
        (λ s h.
          called 0 1 b s.wiped s.revoked HostCall.terminate s h (omega arith) (omega arith)
            (omega arith))
        (cleanup-Bounded 1 b)

  weaken : (b : Bool) (s : Lifecycle) → Bounded 0 b s → Bounded 1 b s
  weaken b s (wipes, revokes, ends, at) = (wipes, revokes, omega (arith, ends), at)

  call_back-Bounded :
      (b : Bool) (event : SupervisorEvent)
      → Leads (Bounded 0 b) (Bounded 1 b) (call_back world event)
  unfolding call_back
  call_back-Bounded b event =
      bind-Leads (Bounded 0 b) (Bounded 0 b) (Bounded 1 b) _ _
        (sink-Bounded 0 b (Event.worker_trip event)) (weaken b)
        (λ _.
          bind-Leads (Bounded 0 b) (Bounded 0 b) (Bounded 1 b) _ _
            (revoke_once-Bounded 0 b event.token_id) (weaken b)
            (λ _.
              bind-Leads (Bounded 0 b) (Bounded 1 b) (Bounded 1 b) _ _ (kill_vm-Bounded b)
                (λ s h. h)
                (λ _.
                  bind-Leads (Bounded 1 b) (Bounded 1 b) (Bounded 1 b) _ _ (wipe_vm-Bounded 1 b)
                    (λ s h. h) (λ _ s h. h))))

  abbrev Keeps : {A : Type 0} → Act Lifecycle Halt A → Type 0
  Keeps m = Leads Counted Counted m

  bind-Keeps :
      {A B : Type 0} (m : Act Lifecycle Halt A) (k : A → Act Lifecycle Halt B)
      → Keeps m
      → ((a : A) → Keeps (k a))
      → Keeps (m >>= k)
  bind-Keeps m k first rest = bind-Leads Counted Counted Counted m k first (λ s h. h) rest

  if-Keeps :
      {A : Type 0} (b : Bool) (m n : Act Lifecycle Halt A)
      → Keeps m
      → Keeps n
      → Keeps (if b then m else n)
  if-Keeps true m n first second = first
  if-Keeps false m n first second = second

  -- What keeps every bound keeps the count.
  Bounded-Keeps :
      {A : Type 0} (m : Act Lifecycle Halt A)
      → ((k : ℕ) (b : Bool) → Leads (Bounded k b) (Bounded k b) m)
      → Keeps m
  Bounded-Keeps m each s h =
      Bounded-Counted s.tripped (m s).1 (each (flag s.tripped) s.tripped s (Counted-Bounded s h))

  trip_worker-Keeps : (reason : TripReason) (at : ℕ) → Keeps (trip_worker world reason at)
  unfolding trip_worker
  trip_worker-Keeps reason at s h =
      if-left Counted s.tripped _ _ (λ _. h)
        (λ off.
          Bounded-Counted true
            (call_back world (event_of world reason at s) (record s { tripped = true })).1
            (call_back-Bounded true (event_of world reason at s) (record s { tripped = true })
              (h.0, h.1, omega (arith, h.2, ap flag off), refl)))

  closing-Keeps : (m : Act Lifecycle Halt (Unit {0})) → Keeps m → Keeps (closing m)
  closing-Keeps m kept s h = either (m s).0 (m s).1 (kept s h)
    where
      either : (r : Result Halt (Unit {0})) (t : Lifecycle) → Counted t → Counted (on_raised r t)
      either (ok _) t h = h
      either (err (Halt.worker_terminated reason)) t h = h
      either (err Halt.interval_not_positive) t h = h
      either (err Halt.lifecycle_closed) t h = h
      either (err (Halt.refused r)) t h = h
      either (err (Halt.fault_of f)) t h = h

  on_token-Keeps : (r : Result Raised Token) (at : ℕ) → Keeps (on_token world r at)
  on_token-Keeps (ok token) at s h = h
  on_token-Keeps (err (Raised.capability_error reason)) at s h =
      bind-Keeps (trip_worker world (TripReason.token_invalid_or_expired reason) at) _
        (trip_worker-Keeps (TripReason.token_invalid_or_expired reason) at) (λ _ s h. h) s h
  on_token-Keeps (err Raised.type_error) at s h = h

  check-Keeps : (now at : ℕ) → Keeps (check world now at)
  unfolding check
  check-Keeps now at =
      closing-Keeps _ (λ s h. on_token-Keeps (verify world.lib s.keys now (to_dict s.token)) at s h)

  stop_worker-Keeps : (reason : String) (at : ℕ) → Keeps (stop_worker world reason at)
  unfolding stop_worker
  stop_worker-Keeps reason at =
      bind-Keeps _ _ (trip_worker-Keeps (TripReason.requested_by reason) at)
        (λ event. bind-Keeps _ _ (λ s h. h) (λ _ s h. h))

  tell_exit-Keeps : (status : ℤ) (at : ℕ) (s : Lifecycle) → Keeps (tell_exit world status at s)
  tell_exit-Keeps status at s =
      let id = s.token.token_id in
      let event = Event.worker_exit status id (world.lib.format_time at) in
      bind-Keeps _ _ (Bounded-Keeps (revoke_once world id) (λ k b. revoke_once-Bounded k b id))
        (λ _. bind-Keeps _ _ (Bounded-Keeps (wipe_vm world) wipe_vm-Bounded) (λ _.
          bind-Keeps _ _
            (Bounded-Keeps (call_host world (HostCall.sink event)) (λ k b. sink-Bounded k b event))
            (λ _ s h. h)))

  finish_exit-Keeps : (status : ℤ) (at : ℕ) → Keeps (finish_exit world status at)
  unfolding finish_exit
  finish_exit-Keeps status at s h =
      if-left Counted s.closed _ _ (λ _. h)
        (λ _.
          finally-Leads Counted Counted Counted (call_host world HostCall.cleanup) _
            (Bounded-Keeps (call_host world HostCall.cleanup) cleanup-Bounded)
            (tell_exit-Keeps status at s) s h)

  on_status-Keeps :
      (deadline : Option ℕ) (t : WaitTurn) (o : Option ℤ) → Keeps (on_status world deadline t o)
  on_status-Keeps deadline t (some status) =
      bind-Keeps _ _ (finish_exit-Keeps status t.at) (λ _ s h. h)
  on_status-Keeps deadline t none =
      if-Keeps (is_past deadline t.monotonic) _ _
        (bind-Keeps _ _ (trip_worker-Keeps (TripReason.requested_by "worker_timeout") t.at)
          (λ _. bind-Keeps _ _ (λ s h. h) (λ _ s h. h)))
        (λ s h. h)

  polled-Keeps : (o : Result String (Option ℤ)) → Keeps (polled o)
  polled-Keeps (ok status) s h = h
  polled-Keeps (err f) s h = h

  wait_turn-Keeps : (deadline : Option ℕ) (t : WaitTurn) → Keeps (wait_turn world deadline t)
  unfolding wait_turn
  wait_turn-Keeps deadline t =
      bind-Keeps _ _ (closing-Keeps _ (check-Keeps t.now t.at))
        (λ _. bind-Keeps _ _ (polled-Keeps t.poll) (on_status-Keeps deadline t))

  unless_exited-Keeps :
      (rest : Act Lifecycle Halt Waited) (w : Waited)
      → Keeps rest
      → Keeps (unless_exited world rest w)
  unless_exited-Keeps rest Waited.running kept s h = kept s h
  unless_exited-Keeps rest (Waited.exited status) kept s h = h

  wait_turns-Keeps :
      (deadline : Option ℕ) (ts : List WaitTurn) → Keeps (wait_turns world deadline ts)
  unfolding wait_turns
  wait_turns-Keeps deadline [] s h = h
  wait_turns-Keeps deadline (t ∷ ts) s h =
      bind-Keeps (wait_turn world deadline t) (unless_exited world (wait_turns world deadline ts))
        (wait_turn-Keeps deadline t)
        (λ w. unless_exited-Keeps (wait_turns world deadline ts) w (wait_turns-Keeps deadline ts)) s
        h

  operate-Keeps : (o : Operation world) (s : Lifecycle) → Counted s → Counted (operate world o s)
  unfolding wait
  operate-Keeps (Operation.checking now at) s h = check-Keeps now at s h
  operate-Keeps (Operation.stopping reason at) s h = stop_worker-Keeps reason at s h
  operate-Keeps (Operation.waiting poll_interval started timeout ts) s h =
      if-left Counted (not (is_positive poll_interval)) _ _ (λ _. h)
        (λ _.
          if-left Counted s.closed _ _ (λ _. h)
            (λ _. wait_turns-Keeps (deadline_of started timeout) ts s h))

  -- Whatever methods a lifecycle is asked for, in whatever order and whichever calls of the host raise,
  -- the wipe and the revocation are called once if their flags are set and never otherwise, and the
  -- machine is terminated at most once, and only by a trip.
  pub operate_all-Counted :
      (os : List (Operation world)) (s : Lifecycle) → Counted s → Counted (operate_all world os s)
  operate_all-Counted [] s h = h
  operate_all-Counted (o ∷ os) s h =
      operate_all-Counted os (operate world o s) (operate-Keeps o s h)
