-- ===== src/Lifecycle/Released.antt =====
-- What a lifecycle has done when `wait` returns a status, and when `stop` returns.
use mathlib.Core.Path.{subst}
use testudo.Prelude.{
  ℕ, String, ◌≡◌, refl, sym, ap, ◌∙◌, Bool, true, false, not, List, [], ◌∷◌, Option, none, some, ℤ,
  Result, ok, err, ok-injective, arith, if◌then◌else◌,
}
use testudo.Prelude.State.{Act, Returns, bind-Returns, if-Returns, if-left, finally, return}
use testudo.Capability.{Raised, Token, to_dict}
use testudo.Capability.Verify.{verify}
use testudo.Capability.Supervisor.{TripReason, SupervisorEvent}
use testudo.Lifecycle.Exit.{Released, Exited, Unreleased, finish_exit-Exited}
use testudo.Lifecycle.{
  Lifecycle, Halt, World, WaitTurn, Waited, mark_closed, on_raised, closing, polled, is_past,
  call_host, kill_vm, wipe_vm, revoke_once, event_of, call_back, trip_worker, on_token, check,
  stop_worker, finish_exit, time_out, on_status, wait_turn, unless_exited, wait_turns, wait,
  is_positive, deadline_of,
}

exited-same : {a b : ℤ} → Waited.exited a ≡ Waited.exited b → a ≡ b
exited-same p = ground arith

module _ (world : World) where
  revoke_once-revoked : (id : String) (s : Lifecycle) → (revoke_once world id s).1.revoked ≡ true
  unfolding revoke_once call_host
  revoke_once-revoked id s =
      if-left (λ (t : Lifecycle). t.revoked ≡ true) s.revoked _ _ (λ on. on) (λ _. refl)

  -- The wipe leaves both flags set, if the token was revoked.
  wipe_vm-wiped :
      (s : Lifecycle)
      → s.revoked ≡ true
      → ((wipe_vm world s).1.revoked ≡ true) × ((wipe_vm world s).1.wiped ≡ true)
  unfolding wipe_vm call_host finally
  wipe_vm-wiped s revoked =
      if-left (λ (t : Lifecycle). (t.revoked ≡ true) × (t.wiped ≡ true)) s.wiped _ _
        (λ on. (revoked, on)) (λ _. (revoked, refl))

  -- A check that returned has changed nothing.
  on_token-same :
      (r : Result Raised Token) (at : ℕ) (s t : Lifecycle)
      → Returns (on_token world r at) s tt t
      → s ≡ t
  on_token-same (ok token) at s t h = h.left
  on_token-same (err (Raised.capability_error reason)) at s t h =
      let (_, u, _, last) =
        bind-Returns (trip_worker world (TripReason.token_invalid_or_expired reason) at) _ s tt t
          h in
      let r = last.result in cc
  on_token-same (err Raised.type_error) at s t h = let r = h.result in cc

  closing-Returns :
      (m : Act Lifecycle Halt (Unit {0})) (s t : Lifecycle)
      → Returns (closing m) s tt t
      → Returns m s tt t
  closing-Returns m s t h = record {
    result = h.result;
    left = same (m s).0 (m s).1 h.result h.left;
  }
    where
      same : (r : Result Halt (Unit {0})) (u : Lifecycle) → r ≡ ok tt → on_raised r u ≡ t → u ≡ t
      same (ok _) u p q = q
      same (err e) u p q = cc

  check-same : (now at : ℕ) (s t : Lifecycle) → Returns (check world now at) s tt t → s ≡ t
  unfolding check
  check-same now at s t h =
      let r = closing-Returns _ s t h in
      on_token-same (verify world.lib s.keys now (to_dict s.token)) at s t
        (record { result = r.result; left = r.left })

  polled-same :
      (o : Result String (Option ℤ)) (s t : Lifecycle) (a : Option ℤ)
      → Returns (polled o) s a t
      → s ≡ t
  polled-same (ok status) s t a h = h.left
  polled-same (err f) s t a h = let r = h.result in cc

  -- A turn goes on from the same state, or ends with the block behind an exit.
  abbrev Turned : Lifecycle → Waited → Lifecycle → Type 0
  Turned s Waited.running t = s ≡ t
  Turned s (Waited.exited status) t = Exited world status s t

  on_status-Turned :
      (deadline : Option ℕ) (turn : WaitTurn) (o : Option ℤ) (s t : Lifecycle) (w : Waited)
      → s.closed ≡ false
      → Unreleased world s
      → Returns (on_status world deadline turn o) s w t
      → Turned s w t
  on_status-Turned deadline turn (some status) s t w unclosed fresh h =
      let (_, u, ended, last) = bind-Returns (finish_exit world status turn.at) _ s w t h in
      let exited = finish_exit-Exited world status turn.at s u unclosed fresh ended in
      subst (λ (x : Waited). Turned s x t) (ok-injective last.result)
        (subst (Exited world status s) last.left exited)
  on_status-Turned deadline turn none s t w unclosed fresh h =
      either (is_past deadline turn.monotonic) h
    where
      either :
          (b : Bool)
          → Returns (if b then time_out world turn.at else return Waited.running) s w t
          → Turned s w t
      either true h =
          let (_, u, _, h1) = bind-Returns _ _ s w t h in
          let (_, v, _, h2) = bind-Returns mark_closed _ u w t h1 in let r = h2.result in cc
      either false h = subst (λ (x : Waited). Turned s x t) (ok-injective h.result) h.left

  wait_turn-Turned :
      (deadline : Option ℕ) (turn : WaitTurn) (s t : Lifecycle) (w : Waited)
      → s.closed ≡ false
      → Unreleased world s
      → Returns (wait_turn world deadline turn) s w t
      → Turned s w t
  unfolding wait_turn
  wait_turn-Turned deadline turn s t w unclosed fresh h =
      let (_, u, checked, h1) = bind-Returns (closing (check world turn.now turn.at)) _ s w t h in
      let (o, v, status, h2) = bind-Returns (polled turn.poll) _ u w t h1 in
      let same : s ≡ v =
        check-same turn.now turn.at s u (closing-Returns _ s u checked)
        ∙ polled-same turn.poll u v o status in
      on_status-Turned deadline turn o s t w unclosed fresh
        (subst (λ (x : Lifecycle). Returns (on_status world deadline turn o) x w t) (sym same) h2)

  wait_turns-Exited :
      (deadline : Option ℕ) (ts : List WaitTurn) (s t : Lifecycle) (status : ℤ)
      → s.closed ≡ false
      → Unreleased world s
      → Returns (wait_turns world deadline ts) s (Waited.exited status) t
      → Exited world status s t
  unfolding wait_turns
  wait_turns-Exited deadline [] s t status unclosed fresh h = let r = h.result in cc
  wait_turns-Exited deadline (turn ∷ ts) s t status unclosed fresh h =
      let (w, u, first, last) =
        bind-Returns (wait_turn world deadline turn) _ s (Waited.exited status) t h in
      either w u (wait_turn-Turned deadline turn s u w unclosed fresh first) last
        (wait_turns-Exited deadline ts s t status unclosed fresh)
    where
      either :
          (w : Waited) (u : Lifecycle)
          → Turned s w u
          → Returns
              (unless_exited world (wait_turns world deadline ts) w)
              u
              (Waited.exited status)
              t
          → (Returns (wait_turns world deadline ts) s (Waited.exited status) t
              → Exited world status s t)
          → Exited world status s t
      either Waited.running u same last later = later (
          subst
            (λ (x : Lifecycle). Returns (wait_turns world deadline ts) x (Waited.exited status) t)
            (sym same) last)
      either (Waited.exited n) u exited last later =
          subst (λ (k : ℤ). Exited world k s t) (exited-same (ok-injective last.result))
            (subst (Exited world n s) last.left exited)

  -- From a lifecycle that has neither revoked its token nor wiped its machine, a `wait` that returns the
  -- status of the process has called the host exactly five times, for cleanup, for the revocation of the
  -- token, for the wipe, for cleanup again and for the sink, which it told of the exit with this status;
  -- none of the five raised, and the worker is closed.
  pub wait-Exited :
      (poll_interval : ℤ) (started : ℕ) (timeout : Option ℕ) (ts : List WaitTurn) (s t : Lifecycle)
      (status : ℤ)
      → s.revoked ≡ false
      → s.wiped ≡ false
      → Returns (wait world poll_interval started timeout ts) s (Waited.exited status) t
      → Exited world status s t
  unfolding wait
  wait-Exited poll_interval started timeout ts s t status unrevoked unwiped h =
      let fresh : Unreleased world s = (unrevoked, unwiped) in
      let C = Exited world status s t in
      if-Returns (not (is_positive poll_interval)) _ _ (ok (Waited.exited status)) t C h.result
        h.left (λ _ r l. cc)
        (λ _ r l.
          if-Returns s.closed _ _ (ok (Waited.exited status)) t C r l (λ _ r l. cc)
            (λ unclosed r l.
              wait_turns-Exited (deadline_of started timeout) ts s t status unclosed fresh
                (record { result = r; left = l })))

  call_back-wiped :
      (event : SupervisorEvent) (s t : Lifecycle) (e : SupervisorEvent)
      → Returns (call_back world event) s e t
      → (t.revoked ≡ true) × (t.wiped ≡ true)
  unfolding call_back kill_vm call_host finally
  call_back-wiped event s t e h =
      let (_, u1, _, h1) = bind-Returns _ _ s e t h in
      let (_, u2, revoked, h2) = bind-Returns (revoke_once world event.token_id) _ u1 e t h1 in
      let (_, u3, killed, h3) = bind-Returns (kill_vm world) _ u2 e t h2 in
      let (_, u4, wiped, h4) = bind-Returns (wipe_vm world) _ u3 e t h3 in
      let on2 : u2.revoked ≡ true =
        subst (λ (v : Lifecycle). v.revoked ≡ true) revoked.left
          (revoke_once-revoked event.token_id u1) in
      let on3 : u3.revoked ≡ true = sym (ap (λ (v : Lifecycle). v.revoked) killed.left) ∙ on2 in
      subst (λ (v : Lifecycle). (v.revoked ≡ true) × (v.wiped ≡ true)) (wiped.left ∙ h4.left)
        (wipe_vm-wiped u3 on3)

  -- If the supervisor had not tripped, a `stop` that returns leaves the worker closed, its token
  -- revoked and its machine wiped.
  pub stop_worker-Released :
      (reason : String) (at : ℕ) (s t : Lifecycle) (event : SupervisorEvent)
      → s.tripped ≡ false
      → Returns (stop_worker world reason at) s event t
      → Released t
  unfolding stop_worker trip_worker
  stop_worker-Released reason at s t event untripped h =
      let (e, u, tripped, h1) =
        bind-Returns (trip_worker world (TripReason.requested_by reason) at) _ s event t h in
      let (_, v, marked, h2) = bind-Returns mark_closed _ u event t h1 in
      let both : (u.revoked ≡ true) × (u.wiped ≡ true) =
        if-Returns s.tripped _ _ (ok e) u ((u.revoked ≡ true) × (u.wiped ≡ true)) tripped.result
          tripped.left (λ on r l. cc)
          (λ _ r l.
            call_back-wiped (event_of world (TripReason.requested_by reason) at s)
              (record s { tripped = true }) u e (record { result = r; left = l })) in
      subst Released (marked.left ∙ h2.left)
        (record { closed = refl; revoked = both.0; wiped = both.1 })
