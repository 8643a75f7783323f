-- ===== src/Broker/Bootstrap.antt =====
-- `BrokerSession.bootstrap`: the contract is sent, and the answer is `ready`.
use testudo.Prelude.{
  ◌≡◌, ◌∙◌, sym, refl, ap, String, ok, err, Result, arith, Comparable-string, eq_iff,
}
use testudo.Value.{Fields}
use testudo.Transport.{Codec, Frame}
use testudo.Broker.{
  Phase, new, ready, BrokerError, Session, send, receive, bootstrap, expect_ready, after_bootstrap,
}
use testudo.Broker.Moves.{SendMove, ReceiveMove, send-Sent, receive-Received}

bootstrap_move :
    (p q : Phase) (k : String) → k ≡ "bootstrap" → SendMove p k q → (p ≡ new) × (q ≡ new)
bootstrap_move _ _ k e (SendMove.bootstrap h) = (refl, refl)
bootstrap_move _ _ k e (SendMove.run h) = cc ((eq_iff "bootstrap" "run").1 (sym e ∙ h))
bootstrap_move _ _ k e (SendMove.stop_early h) = cc ((eq_iff "bootstrap" "stop").1 (sym e ∙ h))
bootstrap_move _ _ k e (SendMove.stop h) = cc ((eq_iff "bootstrap" "stop").1 (sym e ∙ h))

ready_move : (p q : Phase) (k : String) → p ≡ new → ReceiveMove p k q → (k ≡ "ready") × (q ≡ ready)
ready_move _ _ k e (ReceiveMove.greet h) = (h, refl)
ready_move _ _ k e (ReceiveMove.stream {p} h l) = absurd (ground (arith, e, l))
ready_move _ _ k e (ReceiveMove.finish {p} h l) = absurd (ground (arith, e, l))

expect_ready-lem :
    (r : Result BrokerError Frame × Session)
    → ((f : Frame) → r.0 ≡ ok f → f.kind ≡ "ready")
    → expect_ready r ≡ r
unfolding expect_ready
expect_ready-lem (ok f, s) h = rw (h f refl)
expect_ready-lem (err e, s) h = refl

after_bootstrap-ok :
    (c : Codec) (r : Result BrokerError Frame × Session) (f : Frame)
    → r.0 ≡ ok f
    → after_bootstrap c r ≡ expect_ready (receive c r.1)
unfolding after_bootstrap
after_bootstrap-ok c (ok g, s) f h = refl
after_bootstrap-ok c (err e, s) f h = cc

after_bootstrap-err :
    (c : Codec) (r : Result BrokerError Frame × Session) (e : BrokerError)
    → r.0 ≡ err e
    → (after_bootstrap c r).0 ≡ err e
unfolding after_bootstrap
after_bootstrap-err c (ok g, s) f h = cc
after_bootstrap-err c (err e, s) f h = h

-- The answer that `receive` accepts in a new session is `ready`, so it is returned as it is.
module _ (c : Codec) (s : Session) (fresh : s.state ≡ new) where
  receive-ready :
      (f : Frame) → (receive c s).0 ≡ ok f → (f.kind ≡ "ready") × ((receive c s).1.state ≡ ready)
  receive-ready f h =
      ready_move s.state (receive c s).1.state f.kind fresh (receive-Received c s f h).move

  expect_ready-receive : expect_ready (receive c s) ≡ receive c s
  expect_ready-receive = go (receive c s) refl
    where
      go : (r : Result BrokerError Frame × Session) → receive c s ≡ r → expect_ready r ≡ r
      go r e =
          expect_ready-lem r
            λ f h. (receive-ready f (ap (λ (x : Result BrokerError Frame × Session). x.0) e ∙ h)).0

module _ (c : Codec) (contract : Fields) (s : Session) where
  bootstrap-new :
      (f : Frame)
      → (send c "bootstrap" contract s).0 ≡ ok f
      → (s.state ≡ new) × ((send c "bootstrap" contract s).1.state ≡ new)
  bootstrap-new f h =
      bootstrap_move s.state (send c "bootstrap" contract s).1.state "bootstrap" refl
        (send-Sent c "bootstrap" contract s f h).move

  -- `bootstrap` is `send` and then, if that returned, `receive`: its last check never fails.
  pub bootstrap_lem :
      (f : Frame)
      → (send c "bootstrap" contract s).0 ≡ ok f
      → bootstrap c contract s ≡ receive c (send c "bootstrap" contract s).1
  unfolding bootstrap
  bootstrap_lem f h =
      after_bootstrap-ok c (send c "bootstrap" contract s) f h
      ∙ expect_ready-receive c (send c "bootstrap" contract s).1 (bootstrap-new f h).1

  -- Where `bootstrap` returns, the session was new, the guest said `ready` and the session is ready.
  pub bootstrap-ready :
      (f : Frame)
      → (bootstrap c contract s).0 ≡ ok f
      → (s.state ≡ new) × (f.kind ≡ "ready") × ((bootstrap c contract s).1.state ≡ ready)
  unfolding bootstrap
  bootstrap-ready f h = go (send c "bootstrap" contract s).0 refl
    where
      go :
          (r : Result BrokerError Frame)
          → (send c "bootstrap" contract s).0 ≡ r
          → (s.state ≡ new) × (f.kind ≡ "ready") × ((bootstrap c contract s).1.state ≡ ready)
      go (ok g) e =
          let shape = bootstrap_lem g e in
          let (before, between) = bootstrap-new g e in
          let found = receive-ready c (send c "bootstrap" contract s).1 between f (rw shape at h) in
          (before, found.0, rw shape found.1)
      go (err x) e = cc (after_bootstrap-err c (send c "bootstrap" contract s) x e, h)
