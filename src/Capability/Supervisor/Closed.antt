-- ===== src/Capability/Supervisor/Closed.antt =====
-- How a request that terminates the worker ends, where none of the callbacks raises.
use testudo.Prelude.{
  ℕ, String, ◌≡◌, sym, ap, ◌∙◌, Bool, true, false, inl, inr, List, [], ◌∷◌, ◌++◌, Option, none,
  Result, ok, err, Bool-cases, elem, ◌==◌, Comparable-string, arith, append-nil, append_assoc,
}
use mathlib.Core.Path.{subst}
use testudo.Capability.{Raised, Token, to_dict}
use testudo.Capability.Verify.{Library, verify}
use testudo.Capability.Supervisor.{
  TripReason, Call, Supervisor, Stop, resume, perform, event_of, callbacks, returned, terminated,
  trip, terminate, on_verified, check_expiry, after_check, on_checked, request,
}

module _ (lib : Library) (fault : Call → Option String)
    (faultless : (c : Call) → fault c ≡ none) where
  perform-all :
      (cs : List Call) (s : Supervisor)
      → perform lib fault cs s ≡ (none, record s { calls = s.calls ++ cs })
  unfolding perform
  perform-all [] s = ap (λ l. (none, record s { calls = l })) (sym (append-nil s.calls))
  perform-all (c ∷ cs) s =
      let next : Supervisor = record s { calls = s.calls ++ c ∷ [] } in
      ap (λ x. resume x (perform lib fault cs next) next) (faultless c)
      ∙ perform-all cs next
      ∙ ap (λ l. (none, record s { calls = l })) (append_assoc s.calls (c ∷ []) cs)

  -- The worker is terminated for this reason.
  abbrev Closed : TripReason → ℕ → Supervisor → Result Stop (Unit {0}) × Supervisor → Type 0
  Closed reason at s r =
      (r.0 ≡ err (Stop.worker_terminated reason))
      × (r.1 ≡ record s {
        tripped = true;
        calls =
            Call.sink (event_of lib fault reason at s)
            ∷ Call.revoke s.token.token_id
            ∷ Call.kill
            ∷ Call.wipe
            ∷ [];
      })

  trip-all :
      (reason : TripReason) (at : ℕ) (s : Supervisor)
      → s.tripped ≡ false
      → s.calls ≡ []
      → trip lib fault reason at s ≡ (
        ok (event_of lib fault reason at s),
        record s { tripped = true; calls = callbacks lib fault (event_of lib fault reason at s) s },
      )
  unfolding trip
  trip-all reason at s off clear =
      let event = event_of lib fault reason at s in
      let cs = callbacks lib fault event s in
      simp (off) (
        ap (λ p. (returned lib fault event p.0, p.1)) (perform-all cs (record s { tripped = true }))
        ∙ ap (λ l. (ok event, record s { tripped = true; calls = l ++ cs })) clear)

  terminate-Closed :
      (reason : TripReason) (at : ℕ) (s : Supervisor)
      → s.tripped ≡ false
      → s.calls ≡ []
      → Closed reason at s (terminate lib fault reason at s)
  unfolding terminate
  terminate-Closed reason at s off clear = (
    ap (λ p. err (terminated lib fault reason p.0)) (trip-all reason at s off clear),
    ap (λ p. p.1) (trip-all reason at s off clear),
  )

  -- Each way to `WorkerTerminated` goes through `terminate`.
  abbrev Terminates : Supervisor → ℕ → Result Stop (Unit {0}) × Supervisor → Type 0
  Terminates s at r =
      (reason : TripReason) → r.0 ≡ err (Stop.worker_terminated reason) → Closed reason at s r

  reason_of :
      (a b : TripReason)
      → ◌≡◌ {A = Result Stop (Unit {0})}
          (err (Stop.worker_terminated a))
          (err (Stop.worker_terminated b))
      → a ≡ b
  reason_of a b h = ground arith

  terminate-Terminates :
      (given : TripReason) (at : ℕ) (s : Supervisor)
      → s.tripped ≡ false
      → s.calls ≡ []
      → Terminates s at (terminate lib fault given at s)
  terminate-Terminates given at s off clear reason h =
      let closed = terminate-Closed given at s off clear in
      subst (λ (r : TripReason). Closed r at s (terminate lib fault given at s))
        (reason_of given reason (sym closed.0 ∙ h)) closed

  after_check-Terminates :
      (capability target : String) (destructive : Bool) (at : ℕ) (s : Supervisor)
      → s.tripped ≡ false
      → s.calls ≡ []
      → Terminates s at (after_check lib fault capability target destructive at s)
  unfolding after_check
  after_check-Terminates capability target destructive at s off clear =
      elim (Bool-cases (target == "microvm")) [
        | inr other ↦
            simp (other)
              (terminate-Terminates TripReason.host_boundary_operation_attempt at s off clear)
        | inl inside ↦ elim (Bool-cases (elem capability s.token.capabilities)) [
          | inl granted ↦ simp (inside, granted) (λ reason h. cc)
          | inr missing ↦ elim (Bool-cases destructive) [
            | inl fatal ↦
                simp (inside, missing, fatal)
                  (terminate-Terminates TripReason.unauthorized_destructive_operation at s off
                    clear)
            | inr mild ↦ simp (inside, missing, mild) (λ reason h. cc)
          ]
        ]
      ]

  on_checked-Terminates :
      (capability target : String) (destructive : Bool) (r : Result Raised Token) (at : ℕ)
      (s : Supervisor)
      → s.tripped ≡ false
      → s.calls ≡ []
      → Terminates s at (
          on_checked lib fault capability target destructive at
            (on_verified lib fault r at s).0
            (on_verified lib fault r at s).1)
  unfolding on_verified on_checked terminate
  on_checked-Terminates capability target destructive (ok token) at s off clear =
      after_check-Terminates capability target destructive at s off clear
  on_checked-Terminates capability target destructive (err (Raised.capability_error given)) at s off
        clear =
      terminate-Terminates (TripReason.token_invalid_or_expired given) at s off clear
  on_checked-Terminates capability target destructive (err Raised.type_error) at s off clear =
      λ reason h. cc

  -- If the supervisor has not tripped, has called no callback before, and no callback raises, a request
  -- that raises WorkerTerminated has told the sink of its reason, revoked the token, killed the machine
  -- and wiped it, in this order and with no other call, and leaves the supervisor tripped.
  pub request-Closed :
      (capability target : String) (destructive : Bool) (now at : ℕ) (s : Supervisor)
      (reason : TripReason)
      → s.tripped ≡ false
      → s.calls ≡ []
      → (request lib fault capability target destructive now at s).0
        ≡ err (Stop.worker_terminated reason)
      → (request lib fault capability target destructive now at s).1 ≡ record s {
        tripped = true;
        calls =
            Call.sink (event_of lib fault reason at s)
            ∷ Call.revoke s.token.token_id
            ∷ Call.kill
            ∷ Call.wipe
            ∷ [];
      }
  unfolding request check_expiry
  request-Closed capability target destructive now at s reason off clear h =
      (on_checked-Terminates capability target destructive (verify lib s.keys now (to_dict s.token))
        at s off clear reason h).1
