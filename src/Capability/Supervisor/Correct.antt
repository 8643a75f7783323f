-- ===== src/Capability/Supervisor/Correct.antt =====
-- What a supervisor does over any calls of its methods: its callbacks are called at most once, in
-- order, and a request is granted exactly within the token.
use mathlib.Core.Path.{subst}
use testudo.Prelude.{
  ℕ, String, ◌≡◌, refl, sym, ap, ◌∙◌, ◌↔◌, Bool, true, false, inl, inr, List, [], ◌∷◌, ◌++◌, Option,
  none, some, Result, ok, err, Bool-cases, elem, ◌==◌, ==_iff, Comparable-string, append_assoc,
}
use testudo.Capability.{Raised, Token, to_dict}
use testudo.Capability.Verify.{Library, verify}
use testudo.Capability.Supervisor.{
  TripReason, SupervisorEvent, Call, Supervisor, Stop, resume, perform, event_of, callbacks, trip,
  terminate, on_verified, check_expiry, checkpoint_due, after_check, on_checked, on_checkpoint,
  request, Operation, operate, operate_all,
}

module _ (lib : Library) (fault : Call → Option String) where
  -- The callbacks of at most one trip have been called, in their order.
  pub data Once (s : Supervisor) : Type 0 where
    untouched : s.tripped ≡ false → s.calls ≡ [] → Once s
    ended :
        (event : SupervisorEvent) (rest : List Call)
        → s.tripped ≡ true
        → s.calls ++ rest
          ≡ Call.sink event ∷ Call.revoke s.token.token_id ∷ Call.kill ∷ Call.wipe ∷ []
        → Once s

  record Performed (cs : List Call) (s t : Supervisor) : Type 0 where
    pub rest : List Call
    pub prefix : t.calls ++ rest ≡ s.calls ++ cs
    pub same_token : t.token ≡ s.token
    pub same_tripped : t.tripped ≡ s.tripped

  perform-Performed : (cs : List Call) (s : Supervisor) → Performed cs s (perform lib fault cs s).1
  unfolding perform
  perform-Performed [] s = record {
    rest = [];
    prefix = refl;
    same_token = refl;
    same_tripped = refl;
  }
  perform-Performed (c ∷ cs) s =
      let next : Supervisor = record s { calls = s.calls ++ c ∷ [] } in
      elim (fault c)
        as (λ (x : Option String).
          Performed (c ∷ cs) s (resume x (perform lib fault cs next) next).1) [
            | none ↦
                let later = perform-Performed cs next in
                record {
                  rest = later.rest;
                  prefix = later.prefix ∙ append_assoc s.calls (c ∷ []) cs;
                  same_token = later.same_token;
                  same_tripped = later.same_tripped;
                }
            | some f ↦ record {
              rest = cs;
              prefix = append_assoc s.calls (c ∷ []) cs;
              same_token = refl;
              same_tripped = refl;
            }
          ]

  trip-tripped :
      (reason : TripReason) (at : ℕ) (s : Supervisor)
      → s.tripped ≡ true
      → (trip lib fault reason at s).1 ≡ s
  unfolding trip
  trip-tripped reason at s on = simp (on)

  trip-untripped :
      (reason : TripReason) (at : ℕ) (s : Supervisor)
      → s.tripped ≡ false
      → (trip lib fault reason at s).1
        ≡ (perform lib fault
            (callbacks lib fault (event_of lib fault reason at s) s)
            (record s { tripped = true })).1
  unfolding trip
  trip-untripped reason at s off = simp (off)

  trip-Once :
      (reason : TripReason) (at : ℕ) (s : Supervisor) → Once s → Once (trip lib fault reason at s).1
  trip-Once reason at s (Once.ended event rest on prefix) =
      subst Once (sym (trip-tripped reason at s on)) (Once.ended event rest on prefix)
  trip-Once reason at s (Once.untouched off clear) =
      let event = event_of lib fault reason at s in
      let done = perform-Performed (callbacks lib fault event s) (record s { tripped = true }) in
      subst Once (sym (trip-untripped reason at s off)) (
        Once.ended event done.rest done.same_tripped (
          done.prefix
          ∙ ap (λ l. l ++ callbacks lib fault event s) clear
          ∙ ap
              (λ (t : Token). Call.sink event ∷ Call.revoke t.token_id ∷ Call.kill ∷ Call.wipe ∷ [])
              (sym done.same_token)))

  terminate-Once :
      (reason : TripReason) (at : ℕ) (s : Supervisor)
      → Once s
      → Once (terminate lib fault reason at s).1
  unfolding terminate
  terminate-Once reason at s once = trip-Once reason at s once

  on_verified-Once :
      (r : Result Raised Token) (at : ℕ) (s : Supervisor)
      → Once s
      → Once (on_verified lib fault r at s).1
  unfolding on_verified
  on_verified-Once (ok token) at s once = once
  on_verified-Once (err (Raised.capability_error reason)) at s once =
      terminate-Once (TripReason.token_invalid_or_expired reason) at s once
  on_verified-Once (err Raised.type_error) at s once = once

  check_expiry-Once :
      (now at : ℕ) (s : Supervisor) → Once s → Once (check_expiry lib fault now at s).1
  unfolding check_expiry
  check_expiry-Once now at s once =
      on_verified-Once (verify lib s.keys now (to_dict s.token)) at s once

  after_check-Once :
      (capability target : String) (destructive : Bool) (at : ℕ) (s : Supervisor)
      → Once s
      → Once (after_check lib fault capability target destructive at s).1
  unfolding after_check
  after_check-Once capability target destructive at s once =
      elim (Bool-cases (target == "microvm")) [
        | inr other ↦
            simp (other) (terminate-Once TripReason.host_boundary_operation_attempt at s once)
        | inl inside ↦ elim (Bool-cases (elem capability s.token.capabilities)) [
          | inl granted ↦ simp (inside, granted) once
          | inr missing ↦ elim (Bool-cases destructive) [
            | inl fatal ↦
                simp (inside, missing, fatal)
                  (terminate-Once TripReason.unauthorized_destructive_operation at s once)
            | inr mild ↦ simp (inside, missing, mild) once
          ]
        ]
      ]

  on_checked-Once :
      (capability target : String) (destructive : Bool) (at : ℕ) (r : Result Stop (Unit {0}))
      (s : Supervisor)
      → Once s
      → Once (on_checked lib fault capability target destructive at r s).1
  unfolding on_checked
  on_checked-Once capability target destructive at (err stop) s once = once
  on_checked-Once capability target destructive at (ok _) s once =
      after_check-Once capability target destructive at s once

  on_checkpoint-same :
      (margin later : ℕ) (r : Result Stop (Unit {0})) (s : Supervisor)
      → (on_checkpoint lib fault margin later r s).1 ≡ s
  unfolding on_checkpoint
  on_checkpoint-same margin later (err stop) s = refl
  on_checkpoint-same margin later (ok _) s = refl

  operate-Once : (o : Operation lib fault) (s : Supervisor) → Once s → Once (operate lib fault o s)
  unfolding request checkpoint_due
  operate-Once (Operation.tripping reason at) s once = trip-Once reason at s once
  operate-Once (Operation.checking now at) s once = check_expiry-Once now at s once
  operate-Once (Operation.asking margin now at later) s once =
      let (checked, next) = check_expiry lib fault now at s in
      subst Once (sym (on_checkpoint-same margin later checked next))
        (check_expiry-Once now at s once)
  operate-Once (Operation.requesting capability target destructive now at) s once =
      let (checked, next) = check_expiry lib fault now at s in
      on_checked-Once capability target destructive at checked next
        (check_expiry-Once now at s once)

  -- Whatever methods are called, in whatever order and whichever callbacks raise, the callbacks of
  -- at most one trip are called: the sink, the revocation, the kill and the wipe, in this order and
  -- without a repetition, as far as none of them raises.
  pub operate_all-Once :
      (os : List (Operation lib fault)) (s : Supervisor)
      → Once s
      → Once (operate_all lib fault os s)
  operate_all-Once [] s once = once
  operate_all-Once (o ∷ os) s once =
      operate_all-Once os (operate lib fault o s) (operate-Once o s once)

  -- A check without an exception leaves the supervisor as it was, and the token was valid.
  on_verified-ok :
      (r : Result Raised Token) (at : ℕ) (s : Supervisor)
      → (on_verified lib fault r at s).0 ≡ ok tt
      → ((token : Token) × (r ≡ ok token)) × ((on_verified lib fault r at s).1 ≡ s)
  unfolding on_verified terminate
  on_verified-ok (ok token) at s h = ((token, refl), refl)
  on_verified-ok (err (Raised.capability_error reason)) at s h = cc
  on_verified-ok (err Raised.type_error) at s h = cc

  after_check-ok :
      (capability target : String) (destructive : Bool) (at : ℕ) (s : Supervisor)
      → (after_check lib fault capability target destructive at s).0 ≡ ok tt
      → (target ≡ "microvm") × (elem capability s.token.capabilities ≡ true)
  unfolding after_check terminate
  after_check-ok capability target destructive at s h = elim (Bool-cases (target == "microvm")) [
    | inr other ↦ cc (rw other at h)
    | inl inside ↦ elim (Bool-cases (elem capability s.token.capabilities)) [
      | inl granted ↦ ((==_iff target "microvm").0 inside, granted)
      | inr missing ↦ elim (Bool-cases destructive) [
        | inl fatal ↦ cc (rw (inside, missing, fatal) at h)
        | inr mild ↦ cc (rw (inside, missing, mild) at h)
      ]
    ]
  ]

  on_checked-ok :
      (capability target : String) (destructive : Bool) (at : ℕ) (r : Result Stop (Unit {0}))
      (s : Supervisor)
      → (on_checked lib fault capability target destructive at r s).0 ≡ ok tt
      → (r ≡ ok tt) × (target ≡ "microvm") × (elem capability s.token.capabilities ≡ true)
  unfolding on_checked
  on_checked-ok capability target destructive at (err stop) s h = cc
  on_checked-ok capability target destructive at (ok _) s h =
      let (inside, granted) = after_check-ok capability target destructive at s h in
      (refl, inside, granted)

  abbrev pub Granted : String → String → ℕ → Supervisor → Type 0
  Granted capability target now s =
      (target ≡ "microvm")
      × (elem capability s.token.capabilities ≡ true)
      × ((token : Token) × (verify lib s.keys now (to_dict s.token) ≡ ok token))

  request-ok :
      (capability target : String) (destructive : Bool) (now at : ℕ) (s : Supervisor)
      → (request lib fault capability target destructive now at s).0 ≡ ok tt
      → Granted capability target now s
  unfolding request check_expiry
  request-ok capability target destructive now at s h =
      let r = verify lib s.keys now (to_dict s.token) in
      let (checked, next) = on_verified lib fault r at s in
      let (passed, inside, granted) =
        on_checked-ok capability target destructive at checked next h in
      let (valid, same) = on_verified-ok r at s passed in
      (
        inside,
        subst (λ (t : Supervisor). elem capability t.token.capabilities ≡ true) same granted,
        valid,
      )

  Granted-request :
      (capability target : String) (destructive : Bool) (now at : ℕ) (s : Supervisor)
      → Granted capability target now s
      → (request lib fault capability target destructive now at s).0 ≡ ok tt
  unfolding request check_expiry on_verified on_checked after_check
  Granted-request capability target destructive now at s (inside, granted, valid) =
      simp (valid.1, inside, granted)

  -- A request is granted exactly inside the virtual machine, for a capability of the token, and
  -- while the token verifies, whether or not the supervisor has tripped.
  pub request-Granted :
      (capability target : String) (destructive : Bool) (now at : ℕ) (s : Supervisor)
      → ((request lib fault capability target destructive now at s).0 ≡ ok tt)
        ↔ Granted capability target now s
  request-Granted capability target destructive now at s = (
    request-ok capability target destructive now at s,
    Granted-request capability target destructive now at s,
  )
