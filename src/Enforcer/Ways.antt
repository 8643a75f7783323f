-- ===== src/Enforcer/Ways.antt =====
-- What a call of an enforcer comes to: a refusal, or one of the five ways to be allowed.
use mathlib.Core.Path.{subst}
use testudo.Prelude.{
  ℕ, suc, ◌+◌, ◌≤◌, ◌≡◌, refl, sym, String, Bool, true, false, List, [], ◌∷◌, Option, none, some,
  Result, ok, err, arith,
}
use testudo.Policy.Path.{Text}
use testudo.Enforcer.{
  Action, PolicyReason, MountBinding, Details, PolicyReceipt, PolicyDecision, PolicySetting,
  Enforcer, World,
}
use testudo.Enforcer.Decisions.{Claim, decide, common_denial, network_expiry_reason, unless}
use testudo.Enforcer.Paths.{mounts, mode_name}
use testudo.Enforcer.Mounts.{
  judge_mount_at, on_mount, mount_claim, check_mount, launch_claim, admit_launch, on_checked_mount,
  each_mount, launch_at, before_launch,
}
use testudo.Enforcer.Egress.{NetworkRequest, Exact, on_exact, over_limit}
use testudo.Enforcer.Publication.{judge_launch, on_publication}
use testudo.Enforcer.Guards.{
  later, Turn, unless-Turn, common_denial-Guard, network_expiry_reason-Guard,
}

-- The operations whose permission changes the state.
abbrev pub is_counted : Action → Bool
is_counted Action.network_egress = true
is_counted Action.publication = true
is_counted Action.mount = false
is_counted Action.launch = false
is_counted Action.policy_digest_check = false
is_counted Action.wipe = false
is_counted (Action.storage operation) = false

module _ (world : World) (set : PolicySetting) where
  -- Bound to its policies and not wiped.
  abbrev pub Alive : Enforcer → Type 0
  Alive e = (set.binding_error ≡ none) × (e.wipe_state.wiped ≡ false)

  pub data Way (e : Enforcer) : PolicyDecision × Enforcer → Type 0 where
    refused :
        (c : Claim) (reason : PolicyReason) (details : Details) (s n : ℕ)
        → e.sequence ≤ s
        → Way e (decide world set c false reason details (later e s n))
    granted :
        (c : Claim) (reason : PolicyReason) (details : Details) (s n : ℕ)
        → e.sequence ≤ s
        → Alive e
        → is_counted c.operation ≡ false
        → Way e (decide world set c true reason details (later e s n))
    admitted : (s n : ℕ) → e.sequence ≤ s → Alive e → Way e (admit_launch world set (later e s n))
    spent :
        (r : NetworkRequest) (x : Exact) (s n : ℕ)
        → e.sequence ≤ s
        → Alive e
        → over_limit (e.network_bytes + x.bytes) set.network_policy.max_bytes ≡ false
        → Way e (on_exact world set r (ok x) (later e s n))
    issued :
        (receipt : PolicyReceipt) (size s n : ℕ)
        → e.sequence ≤ s
        → Alive e
        → judge_launch world set (some receipt) ≡ ok receipt
        → e.published ≡ false
        → Way e (on_publication world set receipt (ok size) (later e s n))

  pub turn-Way :
      {P : Type 0} {m : ℕ} (c : Claim) (rest : Enforcer → PolicyDecision × Enforcer) (e : Enforcer)
      (s n : ℕ) (q : PolicyDecision × Enforcer)
      → e.sequence ≤ s
      → Turn world set P m c rest (later e s n) q
      → (P → Way e (rest (later e s m)))
      → Way e q
  turn-Way c rest e s n q grown (Turn.denied reason k same out) next =
      subst (Way e) (sym same) (Way.refused c reason Details.nothing s k grown)
  turn-Way c rest e s n q grown (Turn.went_on holds same) next =
      subst (Way e) (sym same) (next holds)

  -- A check of a mount decides, whatever it decides.
  record Decided (c : Claim) (e : Enforcer) (q : PolicyDecision × Enforcer) : Type 0 where
    pub allowed : Bool
    pub reason : PolicyReason
    pub details : Details
    pub readings : ℕ
    pub same : q ≡ decide world set c allowed reason details (later e e.sequence readings)
    pub unwiped : allowed ≡ true → Alive e

  on_mount-Decided :
      (c : Claim) (mode : String) (r : Result PolicyReason (Text × Text)) (e : Enforcer) (n : ℕ)
      → Alive e
      → Decided c e (on_mount world set c mode r (later e e.sequence n))
  on_mount-Decided c mode (err reason) e n unwiped = record {
    allowed = false;
    reason = reason;
    details = Details.nothing;
    readings = n;
    same = refl;
    unwiped = λ _. unwiped;
  }
  on_mount-Decided c mode (ok (host, guest)) e n unwiped = record {
    allowed = true;
    reason = PolicyReason.mount_declared;
    details = Details.mount_details host guest mode;
    readings = n;
    same = refl;
    unwiped = λ _. unwiped;
  }

  check_mount-Decided :
      (host_path guest_path : Text) (mode : String) (candidate : Option Text) (e : Enforcer)
      → Decided
          (mount_claim world set host_path guest_path mode)
          e
          (check_mount world set host_path guest_path mode candidate e)
  unfolding check_mount
  check_mount-Decided host_path guest_path mode candidate e =
      let c = mount_claim world set host_path guest_path mode in
      let r = judge_mount_at world set set.run_root host_path guest_path mode in
      elim (unless-Turn world set c (common_denial world set candidate false e)
        (on_mount world set c mode r) e (common_denial-Guard world set candidate false e)) [
          | Turn.denied reason n same out ↦ record {
            allowed = false;
            reason = reason;
            details = Details.nothing;
            readings = n;
            same = same;
            unwiped = λ h. cc;
          }
          | Turn.went_on live same ↦
              subst (Decided c e) (sym same)
                (on_mount-Decided c mode r e (suc e.readings) (live.bound, live.unwiped))
        ]

  pub check_mount-Way :
      (host_path guest_path : Text) (mode : String) (candidate : Option Text) (e : Enforcer)
      (s n : ℕ)
      → e.sequence ≤ s
      → Way e (check_mount world set host_path guest_path mode candidate (later e s n))
  check_mount-Way host_path guest_path mode candidate e s n grown =
      let c = mount_claim world set host_path guest_path mode in
      let d = check_mount-Decided host_path guest_path mode candidate (later e s n) in
      subst (Way e) (sym d.same)
        (by_answer c d.allowed d.reason d.details d.readings d.unwiped refl)
    where
      by_answer :
          (c : Claim) (b : Bool) (reason : PolicyReason) (details : Details) (m : ℕ)
          → (b ≡ true → Alive e)
          → is_counted c.operation ≡ false
          → Way e (decide world set c b reason details (later e s m))
      by_answer c true reason details m unwiped plain =
          Way.granted c reason details s m grown (unwiped refl) plain
      by_answer c false reason details m unwiped plain = Way.refused c reason details s m grown

  on_checked_mount-Way :
      (c : Claim) (b : Bool) (reason : PolicyReason) (details : Details)
      (rest : Enforcer → PolicyDecision × Enforcer) (e : Enforcer) (s n : ℕ)
      → e.sequence ≤ s
      → ((k : ℕ) → Way e (rest (later e (suc s) k)))
      → Way e (on_checked_mount world set (decide world set c b reason details (later e s n)) rest)
  unfolding decide
  on_checked_mount-Way c true reason details rest e s n grown next = next (suc n)
  on_checked_mount-Way c false reason details rest e s n grown next =
      Way.refused (launch_claim world set) PolicyReason.plan_not_enforceable _ (suc s) (suc n)
        (omega arith)

  each_mount-Way :
      (ms : List MountBinding) (candidate : Option Text) (e : Enforcer) (s n : ℕ)
      → e.sequence ≤ s
      → Alive e
      → Way e (each_mount world set ms candidate (later e s n))
  unfolding each_mount
  each_mount-Way [] candidate e s n grown unwiped = Way.admitted s n grown unwiped
  each_mount-Way (m ∷ ms) candidate e s n grown unwiped =
      let d =
        check_mount-Decided m.host_path m.guest_path (mode_name m.mode) candidate (later e s n) in
      let c = mount_claim world set m.host_path m.guest_path (mode_name m.mode) in
      let rest = each_mount world set ms candidate in
      subst (λ q. Way e (on_checked_mount world set q rest)) (sym d.same)
        (on_checked_mount-Way c d.allowed d.reason d.details rest e s d.readings grown
          (λ k. each_mount-Way ms candidate e (suc s) k (omega arith) unwiped))

  launch_at-Way :
      (root candidate : Option Text) (e : Enforcer) (n : ℕ)
      → Alive e
      → Way e (launch_at world set root candidate (later e e.sequence n))
  launch_at-Way none candidate e n unwiped =
      Way.refused (launch_claim world set) PolicyReason.run_root_required Details.nothing e.sequence
        n (omega arith)
  launch_at-Way (some root) candidate e n unwiped =
      let rest = each_mount world set (mounts set) candidate in
      let e1 = later e e.sequence n in
      turn-Way (launch_claim world set) rest e e.sequence n _ (omega arith)
        (unless-Turn world set (launch_claim world set) (network_expiry_reason world set e1) rest e1
          (network_expiry_reason-Guard world set e1))
        (λ lasting. each_mount-Way (mounts set) candidate e e.sequence _ (omega arith) unwiped)

  -- A check that starts with `_common_denial`.
  pub guarded-Way :
      (c : Claim) (candidate : Option Text) (require_digest : Bool)
      (rest : Enforcer → PolicyDecision × Enforcer) (e : Enforcer)
      → ((n : ℕ) → Alive e → Way e (rest (later e e.sequence n)))
      → Way e (unless world set c (common_denial world set candidate require_digest e) rest)
  guarded-Way c candidate require_digest rest e next =
      turn-Way c rest e e.sequence e.readings _ (omega arith)
        (unless-Turn world set c (common_denial world set candidate require_digest e) rest e
          (common_denial-Guard world set candidate require_digest e))
        (λ live. next (suc e.readings) (live.bound, live.unwiped))

  pub before_launch-Way :
      (candidate : Option Text) (e : Enforcer) → Way e (before_launch world set candidate e)
  unfolding before_launch
  before_launch-Way candidate e =
      guarded-Way (launch_claim world set) candidate false
        (launch_at world set set.run_root candidate) e
        (λ n unwiped. launch_at-Way set.run_root candidate e n unwiped)
