-- ===== src/Enforcer/Outcomes.antt =====
-- The ways of `check_storage`, `check_network`, `before_publication` and `check_policy_digest`.
use mathlib.Core.Path.{subst}
use testudo.Prelude.{
  ℕ, ◌+◌, ◌≡◌, refl, String, Bool, true, false, not, ◌||◌, inl, inr, Option, none, some, ℤ, Result,
  ok, err, Bool-cases, arith, raise_if-eq-ok, bind-ok, Comparable-nat, Comparable-int,
  Comparable-list, Comparable-string, ok-injective,
}
use testudo.Policy.Path.{Text}
use testudo.Enforcer.{
  PolicyReason, Details, PolicyReceipt, PolicyDecision, PolicySetting, Enforcer, World,
  verify_receipt, is_launch,
}
use testudo.Enforcer.Decisions.{network_expiry_reason, unless, or_default}
use testudo.Enforcer.Paths.{mode_of, mode_name}
use testudo.Enforcer.Mounts.{Storage, judge_storage, on_storage, storage_claim, check_storage}
use testudo.Enforcer.Egress.{
  NetworkRequest, Exact, judge_network, on_exact, egress_in, egress_for, egress_claim,
  is_no_purpose, check_network,
}
use testudo.Enforcer.Publication.{
  Given, judge_launch, judge_publication, on_publication, publication_by, before_publication,
  digest_claim, check_policy_digest, past, judge_size, coerce_launch_receipt, publication_claim,
}
use testudo.Enforcer.Guards.{later, unless-Turn, network_expiry_reason-Guard}
use testudo.Enforcer.Listed.{judge_network-Listed, over_limit-InBudget}
use testudo.Enforcer.Ways.{Alive, Way, turn-Way, guarded-Way, check_mount-Way}

module _ (world : World) (set : PolicySetting) where
  on_storage-Way :
      (guest_path : Text) (operation : String) (host_path candidate : Option Text)
      (r : Result PolicyReason (Storage world set)) (e : Enforcer) (n : ℕ)
      → Alive world set e
      → Way world set e (
          on_storage world set
            (storage_claim world set guest_path operation)
            operation
            host_path
            candidate
            r
            (later e e.sequence n))
  on_storage-Way guest_path operation host_path candidate (err reason) e n unwiped =
      Way.refused (storage_claim world set guest_path operation) reason Details.nothing e.sequence n
        (omega arith)
  on_storage-Way guest_path operation host_path candidate (ok (Storage.access guest mode)) e n
        unwiped =
      Way.granted (storage_claim world set guest_path operation) PolicyReason.path_declared
        (Details.storage_details guest operation mode) e.sequence n (omega arith) unwiped refl
  on_storage-Way guest_path operation host_path candidate (ok (Storage.mounting guest mode)) e n
        unwiped =
      check_mount-Way world set _ guest (mode_name (mode_of mode)) candidate e e.sequence n
        (omega arith)

  pub check_storage-Way :
      (guest_path : Text) (operation : String) (host_path candidate : Option Text) (e : Enforcer)
      → Way world set e (check_storage world set guest_path operation host_path candidate e)
  unfolding check_storage
  check_storage-Way guest_path operation host_path candidate e =
      guarded-Way world set (storage_claim world set guest_path operation) candidate false _ e
        (λ n unwiped.
          on_storage-Way guest_path operation host_path candidate
            (judge_storage world set guest_path operation host_path) e n unwiped)

  on_exact-Way :
      (r : NetworkRequest) (result : Result PolicyReason Exact) (e : Enforcer) (n : ℕ)
      → Alive world set e
      → judge_network world set r e.network_bytes ≡ result
      → Way world set e (on_exact world set r result (later e e.sequence n))
  on_exact-Way r (err reason) e n unwiped same =
      Way.refused (egress_claim world set r) reason Details.nothing e.sequence n (omega arith)
  on_exact-Way r (ok x) e n unwiped same = Way.spent r x e.sequence n (omega arith) unwiped (
      (over_limit-InBudget (e.network_bytes + x.bytes) set.network_policy.max_bytes).1
        (judge_network-Listed world set r e.network_bytes x same).in_budget)

  egress_for-Way :
      (r : NetworkRequest) (e : Enforcer) (n : ℕ)
      → Alive world set e
      → Way world set e (egress_for world set r (later e e.sequence n))
  egress_for-Way r e n unwiped = elim (Bool-cases (is_no_purpose set.network_policy.purpose)) [
    | inl none_declared ↦ simp (none_declared) (
        Way.refused (egress_claim world set r) PolicyReason.egress_denied Details.nothing e.sequence
          n (omega arith))
    | inr declared ↦
        let c = egress_claim world set r in
        let e1 = later e e.sequence n in
        simp (declared) (
          turn-Way world set c (egress_in world set r) e e.sequence n
            (unless world set c (network_expiry_reason world set e1) (egress_in world set r))
            (omega arith)
            (unless-Turn world set c (network_expiry_reason world set e1) (egress_in world set r) e1
              (network_expiry_reason-Guard world set e1))
            (λ lasting.
              on_exact-Way r (judge_network world set r e.network_bytes) e _ unwiped refl))
  ]

  pub check_network-Way :
      (r : NetworkRequest) (e : Enforcer) → Way world set e (check_network world set r e)
  unfolding check_network
  check_network-Way r e =
      guarded-Way world set (egress_claim world set r) r.policy_digest false
        (egress_for world set r) e (λ n unwiped. egress_for-Way r e n unwiped)

  judge_launch-same :
      (o : Option PolicyReceipt) (r : PolicyReceipt)
      → judge_launch world set o ≡ ok r
      → judge_launch world set (some r) ≡ ok r
  unfolding judge_launch
  judge_launch-same none r h = cc
  judge_launch-same (some r0) r h =
      let (launched, h1) =
        raise_if-eq-ok (not (is_launch r0.payload.operation) || not r0.payload.allowed)
          PolicyReason.launch_receipt_required _ h in
      let (valid, h2) =
        raise_if-eq-ok (not (verify_receipt world r0 set.policy_digest))
          PolicyReason.receipt_mismatch _ h1 in
      subst (λ q. judge_launch world set (some q) ≡ ok r) (ok-injective h2) h

  judge_publication-unpublished :
      (bytes : ℤ) (spent : ℕ) (published : Bool) (size : ℕ)
      → judge_publication world set bytes spent published ≡ ok size
      → published ≡ false
  unfolding judge_publication
  judge_publication-unpublished bytes spent published size h =
      let (n, sized, h1) = bind-ok (judge_size bytes) _ size h in
      let (fits, h2) =
        raise_if-eq-ok (past (spent + n) set.network_policy.max_bytes)
          PolicyReason.publication_limit _ h1 in
      (raise_if-eq-ok published PolicyReason.already_published _ h2).0

  on_publication-Way :
      (receipt : PolicyReceipt) (bytes : ℤ) (result : Result PolicyReason ℕ) (e : Enforcer) (n : ℕ)
      → Alive world set e
      → judge_launch world set (some receipt) ≡ ok receipt
      → judge_publication world set bytes e.network_bytes e.published ≡ result
      → Way world set e (on_publication world set receipt result (later e e.sequence n))
  on_publication-Way receipt bytes (err reason) e n unwiped launched same =
      Way.refused (publication_claim world set) reason Details.nothing e.sequence n (omega arith)
  on_publication-Way receipt bytes (ok size) e n unwiped launched same =
      Way.issued receipt size e.sequence n (omega arith) unwiped launched
        (judge_publication-unpublished bytes e.network_bytes e.published size same)

  publication_by-Way :
      (o : Option PolicyReceipt) (bytes : ℤ) (result : Result PolicyReason PolicyReceipt)
      (e : Enforcer) (n : ℕ)
      → Alive world set e
      → judge_launch world set o ≡ result
      → Way world set e (publication_by world set bytes result (later e e.sequence n))
  publication_by-Way o bytes (err reason) e n unwiped same =
      Way.refused (publication_claim world set) reason Details.nothing e.sequence n (omega arith)
  publication_by-Way o bytes (ok r) e n unwiped same =
      let c = publication_claim world set in
      let e1 = later e e.sequence n in
      let rest : Enforcer → PolicyDecision × Enforcer = λ x.
        on_publication world set r (judge_publication world set bytes x.network_bytes x.published)
          x in
      turn-Way world set c rest e e.sequence n _ (omega arith)
        (unless-Turn world set c (network_expiry_reason world set e1) rest e1
          (network_expiry_reason-Guard world set e1))
        (λ lasting.
          on_publication-Way r bytes (judge_publication world set bytes e.network_bytes e.published)
            e _ unwiped (judge_launch-same o r same) refl)

  pub before_publication-Way :
      (given : Given) (candidate : Option Text) (byte_count : ℤ) (bytes : Option ℤ) (e : Enforcer)
      → Way world set e (before_publication world set given candidate byte_count bytes e)
  unfolding before_publication
  before_publication-Way given candidate byte_count bytes e =
      guarded-Way world set (publication_claim world set) candidate false _ e (λ n unwiped.
        publication_by-Way (coerce_launch_receipt world e given) (or_default bytes byte_count)
          (judge_launch world set (coerce_launch_receipt world e given)) e n unwiped refl)

  pub check_policy_digest-Way :
      (candidate : Option Text) (e : Enforcer)
      → Way world set e (check_policy_digest world set candidate e)
  unfolding check_policy_digest
  check_policy_digest-Way candidate e =
      guarded-Way world set (digest_claim world set) candidate true _ e (λ n unwiped.
        Way.granted (digest_claim world set) PolicyReason.digest_matches
          (Details.digest_details set.policy_digest) e.sequence n (omega arith) unwiped refl)
