-- ===== src/Enforcer/Launch.antt =====
-- `before_launch` admits the launch of a policy that its validators accepted.
use mathlib.Core.Path.{subst}
use testudo.Prelude.{
  ℕ, suc, ◌+◌, ◌*◌, ◌<◌, ◌≤◌, ℤ, length, arith, ◌≡◌, refl, sym, ap, ◌∙◌, String, true, false, List,
  [], ◌∷◌, Option, none, some, ok, Comparable-nat, Comparable-list, Comparable-string, All,
}
use testudo.Policy.Path.{Text}
use testudo.Policy.Storage.{StoragePolicy, validate_storage}
use testudo.Enforcer.{
  PolicyReason, MountBinding, PolicySetting, Enforcer, World, PolicyDecision, Details,
}
use testudo.Enforcer.Decisions.{common_denial, decide, network_expiry_reason, reaches, Claim}
use testudo.Enforcer.Paths.{mode_name, mounts}
use testudo.Enforcer.Mounts.{
  judge_mount, judge_mount_at, on_mount, mount_claim, check_mount, each_mount, launch_at,
  launch_claim, before_launch, on_checked_mount,
}
use testudo.Enforcer.Guards.{
  later, Live, Lasting, read_by, Turn, unless-Turn, common_denial-Guard,
  network_expiry_reason-Guard,
}
use testudo.Enforcer.Sound.{Sound, Judged, mounts-Judged}

module _ (world : World) (set : PolicySetting) (root : Text)
    (rooted : set.run_root ≡ some root) where
  -- None of the readings before the one with this number reaches the expiry.
  abbrev Unexpired : ℕ → Type 0
  Unexpired bound = (n : ℕ) → n < bound → reaches (world.clock n) set.expires_at ≡ false

  at_root :
      (host_path guest_path : Text) (mode : String) (o : Option Text) (kept : Text × Text)
      → o ≡ some root
      → judge_mount world set root host_path guest_path mode ≡ ok kept
      → judge_mount_at world set o host_path guest_path mode ≡ ok kept
  at_root host_path guest_path mode o kept same h =
      ap (λ r. judge_mount_at world set r host_path guest_path mode) same ∙ h

  Live-later :
      (candidate : Option Text) (e : Enforcer) (s n : ℕ)
      → Live world set candidate false e
      → reaches (world.clock n) set.expires_at ≡ false
      → Live world set candidate false (later e s n)
  Live-later candidate e s n live early = record {
    bound = live.bound;
    given = live.given;
    matched = live.matched;
    unwiped = live.unwiped;
    unexpired = early;
  }

  -- A guard that holds lets the rest go on.
  holds-Turn :
      {P : Type 0} {m : ℕ} (c : Claim) (rest : Enforcer → PolicyDecision × Enforcer) (e : Enforcer)
      (q : PolicyDecision × Enforcer)
      → Turn world set P m c rest e q
      → P
      → q ≡ rest (later e e.sequence m)
  holds-Turn c rest e q (Turn.denied reason n same out) p = absurd (out p)
  holds-Turn c rest e q (Turn.went_on _ same) p = same

  check_mount-Judged :
      (m : MountBinding) (candidate : Option Text) (e : Enforcer)
      → Live world set candidate false e
      → Judged world set root rooted m
      → check_mount world set m.host_path m.guest_path (mode_name m.mode) candidate e
        ≡ decide world set
            (mount_claim world set m.host_path m.guest_path (mode_name m.mode))
            true
            PolicyReason.mount_declared
            (Details.mount_details (world.resolve m.host_path) m.guest_path (mode_name m.mode))
            (later e e.sequence (suc e.readings))
  unfolding check_mount
  check_mount-Judged m candidate e live judged =
      let mode = mode_name m.mode in
      let c = mount_claim world set m.host_path m.guest_path mode in
      let r = judge_mount_at world set set.run_root m.host_path m.guest_path mode in
      let rest = on_mount world set c mode r in
      holds-Turn c rest e _
        (unless-Turn world set c (common_denial world set candidate false e) rest e
          (common_denial-Guard world set candidate false e))
        live
      ∙ ap (λ x. on_mount world set c mode x (later e e.sequence (suc e.readings)))
          (at_root m.host_path m.guest_path mode set.run_root
            (world.resolve m.host_path, m.guest_path) rooted judged)

  -- The launch is admitted, and its receipt is kept.
  abbrev pub Admitted : PolicyDecision × Enforcer → Type 0
  Admitted q = (q.0.allowed ≡ true) × (q.1.launch_receipt ≡ some q.0.receipt)

  each_mount-Admitted :
      (ms : List MountBinding) (candidate : Option Text) (e : Enforcer) (s n bound : ℕ)
      → Live world set candidate false e
      → Unexpired bound
      → n + 2 * length ms ≤ bound
      → All (Judged world set root rooted) ms
      → Admitted (each_mount world set ms candidate (later e s n))
  unfolding each_mount decide
  each_mount-Admitted [] candidate e s n bound live early enough judged = (refl, refl)
  each_mount-Admitted (m ∷ ms) candidate e s n bound live early enough (judged, rest) =
      let same =
        check_mount-Judged m candidate (later e s n)
          (Live-later candidate e s n live (early n (omega (arith, enough)))) judged in
      subst (λ q. Admitted (on_checked_mount world set q (each_mount world set ms candidate)))
        (sym same)
        (each_mount-Admitted ms candidate e (suc s) (suc (suc n)) bound live early
          (omega (arith, enough)) rest)

  read_by-enough :
      (limit : Option ℤ) (n k bound : ℕ) → suc n + k ≤ bound → read_by world set limit n + k ≤ bound
  read_by-enough none n k bound enough = omega (arith, enough)
  read_by-enough (some d) n k bound enough = enough

  launch_at-Admitted :
      (o candidate : Option Text) (e : Enforcer) (bound : ℕ)
      → o ≡ some root
      → Live world set candidate false e
      → Unexpired bound
      → suc e.readings + 2 * length (mounts set) ≤ bound
      → Lasting world set set.network_policy.max_duration_seconds (world.clock e.readings)
      → All (Judged world set root rooted) (mounts set)
      → Admitted (launch_at world set o candidate e)
  launch_at-Admitted none candidate e bound same live early enough lasting judged = cc
  launch_at-Admitted (some r) candidate e bound same live early enough lasting judged =
      let c = launch_claim world set in
      let rest = each_mount world set (mounts set) candidate in
      subst Admitted
        (sym (
          holds-Turn c rest e _
            (unless-Turn world set c (network_expiry_reason world set e) rest e
              (network_expiry_reason-Guard world set e))
            lasting))
        (each_mount-Admitted (mounts set) candidate e e.sequence _ bound live early
          (read_by-enough set.network_policy.max_duration_seconds e.readings _ bound enough) judged)

  -- A launch is admitted, and its receipt kept, if the validators accepted the storage policy, the
  -- enforcer is bound to the policies and to the digest of the caller, has a run root below which the
  -- mounts of the plan resolve, is not wiped, none of the readings of the clock that this call takes for
  -- its checks (two, and two for each mount) has reached the expiry, and the time of the network policy
  -- has not passed at the second of them.
  pub before_launch-Admitted :
      (declared : StoragePolicy) (candidate : Option Text) (e : Enforcer)
      → validate_storage declared ≡ ok set.storage_policy
      → All (Sound world set root rooted) (mounts set)
      → Live world set candidate false e
      → ((n : ℕ)
          → n < e.readings + (2 + 2 * length (mounts set))
          → reaches (world.clock n) set.expires_at ≡ false)
      → Lasting world set set.network_policy.max_duration_seconds (world.clock (suc e.readings))
      → ((before_launch world set candidate e).0.allowed ≡ true)
        × ((before_launch world set candidate e).1.launch_receipt
            ≡ some (before_launch world set candidate e).0.receipt)
  unfolding before_launch
  before_launch-Admitted declared candidate e accepted sound live early lasting =
      let c = launch_claim world set in
      let rest = launch_at world set set.run_root candidate in
      let bound = e.readings + (2 + 2 * length (mounts set)) in
      subst Admitted
        (sym (
          holds-Turn c rest e _
            (unless-Turn world set c (common_denial world set candidate false e) rest e
              (common_denial-Guard world set candidate false e))
            live))
        (launch_at-Admitted set.run_root candidate (later e e.sequence (suc e.readings)) bound
          rooted
          (Live-later candidate e e.sequence (suc e.readings) live
            (early (suc e.readings) (omega arith)))
          early (omega arith) lasting (mounts-Judged world set root rooted declared accepted sound))
