-- ===== src/Enforcer/Mounts.antt =====
-- `check_mount`, `check_storage` and `before_launch` of `PolicyEnforcer`.
use testudo.Prelude.{
  String, Bool, true, false, not, ◌&&◌, List, [], ◌∷◌, Option, none, some, Result, ok, err, ◌>>=◌,
  ◌>>◌, raise_if, ◌==◌, Comparable-nat, Comparable-list, Comparable-string, elem, if◌then◌else◌,
}
use testudo.Policy.Path.{Text}
use testudo.Policy.Storage.{CacheAccess}
use testudo.Enforcer.{
  Action, Target, PolicyReason, MountBinding, Details, PolicyReceipt, PolicyDecision, PolicySetting,
  Enforcer, World,
}
use testudo.Enforcer.Decisions.{Claim, decide, deny, common_denial, network_expiry_reason, unless}
use testudo.Enforcer.Paths.{
  safe_guest_path, safe_host_path, mounts, mode_of, mode_name, mount_for_guest, expected_host_path,
}

-- A declared path, or the reason for which there is none.
abbrev pub chosen :
    PolicyReason → Option (Text × CacheAccess) → Result PolicyReason (Text × CacheAccess)
chosen reason none = err reason
chosen reason (some selected) = ok selected

-- `expected_host is None or host != expected_host`
abbrev pub unbound : Text → Option Text → Bool
unbound host none = true
unbound host (some expected) = not (host == expected)

module _ (world : World) (set : PolicySetting) where
  -- `check_mount` from its `try` on, as far as it reads no state.
  unfoldable pub judge_mount : Text → Text → Text → String → Result PolicyReason (Text × Text)
  judge_mount root host_path guest_path mode = safe_guest_path guest_path >>= λ guest.
      safe_host_path world root host_path >>= λ host.
      chosen PolicyReason.not_declared (mount_for_guest set.storage_policy guest) >>= λ selected.
      raise_if (not (guest == selected.0)) PolicyReason.not_guest_root
      >> (raise_if (unbound host (expected_host_path world set guest selected.0))
            PolicyReason.not_bound
          >> (raise_if (not (mode == mode_name (mode_of selected.1))) PolicyReason.mode_exceeded
              >> ok (host, guest)))

  abbrev pub judge_mount_at : Option Text → Text → Text → String → Result PolicyReason (Text × Text)
  judge_mount_at none host_path guest_path mode = err PolicyReason.run_root_required
  judge_mount_at (some root) host_path guest_path mode = judge_mount root host_path guest_path mode

  abbrev pub on_mount :
      Claim → String → Result PolicyReason (Text × Text) → Enforcer → PolicyDecision × Enforcer
  on_mount c mode (err reason) e = deny world set c reason e
  on_mount c mode (ok (host, guest)) e =
      decide world set c true PolicyReason.mount_declared (Details.mount_details host guest mode) e

  abbrev pub mount_claim : Text → Text → String → Claim
  mount_claim host_path guest_path mode = record {
    operation = Action.mount;
    target = Target.mount_target host_path guest_path mode;
    phase = none;
    purpose = none;
  }

  unfoldable pub check_mount :
      Text → Text → String → Option Text → Enforcer → PolicyDecision × Enforcer
  check_mount host_path guest_path mode candidate e =
      let c = mount_claim host_path guest_path mode in
      unless world set c (common_denial world set candidate false e)
        (on_mount c mode (judge_mount_at set.run_root host_path guest_path mode))

  -- What `check_storage` comes to: a path with its access, or a mount to check.
  pub data Storage : Type 0 where
    access : Text → CacheAccess → Storage
    mounting : Text → CacheAccess → Storage

  abbrev is_writable : CacheAccess → Bool
  is_writable CacheAccess.read_write = true
  is_writable CacheAccess.read_only = false
  is_writable CacheAccess.no_access = false

  abbrev judge_host_at : Option Text → Text → Text → Text → Result PolicyReason (Unit {0})
  judge_host_at none host_path guest prefix = err PolicyReason.run_root_required
  judge_host_at (some root) host_path guest prefix = safe_host_path world root host_path >>= λ host.
      raise_if (unbound host (expected_host_path world set guest prefix)) PolicyReason.not_bound

  abbrev pub judge_host : Option Text → Text → Text → Result PolicyReason (Unit {0})
  judge_host none guest prefix = ok tt
  judge_host (some host_path) guest prefix = judge_host_at set.run_root host_path guest prefix

  unfoldable pub judge_storage : Text → String → Option Text → Result PolicyReason Storage
  judge_storage guest_path operation host_path = safe_guest_path guest_path >>= λ guest.
      raise_if (not (elem operation ("read" ∷ "write" ∷ "mount" ∷ [])))
        PolicyReason.unknown_operation
      >> (chosen PolicyReason.not_declared (mount_for_guest set.storage_policy guest)
          >>= λ selected.
              raise_if (operation == "write" && not (is_writable selected.1))
                PolicyReason.write_exceeded
              >> (if operation == "mount"
                  then raise_if (not (guest == selected.0)) PolicyReason.not_guest_root
                    >> ok (Storage.mounting guest selected.1)
                  else judge_host host_path guest selected.0
                    >> ok (Storage.access guest selected.1)))

  abbrev host_or_empty : Option Text → Text
  host_or_empty none = []
  host_or_empty (some host_path) = host_path

  abbrev pub on_storage :
      Claim
      → String
      → Option Text
      → Option Text
      → Result PolicyReason Storage
      → Enforcer
      → PolicyDecision × Enforcer
  on_storage c operation host_path candidate (err reason) e = deny world set c reason e
  on_storage c operation host_path candidate (ok (Storage.access guest mode)) e =
      decide world set c true PolicyReason.path_declared
        (Details.storage_details guest operation mode) e
  on_storage c operation host_path candidate (ok (Storage.mounting guest mode)) e =
      check_mount (host_or_empty host_path) guest (mode_name (mode_of mode)) candidate e

  abbrev pub storage_claim : Text → String → Claim
  storage_claim guest_path operation = record {
    operation = Action.storage operation;
    target = Target.guest_target guest_path;
    phase = none;
    purpose = none;
  }

  unfoldable pub check_storage :
      Text → String → Option Text → Option Text → Enforcer → PolicyDecision × Enforcer
  check_storage guest_path operation host_path candidate e =
      let c = storage_claim guest_path operation in
      unless world set c (common_denial world set candidate false e)
        (on_storage c operation host_path candidate (judge_storage guest_path operation host_path))

  abbrev pub launch_claim : Claim
  launch_claim = record {
    operation = Action.launch;
    target = Target.no_target;
    phase = none;
    purpose = none;
  }

  -- `decision.to_dict()`
  abbrev as_details : PolicyReceipt → Details
  as_details r =
      Details.receipt_details r.payload.operation r.payload.allowed r.payload.policy_digest
        r.payload.target r.payload.reason r.payload.sequence r.payload.issued_at r.payload.phase
        r.payload.purpose r.payload.details r.receipt_id

  -- `self._launch_receipt = decision.receipt`
  abbrev admitted : PolicyDecision × Enforcer → PolicyDecision × Enforcer
  admitted (d, e) = (d, record e { launch_receipt = some d.receipt })

  abbrev pub admit_launch : Enforcer → PolicyDecision × Enforcer
  admit_launch e = admitted (
      decide world set launch_claim true PolicyReason.plan_enforceable
        (Details.launch_details set.policy_digest (mounts set)) e)

  abbrev pub on_checked_mount :
      PolicyDecision × Enforcer → (Enforcer → PolicyDecision × Enforcer) → PolicyDecision × Enforcer
  on_checked_mount (d, e) rest =
      if d.allowed
      then rest e
      else decide world set launch_claim false PolicyReason.plan_not_enforceable
          (as_details d.receipt) e

  -- The loop over the mounts.
  unfoldable pub each_mount : List MountBinding → Option Text → Enforcer → PolicyDecision × Enforcer
  each_mount [] candidate e = admit_launch e
  each_mount (m ∷ ms) candidate e =
      on_checked_mount (check_mount m.host_path m.guest_path (mode_name m.mode) candidate e)
        (each_mount ms candidate)

  abbrev pub launch_at : Option Text → Option Text → Enforcer → PolicyDecision × Enforcer
  launch_at none candidate e = deny world set launch_claim PolicyReason.run_root_required e
  launch_at (some root) candidate e =
      unless world set launch_claim (network_expiry_reason world set e)
        (each_mount (mounts set) candidate)

  unfoldable pub before_launch : Option Text → Enforcer → PolicyDecision × Enforcer
  before_launch candidate e =
      unless world set launch_claim (common_denial world set candidate false e)
        (launch_at set.run_root candidate)
