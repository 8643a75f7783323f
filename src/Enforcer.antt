-- ===== src/Enforcer.antt =====
-- The data of src/testudo/runtime/policy_enforcer.py: receipts, decisions and the state of an enforcer. Times are whole numbers, and a reason is told by its name and data.
pub mod Decisions
pub mod Paths
pub mod Mounts
pub mod Egress
pub mod Publication
pub mod Init
pub mod Guards
pub mod Ways
pub mod Outcomes
pub mod Course
pub mod Effects
pub mod Plan
pub mod Bindings
pub mod Sound
pub mod Launch
pub mod Mismatch
mod Examples
pub mod Listed
pub mod Allowed
pub mod Limits
use testudo.Prelude.{
  ℕ, ◌+◌, suc, String, Bool, true, false, not, ◌&&◌, ◌||◌, List, Option, none, some, ℤ, ◌==◌,
  Comparable-nat, Comparable-list, Comparable-string, all, length, leb, if◌then◌else◌,
}
use testudo.Policy.Path.{Text}
use testudo.Policy.Host.{HostError, Names}
use testudo.Policy.Storage.{StoragePolicy, CacheAccess, is_none}
use testudo.Policy.Network.{NetworkPhase, NetworkPurpose, NetworkPolicy}

pub data Action : Type 0 where
  mount network_egress launch publication policy_digest_check wipe : Action
  storage : String → Action

abbrev pub is_launch : Action → Bool
is_launch Action.launch = true
is_launch _ = false

pub data Target : Type 0 where
  no_target run_local_state : Target
  mount_target : Text → Text → String → Target
  guest_target : Text → Target
  egress_target : Text → ℤ → String → Target

pub data PolicyReason : Type 0 where
  binding_malformed binding_mismatch digest_required digest_mismatch : PolicyReason
  state_wiped policy_expired duration_expired run_root_required : PolicyReason
  guest_not_absolute guest_not_canonical guest_traversal : PolicyReason
  host_not_absolute host_not_canonical host_traversal host_outside : PolicyReason
  not_declared not_guest_root not_bound mode_exceeded : PolicyReason
  unknown_operation write_exceeded : PolicyReason
  egress_denied phase_mismatch purpose_mismatch : PolicyReason
  bad_host : HostError → PolicyReason
  host_not_listed port_not_listed method_not_listed : PolicyReason
  bad_byte_count bad_elapsed byte_limit : PolicyReason
  plan_not_enforceable launch_receipt_required receipt_mismatch : PolicyReason
  publication_bytes publication_limit already_published : PolicyReason
  mount_declared path_declared egress_exact plan_enforceable : PolicyReason
  publication_bound digest_matches already_wiped : PolicyReason
  wiping : String → PolicyReason

pub data MountMode : Type 0 where
  ro rw : MountMode

pub record MountBinding : Type 0 where
  pub host_path : Text
  pub guest_path : Text
  pub mode : MountMode

-- `details`; those of a refused launch are the receipt of the refused mount.
pub data Details : Type 0 where
  nothing : Details
  mount_details : Text → Text → String → Details
  storage_details : Text → String → CacheAccess → Details
  egress_details : Text → ℤ → String → ℕ → ℕ → Details
  launch_details : Text → List MountBinding → Details
  publication_details : Text → Text → ℕ → Details
  digest_details : Text → Details
  receipt_details :
      Action
      → Bool
      → Text
      → Target
      → PolicyReason
      → ℕ
      → ℕ
      → String
      → String
      → Details
      → Text
      → Details

-- `_payload`, whose schema is always the same.
pub record Payload : Type 0 where
  pub operation : Action
  pub allowed : Bool
  pub policy_digest : Text
  pub target : Target
  pub reason : PolicyReason
  pub sequence : ℕ
  pub issued_at : ℕ
  pub phase : String
  pub purpose : String
  pub details : Details

pub record PolicyReceipt : Type 0 where
  pub payload : Payload
  pub receipt_id : Text

pub record PolicyDecision : Type 0 where
  pub allowed : Bool
  pub reason : PolicyReason
  pub receipt : PolicyReceipt

abbrev is_hex : ℕ → Bool
is_hex c = leb b'0' c && leb c b'9' || leb b'a' c && leb c b'f'

-- `is_policy_digest` of a text
unfoldable pub is_policy_digest : Text → Bool
is_policy_digest s = all is_hex s && length s == 64

-- `WipeState`; `calls` counts the calls of its callback.
pub record WipeState : Type 0 where
  pub has_callback : Bool
  pub wiped : Bool
  pub receipt : Option PolicyReceipt
  pub calls : ℕ

-- The attributes of an enforcer that no method changes.
pub record PolicySetting : Type 0 where
  pub storage_policy : StoragePolicy
  pub network_policy : NetworkPolicy
  pub run_root : Option Text
  pub policy_digest : Text
  pub binding_error : Option PolicyReason
  pub started_at : ℕ
  pub expires_at : Option ℕ

-- The others; `readings` counts those of the clock.
pub record Enforcer : Type 0 where
  pub network_bytes : ℕ
  pub sequence : ℕ
  pub readings : ℕ
  pub launch_receipt : Option PolicyReceipt
  pub published : Bool
  pub wipe_state : WipeState

-- The environment: `_sha256` of a payload, the n-th reading of the clock, `Path.resolve`,
-- `is_symlink`, and what the validation of a host name and `str.upper` take from Python.
pub record World : Type 0 where
  pub sha256 : Payload → Text
  pub clock : ℕ → ℕ
  pub resolve : Text → Text
  pub is_symlink : Text → Bool
  pub names : Names
  pub upper : String → String

abbrev pub new_receipt : World → Payload → PolicyReceipt
new_receipt world p = record { payload = p; receipt_id = world.sha256 p }

-- `PolicyReceipt.verify`
unfoldable pub verify_receipt : World → PolicyReceipt → Text → Bool
verify_receipt world r expected =
    is_policy_digest expected
    && r.payload.policy_digest == expected
    && r.receipt_id == world.sha256 r.payload

-- `from_dict` of a mapping with its fields
unfoldable pub from_dict : World → Payload → Text → Option PolicyReceipt
from_dict world p receipt_id =
    if not (is_policy_digest p.policy_digest)
    then none
    else if receipt_id == world.sha256 p
    then some (new_receipt world p)
    else none

abbrev pub phase_name : NetworkPhase → String
phase_name NetworkPhase.provision = "provision"
phase_name NetworkPhase.research = "research"
phase_name NetworkPhase.evaluation = "evaluation"

abbrev pub purpose_name : NetworkPurpose → String
purpose_name NetworkPurpose.no_purpose = "none"
purpose_name NetworkPurpose.dependency_fetch = "dependency_fetch"
purpose_name NetworkPurpose.resource_lookup = "resource_lookup"
purpose_name NetworkPurpose.declared_api = "declared_api"
