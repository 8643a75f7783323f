-- ===== src/Enforcer/Init.antt =====
-- `PolicyEnforcer.__init__`, for policies that have been validated; the digest that binds them is a
-- parameter, `_as_timestamp` takes whole seconds, and the two arguments for the expected digest are given.
use testudo.Prelude.{
  ℕ, suc, Bool, false, not, Option, none, some, ℤ, Result, ok, err, ◌>>=◌, ◌>>◌, raise_if, ◌==◌,
  Comparable-nat, Comparable-list, [], ◌∷◌, ltb, if◌then◌else◌,
}
use testudo.Policy.Path.{Text}
use testudo.Policy.Storage.{StoragePolicy}
use testudo.Policy.Network.{NetworkPolicy}
use testudo.Enforcer.{PolicyReason, WipeState, PolicySetting, Enforcer, World, is_policy_digest}
use testudo.Enforcer.Decisions.{or_default}
use testudo.Enforcer.Paths.{RootError, validate_run_root}

pub data SettingError : Type 0 where
  digests_disagree callbacks_disagree bad_timestamp : SettingError
  bad_root : RootError → SettingError

pub record Arguments : Type 0 where
  pub storage_policy : StoragePolicy
  pub network_policy : NetworkPolicy
  pub policy_expires_at : Option ℤ
  pub run_root : Option Text
  pub expected_digest : Option Text
  pub policy_digest : Option Text
  pub expires_at : Option ℤ
  pub callbacks : ℕ

abbrev pub differ : Option Text → Option Text → Bool
differ none b = false
differ (some a) none = false
differ (some a) (some b) = not (a == b)

abbrev as_root : Result RootError Text → Result SettingError (Option Text)
as_root (err e) = err (SettingError.bad_root e)
as_root (ok root) =
    raise_if (root == b'/' ∷ []) (SettingError.bad_root RootError.host_root) >> ok (some root)

abbrev pub root_of : World → Option Text → Result SettingError (Option Text)
root_of world none = ok none
root_of world (some raw) = as_root (validate_run_root world raw)

-- `_as_timestamp`
unfoldable pub as_timestamp : Option ℤ → Result SettingError (Option ℕ)
as_timestamp none = ok none
as_timestamp (some (ℤ.pos ℕ.zero)) = err SettingError.bad_timestamp
as_timestamp (some (ℤ.pos (ℕ.suc n))) = ok (some (suc n))
as_timestamp (some (ℤ.negsuc n)) = err SettingError.bad_timestamp

-- The run's own expiry, or the one of its policy.
abbrev pub first_of : Option ℕ → Option ℤ → Result SettingError (Option ℕ)
first_of none policy = as_timestamp policy
first_of (some t) policy = ok (some t)

-- `_binding_error`
unfoldable pub binding_error_of : Text → Text → Option PolicyReason
binding_error_of expected digest =
    if not (is_policy_digest expected)
    then some PolicyReason.binding_malformed
    else if not (expected == digest)
    then some PolicyReason.binding_mismatch
    else none

abbrev pub supplied : Option Text → Option Text → Text → Text
supplied none second digest = or_default second digest
supplied (some first) second digest = first

abbrev unused : Bool → WipeState
unused has_callback = record {
  has_callback = has_callback;
  wiped = false;
  receipt = none;
  calls = 0;
}

-- The attributes of a new enforcer, whose clock has been read once.
unfoldable pub new_enforcer :
    World
    → (StoragePolicy → NetworkPolicy → Text)
    → Arguments
    → Result SettingError (PolicySetting × Enforcer)
new_enforcer world compute_digest a =
    raise_if (differ a.expected_digest a.policy_digest) SettingError.digests_disagree
    >> (root_of world a.run_root >>= λ root.
        let digest = compute_digest a.storage_policy a.network_policy in
        as_timestamp a.expires_at >>= λ own. first_of own a.policy_expires_at >>= λ expires.
        raise_if (ltb 1 a.callbacks) SettingError.callbacks_disagree
        >> ok (
          record {
            storage_policy = a.storage_policy;
            network_policy = a.network_policy;
            run_root = root;
            policy_digest = digest;
            binding_error =
                binding_error_of (supplied a.expected_digest a.policy_digest digest) digest;
            started_at = world.clock 0;
            expires_at = expires;
          },
          record {
            network_bytes = 0;
            sequence = 0;
            readings = 1;
            launch_receipt = none;
            published = false;
            wipe_state = unused (ltb 0 a.callbacks);
          },
        ))
