-- ===== src/Enforcer/Decisions.antt =====
-- The decisions of an enforcer, and the guards that its checks share (runtime/policy_enforcer.py).
use testudo.Prelude.{
  ℕ, ◌+◌, suc, String, Bool, true, false, not, ◌&&◌, ◌||◌, Option, none, some, ℤ, ◌==◌,
  Comparable-nat, Comparable-list, Comparable-string, leb, if◌then◌else◌,
}
use testudo.Policy.Path.{Text}
use testudo.Policy.Storage.{is_none}
use testudo.Enforcer.{
  Action, Target, PolicyReason, Details, Payload, PolicyDecision, PolicySetting, Enforcer, World,
  new_receipt, is_policy_digest, phase_name, purpose_name,
}

-- `x if x is not None else default`
abbrev pub or_default {ℓ} : {A : Type ℓ} → Option A → A → A
or_default none default = default
or_default (some x) default = x

-- `now >= seconds` for a limit that may be absent
abbrev pub reaches : ℕ → Option ℕ → Bool
reaches now none = false
reaches now (some t) = leb t now

-- `now - started >= seconds`
abbrev pub lasted : ℕ → ℕ → ℤ → Bool
lasted now started (ℤ.pos d) = leb (started + d) now
lasted now started (ℤ.negsuc d) = leb started (now + suc d)

abbrev pub reason_if : Bool → PolicyReason → Option PolicyReason
reason_if true r = some r
reason_if false r = none

abbrev pub tick : Enforcer → Enforcer
tick e = record e { readings = suc e.readings }

-- What a check asks for; its phase and purpose may be left to the policy.
pub record Claim : Type 0 where
  pub operation : Action
  pub target : Target
  pub phase : Option String
  pub purpose : Option String

module _ (world : World) (set : PolicySetting) where
  abbrev pub payload_of : Claim → Bool → PolicyReason → Details → Enforcer → Payload
  payload_of c allowed reason details e = record {
    operation = c.operation;
    allowed = allowed;
    policy_digest = set.policy_digest;
    target = c.target;
    reason = reason;
    sequence = e.sequence;
    issued_at = world.clock e.readings;
    phase = or_default c.phase (phase_name set.network_policy.phase);
    purpose = or_default c.purpose (purpose_name set.network_policy.purpose);
    details = details;
  }

  -- `_decision`, with `_next`
  unfoldable pub decide :
      Claim → Bool → PolicyReason → Details → Enforcer → PolicyDecision × Enforcer
  decide c allowed reason details e = (
    record {
      allowed = allowed;
      reason = reason;
      receipt = new_receipt world (payload_of c allowed reason details e);
    },
    record e { sequence = suc e.sequence; readings = suc e.readings },
  )

  abbrev pub deny : Claim → PolicyReason → Enforcer → PolicyDecision × Enforcer
  deny c reason e = decide c false reason Details.nothing e

  -- The end of `_common_denial`, which reads the clock.
  abbrev pub expiry : Enforcer → Option PolicyReason × Enforcer
  expiry e = (
    reason_if (reaches (world.clock e.readings) set.expires_at) PolicyReason.policy_expired,
    tick e,
  )

  abbrev pub mismatched : Option Text → Bool
  mismatched none = false
  mismatched (some d) = not (is_policy_digest d) || not (d == set.policy_digest)

  -- `_common_denial` without a binding error
  unfoldable pub bound_denial : Option Text → Bool → Enforcer → Option PolicyReason × Enforcer
  bound_denial candidate require_digest e =
      if require_digest && is_none candidate
      then (some PolicyReason.digest_required, e)
      else if mismatched candidate
      then (some PolicyReason.digest_mismatch, e)
      else if e.wipe_state.wiped
      then (some PolicyReason.state_wiped, e)
      else expiry e

  abbrev pub denial_of :
      Option PolicyReason → Option Text → Bool → Enforcer → Option PolicyReason × Enforcer
  denial_of (some reason) candidate require_digest e = (some reason, e)
  denial_of none candidate require_digest e = bound_denial candidate require_digest e

  unfoldable pub common_denial : Option Text → Bool → Enforcer → Option PolicyReason × Enforcer
  common_denial candidate require_digest e = denial_of set.binding_error candidate require_digest e

  abbrev pub duration_of : Option ℤ → Enforcer → Option PolicyReason × Enforcer
  duration_of none e = (none, e)
  duration_of (some d) e = (
    reason_if (lasted (world.clock e.readings) set.started_at d) PolicyReason.duration_expired,
    tick e,
  )

  -- `_network_expiry_reason`
  unfoldable pub network_expiry_reason : Enforcer → Option PolicyReason × Enforcer
  network_expiry_reason e = duration_of set.network_policy.max_duration_seconds e

  -- `if reason is not None: return self._decision(..., False, reason, ...)`
  abbrev pub unless :
      Claim
      → Option PolicyReason × Enforcer
      → (Enforcer → PolicyDecision × Enforcer)
      → PolicyDecision × Enforcer
  unless c (some reason, e) rest = deny c reason e
  unless c (none, e) rest = rest e
