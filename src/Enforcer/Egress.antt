-- ===== src/Enforcer/Egress.antt =====
-- `check_network` of `PolicyEnforcer`, for arguments of their declared types, with whole seconds.
use testudo.Prelude.{
  ℕ, ◌+◌, String, Bool, true, false, not, Option, none, some, ℤ, Result, ok, err, ◌>>=◌, ◌>>◌,
  raise_if, ◌==◌, Comparable-nat, Comparable-int, Comparable-list, Comparable-string, elem, leb,
  if◌then◌else◌,
}
use testudo.Policy.Path.{Text}
use testudo.Policy.Host.{HostError, validate_host}
use testudo.Policy.Network.{NetworkPurpose}
use testudo.Enforcer.{
  Action, Target, PolicyReason, Details, PolicyDecision, PolicySetting, Enforcer, World, phase_name,
  purpose_name,
}
use testudo.Enforcer.Decisions.{
  Claim, or_default, decide, deny, common_denial, network_expiry_reason, unless,
}

pub record NetworkRequest : Type 0 where
  pub host : Text
  pub port : ℤ
  pub method : String
  pub phase : Option String
  pub purpose : Option String
  pub byte_count : ℤ
  pub bytes : Option ℤ
  pub policy_digest : Option Text
  pub elapsed_seconds : Option ℤ

-- `x is not None and x != declared`
abbrev pub differs : Option String → String → Bool
differs none declared = false
differs (some x) declared = not (x == declared)

abbrev pub host_or_reason : Result HostError Text → Result PolicyReason Text
host_or_reason (ok host) = ok host
host_or_reason (err e) = err (PolicyReason.bad_host e)

-- `elapsed >= seconds` of a limit that may be absent
abbrev pub at_least : ℕ → Option ℤ → Bool
at_least n none = false
at_least n (some (ℤ.pos d)) = leb d n
at_least n (some (ℤ.negsuc d)) = true

abbrev pub judge_elapsed : Option ℤ → Option ℤ → Result PolicyReason (Unit {0})
judge_elapsed none limit = ok tt
judge_elapsed (some (ℤ.negsuc n)) limit = err PolicyReason.bad_elapsed
judge_elapsed (some (ℤ.pos n)) limit = raise_if (at_least n limit) PolicyReason.duration_expired

abbrev pub judge_bytes : ℤ → Result PolicyReason ℕ
judge_bytes (ℤ.pos n) = ok n
judge_bytes (ℤ.negsuc n) = err PolicyReason.bad_byte_count

-- `total > limit`
abbrev pub exceeds : ℕ → ℤ → Bool
exceeds total (ℤ.pos limit) = not (leb total limit)
exceeds total (ℤ.negsuc n) = true

-- `limit is None or total > limit`
abbrev pub over_limit : ℕ → Option ℤ → Bool
over_limit total none = true
over_limit total (some limit) = exceeds total limit

-- What is allowed: the host and the method as they are listed, and the bytes.
pub record Exact : Type 0 where
  pub host : Text
  pub method : String
  pub bytes : ℕ

abbrev pub is_no_purpose : NetworkPurpose → Bool
is_no_purpose NetworkPurpose.no_purpose = true
is_no_purpose NetworkPurpose.dependency_fetch = false
is_no_purpose NetworkPurpose.resource_lookup = false
is_no_purpose NetworkPurpose.declared_api = false

module _ (world : World) (set : PolicySetting) where
  -- The checks from the phase on, which read the bytes of the state alone.
  unfoldable pub judge_network : NetworkRequest → ℕ → Result PolicyReason Exact
  judge_network r network_bytes =
      let p = set.network_policy in
      raise_if (differs r.phase (phase_name p.phase)) PolicyReason.phase_mismatch
      >> (raise_if (differs r.purpose (purpose_name p.purpose)) PolicyReason.purpose_mismatch
          >> (host_or_reason (validate_host world.names r.host) >>= λ host.
              raise_if (not (elem host p.egress_hosts)) PolicyReason.host_not_listed
              >> (raise_if (not (elem r.port p.egress_ports)) PolicyReason.port_not_listed
                  >> (raise_if (not (elem (world.upper r.method) p.methods))
                        PolicyReason.method_not_listed
                      >> (judge_bytes (or_default r.bytes r.byte_count) >>= λ bytes.
                          judge_elapsed r.elapsed_seconds p.max_duration_seconds
                          >> (raise_if (over_limit (network_bytes + bytes) p.max_bytes)
                                PolicyReason.byte_limit
                              >> ok (record {
                                host = host;
                                method = world.upper r.method;
                                bytes = bytes;
                              })))))))

  abbrev pub egress_claim : NetworkRequest → Claim
  egress_claim r = record {
    operation = Action.network_egress;
    target = Target.egress_target r.host r.port r.method;
    phase = r.phase;
    purpose = r.purpose;
  }

  abbrev pub exact_claim : NetworkRequest → Exact → Claim
  exact_claim r x = record (egress_claim r) { target = Target.egress_target x.host r.port x.method }

  abbrev pub on_exact :
      NetworkRequest → Result PolicyReason Exact → Enforcer → PolicyDecision × Enforcer
  on_exact r (err reason) e = deny world set (egress_claim r) reason e
  on_exact r (ok x) e =
      let total = e.network_bytes + x.bytes in
      decide world set (exact_claim r x) true PolicyReason.egress_exact
        (Details.egress_details x.host r.port x.method x.bytes total)
        (record e { network_bytes = total })

  abbrev pub egress_in : NetworkRequest → Enforcer → PolicyDecision × Enforcer
  egress_in r e = on_exact r (judge_network r e.network_bytes) e

  abbrev pub egress_for : NetworkRequest → Enforcer → PolicyDecision × Enforcer
  egress_for r e =
      if is_no_purpose set.network_policy.purpose
      then deny world set (egress_claim r) PolicyReason.egress_denied e
      else unless world set (egress_claim r) (network_expiry_reason world set e) (egress_in r)

  unfoldable pub check_network : NetworkRequest → Enforcer → PolicyDecision × Enforcer
  check_network r e =
      unless world set (egress_claim r) (common_denial world set r.policy_digest false e)
        (egress_for r)
