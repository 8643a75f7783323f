-- ===== src/Enforcer/Publication.antt =====
-- `before_publication`, `check_policy_digest` and `wipe` of `PolicyEnforcer`, the methods of
-- `WipeState`.
use testudo.Prelude.{
  ℕ, ◌+◌, suc, String, Bool, true, false, not, ◌||◌, [], ◌∷◌, Option, none, some, ℤ, Result, ok,
  err, ◌>>=◌, ◌>>◌, raise_if, Comparable-nat, Comparable-list, if◌then◌else◌,
}
use testudo.Policy.Path.{Text}
use testudo.Enforcer.{
  Action, Target, PolicyReason, Details, Payload, PolicyReceipt, PolicyDecision, WipeState,
  PolicySetting, Enforcer, World, new_receipt, verify_receipt, from_dict, is_policy_digest,
  is_launch,
}
use testudo.Enforcer.Decisions.{
  Claim, or_default, decide, deny, common_denial, network_expiry_reason, unless,
}
use testudo.Enforcer.Egress.{exceeds}

-- The argument `launch_receipt`: None, a receipt or a decision's, a mapping, or something else.
pub data Given : Type 0 where
  nothing_given something_else : Given
  given_receipt : PolicyReceipt → Given
  given_mapping : Payload → Text → Given

abbrev pub coerce_launch_receipt : World → Enforcer → Given → Option PolicyReceipt
coerce_launch_receipt world e Given.nothing_given = e.launch_receipt
coerce_launch_receipt world e Given.something_else = none
coerce_launch_receipt world e (Given.given_receipt r) = some r
coerce_launch_receipt world e (Given.given_mapping p receipt_id) = from_dict world p receipt_id

abbrev pub judge_size : ℤ → Result PolicyReason ℕ
judge_size (ℤ.pos n) = ok n
judge_size (ℤ.negsuc n) = err PolicyReason.publication_bytes

-- `limit is not None and total > limit`
abbrev pub past : ℕ → Option ℤ → Bool
past total none = false
past total (some limit) = exceeds total limit

abbrev plain_claim : Action → Claim
plain_claim operation = record {
  operation = operation;
  target = Target.no_target;
  phase = none;
  purpose = none;
}

module _ (world : World) (set : PolicySetting) where
  unfoldable pub judge_launch : Option PolicyReceipt → Result PolicyReason PolicyReceipt
  judge_launch none = err PolicyReason.launch_receipt_required
  judge_launch (some r) =
      raise_if (not (is_launch r.payload.operation) || not r.payload.allowed)
        PolicyReason.launch_receipt_required
      >> (raise_if (not (verify_receipt world r set.policy_digest)) PolicyReason.receipt_mismatch
          >> ok r)

  unfoldable pub judge_publication : ℤ → ℕ → Bool → Result PolicyReason ℕ
  judge_publication bytes network_bytes published = judge_size bytes >>= λ size.
      raise_if (past (network_bytes + size) set.network_policy.max_bytes)
        PolicyReason.publication_limit
      >> (raise_if published PolicyReason.already_published >> ok size)

  abbrev pub publication_claim : Claim
  publication_claim = plain_claim Action.publication

  abbrev pub on_publication :
      PolicyReceipt → Result PolicyReason ℕ → Enforcer → PolicyDecision × Enforcer
  on_publication r (err reason) e = deny world set publication_claim reason e
  on_publication r (ok size) e =
      decide world set publication_claim true PolicyReason.publication_bound
        (Details.publication_details r.receipt_id set.policy_digest size)
        (record e { published = true })

  abbrev pub publication_by :
      ℤ → Result PolicyReason PolicyReceipt → Enforcer → PolicyDecision × Enforcer
  publication_by bytes (err reason) e = deny world set publication_claim reason e
  publication_by bytes (ok r) e =
      unless world set publication_claim (network_expiry_reason world set e)
        (λ e. on_publication r (judge_publication bytes e.network_bytes e.published) e)

  -- The byte count is read whether or not the receipt is refused.
  unfoldable pub before_publication :
      Given → Option Text → ℤ → Option ℤ → Enforcer → PolicyDecision × Enforcer
  before_publication given candidate byte_count bytes e =
      unless world set publication_claim (common_denial world set candidate false e) (λ e.
        publication_by (or_default bytes byte_count)
          (judge_launch (coerce_launch_receipt world e given)) e)

  abbrev pub digest_claim : Claim
  digest_claim = plain_claim Action.policy_digest_check

  unfoldable pub check_policy_digest : Option Text → Enforcer → PolicyDecision × Enforcer
  check_policy_digest candidate e =
      unless world set digest_claim (common_denial world set candidate true e) (
        decide world set digest_claim true PolicyReason.digest_matches
          (Details.digest_details set.policy_digest))

-- What a wipe raises: its own check, or the callback's exception.
pub data WipeError : Type 0 where
  digest_needed callback_raised : WipeError

abbrev pub wipe_payload : Text → PolicyReason → ℕ → Payload
wipe_payload policy_digest reason issued_at = record {
  operation = Action.wipe;
  allowed = true;
  policy_digest = policy_digest;
  target = Target.run_local_state;
  reason = reason;
  sequence = 0;
  issued_at = issued_at;
  phase = "";
  purpose = "none";
  details = Details.nothing;
}

-- `WipeState.wipe` without a callback of its own; `faulty` says whether the configured one raises.
-- `if self._wipe is not None: self._wipe()`
abbrev pub called :
    Bool → Bool → PolicyReceipt → WipeState → Result WipeError PolicyReceipt × WipeState
called false faulty r w = (ok r, w)
called true faulty r w =
    (if faulty then err WipeError.callback_raised else ok r, record w { calls = suc w.calls })

abbrev pub wiped_with :
    Bool
    → PolicyReceipt
    → Option PolicyReceipt
    → WipeState
    → Result WipeError PolicyReceipt × WipeState
wiped_with faulty r (some before) w = (ok before, w)
wiped_with faulty r none w =
    called w.has_callback faulty r (record w { wiped = true; receipt = some r })

unfoldable pub wipe_once :
    World → Bool → PolicyReason → Text → ℕ → WipeState → Result WipeError PolicyReceipt × WipeState
wipe_once world faulty reason policy_digest issued_at w =
    if not (is_policy_digest policy_digest)
    then (err WipeError.digest_needed, w)
    else wiped_with faulty (new_receipt world (wipe_payload policy_digest reason issued_at))
        w.receipt w

unfoldable pub zeros : ℕ → Text
zeros ℕ.zero = []
zeros (ℕ.suc n) = b'0' ∷ zeros n

-- `mark_wiped`
abbrev pub marked : PolicyReceipt → Option PolicyReceipt → PolicyReceipt
marked r none = r
marked r (some before) = before

unfoldable pub mark_wiped : World → WipeState → WipeState
mark_wiped world w = record w {
  wiped = true;
  receipt =
      some (
        marked (new_receipt world (wipe_payload (zeros 64) PolicyReason.already_wiped 0))
          w.receipt);
}

-- `PolicyEnforcer.wipe`, which reads the clock first
unfoldable pub wipe :
    World → PolicySetting → Bool → String → Enforcer → Result WipeError PolicyReceipt × Enforcer
wipe world set faulty reason e =
    let (result, w) =
      wipe_once world faulty (PolicyReason.wiping reason) set.policy_digest (world.clock e.readings)
        e.wipe_state in
    (result, record e { readings = suc e.readings; wipe_state = w })
