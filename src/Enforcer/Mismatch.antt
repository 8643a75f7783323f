-- ===== src/Enforcer/Mismatch.antt =====
-- `PolicyEnforcer.__init__` with a digest that is not the one of the declared policies.
use mathlib.Core.Path.{subst}
use testudo.Prelude.{
  ◌≡◌, ◌≢◌, ◌⊎◌, arith, refl, sym, ap, ◌∙◌, false, inl, inr, List, Option, none, some, ok,
  Bool-cases, raise_if-eq-ok, bind-ok, ok-injective, ◌==◌, ==_iff, Comparable-nat, Comparable-list,
  All, ltb,
}
use testudo.Policy.Path.{Text}
use testudo.Enforcer.{PolicyReason, PolicySetting, Enforcer, World, is_policy_digest}
use testudo.Enforcer.Decisions.{or_default}
use testudo.Enforcer.Init.{
  SettingError, Arguments, differ, root_of, as_timestamp, first_of, supplied, binding_error_of,
  new_enforcer,
}
use testudo.Policy.Storage.{StoragePolicy}
use testudo.Policy.Network.{NetworkPolicy}
use testudo.Enforcer.Course.{PolicyCall, run_calls}
use testudo.Enforcer.Limits.{Denied, run_calls-Unbound}

binding_error_of-some :
    (expected digest : Text)
    → expected ≢ digest
    → (reason : PolicyReason) × (binding_error_of expected digest ≡ some reason)
unfolding binding_error_of
binding_error_of-some expected digest other = elim (Bool-cases (is_policy_digest expected)) [
  | inr malformed ↦ (PolicyReason.binding_malformed, simp (malformed) refl)
  | inl valid ↦ elim (Bool-cases (expected == digest)) [
    | inl equal ↦ absurd (other ((==_iff expected digest).0 equal))
    | inr differs ↦ (PolicyReason.binding_mismatch, simp (valid, differs) refl)
  ]
]

new_enforcer-binding :
    (world : World) (compute : StoragePolicy → NetworkPolicy → Text) (a : Arguments)
    (set : PolicySetting) (e : Enforcer)
    → new_enforcer world compute a ≡ ok (set, e)
    → set.binding_error
      ≡ binding_error_of
          (supplied a.expected_digest a.policy_digest (compute a.storage_policy a.network_policy))
          (compute a.storage_policy a.network_policy)
unfolding new_enforcer
new_enforcer-binding world compute a set e h =
    let (agreed, h1) =
      raise_if-eq-ok (differ a.expected_digest a.policy_digest) SettingError.digests_disagree _ h in
    let (root, root_ok, h2) = bind-ok (root_of world a.run_root) _ (set, e) h1 in
    let (own, own_ok, h3) = bind-ok (as_timestamp a.expires_at) _ (set, e) h2 in
    let (expires, expires_ok, h4) = bind-ok (first_of own a.policy_expires_at) _ (set, e) h3 in
    let (single, h5) = raise_if-eq-ok (ltb 1 a.callbacks) SettingError.callbacks_disagree _ h4 in
    sym (ap (λ (x : PolicySetting × Enforcer). x.0.binding_error) (ok-injective h5))

supplied-either :
    (first second : Option Text) (digest expected : Text)
    → differ first second ≡ false
    → (first ≡ some expected) ⊎ (second ≡ some expected)
    → supplied first second digest ≡ expected
supplied-either none second digest expected agreed (inl h) = cc
supplied-either none second digest expected agreed (inr h) =
    subst (λ o. or_default o digest ≡ expected) (sym h) refl
supplied-either (some d) second digest expected agreed (inl h) = ground arith
supplied-either (some d) none digest expected agreed (inr h) = cc
supplied-either (some d) (some f) digest expected agreed (inr h) = ground (arith, ==_iff d f)

-- An enforcer that is created with an expected digest, under either name, that is not the one of its
-- policies denies every call from any of its states on.
pub new_enforcer-Denied :
    (world : World) (compute : StoragePolicy → NetworkPolicy → Text) (a : Arguments)
    (set : PolicySetting) (e : Enforcer) (expected : Text) (cs : List PolicyCall) (now : Enforcer)
    → new_enforcer world compute a ≡ ok (set, e)
    → (a.expected_digest ≡ some expected) ⊎ (a.policy_digest ≡ some expected)
    → expected ≢ compute a.storage_policy a.network_policy
    → All Denied (run_calls world set cs now).0
unfolding new_enforcer
new_enforcer-Denied world compute a set e expected cs now h given other =
    let digest = compute a.storage_policy a.network_policy in
    let (agreed, h1) =
      raise_if-eq-ok (differ a.expected_digest a.policy_digest) SettingError.digests_disagree _ h in
    let same = supplied-either a.expected_digest a.policy_digest digest expected agreed given in
    let (reason, broken) = binding_error_of-some expected digest other in
    run_calls-Unbound world set cs now reason (
      new_enforcer-binding world compute a set e h
      ∙ ap (λ d. binding_error_of d digest) same
      ∙ broken)
