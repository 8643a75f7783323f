-- ===== src/Enforcer/Allowed.antt =====
-- Exactly when `check_network` allows a request.
use testudo.Prelude.{
  ◌||◌, ℕ, suc, ◌+◌, ◌<◌, ◌≢◌, ◌==◌, ==_iff, not, Bool, Option, none, some, ℤ, arith,
  Comparable-nat, Comparable-list, ◌≡◌, refl, sym, ap, ◌∙◌, ◌↔◌, true, false, inl, inr, Result, ok,
  err, Bool-cases,
}
use testudo.Policy.Path.{Text}
use testudo.Policy.Network.{NetworkPurpose}
use testudo.Enforcer.{
  PolicyReason, PolicyDecision, PolicySetting, Enforcer, World, is_policy_digest,
}
use testudo.Enforcer.Decisions.{
  mismatched, reaches, Claim, decide, common_denial, network_expiry_reason, unless,
}
use testudo.Enforcer.Egress.{
  NetworkRequest, Exact, judge_network, on_exact, egress_in, egress_for, egress_claim,
  is_no_purpose, check_network,
}
use testudo.Enforcer.Guards.{
  later, Lasting, read_by, Turn, unless-Turn, common_denial-Guard, network_expiry_reason-Guard,
}
use testudo.Enforcer.Listed.{not-false, Listed, judge_network-Listed, Listed-judge_network}

||-false : (b c : Bool) → (b || c) ≡ false → (b ≡ false) × (c ≡ false)
||-false false c h = (refl, h)
||-false true c h = cc

module _ (world : World) (set : PolicySetting) where
  abbrev pub Allowed : PolicyDecision × Enforcer → Type 0
  Allowed q = q.0.allowed ≡ true

  -- A check behind a guard allows what the guard lets pass and the rest allows.
  pub Turn-Allowed :
      {P : Type 0} {m : ℕ} (c : Claim) (rest : Enforcer → PolicyDecision × Enforcer) (e : Enforcer)
      (q : PolicyDecision × Enforcer)
      → Turn world set P m c rest e q
      → Allowed q ↔ (P × Allowed (rest (later e e.sequence m)))
  unfolding decide
  Turn-Allowed c rest e q (Turn.denied reason n same out) = (
    λ h. let denied = sym (ap (λ (p : PolicyDecision × Enforcer). p.0.allowed) same) ∙ h in cc,
    λ h. absurd (out h.0),
  )
  Turn-Allowed c rest e q (Turn.went_on holds same) = (
    λ h. (holds, sym (ap (λ (p : PolicyDecision × Enforcer). p.0.allowed) same) ∙ h),
    λ h. ap (λ (p : PolicyDecision × Enforcer). p.0.allowed) same ∙ h.1,
  )

  -- The digest that the caller gives, if any, is the one of the policy, and has the form of a digest.
  abbrev Matching : Option Text → Type 0
  Matching none = Unit
  Matching (some d) = (d ≡ set.policy_digest) × (is_policy_digest d ≡ true)

  -- A reading of the clock stands before the expiry, if there is one.
  abbrev Before : ℕ → Option ℕ → Type 0
  Before now none = Unit
  Before now (some t) = now < t

  -- Since the start fewer seconds have passed than a limit, if there is one: now - started < limit.
  abbrev Shortly : Option ℤ → ℕ → Type 0
  Shortly none now = Unit
  Shortly (some (ℤ.pos d)) now = now < set.started_at + d
  Shortly (some (ℤ.negsuc d)) now = now + suc d < set.started_at

  -- The enforcer is bound, matched, not wiped and not expired, and the request stands in the lists of the
  -- policy, for its phase and purpose, with a budget and a time.
  pub record Admissible (r : NetworkRequest) (e : Enforcer) : Type 0 where
    pub bound : set.binding_error ≡ none
    pub matched : Matching r.policy_digest
    pub unwiped : e.wipe_state.wiped ≡ false
    pub unexpired : Before (world.clock e.readings) set.expires_at
    pub declared : set.network_policy.purpose ≢ NetworkPurpose.no_purpose
    pub lasting : Shortly set.network_policy.max_duration_seconds (world.clock (suc e.readings))
    pub exact : Exact
    pub listed : Listed world set r e.network_bytes exact

  mismatched-Matching : (o : Option Text) → (mismatched world set o ≡ false) ↔ Matching o
  mismatched-Matching none = (λ _. tt, λ _. refl)
  mismatched-Matching (some d) = (
    λ h.
        let (form, same) = ||-false (not (is_policy_digest d)) (not (d == set.policy_digest)) h in
        (
          (==_iff d set.policy_digest).0 (not-false (d == set.policy_digest) same),
          not-false (is_policy_digest d) form,
        ),
    λ m. simp (m.1, (==_iff d set.policy_digest).1 m.0) refl,
  )

  reaches-Before : (now : ℕ) (o : Option ℕ) → (reaches now o ≡ false) ↔ Before now o
  reaches-Before now none = (λ _. tt, λ _. refl)
  reaches-Before now (some t) = (λ h. ground (arith, h), λ h. ground (arith, h))

  Lasting-Shortly : (limit : Option ℤ) (now : ℕ) → Lasting world set limit now ↔ Shortly limit now
  Lasting-Shortly none now = (λ _. tt, λ _. tt)
  Lasting-Shortly (some (ℤ.pos d)) now = (λ h. ground (arith, h), λ h. ground (arith, h))
  Lasting-Shortly (some (ℤ.negsuc d)) now = (λ h. ground (arith, h), λ h. ground (arith, h))

  is_no_purpose-declared :
      (p : NetworkPurpose) → (is_no_purpose p ≡ false) ↔ (p ≢ NetworkPurpose.no_purpose)
  is_no_purpose-declared NetworkPurpose.no_purpose = (λ h. cc, λ h. absurd (h refl))
  is_no_purpose-declared NetworkPurpose.dependency_fetch = (λ _ same. cc, λ _. refl)
  is_no_purpose-declared NetworkPurpose.resource_lookup = (λ _ same. cc, λ _. refl)
  is_no_purpose-declared NetworkPurpose.declared_api = (λ _ same. cc, λ _. refl)

  on_exact-Allowed :
      (r : NetworkRequest) (result : Result PolicyReason Exact) (e : Enforcer)
      → Allowed (on_exact world set r result e) ↔ ((x : Exact) × (result ≡ ok x))
  unfolding decide
  on_exact-Allowed r (err reason) e = (λ h. cc, λ h. cc)
  on_exact-Allowed r (ok x) e = (λ h. (x, refl), λ h. refl)

  egress_for-declared :
      (r : NetworkRequest) (e : Enforcer)
      → Allowed (egress_for world set r e)
      → is_no_purpose set.network_policy.purpose ≡ false
  unfolding decide
  egress_for-declared r e h = elim (Bool-cases (is_no_purpose set.network_policy.purpose)) [
    | inl none_declared ↦ cc (rw none_declared at h)
    | inr declared ↦ declared
  ]

  -- A request is allowed exactly if the enforcer is bound, not wiped and, at its first reading of the clock,
  -- not expired, the digest of the caller, if given, is the one of the policy, the policy has a purpose and, at
  -- the second reading, its time has not passed, the request names no other phase or purpose, its host is
  -- valid and it, the port and the method stand in the lists, its bytes are a natural number with which
  -- the total stays within a limit that is given, and its seconds, if told, are a natural number
  -- below the time.
  pub check_network-Admissible :
      (r : NetworkRequest) (e : Enforcer)
      → ((check_network world set r e).0.allowed ≡ true) ↔ Admissible r e
  unfolding check_network
  check_network-Admissible r e =
      let limit = set.network_policy.max_duration_seconds in
      let c = egress_claim world set r in
      let e1 = later e e.sequence (suc e.readings) in
      let outer = Turn-Allowed c (egress_for world set r) e (check_network world set r e) (
        unless-Turn world set c (common_denial world set r.policy_digest false e)
          (egress_for world set r) e (common_denial-Guard world set r.policy_digest false e)) in
      let inner =
        Turn-Allowed c (egress_in world set r) e1
          (unless world set c (network_expiry_reason world set e1) (egress_in world set r))
          (unless-Turn world set c (network_expiry_reason world set e1) (egress_in world set r) e1
            (network_expiry_reason-Guard world set e1)) in
      let last = on_exact-Allowed r (judge_network world set r e.network_bytes) (
        later e1 e.sequence
          (read_by world set set.network_policy.max_duration_seconds e1.readings)) in
      (
        λ h.
            let (live, h1) = outer.0 h in
            let declared = egress_for-declared r e1 h1 in
            let (lasting, h2) = inner.0 (rw declared at h1) in
            let (x, judged) = last.0 h2 in
            record {
              bound = live.bound;
              matched = (mismatched-Matching r.policy_digest).0 live.matched;
              unwiped = live.unwiped;
              unexpired = (reaches-Before (world.clock e.readings) set.expires_at).0 live.unexpired;
              declared = (is_no_purpose-declared set.network_policy.purpose).0 declared;
              lasting = (Lasting-Shortly limit (world.clock (suc e.readings))).0 lasting;
              exact = x;
              listed = judge_network-Listed world set r e.network_bytes x judged;
            },
        λ a.
            let declared = (is_no_purpose-declared set.network_policy.purpose).1 a.declared in
            outer.1 (
              record {
                bound = a.bound;
                given = refl;
                matched = (mismatched-Matching r.policy_digest).1 a.matched;
                unwiped = a.unwiped;
                unexpired = (reaches-Before (world.clock e.readings) set.expires_at).1 a.unexpired;
              },
              simp (declared) (
                  inner.1 (
                    (Lasting-Shortly limit (world.clock (suc e.readings))).1 a.lasting,
                    last.1 (
                      a.exact,
                      Listed-judge_network world set r e.network_bytes a.exact a.listed,
                    ),
                  )),
            ),
      )
