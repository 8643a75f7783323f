-- ===== src/Enforcer/Guards.antt =====
-- When `_common_denial` and `_network_expiry_reason` let a check go on, and what they leave of the state.
use mathlib.Core.Bool.{true≢false}
use testudo.Prelude.{
  ℕ, ◌≡◌, refl, sym, ap, ◌∙◌, Bool, false, ◌&&◌, inl, inr, Option, none, some, ℤ, Bool-cases, suc,
}
use testudo.Policy.Path.{Text}
use testudo.Policy.Storage.{is_none}
use testudo.Enforcer.{PolicyReason, PolicyDecision, PolicySetting, Enforcer, World}
use testudo.Enforcer.Decisions.{
  Claim, deny, common_denial, bound_denial, denial_of, expiry, mismatched, reaches, lasted,
  duration_of, network_expiry_reason, unless,
}

-- The state after readings of the clock and after decisions.
abbrev pub later : Enforcer → ℕ → ℕ → Enforcer
later e sequence readings = record e { sequence = sequence; readings = readings }

both_ways : (o : Option PolicyReason) {reason : PolicyReason} → o ≡ none → o ≡ some reason → ⊥
both_ways none h k = cc
both_ways (some r) h k = cc

module _ (world : World) (set : PolicySetting) where
  -- The enforcer is bound to its policy and to the digest of the caller, not wiped, and not expired.
  pub record Live (candidate : Option Text) (require_digest : Bool) (e : Enforcer) : Type 0 where
    pub bound : set.binding_error ≡ none
    pub given : (require_digest && is_none candidate) ≡ false
    pub matched : mismatched world set candidate ≡ false
    pub unwiped : e.wipe_state.wiped ≡ false
    pub unexpired : reaches (world.clock e.readings) set.expires_at ≡ false

  -- What a guard comes to.
  pub data Guard (P : Type 0) (m : ℕ) (e : Enforcer) (o : Option PolicyReason × Enforcer)
      : Type 0 where
    stopped :
        (reason : PolicyReason) (n : ℕ)
        → o ≡ (some reason, later e e.sequence n)
        → (P → ⊥)
        → Guard P m e o
    passed : P → o ≡ (none, later e e.sequence m) → Guard P m e o

  expired-Guard :
      (candidate : Option Text) (require_digest : Bool) (e : Enforcer)
      → set.binding_error ≡ none
      → (require_digest && is_none candidate) ≡ false
      → mismatched world set candidate ≡ false
      → e.wipe_state.wiped ≡ false
      → Guard (Live candidate require_digest e) (suc e.readings) e (expiry world set e)
  expired-Guard candidate require_digest e bound given matched unwiped =
      elim (Bool-cases (reaches (world.clock e.readings) set.expires_at)) [
        | inl late ↦
            Guard.stopped PolicyReason.policy_expired (suc e.readings) (rw late refl)
              (λ l. true≢false (sym late ∙ l.unexpired))
        | inr early ↦
            Guard.passed
              (record {
                bound = bound;
                given = given;
                matched = matched;
                unwiped = unwiped;
                unexpired = early;
              })
              (rw early refl)
      ]

  bound_denial-Guard :
      (candidate : Option Text) (require_digest : Bool) (e : Enforcer)
      → set.binding_error ≡ none
      → Guard
          (Live candidate require_digest e)
          (suc e.readings)
          e
          (bound_denial world set candidate require_digest e)
  unfolding bound_denial
  bound_denial-Guard candidate require_digest e bound =
      elim (Bool-cases (require_digest && is_none candidate)) [
        | inl missing ↦
            Guard.stopped PolicyReason.digest_required e.readings (simp (missing) refl)
              (λ l. true≢false (sym missing ∙ l.given))
        | inr given ↦ elim (Bool-cases (mismatched world set candidate)) [
          | inl other ↦
              Guard.stopped PolicyReason.digest_mismatch e.readings (simp (given, other) refl)
                (λ l. true≢false (sym other ∙ l.matched))
          | inr matched ↦ elim (Bool-cases e.wipe_state.wiped) [
            | inl gone ↦
                Guard.stopped PolicyReason.state_wiped e.readings (simp (given, matched, gone) refl)
                  (λ l. true≢false (sym gone ∙ l.unwiped))
            | inr unwiped ↦
                simp (given, matched, unwiped)
                  (expired-Guard candidate require_digest e bound given matched unwiped)
          ]
        ]
      ]

  denial_of-Guard :
      (o : Option PolicyReason) (candidate : Option Text) (require_digest : Bool) (e : Enforcer)
      → set.binding_error ≡ o
      → Guard
          (Live candidate require_digest e)
          (suc e.readings)
          e
          (denial_of world set o candidate require_digest e)
  denial_of-Guard none candidate require_digest e bound =
      bound_denial-Guard candidate require_digest e bound
  denial_of-Guard (some reason) candidate require_digest e broken =
      Guard.stopped reason e.readings refl (λ l. both_ways set.binding_error l.bound broken)

  pub common_denial-Guard :
      (candidate : Option Text) (require_digest : Bool) (e : Enforcer)
      → Guard
          (Live candidate require_digest e)
          (suc e.readings)
          e
          (common_denial world set candidate require_digest e)
  unfolding common_denial
  common_denial-Guard candidate require_digest e =
      denial_of-Guard set.binding_error candidate require_digest e refl

  -- The time that the policy gives has not passed at a reading of the clock.
  abbrev pub Lasting : Option ℤ → ℕ → Type 0
  Lasting none now = Unit
  Lasting (some d) now = lasted now set.started_at d ≡ false

  abbrev pub read_by : Option ℤ → ℕ → ℕ
  read_by none n = n
  read_by (some d) n = suc n

  duration_of-Guard :
      (limit : Option ℤ) (e : Enforcer)
      → Guard
          (Lasting limit (world.clock e.readings))
          (read_by limit e.readings)
          e
          (duration_of world set limit e)
  duration_of-Guard none e = Guard.passed tt refl
  duration_of-Guard (some d) e =
      elim (Bool-cases (lasted (world.clock e.readings) set.started_at d)) [
        | inl late ↦
            Guard.stopped PolicyReason.duration_expired (suc e.readings) (rw late refl)
              (λ l. true≢false (sym late ∙ l))
        | inr early ↦ Guard.passed early (rw early refl)
      ]

  pub network_expiry_reason-Guard :
      (e : Enforcer)
      → Guard
          (Lasting set.network_policy.max_duration_seconds (world.clock e.readings))
          (read_by set.network_policy.max_duration_seconds e.readings)
          e
          (network_expiry_reason world set e)
  unfolding network_expiry_reason
  network_expiry_reason-Guard e = duration_of-Guard set.network_policy.max_duration_seconds e

  -- A guard either denies with nothing changed but the counters, or goes on.
  pub data Turn (P : Type 0) (m : ℕ) (c : Claim) (rest : Enforcer → PolicyDecision × Enforcer)
      (e : Enforcer) (result : PolicyDecision × Enforcer) : Type 0 where
    denied :
        (reason : PolicyReason) (n : ℕ)
        → result ≡ deny world set c reason (later e e.sequence n)
        → (P → ⊥)
        → Turn P m c rest e result
    went_on : P → result ≡ rest (later e e.sequence m) → Turn P m c rest e result

  pub unless-Turn :
      {P : Type 0} {m : ℕ} (c : Claim) (o : Option PolicyReason × Enforcer)
      (rest : Enforcer → PolicyDecision × Enforcer) (e : Enforcer)
      → Guard P m e o
      → Turn P m c rest e (unless world set c o rest)
  unless-Turn c o rest e (Guard.stopped reason n same out) =
      Turn.denied reason n (ap (λ o. unless world set c o rest) same) out
  unless-Turn c o rest e (Guard.passed holds same) =
      Turn.went_on holds (ap (λ o. unless world set c o rest) same)
