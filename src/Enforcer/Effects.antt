-- ===== src/Enforcer/Effects.antt =====
-- What one decision of an enforcer does to its state, in each of its ways.
use testudo.Prelude.{
  ℕ, suc, ◌+◌, ◌≤◌, ◌≡◌, refl, sym, ap, Bool, true, false, not, ◌||◌, Option, none, some, ℤ, ok,
  arith, raise_if-eq-ok, if◌then◌else◌,
}
use testudo.Enforcer.{
  Action, PolicyReason, Details, PolicyReceipt, PolicyDecision, PolicySetting, Enforcer, World,
  verify_receipt, is_launch,
}
use testudo.Enforcer.Decisions.{decide}
use testudo.Enforcer.Egress.{over_limit}
use testudo.Enforcer.Publication.{judge_launch, past}
use testudo.Enforcer.Ways.{Alive, Way, is_counted}

-- The bytes of a request that was allowed.
abbrev pub allowed_bytes : Action → Details → ℕ
allowed_bytes Action.network_egress (Details.egress_details host port method bytes total) = bytes
allowed_bytes _ _ = 0

abbrev pub bytes_of : PolicyDecision → ℕ
bytes_of d =
    if d.allowed then allowed_bytes d.receipt.payload.operation d.receipt.payload.details else 0

abbrev pub one_publication : Action → ℕ
one_publication Action.publication = 1
one_publication _ = 0

abbrev pub publication_of : PolicyDecision → ℕ
publication_of d = if d.allowed then one_publication d.receipt.payload.operation else 0

abbrev pub flag : Bool → ℕ
flag true = 1
flag false = 0

abbrev pub number_of : PolicyDecision → ℕ
number_of d = d.receipt.payload.sequence

module _ (world : World) (set : PolicySetting) where
  -- A receipt of an allowed launch that belongs to the policy.
  pub record Launched (r : PolicyReceipt) : Type 0 where
    pub of_launch : is_launch r.payload.operation ≡ true
    pub allowed : r.payload.allowed ≡ true
    pub verified : verify_receipt world r set.policy_digest ≡ true

  abbrev pub LaunchedIn : Action → Details → Type 0
  LaunchedIn Action.publication (Details.publication_details receipt_id digest size) =
      (r : PolicyReceipt) × (receipt_id ≡ r.receipt_id) × Launched r
  LaunchedIn Action.publication _ = ⊥
  LaunchedIn _ _ = Unit

  -- A publication that is allowed names a launch that was.
  abbrev pub Bound : PolicyDecision → Type 0
  Bound d = d.allowed ≡ true → LaunchedIn d.receipt.payload.operation d.receipt.payload.details

  pub record Effect (e : Enforcer) (q : PolicyDecision × Enforcer) : Type 0 where
    pub bytes : q.1.network_bytes ≡ e.network_bytes + bytes_of q.0
    pub within :
        past e.network_bytes set.network_policy.max_bytes ≡ false
        → past q.1.network_bytes set.network_policy.max_bytes ≡ false
    pub published : flag q.1.published ≡ flag e.published + publication_of q.0
    pub number : e.sequence ≤ number_of q.0
    pub next : q.1.sequence ≡ suc (number_of q.0)
    pub same_wipe : q.1.wipe_state ≡ e.wipe_state
    pub living : q.0.allowed ≡ true → Alive world set e
    pub bound : Bound q.0

  uncounted-allowed_bytes :
      (a : Action) (details : Details) → is_counted a ≡ false → allowed_bytes a details ≡ 0
  uncounted-allowed_bytes Action.mount details h = refl
  uncounted-allowed_bytes Action.network_egress details h = cc
  uncounted-allowed_bytes Action.launch details h = refl
  uncounted-allowed_bytes Action.publication details h = cc
  uncounted-allowed_bytes Action.policy_digest_check details h = refl
  uncounted-allowed_bytes Action.wipe details h = refl
  uncounted-allowed_bytes (Action.storage operation) details h = refl

  uncounted-one_publication : (a : Action) → is_counted a ≡ false → one_publication a ≡ 0
  uncounted-one_publication Action.mount h = refl
  uncounted-one_publication Action.network_egress h = cc
  uncounted-one_publication Action.launch h = refl
  uncounted-one_publication Action.publication h = cc
  uncounted-one_publication Action.policy_digest_check h = refl
  uncounted-one_publication Action.wipe h = refl
  uncounted-one_publication (Action.storage operation) h = refl

  uncounted-LaunchedIn :
      (a : Action) (details : Details) → is_counted a ≡ false → LaunchedIn a details
  uncounted-LaunchedIn Action.mount details h = tt
  uncounted-LaunchedIn Action.network_egress details h = cc
  uncounted-LaunchedIn Action.launch details h = tt
  uncounted-LaunchedIn Action.publication details h = cc
  uncounted-LaunchedIn Action.policy_digest_check details h = tt
  uncounted-LaunchedIn Action.wipe details h = tt
  uncounted-LaunchedIn (Action.storage operation) details h = tt

  over_limit→past : (n : ℕ) (limit : Option ℤ) → over_limit n limit ≡ false → past n limit ≡ false
  over_limit→past n none h = cc
  over_limit→past n (some limit) h = h

  judge_launch-Launched : (r : PolicyReceipt) → judge_launch world set (some r) ≡ ok r → Launched r
  unfolding judge_launch
  judge_launch-Launched r h =
      let (launched, h1) =
        raise_if-eq-ok (not (is_launch r.payload.operation) || not r.payload.allowed)
          PolicyReason.launch_receipt_required _ h in
      let (valid, h2) =
        raise_if-eq-ok (not (verify_receipt world r set.policy_digest))
          PolicyReason.receipt_mismatch _ h1 in
      record {
        of_launch = ground (arith, launched);
        allowed = ground (arith, launched);
        verified = ground (arith, valid);
      }

  pub Way-Effect : (e : Enforcer) (q : PolicyDecision × Enforcer) → Way world set e q → Effect e q
  unfolding decide
  Way-Effect e _ (Way.refused c reason details s n grown) = record {
    bytes = omega arith;
    within = λ h. h;
    published = omega arith;
    number = grown;
    next = refl;
    same_wipe = refl;
    living = λ h. cc;
    bound = λ h. cc;
  }
  Way-Effect e _ (Way.granted c reason details s n grown alive plain) = record {
    bytes = omega (arith, uncounted-allowed_bytes c.operation details plain);
    within = λ h. h;
    published = omega (arith, uncounted-one_publication c.operation plain);
    number = grown;
    next = refl;
    same_wipe = refl;
    living = λ _. alive;
    bound = λ _. uncounted-LaunchedIn c.operation details plain;
  }
  Way-Effect e _ (Way.admitted s n grown alive) = record {
    bytes = omega arith;
    within = λ h. h;
    published = omega arith;
    number = grown;
    next = refl;
    same_wipe = refl;
    living = λ _. alive;
    bound = λ _. tt;
  }
  Way-Effect e _ (Way.spent r x s n grown alive fits) = record {
    bytes = refl;
    within = λ _. over_limit→past (e.network_bytes + x.bytes) set.network_policy.max_bytes fits;
    published = omega arith;
    number = grown;
    next = refl;
    same_wipe = refl;
    living = λ _. alive;
    bound = λ _. tt;
  }
  Way-Effect e _ (Way.issued receipt size s n grown alive launched fresh) = record {
    bytes = omega arith;
    within = λ h. h;
    published = ap (λ b. flag b + 1) (sym fresh);
    number = grown;
    next = refl;
    same_wipe = refl;
    living = λ _. alive;
    bound = λ _. (receipt, refl, judge_launch-Launched receipt launched);
  }
