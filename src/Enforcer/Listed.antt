-- ===== src/Enforcer/Listed.antt =====
-- What a network request that passes the checks of `check_network` asks for, in terms of the policy.
use mathlib.Core.Path.{subst}
use testudo.Prelude.{
  ℕ, ◌+◌, ◌<◌, ◌≤◌, ◌↔◌, ◌==◌, ==_iff, String, Option, none, some, some-injective, arith, raise_if,
  ◌≡◌, refl, sym, ap, Bool, true, false, not, ℤ, Result, ok, err, elem, Comparable-nat,
  Comparable-int, Comparable-list, Comparable-string, raise_if-eq-ok, bind-ok, ok-injective,
}
use testudo.Policy.Path.{Text}
use testudo.Policy.Host.{HostError, validate_host}
use testudo.Enforcer.{PolicyReason, PolicySetting, World, phase_name, purpose_name}
use testudo.Enforcer.Decisions.{or_default}
use testudo.Enforcer.Egress.{
  NetworkRequest, Exact, judge_network, over_limit, differs, host_or_reason, judge_bytes,
  judge_elapsed, at_least,
}

-- A name that may be left out is the one of the policy.
abbrev Agrees : Option String → String → Type 0
Agrees none declared = Unit
Agrees (some x) declared = x ≡ declared

-- The bytes of a request, by the argument that goes before the other.
abbrev Asks : Option ℤ → ℤ → ℕ → Type 0
Asks none byte_count n = byte_count ≡ ℤ.pos n
Asks (some b) byte_count n = b ≡ ℤ.pos n

-- So many seconds are fewer than a limit, if there is one.
abbrev Shorter : ℕ → Option ℤ → Type 0
Shorter n none = Unit
Shorter n (some (ℤ.pos d)) = n < d
Shorter n (some (ℤ.negsuc d)) = ⊥

-- The seconds of a request, if it tells them, are a natural number below the limit.
abbrev InTime : Option ℤ → Option ℤ → Type 0
InTime none limit = Unit
InTime (some i) limit = (n : ℕ) × (i ≡ ℤ.pos n) × Shorter n limit

-- There is a limit, and the total does not go beyond it.
abbrev InBudget : ℕ → Option ℤ → Type 0
InBudget total limit = (n : ℕ) × (limit ≡ some (ℤ.pos n)) × (total ≤ n)

pub not-false : (b : Bool) → not b ≡ false → b ≡ true
not-false true h = refl
not-false false h = cc

not-true : (b : Bool) → b ≡ true → not b ≡ false
not-true true h = refl
not-true false h = cc

differs-Agrees : (o : Option String) (x : String) → (differs o x ≡ false) ↔ Agrees o x
differs-Agrees none x = (λ _. tt, λ _. refl)
differs-Agrees (some y) x =
    (λ h. (==_iff y x).0 (not-false (y == x) h), λ h. not-true (y == x) ((==_iff y x).1 h))

judge_bytes-pos : (i : ℤ) (n : ℕ) → (judge_bytes i ≡ ok n) ↔ (i ≡ ℤ.pos n)
judge_bytes-pos (ℤ.pos m) n = (λ h. ap ℤ.pos (ok-injective h), λ h. ap judge_bytes h)
judge_bytes-pos (ℤ.negsuc m) n = (λ h. cc, λ h. cc)

judge_bytes-Asks :
    (o : Option ℤ) (byte_count : ℤ) (n : ℕ)
    → (judge_bytes (or_default o byte_count) ≡ ok n) ↔ Asks o byte_count n
judge_bytes-Asks none byte_count n = judge_bytes-pos byte_count n
judge_bytes-Asks (some b) byte_count n = judge_bytes-pos b n

raise_if-ok : (b : Bool) (reason : PolicyReason) → (raise_if b reason ≡ ok tt) ↔ (b ≡ false)
raise_if-ok true reason = (λ h. cc, λ h. cc)
raise_if-ok false reason = (λ _. refl, λ _. refl)

at_least-Shorter : (n : ℕ) (limit : Option ℤ) → (at_least n limit ≡ false) ↔ Shorter n limit
at_least-Shorter n none = (λ _. tt, λ _. refl)
at_least-Shorter n (some (ℤ.pos d)) = (λ h. ground (arith, h), λ h. ground (arith, h))
at_least-Shorter n (some (ℤ.negsuc d)) = (λ h. cc, λ h. absurd h)

pos-injective : (m n : ℕ) → ℤ.pos m ≡ ℤ.pos n → m ≡ n
pos-injective m n h = ground (arith, h)

judge_elapsed-InTime : (o limit : Option ℤ) → (judge_elapsed o limit ≡ ok tt) ↔ InTime o limit
judge_elapsed-InTime none limit = (λ _. tt, λ _. refl)
judge_elapsed-InTime (some (ℤ.negsuc n)) limit = (λ h. cc, λ h. let same = h.1 in cc)
judge_elapsed-InTime (some (ℤ.pos n)) limit = (
  λ h. (
    n,
    refl,
    (at_least-Shorter n limit).0
        ((raise_if-ok (at_least n limit) PolicyReason.duration_expired).0 h),
  ),
  λ h. (raise_if-ok (at_least n limit) PolicyReason.duration_expired).1 (
      (at_least-Shorter n limit).1
        (subst (λ (k : ℕ). Shorter k limit) (sym (pos-injective n h.0 h.1)) h.2)),
)

pub over_limit-InBudget :
    (total : ℕ) (limit : Option ℤ) → (over_limit total limit ≡ false) ↔ InBudget total limit
over_limit-InBudget total none = (λ h. cc, λ h. let same = h.1 in cc)
over_limit-InBudget total (some (ℤ.negsuc n)) =
    (λ h. cc, λ h. let same : ℤ.negsuc n ≡ ℤ.pos h.0 = some-injective _ _ h.1 in cc)
over_limit-InBudget total (some (ℤ.pos n)) = (
  λ h. (n, refl, ground (arith, h)),
  λ h.
      let same = pos-injective n h.0 (some-injective _ _ h.1) in
      let small : total ≤ n = omega (arith, same, h.2) in ground (arith, small),
)

module _ (world : World) (set : PolicySetting) where
  -- What a network request that passes its checks asks for, in terms of the policy.
  pub record Listed (r : NetworkRequest) (spent : ℕ) (x : Exact) : Type 0 where
    pub in_phase : Agrees r.phase (phase_name set.network_policy.phase)
    pub for_purpose : Agrees r.purpose (purpose_name set.network_policy.purpose)
    pub valid_host : validate_host world.names r.host ≡ ok x.host
    pub host_listed : elem x.host set.network_policy.egress_hosts ≡ true
    pub port_listed : elem r.port set.network_policy.egress_ports ≡ true
    pub same_method : x.method ≡ world.upper r.method
    pub method_listed : elem x.method set.network_policy.methods ≡ true
    pub counted : Asks r.bytes r.byte_count x.bytes
    pub in_time : InTime r.elapsed_seconds set.network_policy.max_duration_seconds
    pub in_budget : InBudget (spent + x.bytes) set.network_policy.max_bytes

  host_or_reason-ok :
      (r : Result HostError Text) (host : Text) → host_or_reason r ≡ ok host → r ≡ ok host
  host_or_reason-ok (ok h) host same = ap ok (ok-injective same)
  host_or_reason-ok (err e) host same = cc

  pub judge_network-Listed :
      (r : NetworkRequest) (spent : ℕ) (x : Exact)
      → judge_network world set r spent ≡ ok x
      → Listed r spent x
  unfolding judge_network
  judge_network-Listed r spent x h =
      let p = set.network_policy in
      let (phase, h1) =
        raise_if-eq-ok (differs r.phase (phase_name p.phase)) PolicyReason.phase_mismatch _ h in
      let (purpose, h2) =
        raise_if-eq-ok (differs r.purpose (purpose_name p.purpose)) PolicyReason.purpose_mismatch _
          h1 in
      let (host, valid, h3) = bind-ok (host_or_reason (validate_host world.names r.host)) _ x h2 in
      let (hosts, h4) =
        raise_if-eq-ok (not (elem host p.egress_hosts)) PolicyReason.host_not_listed _ h3 in
      let (ports, h5) =
        raise_if-eq-ok (not (elem r.port p.egress_ports)) PolicyReason.port_not_listed _ h4 in
      let (methods, h6) =
        raise_if-eq-ok (not (elem (world.upper r.method) p.methods)) PolicyReason.method_not_listed
          _ h5 in
      let (bytes, counted, h7) = bind-ok (judge_bytes (or_default r.bytes r.byte_count)) _ x h6 in
      let (_, timed, h8) =
        bind-ok (judge_elapsed r.elapsed_seconds p.max_duration_seconds) _ x h7 in
      let (budget, h9) =
        raise_if-eq-ok (over_limit (spent + bytes) p.max_bytes) PolicyReason.byte_limit _ h8 in
      subst (Listed r spent) (ok-injective h9) (record {
        in_phase = (differs-Agrees r.phase (phase_name p.phase)).0 phase;
        for_purpose = (differs-Agrees r.purpose (purpose_name p.purpose)).0 purpose;
        valid_host = host_or_reason-ok (validate_host world.names r.host) host valid;
        host_listed = not-false (elem host p.egress_hosts) hosts;
        port_listed = not-false (elem r.port p.egress_ports) ports;
        same_method = refl;
        method_listed = not-false (elem (world.upper r.method) p.methods) methods;
        counted = (judge_bytes-Asks r.bytes r.byte_count bytes).0 counted;
        in_time = (judge_elapsed-InTime r.elapsed_seconds p.max_duration_seconds).0 timed;
        in_budget = (over_limit-InBudget (spent + bytes) p.max_bytes).0 budget;
      })

  pub Listed-judge_network :
      (r : NetworkRequest) (spent : ℕ) (x : Exact)
      → Listed r spent x
      → judge_network world set r spent ≡ ok x
  unfolding judge_network
  Listed-judge_network r spent x l =
      let p = set.network_policy in
      let known = subst (λ m. elem m p.methods ≡ true) l.same_method l.method_listed in
      let phase = (differs-Agrees r.phase (phase_name p.phase)).1 l.in_phase in
      let purpose = (differs-Agrees r.purpose (purpose_name p.purpose)).1 l.for_purpose in
      let counted = (judge_bytes-Asks r.bytes r.byte_count x.bytes).1 l.counted in
      let timed = (judge_elapsed-InTime r.elapsed_seconds p.max_duration_seconds).1 l.in_time in
      let budget = (over_limit-InBudget (spent + x.bytes) p.max_bytes).1 l.in_budget in
      simp
        (phase, purpose, l.valid_host, l.host_listed, l.port_listed, known, counted, timed, budget)
        (ap (λ m. ok (record x { method = m })) (sym l.same_method))
