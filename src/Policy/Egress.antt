-- ===== src/Policy/Egress.antt =====
-- What a network policy allows that the validators of `NetworkPolicy` accept.
use mathlib.Core.Path.{subst}
use testudo.Prelude.{
  ℕ, ◌≤◌, ◌<◌, ◌≡◌, refl, sym, Bool, true, false, not, ◌&&◌, ◌||◌, List, Option, none, some, ℤ,
  String, Result, ok, err, raise_if-eq-ok, bind-ok, ok-injective, elem, distinct, all,
  Comparable-int, Comparable-list, Comparable-nat, Comparable-string, arith, map, leb, inl, inr,
  Bool-cases, ◌==◌,
}
use testudo.Policy.Path.{PolicyError, Text, max_limit, as_set, limit, validate_limit}
use testudo.Policy.Host.{Names}
use testudo.Policy.Network.{
  NetworkPhase, NetworkPurpose, NetworkPolicy, NetworkError, each_host, normalize_hosts, is_port,
  validate_ports, allowed_methods, normalize_methods, limit_or_error, is_empty, is_absent,
  same_phase, is_fetch, check_none, check_access, by_purpose, validate_phase_purpose,
  validate_network,
}

-- A limit that is set is positive and fits 63 bits.
abbrev pub Bounded : Option ℤ → Type 0
Bounded none = Unit
Bounded (some i) = (n : ℕ) × (i ≡ ℤ.pos n) × (0 < n) × (n ≤ max_limit)

-- Access for a purpose, which has a phase of its own.
pub record Open (expected : NetworkPhase) (p : NetworkPolicy) : Type 0 where
  pub some_hosts : is_empty p.egress_hosts ≡ false
  pub some_ports : is_empty p.egress_ports ≡ false
  pub some_methods : is_empty p.methods ≡ false
  pub finite_bytes : is_absent p.max_bytes ≡ false
  pub finite_duration : is_absent p.max_duration_seconds ≡ false
  pub in_phase : same_phase p.phase expected ≡ true
  pub cache_by_fetch : p.cache_write ≡ true → is_fetch p.purpose ≡ true

-- No access at all.
pub record Shut (p : NetworkPolicy) : Type 0 where
  pub no_hosts : is_empty p.egress_hosts ≡ true
  pub no_ports : is_empty p.egress_ports ≡ true
  pub no_methods : is_empty p.methods ≡ true
  pub no_bytes : is_absent p.max_bytes ≡ true
  pub no_duration : is_absent p.max_duration_seconds ≡ true
  pub no_cache : p.cache_write ≡ false

abbrev pub Purposed : NetworkPurpose → NetworkPolicy → Type 0
Purposed NetworkPurpose.no_purpose p = Shut p
Purposed NetworkPurpose.dependency_fetch p = Open NetworkPhase.provision p
Purposed NetworkPurpose.resource_lookup p = Open NetworkPhase.research p
Purposed NetworkPurpose.declared_api p = Open NetworkPhase.evaluation p

pub record Egress (p : NetworkPolicy) : Type 0 where
  pub hosts_once : distinct p.egress_hosts ≡ true
  pub ports_valid : all is_port p.egress_ports ≡ true
  pub ports_once : distinct p.egress_ports ≡ true
  pub methods_known : all (λ m. elem m allowed_methods) p.methods ≡ true
  pub methods_once : distinct p.methods ≡ true
  pub bytes_bounded : Bounded p.max_bytes
  pub duration_bounded : Bounded p.max_duration_seconds
  pub purposed : Purposed p.purpose p

not-false : (b : Bool) → not b ≡ false → b ≡ true
not-false true h = refl
not-false false h = cc

limit-Bounded : (i j : ℤ) → limit i ≡ ok j → Bounded (some j)
limit-Bounded (ℤ.negsuc n) j h = cc
limit-Bounded (ℤ.pos n) j h = elim (Bool-cases (n == 0 || not (leb n max_limit))) [
  | inl wrong ↦ cc (rw wrong at h)
  | inr right ↦
      let same : ℤ.pos n ≡ j = ok-injective (rw right at h) in
      (n, sym same, ground (arith, right), ground (arith, right))
]

as_set-Bounded :
    (i : ℤ) (r : Result PolicyError ℤ) (kept : Option ℤ)
    → limit i ≡ r
    → limit_or_error (as_set r) ≡ ok kept
    → Bounded kept
as_set-Bounded i (ok j) kept same h = subst Bounded (ok-injective h) (limit-Bounded i j same)
as_set-Bounded i (err e) kept same h = cc

validate_limit-Bounded :
    (value kept : Option ℤ) → limit_or_error (validate_limit value) ≡ ok kept → Bounded kept
unfolding validate_limit
validate_limit-Bounded none kept h = subst Bounded (ok-injective h) tt
validate_limit-Bounded (some i) kept h = as_set-Bounded i (limit i) kept refl h

normalize_hosts-distinct :
    (names : Names) (hosts kept : List Text)
    → normalize_hosts names hosts ≡ ok kept
    → distinct kept ≡ true
unfolding normalize_hosts
normalize_hosts-distinct names hosts kept h =
    let (normalized, each, h1) = bind-ok (each_host names hosts) _ kept h in
    let (once, h2) =
      raise_if-eq-ok (not (distinct normalized)) (NetworkError.of_field PolicyError.duplicate) _
        h1 in
    subst (λ l. distinct l ≡ true) (ok-injective h2) (not-false (distinct normalized) once)

validate_ports-ok :
    (ports kept : List ℤ)
    → validate_ports ports ≡ ok kept
    → (all is_port kept ≡ true) × (distinct kept ≡ true)
unfolding validate_ports
validate_ports-ok ports kept h =
    let (valid, h1) =
      raise_if-eq-ok (not (all is_port ports)) (NetworkError.of_field PolicyError.bad_port) _ h in
    let (once, h2) =
      raise_if-eq-ok (not (distinct ports)) (NetworkError.of_field PolicyError.duplicate) _ h1 in
    subst (λ l. (all is_port l ≡ true) × (distinct l ≡ true)) (ok-injective h2)
      (not-false (all is_port ports) valid, not-false (distinct ports) once)

normalize_methods-ok :
    (upper : String → String) (methods kept : List String)
    → normalize_methods upper methods ≡ ok kept
    → (all (λ m. elem m allowed_methods) kept ≡ true) × (distinct kept ≡ true)
unfolding normalize_methods
normalize_methods-ok upper methods kept h =
    let l = map upper methods in
    let (known, h1) =
      raise_if-eq-ok (not (all (λ m. elem m allowed_methods) l))
        (NetworkError.of_field PolicyError.bad_method) _ h in
    let (once, h2) =
      raise_if-eq-ok (not (distinct l)) (NetworkError.of_field PolicyError.duplicate) _ h1 in
    subst (λ k. (all (λ m. elem m allowed_methods) k ≡ true) × (distinct k ≡ true))
      (ok-injective h2)
      (not-false (all (λ m. elem m allowed_methods) l) known, not-false (distinct l) once)

check_none-Shut : (p q : NetworkPolicy) → check_none p ≡ ok q → (p ≡ q) × Shut p
unfolding check_none
check_none-Shut p q h =
    let (nothing, h1) =
      raise_if-eq-ok
        (not (is_empty p.egress_hosts) || not (is_empty p.egress_ports) || not (is_empty p.methods))
        (NetworkError.of_field PolicyError.none_with_hosts) _ h in
    let (unlimited, h2) =
      raise_if-eq-ok (not (is_absent p.max_bytes) || not (is_absent p.max_duration_seconds))
        (NetworkError.of_field PolicyError.none_with_limits) _ h1 in
    let (no_cache, h3) =
      raise_if-eq-ok p.cache_write (NetworkError.of_field PolicyError.none_with_cache) _ h2 in
    (
      ok-injective h3,
      record {
        no_hosts = ground (arith, nothing);
        no_ports = ground (arith, nothing);
        no_methods = ground (arith, nothing);
        no_bytes = ground (arith, unlimited);
        no_duration = ground (arith, unlimited);
        no_cache = no_cache;
      },
    )

check_access-Open :
    (expected : NetworkPhase) (p q : NetworkPolicy)
    → check_access expected p ≡ ok q
    → (p ≡ q) × Open expected p
unfolding check_access
check_access-Open expected p q h =
    let (listed, h1) =
      raise_if-eq-ok (is_empty p.egress_hosts || is_empty p.egress_ports || is_empty p.methods)
        (NetworkError.of_field PolicyError.missing_allow_list) _ h in
    let (bytes, h2) =
      raise_if-eq-ok (is_absent p.max_bytes) (NetworkError.of_field PolicyError.missing_max_bytes) _
        h1 in
    let (duration, h3) =
      raise_if-eq-ok (is_absent p.max_duration_seconds)
        (NetworkError.of_field PolicyError.missing_max_duration) _ h2 in
    let (cache, h4) =
      raise_if-eq-ok
        (p.cache_write && not (is_fetch p.purpose && same_phase p.phase NetworkPhase.provision))
        (NetworkError.of_field PolicyError.bad_cache_write) _ h3 in
    let (phase, h5) =
      raise_if-eq-ok (not (same_phase p.phase expected))
        (NetworkError.of_field PolicyError.wrong_phase) _ h4 in
    (
      ok-injective h5,
      record {
        some_hosts = ground (arith, listed);
        some_ports = ground (arith, listed);
        some_methods = ground (arith, listed);
        finite_bytes = bytes;
        finite_duration = duration;
        in_phase = not-false (same_phase p.phase expected) phase;
        cache_by_fetch = λ writes.
            only_fetch p.cache_write (is_fetch p.purpose)
              (same_phase p.phase NetworkPhase.provision) cache writes;
      },
    )
  where
    only_fetch : (w f s : Bool) → (w && not (f && s)) ≡ false → w ≡ true → f ≡ true
    only_fetch w f s h k = ground arith

by_purpose-Purposed :
    (purpose : NetworkPurpose) (p q : NetworkPolicy)
    → by_purpose purpose p ≡ ok q
    → (p ≡ q) × Purposed purpose p
by_purpose-Purposed NetworkPurpose.no_purpose p q h = check_none-Shut p q h
by_purpose-Purposed NetworkPurpose.dependency_fetch p q h =
    check_access-Open NetworkPhase.provision p q h
by_purpose-Purposed NetworkPurpose.resource_lookup p q h =
    check_access-Open NetworkPhase.research p q h
by_purpose-Purposed NetworkPurpose.declared_api p q h =
    check_access-Open NetworkPhase.evaluation p q h

-- A network policy that is accepted either allows nothing, or has an allow-list of distinct hosts,
-- distinct ports between 1 and 65535 and distinct known methods, with positive limits of at most 63
-- bits, in the one phase of its purpose, and writes a cache only to fetch dependencies.
pub validate_network-Egress :
    (names : Names) (upper : String → String) (p q : NetworkPolicy)
    → validate_network names upper p ≡ ok q
    → Egress q
unfolding validate_network validate_phase_purpose
validate_network-Egress names upper p q h =
    let (hosts, hosts_ok, h1) = bind-ok (normalize_hosts names p.egress_hosts) _ q h in
    let (ports, ports_ok, h2) = bind-ok (validate_ports p.egress_ports) _ q h1 in
    let (methods, methods_ok, h3) = bind-ok (normalize_methods upper p.methods) _ q h2 in
    let (bytes, bytes_ok, h4) = bind-ok (limit_or_error (validate_limit p.max_bytes)) _ q h3 in
    let (duration, duration_ok, h5) =
      bind-ok (limit_or_error (validate_limit p.max_duration_seconds)) _ q h4 in
    let checked : NetworkPolicy = record p {
      egress_hosts = hosts;
      egress_ports = ports;
      methods = methods;
      max_bytes = bytes;
      max_duration_seconds = duration;
    } in
    let (same, purposed) = by_purpose-Purposed p.purpose checked q h5 in
    subst Egress same (record {
      hosts_once = normalize_hosts-distinct names p.egress_hosts hosts hosts_ok;
      ports_valid = (validate_ports-ok p.egress_ports ports ports_ok).0;
      ports_once = (validate_ports-ok p.egress_ports ports ports_ok).1;
      methods_known = (normalize_methods-ok upper p.methods methods methods_ok).0;
      methods_once = (normalize_methods-ok upper p.methods methods methods_ok).1;
      bytes_bounded = validate_limit-Bounded p.max_bytes bytes bytes_ok;
      duration_bounded = validate_limit-Bounded p.max_duration_seconds duration duration_ok;
      purposed = purposed;
    })
