-- ===== src/Policy/Network.antt =====
-- `NetworkPolicy` of src/testudo/runtime/policy.py with its validators, of which the first error is
-- what the model reports. A timestamp of `expires_at` has been read before.
use testudo.Prelude.{
  Bool, true, false, not, ◌&&◌, ◌||◌, List, [], ◌∷◌, Option, none, some, ℤ, Result, ok, err, ◌>>=◌,
  ◌>>◌, raise_if, Comparable-nat, Comparable-int, Comparable-list, Comparable-string, String, elem,
  distinct, all, leb, map,
}
use testudo.Policy.Path.{PolicyError, Text, validate_limit}
use testudo.Policy.Host.{HostError, Names, validate_host}

pub data NetworkPhase : Type 0 where
  provision research evaluation : NetworkPhase

pub data NetworkPurpose : Type 0 where
  no_purpose dependency_fetch resource_lookup declared_api : NetworkPurpose

pub record NetworkPolicy : Type 0 where
  pub phase : NetworkPhase
  pub purpose : NetworkPurpose
  pub egress_hosts : List Text
  pub egress_ports : List ℤ
  pub methods : List String
  pub max_bytes : Option ℤ
  pub max_duration_seconds : Option ℤ
  pub cache_write : Bool

pub data NetworkError : Type 0 where
  of_host : HostError → NetworkError
  of_field : PolicyError → NetworkError

abbrev pub refuse {ℓ} : {A : Type ℓ} → PolicyError → Result NetworkError A
refuse e = err (NetworkError.of_field e)

abbrev pub host_or_error : Result HostError Text → Result NetworkError Text
host_or_error (ok host) = ok host
host_or_error (err e) = err (NetworkError.of_host e)

unfoldable pub each_host : Names → List Text → Result NetworkError (List Text)
each_host names [] = ok []
each_host names (h ∷ hosts) = host_or_error (validate_host names h) >>= λ host.
    each_host names hosts >>= λ rest. ok (host ∷ rest)

-- `normalize_hosts`
unfoldable pub normalize_hosts : Names → List Text → Result NetworkError (List Text)
normalize_hosts names hosts = each_host names hosts >>= λ normalized.
    raise_if (not (distinct normalized)) (NetworkError.of_field PolicyError.duplicate)
    >> ok normalized

abbrev pub is_port : ℤ → Bool
is_port (ℤ.pos n) = leb 1 n && leb n 65535
is_port (ℤ.negsuc n) = false

unfoldable pub validate_ports : List ℤ → Result NetworkError (List ℤ)
validate_ports ports =
    raise_if (not (all is_port ports)) (NetworkError.of_field PolicyError.bad_port)
    >> (raise_if (not (distinct ports)) (NetworkError.of_field PolicyError.duplicate) >> ok ports)

abbrev pub allowed_methods : List String
allowed_methods = "GET" ∷ "HEAD" ∷ "POST" ∷ "PUT" ∷ "PATCH" ∷ "DELETE" ∷ "OPTIONS" ∷ []

-- `normalize_methods`, with `str.upper` as an argument.
unfoldable pub normalize_methods :
    (String → String) → List String → Result NetworkError (List String)
normalize_methods upper methods =
    let normalized = map upper methods in
    raise_if (not (all (λ m. elem m allowed_methods) normalized))
      (NetworkError.of_field PolicyError.bad_method)
    >> (raise_if (not (distinct normalized)) (NetworkError.of_field PolicyError.duplicate)
        >> ok normalized)

abbrev pub limit_or_error : Result PolicyError (Option ℤ) → Result NetworkError (Option ℤ)
limit_or_error (ok value) = ok value
limit_or_error (err e) = err (NetworkError.of_field e)

abbrev pub is_empty : {A : Type 0} → List A → Bool
is_empty [] = true
is_empty (x ∷ xs) = false

abbrev pub is_absent : Option ℤ → Bool
is_absent none = true
is_absent (some i) = false

abbrev pub same_phase : NetworkPhase → NetworkPhase → Bool
same_phase NetworkPhase.provision q = elim q [
  | provision ↦ true
  | research ↦ false
  | evaluation ↦ false
]
same_phase NetworkPhase.research q = elim q [
  | provision ↦ false
  | research ↦ true
  | evaluation ↦ false
]
same_phase NetworkPhase.evaluation q = elim q [
  | provision ↦ false
  | research ↦ false
  | evaluation ↦ true
]

abbrev pub is_fetch : NetworkPurpose → Bool
is_fetch NetworkPurpose.dependency_fetch = true
is_fetch NetworkPurpose.no_purpose = false
is_fetch NetworkPurpose.resource_lookup = false
is_fetch NetworkPurpose.declared_api = false

-- The branch of `validate_phase_purpose` for the purpose "none".
unfoldable pub check_none : NetworkPolicy → Result NetworkError NetworkPolicy
check_none p =
    raise_if
      (not (is_empty p.egress_hosts) || not (is_empty p.egress_ports) || not (is_empty p.methods))
      (NetworkError.of_field PolicyError.none_with_hosts)
    >> (raise_if (not (is_absent p.max_bytes) || not (is_absent p.max_duration_seconds))
          (NetworkError.of_field PolicyError.none_with_limits)
        >> (raise_if p.cache_write (NetworkError.of_field PolicyError.none_with_cache) >> ok p))

-- The other branch, with `expected_phase[self.purpose]`.
unfoldable pub check_access : NetworkPhase → NetworkPolicy → Result NetworkError NetworkPolicy
check_access expected p =
    raise_if (is_empty p.egress_hosts || is_empty p.egress_ports || is_empty p.methods)
      (NetworkError.of_field PolicyError.missing_allow_list)
    >> (raise_if (is_absent p.max_bytes) (NetworkError.of_field PolicyError.missing_max_bytes)
        >> (raise_if (is_absent p.max_duration_seconds)
              (NetworkError.of_field PolicyError.missing_max_duration)
            >> (raise_if
                  (p.cache_write
                    && not (is_fetch p.purpose && same_phase p.phase NetworkPhase.provision))
                  (NetworkError.of_field PolicyError.bad_cache_write)
                >> (raise_if (not (same_phase p.phase expected))
                      (NetworkError.of_field PolicyError.wrong_phase)
                    >> ok p))))

abbrev pub by_purpose : NetworkPurpose → NetworkPolicy → Result NetworkError NetworkPolicy
by_purpose NetworkPurpose.no_purpose p = check_none p
by_purpose NetworkPurpose.dependency_fetch p = check_access NetworkPhase.provision p
by_purpose NetworkPurpose.resource_lookup p = check_access NetworkPhase.research p
by_purpose NetworkPurpose.declared_api p = check_access NetworkPhase.evaluation p

unfoldable pub validate_phase_purpose : NetworkPolicy → Result NetworkError NetworkPolicy
validate_phase_purpose p = by_purpose p.purpose p

unfoldable pub validate_network :
    Names → (String → String) → NetworkPolicy → Result NetworkError NetworkPolicy
validate_network names upper p = normalize_hosts names p.egress_hosts >>= λ hosts.
    validate_ports p.egress_ports >>= λ ports. normalize_methods upper p.methods >>= λ methods.
    limit_or_error (validate_limit p.max_bytes) >>= λ max_bytes.
    limit_or_error (validate_limit p.max_duration_seconds) >>= λ max_duration.
    validate_phase_purpose (record p {
      egress_hosts = hosts;
      egress_ports = ports;
      methods = methods;
      max_bytes = max_bytes;
      max_duration_seconds = max_duration;
    })
