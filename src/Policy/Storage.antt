-- ===== src/Policy/Storage.antt =====
-- `StoragePolicy` of src/testudo/runtime/policy.py with its validators, of which the first error is
-- what the model reports.
use mathlib.Core.Path.{subst}
use testudo.Prelude.{
  ◌≡◌, Bool, true, false, not, ◌&&◌, ◌||◌, List, [], ◌∷◌, Option, none, some, Result, ok, ◌>>=◌,
  ◌>>◌, raise_if, raise_if-eq-ok, bind-ok, ok-injective, arith,
}
use testudo.Policy.Path.{PolicyError, Text, under, validate_guest_path}
use testudo.Policy.Contained.{Inside, place, validate_guest_path-Inside}

pub data StoragePhase : Type 0 where
  provision evaluation : StoragePhase

pub data CacheAccess : Type 0 where
  no_access read_only read_write : CacheAccess

pub record StoragePolicy : Type 0 where
  pub phase : StoragePhase
  pub workspace : Text
  pub inputs : Text
  pub cache : Option Text
  pub cache_access : CacheAccess
  pub host_mounts : List Text

abbrev pub runs_prefix : Text
runs_prefix = b'/' ∷ b'r' ∷ b'u' ∷ b'n' ∷ b's' ∷ []

abbrev pub inputs_prefix : Text
inputs_prefix = b'/' ∷ b'i' ∷ b'n' ∷ b'p' ∷ b'u' ∷ b't' ∷ b's' ∷ []

abbrev pub cache_prefix : Text
cache_prefix = b'/' ∷ b'c' ∷ b'a' ∷ b'c' ∷ b'h' ∷ b'e' ∷ []

unfoldable pub validate_cache : Option Text → Result PolicyError (Option Text)
validate_cache none = ok none
validate_cache (some path) = validate_guest_path cache_prefix path >>= λ p. ok (some p)

abbrev pub is_none : {A : Type 0} → Option A → Bool
is_none none = true
is_none (some a) = false

abbrev pub is_no_access : CacheAccess → Bool
is_no_access CacheAccess.no_access = true
is_no_access CacheAccess.read_only = false
is_no_access CacheAccess.read_write = false

abbrev pub writes_evaluation : StoragePhase → CacheAccess → Bool
writes_evaluation StoragePhase.evaluation CacheAccess.read_write = true
writes_evaluation StoragePhase.evaluation CacheAccess.read_only = false
writes_evaluation StoragePhase.evaluation CacheAccess.no_access = false
writes_evaluation StoragePhase.provision _ = false

abbrev pub no_mounts : List Text → Bool
no_mounts [] = true
no_mounts (m ∷ mounts) = false

-- The loop over the pairs of `(workspace, inputs, cache)`.
abbrev pub overlaps : Text → Text → Bool
overlaps left right = under left right || under right left

unfoldable pub any_overlap : Text → Text → Option Text → Bool
any_overlap workspace inputs none = overlaps workspace inputs
any_overlap workspace inputs (some cache) =
    overlaps workspace inputs || overlaps workspace cache || overlaps inputs cache

-- `validate_storage_boundary`
unfoldable pub validate_storage_boundary : StoragePolicy → Result PolicyError StoragePolicy
validate_storage_boundary p =
    raise_if (is_no_access p.cache_access && not (is_none p.cache)) PolicyError.cache_without_access
    >> (raise_if (not (is_no_access p.cache_access) && is_none p.cache)
          PolicyError.access_without_cache
        >> (raise_if (writes_evaluation p.phase p.cache_access) PolicyError.writable_evaluation
            >> (raise_if (any_overlap p.workspace p.inputs p.cache) PolicyError.overlap >> ok p)))

-- The validators of the fields, in the fields' order, then the one of the model.
unfoldable pub validate_storage : StoragePolicy → Result PolicyError StoragePolicy
validate_storage p = validate_guest_path runs_prefix p.workspace >>= λ workspace.
    validate_guest_path inputs_prefix p.inputs >>= λ inputs. validate_cache p.cache >>= λ cache.
    raise_if (not (no_mounts p.host_mounts)) PolicyError.host_mounts
    >> validate_storage_boundary
        (record p { workspace = workspace; inputs = inputs; cache = cache })

-- A cache path leads below /cache.
abbrev pub CacheInside : Option Text → Type 0
CacheInside none = Unit
CacheInside (some path) = Inside (place path) (place cache_prefix)

pub record Contained (p : StoragePolicy) : Type 0 where
  pub workspace_inside : Inside (place p.workspace) (place runs_prefix)
  pub inputs_inside : Inside (place p.inputs) (place inputs_prefix)
  pub cache_inside : CacheInside p.cache
  pub cache_declared : is_no_access p.cache_access ≡ is_none p.cache
  pub evaluation_reads : writes_evaluation p.phase p.cache_access ≡ false
  pub no_host : no_mounts p.host_mounts ≡ true
  pub apart : any_overlap p.workspace p.inputs p.cache ≡ false

validate_cache-CacheInside :
    (cache kept : Option Text) → validate_cache cache ≡ ok kept → CacheInside kept
unfolding validate_cache
validate_cache-CacheInside none kept h = subst CacheInside (ok-injective h) tt
validate_cache-CacheInside (some path) kept h =
    let (p, valid, same) =
      bind-ok (validate_guest_path cache_prefix path) (λ q. ok (some q)) kept h in
    subst CacheInside (ok-injective same) (validate_guest_path-Inside cache_prefix path p valid).1

boundary-Contained :
    (p q : StoragePolicy)
    → Inside (place p.workspace) (place runs_prefix)
    → Inside (place p.inputs) (place inputs_prefix)
    → CacheInside p.cache
    → no_mounts p.host_mounts ≡ true
    → validate_storage_boundary p ≡ ok q
    → Contained q
unfolding validate_storage_boundary
boundary-Contained p q at_runs at_inputs at_cache no_host h =
    let (without, h1) =
      raise_if-eq-ok (is_no_access p.cache_access && not (is_none p.cache))
        PolicyError.cache_without_access _ h in
    let (declared, h2) =
      raise_if-eq-ok (not (is_no_access p.cache_access) && is_none p.cache)
        PolicyError.access_without_cache _ h1 in
    let (reads, h3) =
      raise_if-eq-ok (writes_evaluation p.phase p.cache_access) PolicyError.writable_evaluation _
        h2 in
    let (apart, h4) =
      raise_if-eq-ok (any_overlap p.workspace p.inputs p.cache) PolicyError.overlap _ h3 in
    subst Contained (ok-injective h4) (record {
      workspace_inside = at_runs;
      inputs_inside = at_inputs;
      cache_inside = at_cache;
      cache_declared =
          both_or_none (is_no_access p.cache_access) (is_none p.cache) without declared;
      evaluation_reads = reads;
      no_host = no_host;
      apart = apart;
    })
  where
    both_or_none : (a b : Bool) → (a && not b) ≡ false → (not a && b) ≡ false → a ≡ b
    both_or_none a b h k = ground arith

-- A storage policy that is accepted mounts nothing of the host, leads with each of its paths into the
-- tree of that path, with no path at or below another one, has a cache exactly where it has access to one, and never writes it in the
-- evaluation.
pub validate_storage-Contained : (p q : StoragePolicy) → validate_storage p ≡ ok q → Contained q
unfolding validate_storage
validate_storage-Contained p q h =
    let (workspace, runs_ok, h1) = bind-ok (validate_guest_path runs_prefix p.workspace) _ q h in
    let (inputs, inputs_ok, h2) = bind-ok (validate_guest_path inputs_prefix p.inputs) _ q h1 in
    let (cache, cache_ok, h3) = bind-ok (validate_cache p.cache) _ q h2 in
    let (mounts, h4) =
      raise_if-eq-ok (not (no_mounts p.host_mounts)) PolicyError.host_mounts _ h3 in
    boundary-Contained (record p { workspace = workspace; inputs = inputs; cache = cache }) q
      (validate_guest_path-Inside runs_prefix p.workspace workspace runs_ok).1
      (validate_guest_path-Inside inputs_prefix p.inputs inputs inputs_ok).1
      (validate_cache-CacheInside p.cache cache cache_ok) (ground (arith, mounts)) h4
