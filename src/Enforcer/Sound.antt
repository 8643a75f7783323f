-- ===== src/Enforcer/Sound.antt =====
-- The mounts of a policy that its validators accepted are sound.
use mathlib.Core.Path.{subst}
use testudo.Prelude.{
  ◌≡◌, refl, sym, ap, ◌∙◌, true, false, not, ◌||◌, ◌&&◌, List, [], ◌∷◌, Option, none, some, ok,
  arith, raise_if-eq-ok, bind-ok, ok-injective, Comparable-nat, Comparable-list, Comparable-string,
  ◌==◌, ==_refl, any, all, All,
}
use testudo.Policy.Path.{
  PolicyError, Text, starts, has_double, ends_slash, split_slash, is_dots, is_forbidden, under,
  validate_guest_path,
}
use testudo.Policy.Storage.{
  StoragePolicy, runs_prefix, inputs_prefix, cache_prefix, validate_cache, no_mounts, any_overlap,
  validate_storage, validate_storage_boundary, validate_storage-Contained,
}
use testudo.Enforcer.{MountBinding, MountMode, PolicySetting, World}
use testudo.Enforcer.Paths.{
  safe_guest_path, safe_host_path, mode_of, mode_name, plan, mounts, mounts_at, cache_mount,
  candidates, first_under, mount_for_guest, base_of, expected_at, expected_host_path, is_raw, join,
  inputs_name, cache_name,
}
use testudo.Enforcer.Mounts.{judge_mount}
use testudo.Enforcer.Plan.{Found, workspace-Found, inputs-Found, cache-Found}
use testudo.Enforcer.Bindings.{expected_at-base}

-- A path that a policy may have is one that a mount may have.
permitted-raw : (s : Text) → all (λ c. not (is_forbidden c)) s ≡ true → any is_raw s ≡ false
permitted-raw [] h = refl
permitted-raw (c ∷ s) h = ground (arith, permitted-raw s)

plain-dots : (ps : List Text) → all (λ p. not (is_dots p)) ps ≡ true → any is_dots ps ≡ false
plain-dots [] h = refl
plain-dots (p ∷ ps) h = ground (arith, plain-dots ps)

validated-safe :
    (prefix path p : Text) → validate_guest_path prefix path ≡ ok p → safe_guest_path p ≡ ok p
unfolding validate_guest_path safe_guest_path
validated-safe prefix path p h =
    let (absolute, h1) =
      raise_if-eq-ok (not (starts path (b'/' ∷ []))) PolicyError.not_absolute _ h in
    let (canonical, h2) =
      raise_if-eq-ok
        (not (all (λ c. not (is_forbidden c)) path)
          || has_double path
          || ends_slash path && not (path == b'/' ∷ []))
        PolicyError.not_canonical _ h1 in
    let (straight, h3) =
      raise_if-eq-ok (not (all (λ part. not (is_dots part)) (split_slash path)))
        PolicyError.traversal _ h2 in
    let (inside, h4) = raise_if-eq-ok (not (under path prefix)) PolicyError.outside _ h3 in
    let raw : any is_raw path ≡ false = permitted-raw path (ground (arith, canonical)) in
    let rest : (has_double path || ends_slash path && not (path == b'/' ∷ [])) ≡ false =
      ground (arith, canonical) in
    let dots : any is_dots (split_slash path) ≡ false =
      plain-dots (split_slash path) (ground (arith, straight)) in
    subst (λ q. safe_guest_path q ≡ ok q) (ok-injective h4) (simp (absolute, raw, rest, dots) refl)

abbrev pub SafeCache : Option Text → Type 0
SafeCache none = Unit
SafeCache (some path) = safe_guest_path path ≡ ok path

validate_cache-SafeCache :
    (cache kept : Option Text) → validate_cache cache ≡ ok kept → SafeCache kept
unfolding validate_cache
validate_cache-SafeCache none kept h = subst SafeCache (ok-injective h) tt
validate_cache-SafeCache (some path) kept h =
    let (p, valid, same) =
      bind-ok (validate_guest_path cache_prefix path) (λ q. ok (some q)) kept h in
    subst SafeCache (ok-injective same) (validated-safe cache_prefix path p valid)

pub record Safe (p : StoragePolicy) : Type 0 where
  pub workspace_safe : safe_guest_path p.workspace ≡ ok p.workspace
  pub inputs_safe : safe_guest_path p.inputs ≡ ok p.inputs
  pub cache_safe : SafeCache p.cache

pub validate_storage-Safe : (p q : StoragePolicy) → validate_storage p ≡ ok q → Safe q
unfolding validate_storage validate_storage_boundary
validate_storage-Safe p q h =
    let (workspace, runs_ok, h1) = bind-ok (validate_guest_path runs_prefix p.workspace) _ q h in
    let (inputs, inputs_ok, h2) = bind-ok (validate_guest_path inputs_prefix p.inputs) _ q h1 in
    let (cache, cache_ok, h3) = bind-ok (validate_cache p.cache) _ q h2 in
    let (mounts, h4) =
      raise_if-eq-ok (not (no_mounts p.host_mounts)) PolicyError.host_mounts _ h3 in
    let (a, h5) = raise_if-eq-ok _ PolicyError.cache_without_access _ h4 in
    let (b, h6) = raise_if-eq-ok _ PolicyError.access_without_cache _ h5 in
    let (c, h7) = raise_if-eq-ok _ PolicyError.writable_evaluation _ h6 in
    let (d, h8) = raise_if-eq-ok _ PolicyError.overlap _ h7 in
    subst Safe (ok-injective h8) (record {
      workspace_safe = validated-safe runs_prefix p.workspace workspace runs_ok;
      inputs_safe = validated-safe inputs_prefix p.inputs inputs inputs_ok;
      cache_safe = validate_cache-SafeCache p.cache cache cache_ok;
    })

module _ (world : World) (set : PolicySetting) (root : Text)
    (rooted : set.run_root ≡ some root) where
  abbrev pub Sound : MountBinding → Type 0
  Sound m = safe_host_path world root m.host_path ≡ ok (world.resolve m.host_path)

  abbrev pub Judged : MountBinding → Type 0
  Judged m =
      judge_mount world set root m.host_path m.guest_path (mode_name m.mode)
      ≡ ok (world.resolve m.host_path, m.guest_path)

  Found-Judged :
      (base guest : Text) (mode : MountMode)
      → safe_guest_path guest ≡ ok guest
      → safe_host_path world root base ≡ ok (world.resolve base)
      → Found base guest mode
          (first_under guest (
            candidates set.storage_policy.workspace set.storage_policy.inputs
              set.storage_policy.cache set.storage_policy.cache_access))
          (base_of set.storage_policy.workspace set.storage_policy.inputs set.storage_policy.cache
            guest root)
      → Judged (record { host_path = base; guest_path = guest; mode = mode })
  unfolding judge_mount mount_for_guest expected_host_path
  Found-Judged base guest mode safe sound found =
      let expected =
        ap (expected_at world set.storage_policy guest guest) rooted
        ∙ expected_at-base world set root guest base found.based in
      let equal = ==_refl guest in
      let host = ==_refl (world.resolve base) in
      let named = ==_refl (mode_name (mode_of found.access)) in
      simp (safe, sound, found.first, equal, expected, host, found.same_mode, named) refl

  cache-Judged :
      (cache : Option Text)
      → set.storage_policy.cache ≡ cache
      → SafeCache cache
      → any_overlap set.storage_policy.workspace set.storage_policy.inputs cache ≡ false
      → All Sound (cache_mount cache set.storage_policy.cache_access root)
      → All Judged (cache_mount cache set.storage_policy.cache_access root)
  unfolding any_overlap
  cache-Judged none same safe apart sound = tt
  cache-Judged (some cache) same safe apart (sound, _) =
      let p = set.storage_policy in
      let w : under cache p.workspace ≡ false = ground (arith, apart) in
      let i : under cache p.inputs ≡ false = ground (arith, apart) in
      (
        Found-Judged (join root cache_name) cache (mode_of p.cache_access) safe sound (
            subst
              (λ o.
                Found (join root cache_name) cache (mode_of p.cache_access)
                  (first_under cache (candidates p.workspace p.inputs o p.cache_access))
                  (base_of p.workspace p.inputs o cache root))
              (sym same) (cache-Found root p.workspace p.inputs cache p.cache_access w i)),
        tt,
      )

  apart-inputs :
      (workspace inputs : Text) (cache : Option Text)
      → any_overlap workspace inputs cache ≡ false
      → under inputs workspace ≡ false
  unfolding any_overlap
  apart-inputs workspace inputs none h = ground (arith, h)
  apart-inputs workspace inputs (some cache) h = ground (arith, h)

  -- Every mount of the plan passes the checks of `check_mount`.
  pub mounts-Judged :
      (declared : StoragePolicy)
      → validate_storage declared ≡ ok set.storage_policy
      → All Sound (mounts set)
      → All Judged (mounts set)
  unfolding mounts
  mounts-Judged declared accepted sound =
      let p = set.storage_policy in
      let contained = validate_storage-Contained declared p accepted in
      let safe = validate_storage-Safe declared p accepted in
      let (workspace_sound, (inputs_sound, cache_sound)) : All Sound
          (plan root p.workspace p.inputs p.cache p.cache_access) =
        subst (λ o. All Sound (mounts_at o p)) rooted sound in
      subst (λ o. All Judged (mounts_at o p)) (sym rooted)
        (
          Found-Judged root p.workspace MountMode.rw safe.workspace_safe workspace_sound
              (workspace-Found root p.workspace p.inputs p.cache p.cache_access),
          (
            Found-Judged (join root inputs_name) p.inputs MountMode.ro safe.inputs_safe inputs_sound
                (inputs-Found root p.workspace p.inputs p.cache p.cache_access
                  (apart-inputs p.workspace p.inputs p.cache contained.apart)),
            cache-Judged p.cache refl safe.cache_safe contained.apart cache_sound,
          ),
        )
