-- ===== src/Enforcer/Bindings.antt =====
-- `check_mount` allows mounts of the plan only, and every mount of the plan whose paths are sound.
use mathlib.Core.Path.{subst}
use testudo.Prelude.{
  Some, suc, ◌≡◌, refl, sym, ap, ◌∙◌, String, true, false, not, ◌||◌, ◌&&◌, inl, inr, List, [], ◌∷◌,
  Option, none, some, Result, ok, err, arith, raise_if-eq-ok, bind-ok, ok-injective, Comparable-nat,
  Comparable-list, Comparable-string, ◌==◌, ==_iff, any, some-injective,
}
use testudo.Policy.Path.{Text, starts, has_double, ends_slash, split_slash, is_dots}
use testudo.Policy.Storage.{CacheAccess}
use testudo.Enforcer.{PolicyReason, MountBinding, MountMode, PolicySetting, Enforcer, World}
use testudo.Enforcer.Decisions.{common_denial, decide}
use testudo.Enforcer.Paths.{
  safe_guest_path, safe_host_path, posix_parts, relative, mode_of, mode_name, mounts, mounts_at,
  candidates, first_under, mount_for_guest, lstrip_slashes, join, base_of, resolved_below,
  expected_at, expected_host_path, is_raw,
}
use testudo.Enforcer.Mounts.{
  chosen, unbound, judge_mount, judge_mount_at, on_mount, mount_claim, check_mount,
}
use testudo.Enforcer.Guards.{later, Live, unless-Turn, common_denial-Guard}
use testudo.Enforcer.Allowed.{Allowed, Turn-Allowed}
use testudo.Enforcer.Plan.{Binds, candidates-Chosen, drop_all}

safe_guest_path-same : (path g : Text) → safe_guest_path path ≡ ok g → path ≡ g
unfolding safe_guest_path
safe_guest_path-same path g h =
    let (absolute, h1) =
      raise_if-eq-ok (not (starts path (b'/' ∷ []))) PolicyReason.guest_not_absolute _ h in
    let (canonical, h2) =
      raise_if-eq-ok
        (any is_raw path || has_double path || ends_slash path && not (path == b'/' ∷ []))
        PolicyReason.guest_not_canonical _ h1 in
    let (straight, h3) =
      raise_if-eq-ok (any is_dots (split_slash path)) PolicyReason.guest_traversal _ h2 in
    ok-injective h3

module _ (world : World) (set : PolicySetting) where
  abbrev pub StaysBelow : Text → Text → Type 0
  StaysBelow path root =
      relative (posix_parts (world.resolve path)) (posix_parts (world.resolve root)) ≡ true

  safe_host_path-StaysBelow :
      (root raw host : Text)
      → safe_host_path world root raw ≡ ok host
      → (world.resolve raw ≡ host) × StaysBelow raw root
  unfolding safe_host_path
  safe_host_path-StaysBelow root raw host h =
      let (absolute, h1) =
        raise_if-eq-ok (not (starts raw (b'/' ∷ []))) PolicyReason.host_not_absolute _ h in
      let (canonical, h2) = raise_if-eq-ok (any is_raw raw) PolicyReason.host_not_canonical _ h1 in
      let (straight, h3) =
        raise_if-eq-ok (any is_dots (posix_parts raw)) PolicyReason.host_traversal _ h2 in
      let (below, h4) =
        raise_if-eq-ok
          (not (relative (posix_parts (world.resolve raw)) (posix_parts (world.resolve root))))
          PolicyReason.host_outside _ h3 in
      (ok-injective h4, ground (arith, below))

  chosen-ok :
      (reason : PolicyReason) (o : Option (Text × CacheAccess)) (selected : Text × CacheAccess)
      → chosen reason o ≡ ok selected
      → o ≡ some selected
  chosen-ok reason none selected h = cc
  chosen-ok reason (some x) selected h = ap some (ok-injective h)

  unbound-false : (host : Text) (o : Option Text) → unbound host o ≡ false → o ≡ some host
  unbound-false host none h = cc
  unbound-false host (some expected) h =
      ap some (sym ((==_iff host expected).0 (ground (arith, h))))

  -- The host path of a guest path that is a declared path itself.
  pub expected_at-base :
      (root guest base : Text)
      → base_of set.storage_policy.workspace set.storage_policy.inputs set.storage_policy.cache
          guest root
        ≡ some base
      → expected_at world set.storage_policy guest guest (some root) ≡ some (world.resolve base)
  unfolding lstrip_slashes join
  expected_at-base root guest base h =
      ap
        (λ s. resolved_below world (lstrip_slashes s) (
          base_of set.storage_policy.workspace set.storage_policy.inputs set.storage_policy.cache
            guest root))
        (drop_all guest)
      ∙ ap (resolved_below world []) h

  -- A mount of the plan, as a call of `check_mount` names it.
  pub record Named (host_path guest_path : Text) (mode : String) (m : MountBinding) : Type 0 where
    pub same_guest : guest_path ≡ m.guest_path
    pub same_mode : mode ≡ mode_name m.mode
    pub same_host : world.resolve host_path ≡ world.resolve m.host_path

  Binds-Named :
      (ms : List MountBinding) (base guest host_path : Text) (kept : MountMode) (mode : String)
      → world.resolve host_path ≡ world.resolve base
      → mode ≡ mode_name kept
      → Some (Binds base guest kept) ms
      → Some (Named host_path guest mode) ms
  Binds-Named [] base guest host_path kept mode host named s = s
  Binds-Named (m ∷ ms) base guest host_path kept mode host named (inl here) = inl (record {
    same_guest = here.same_guest;
    same_mode = named ∙ ap mode_name here.same_mode;
    same_host = host ∙ ap world.resolve here.same_host;
  })
  Binds-Named (m ∷ ms) base guest host_path kept mode host named (inr there) =
      inr (Binds-Named ms base guest host_path kept mode host named there)

  judge_mount-Named :
      (root host_path guest_path : Text) (mode : String) (kept : Text × Text)
      → set.run_root ≡ some root
      → judge_mount world set root host_path guest_path mode ≡ ok kept
      → StaysBelow host_path root
        × Some (Named host_path guest_path mode) (mounts_at (some root) set.storage_policy)
  unfolding judge_mount mount_for_guest expected_host_path
  judge_mount-Named root host_path guest_path mode kept rooted h =
      let p = set.storage_policy in
      let (guest, guest_ok, h1) = bind-ok (safe_guest_path guest_path) _ kept h in
      let (host, host_ok, h2) = bind-ok (safe_host_path world root host_path) _ kept h1 in
      let (selected, selected_ok, h3) =
        bind-ok
          (chosen PolicyReason.not_declared
            (first_under guest (candidates p.workspace p.inputs p.cache p.cache_access)))
          _ kept h2 in
      let (at_root, h4) =
        raise_if-eq-ok (not (guest == selected.0)) PolicyReason.not_guest_root _ h3 in
      let (bound, h5) =
        raise_if-eq-ok (unbound host (expected_at world p guest selected.0 set.run_root))
          PolicyReason.not_bound _ h4 in
      let (granted, h6) =
        raise_if-eq-ok (not (mode == mode_name (mode_of selected.1))) PolicyReason.mode_exceeded _
          h5 in
      let here : guest ≡ selected.0 = (==_iff guest selected.0).0 (ground (arith, at_root)) in
      let (base, found) =
        candidates-Chosen root p.workspace p.inputs guest p.cache p.cache_access selected
          (chosen-ok PolicyReason.not_declared
            (first_under guest (candidates p.workspace p.inputs p.cache p.cache_access)) selected
            selected_ok)
          here in
      let (resolved, below) = safe_host_path-StaysBelow root host_path host host_ok in
      let expected : some (world.resolve base) ≡ some host =
        sym (expected_at-base root guest base found.based)
        ∙ ap (λ g. expected_at world p guest g (some root)) here
        ∙ ap (expected_at world p guest selected.0) (sym rooted)
        ∙ unbound-false host (expected_at world p guest selected.0 set.run_root) bound in
      let named : mode ≡ mode_name (mode_of selected.1) =
        (==_iff mode (mode_name (mode_of selected.1))).0 (ground (arith, granted)) in
      (
        below,
        subst (λ g. Some (Named host_path g mode) (mounts_at (some root) p))
            (sym (safe_guest_path-same guest_path guest guest_ok))
            (Binds-Named (mounts_at (some root) p) base guest host_path (mode_of selected.1) mode
              (resolved ∙ sym (some-injective _ _ expected)) named found.planned),
      )

  on_mount-Allowed :
      (host_path guest_path : Text) (mode : String) (root : Option Text) (e : Enforcer)
      (r : Result PolicyReason (Text × Text))
      → judge_mount_at world set root host_path guest_path mode ≡ r
      → Allowed world set
          (on_mount world set (mount_claim world set host_path guest_path mode) mode r e)
      → (base : Text) × (kept : Text × Text) × (root ≡ some base)
        × (judge_mount world set base host_path guest_path mode ≡ ok kept)
  unfolding decide
  on_mount-Allowed host_path guest_path mode root e (err reason) h a = cc
  on_mount-Allowed host_path guest_path mode none e (ok kept) h a = cc
  on_mount-Allowed host_path guest_path mode (some base) e (ok kept) h a = (base, kept, refl, h)

  -- A mount that is allowed resolves below the run root, and is, up to the resolution of its host path, one
  -- of the mounts of the plan, with the mode that the plan gives it; and the enforcer is live.
  pub check_mount-Named :
      (host_path guest_path : Text) (mode : String) (candidate : Option Text) (e : Enforcer)
      → (check_mount world set host_path guest_path mode candidate e).0.allowed ≡ true
      → Live world set candidate false e
        × (root : Text) × (set.run_root ≡ some root)
        × StaysBelow host_path root
        × Some (Named host_path guest_path mode) (mounts set)
  unfolding check_mount mounts
  check_mount-Named host_path guest_path mode candidate e h =
      let c = mount_claim world set host_path guest_path mode in
      let r = judge_mount_at world set set.run_root host_path guest_path mode in
      let (live, h1) =
        (Turn-Allowed world set c (on_mount world set c mode r) e
            (check_mount world set host_path guest_path mode candidate e)
            (unless-Turn world set c (common_denial world set candidate false e)
              (on_mount world set c mode r) e (common_denial-Guard world set candidate false e))).0
          h in
      let (root, kept, rooted, judged) =
        on_mount-Allowed host_path guest_path mode set.run_root
          (later e e.sequence (suc e.readings)) r refl h1 in
      let (below, named) = judge_mount-Named root host_path guest_path mode kept rooted judged in
      (
        live,
        root,
        rooted,
        below,
        subst (λ o. Some (Named host_path guest_path mode) (mounts_at o set.storage_policy))
            (sym rooted) named,
      )
