-- ===== src/Enforcer/Paths.antt =====
-- The paths of src/testudo/runtime/policy_enforcer.py: `_safe_guest_path`, `_safe_host_path`, the mounts
-- that a policy declares, and where they lead on the host.
use testudo.Prelude.{
  ℕ, String, Bool, true, false, not, ◌&&◌, ◌||◌, List, [], ◌∷◌, ◌++◌, Option, none, some, Result,
  ok, ◌>>◌, raise_if, ◌==◌, Comparable-nat, Comparable-list, any, length, drop, if◌then◌else◌,
}
use testudo.Policy.Path.{Text, starts, under, split_slash, has_double, ends_slash, is_dots}
use testudo.Policy.Storage.{StoragePolicy, CacheAccess}
use testudo.Enforcer.{PolicyReason, World, PolicySetting, MountMode, MountBinding}

-- `"\x00" in value or "\\" in value`
abbrev pub is_raw : ℕ → Bool
is_raw c = c == 0 || c == b'\\'

abbrev root_path : Text
root_path = b'/' ∷ []

unfoldable pub safe_guest_path : Text → Result PolicyReason Text
safe_guest_path value =
    raise_if (not (starts value root_path)) PolicyReason.guest_not_absolute
    >> (raise_if
          (any is_raw value || has_double value || ends_slash value && not (value == root_path))
          PolicyReason.guest_not_canonical
        >> (raise_if (any is_dots (split_slash value)) PolicyReason.guest_traversal >> ok value))

-- `PurePosixPath(raw).parts` without the root: "." and empty parts are left out.
abbrev keep : Text → List Text → List Text
keep part parts = if part == [] || part == b'.' ∷ [] then parts else part ∷ parts

abbrev kept_of : List Text → List Text
kept_of [] = []
kept_of (part ∷ parts) = keep part (kept_of parts)

unfoldable pub posix_parts : Text → List Text
posix_parts raw = kept_of (split_slash raw)

-- `candidate.relative_to(root)`, which raises unless the parts of the root come first.
unfoldable pub relative : List Text → List Text → Bool
relative parts [] = true
relative [] (r ∷ root) = false
relative (p ∷ parts) (r ∷ root) = p == r && relative parts root

unfoldable pub safe_host_path : World → Text → Text → Result PolicyReason Text
safe_host_path world run_root raw =
    let resolved_root = world.resolve run_root in
    let resolved = world.resolve raw in
    raise_if (not (starts raw root_path)) PolicyReason.host_not_absolute
    >> (raise_if (any is_raw raw) PolicyReason.host_not_canonical
        >> (raise_if (any is_dots (posix_parts raw)) PolicyReason.host_traversal
            >> (raise_if (not (relative (posix_parts resolved) (posix_parts resolved_root)))
                  PolicyReason.host_outside
                >> ok resolved)))

-- `base / suffix`
unfoldable pub join : Text → Text → Text
join base [] = base
join base (c ∷ suffix) = base ++ b'/' ∷ c ∷ suffix

abbrev pub inputs_name : Text
inputs_name = b'i' ∷ b'n' ∷ b'p' ∷ b'u' ∷ b't' ∷ b's' ∷ []

abbrev pub cache_name : Text
cache_name = b'c' ∷ b'a' ∷ b'c' ∷ b'h' ∷ b'e' ∷ []

-- `"rw" if access == "read_write" else "ro"`
abbrev pub mode_of : CacheAccess → MountMode
mode_of CacheAccess.read_write = MountMode.rw
mode_of CacheAccess.read_only = MountMode.ro
mode_of CacheAccess.no_access = MountMode.ro

abbrev pub mode_name : MountMode → String
mode_name MountMode.rw = "rw"
mode_name MountMode.ro = "ro"

abbrev pub cache_mount : Option Text → CacheAccess → Text → List MountBinding
cache_mount none a root = []
cache_mount (some cache) a root =
    record { host_path = join root cache_name; guest_path = cache; mode = mode_of a } ∷ []

abbrev pub plan : Text → Text → Text → Option Text → CacheAccess → List MountBinding
plan root workspace inputs cache a =
    record { host_path = root; guest_path = workspace; mode = MountMode.rw }
    ∷ record { host_path = join root inputs_name; guest_path = inputs; mode = MountMode.ro }
    ∷ cache_mount cache a root

abbrev pub mounts_at : Option Text → StoragePolicy → List MountBinding
mounts_at none p = []
mounts_at (some root) p = plan root p.workspace p.inputs p.cache p.cache_access

unfoldable pub mounts : PolicySetting → List MountBinding
mounts set = mounts_at set.run_root set.storage_policy

abbrev pub cache_candidate : Option Text → CacheAccess → List (Text × CacheAccess)
cache_candidate none a = []
cache_candidate (some cache) a = (cache, a) ∷ []

abbrev pub first_under : Text → List (Text × CacheAccess) → Option (Text × CacheAccess)
first_under guest [] = none
first_under guest ((prefix, a) ∷ rest) =
    if under guest prefix then some (prefix, a) else first_under guest rest

abbrev pub candidates : Text → Text → Option Text → CacheAccess → List (Text × CacheAccess)
candidates workspace inputs cache a =
    (workspace, CacheAccess.read_write) ∷ (inputs, CacheAccess.read_only) ∷ cache_candidate cache a

unfoldable pub mount_for_guest : StoragePolicy → Text → Option (Text × CacheAccess)
mount_for_guest p guest = first_under guest (candidates p.workspace p.inputs p.cache p.cache_access)

-- `lstrip("/")`
unfoldable pub lstrip_slashes : Text → Text
lstrip_slashes [] = []
lstrip_slashes (c ∷ s) = let rest = lstrip_slashes s in if c == b'/' then rest else c ∷ s

abbrev pub is_cache : Option Text → Text → Bool
is_cache none prefix = false
is_cache (some cache) prefix = prefix == cache

abbrev pub base_of : Text → Text → Option Text → Text → Text → Option Text
base_of workspace inputs cache prefix root =
    if prefix == workspace
    then some root
    else if prefix == inputs
    then some (join root inputs_name)
    else if is_cache cache prefix
    then some (join root cache_name)
    else none

abbrev pub resolved_below : World → Text → Option Text → Option Text
resolved_below world suffix none = none
resolved_below world suffix (some base) = some (world.resolve (join base suffix))

abbrev pub expected_at : World → StoragePolicy → Text → Text → Option Text → Option Text
expected_at world p guest prefix none = none
expected_at world p guest prefix (some root) =
    resolved_below world (lstrip_slashes (drop (length prefix) guest))
      (base_of p.workspace p.inputs p.cache prefix root)

unfoldable pub expected_host_path : World → PolicySetting → Text → Text → Option Text
expected_host_path world set guest prefix =
    expected_at world set.storage_policy guest prefix set.run_root

-- `_validate_run_root`, of a path that is given
pub data RootError : Type 0 where
  root_not_absolute root_not_canonical root_traversal root_symlink host_root : RootError

unfoldable pub validate_run_root : World → Text → Result RootError Text
validate_run_root world raw =
    raise_if (not (starts raw root_path)) RootError.root_not_absolute
    >> (raise_if (any is_raw raw) RootError.root_not_canonical
        >> (raise_if (any is_dots (posix_parts raw)) RootError.root_traversal
            >> (raise_if (world.is_symlink raw) RootError.root_symlink >> ok (world.resolve raw))))
