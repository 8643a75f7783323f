-- ===== src/Enforcer/Plan.antt =====
-- Which mounts are in the plan of an enforcer, and that a mount of the plan is allowed.
use testudo.Prelude.{
  Some, ◌≡◌, refl, sym, ap, ◌∙◌, true, false, inl, inr, List, [], ◌∷◌, Option, none, some,
  Bool-cases, arith, Comparable-nat, Comparable-list, Comparable-string, ◌==◌, ==_refl, ==_iff,
  length, drop, some-injective,
}
use testudo.Policy.Path.{Text, under}
use testudo.Policy.Storage.{CacheAccess}
use testudo.Enforcer.{MountBinding, MountMode}
use testudo.Enforcer.Paths.{
  join, mode_of, cache_mount, plan, candidates, cache_candidate, first_under, base_of, inputs_name,
  cache_name,
}

-- A mount as the plan has it.
pub record Binds (base guest : Text) (mode : MountMode) (m : MountBinding) : Type 0 where
  pub same_guest : guest ≡ m.guest_path
  pub same_mode : mode ≡ m.mode
  pub same_host : base ≡ m.host_path

under_refl : (g : Text) → under g g ≡ true
unfolding under
under_refl g = ground (arith, ==_refl g)

under-== : (g p : Text) → under g p ≡ false → (g == p) ≡ false
unfolding under
under-== g p h = ground arith

pub drop_all : (g : Text) → drop (length g) g ≡ []
drop_all [] = refl
drop_all (c ∷ g) = drop_all g

-- What is chosen first for a guest path that is that very path.
pub record Chosen (base guest : Text) (mode : MountMode) (ms : List MountBinding)
    (found : Option Text) : Type 0 where
  pub based : found ≡ some base
  pub planned : Some (Binds base guest mode) ms

cache-Chosen :
    (root workspace inputs guest : Text) (cache : Option Text) (a : CacheAccess)
    (selected : Text × CacheAccess)
    → first_under guest (cache_candidate cache a) ≡ some selected
    → guest ≡ selected.0
    → under guest workspace ≡ false
    → under guest inputs ≡ false
    → (base : Text) × Chosen base guest
        (mode_of selected.1)
        (cache_mount cache a root)
        (base_of workspace inputs cache guest root)
cache-Chosen root workspace inputs guest none a selected h same w i = cc
cache-Chosen root workspace inputs guest (some cache) a selected h same w i =
    elim (Bool-cases (under guest cache)) [
      | inl below ↦
          let picked : (cache, a) ≡ selected = some-injective _ _ (rw below at h) in
          let here : guest ≡ cache = same ∙ sym (ap (λ (x : Text × CacheAccess). x.0) picked) in
          let other = under-== guest workspace w in
          let another = under-== guest inputs i in
          let equal : (guest == cache) ≡ true = (==_iff guest cache).1 here in
          (
            join root cache_name,
            record {
              based = simp (other, another, equal) refl;
              planned = inl (record {
                same_guest = here;
                same_mode = ap (λ (x : Text × CacheAccess). mode_of x.1) (sym picked);
                same_host = refl;
              });
            },
          )
      | inr above ↦ cc (rw above at h)
    ]

inputs-Chosen :
    (root workspace inputs guest : Text) (cache : Option Text) (a : CacheAccess)
    (selected : Text × CacheAccess)
    → first_under guest ((inputs, CacheAccess.read_only) ∷ cache_candidate cache a) ≡ some selected
    → guest ≡ selected.0
    → under guest workspace ≡ false
    → (base : Text) × Chosen base guest
        (mode_of selected.1)
        (plan root workspace inputs cache a)
        (base_of workspace inputs cache guest root)
inputs-Chosen root workspace inputs guest cache a selected h same w =
    elim (Bool-cases (under guest inputs)) [
      | inl below ↦
          let picked : (inputs, CacheAccess.read_only) ≡ selected =
            some-injective _ _ (rw below at h) in
          let here : guest ≡ inputs = same ∙ sym (ap (λ (x : Text × CacheAccess). x.0) picked) in
          let other = under-== guest workspace w in
          let equal : (guest == inputs) ≡ true = (==_iff guest inputs).1 here in
          (
            join root inputs_name,
            record {
              based = simp (other, equal) refl;
              planned = inr (
                  inl (record {
                    same_guest = here;
                    same_mode = ap (λ (x : Text × CacheAccess). mode_of x.1) (sym picked);
                    same_host = refl;
                  }));
            },
          )
      | inr above ↦
          let (base, found) =
            cache-Chosen root workspace inputs guest cache a selected (rw above at h) same w
              above in
          (base, record { based = found.based; planned = inr (inr found.planned) })
    ]

pub candidates-Chosen :
    (root workspace inputs guest : Text) (cache : Option Text) (a : CacheAccess)
    (selected : Text × CacheAccess)
    → first_under guest (candidates workspace inputs cache a) ≡ some selected
    → guest ≡ selected.0
    → (base : Text) × Chosen base guest
        (mode_of selected.1)
        (plan root workspace inputs cache a)
        (base_of workspace inputs cache guest root)
candidates-Chosen root workspace inputs guest cache a selected h same =
    elim (Bool-cases (under guest workspace)) [
      | inl below ↦
          let picked : (workspace, CacheAccess.read_write) ≡ selected =
            some-injective _ _ (rw below at h) in
          let here : guest ≡ workspace = same ∙ sym (ap (λ (x : Text × CacheAccess). x.0) picked) in
          let equal : (guest == workspace) ≡ true = (==_iff guest workspace).1 here in
          (
            root,
            record {
              based = simp (equal) refl;
              planned = inl (record {
                same_guest = here;
                same_mode = ap (λ (x : Text × CacheAccess). mode_of x.1) (sym picked);
                same_host = refl;
              });
            },
          )
      | inr above ↦
          inputs-Chosen root workspace inputs guest cache a selected (rw above at h) same above
    ]

-- A mount of the plan is chosen for its guest path, where no path is at or below another one.
pub record Found (base guest : Text) (mode : MountMode) (chosen_first : Option (Text × CacheAccess))
    (found : Option Text) : Type 0 where
  pub access : CacheAccess
  pub first : chosen_first ≡ some (guest, access)
  pub same_mode : mode ≡ mode_of access
  pub based : found ≡ some base

pub workspace-Found :
    (root workspace inputs : Text) (cache : Option Text) (a : CacheAccess)
    → Found root workspace MountMode.rw
        (first_under workspace (candidates workspace inputs cache a))
        (base_of workspace inputs cache workspace root)
workspace-Found root workspace inputs cache a =
    let below = under_refl workspace in
    let equal = ==_refl workspace in
    record {
      access = CacheAccess.read_write;
      first = simp (below) refl;
      same_mode = refl;
      based = simp (equal) refl;
    }

pub inputs-Found :
    (root workspace inputs : Text) (cache : Option Text) (a : CacheAccess)
    → under inputs workspace ≡ false
    → Found
        (join root inputs_name)
        inputs
        MountMode.ro
        (first_under inputs (candidates workspace inputs cache a))
        (base_of workspace inputs cache inputs root)
inputs-Found root workspace inputs cache a apart =
    let below = under_refl inputs in
    let equal = ==_refl inputs in
    let other = under-== inputs workspace apart in
    record {
      access = CacheAccess.read_only;
      first = simp (apart, below) refl;
      same_mode = refl;
      based = simp (other, equal) refl;
    }

pub cache-Found :
    (root workspace inputs cache : Text) (a : CacheAccess)
    → under cache workspace ≡ false
    → under cache inputs ≡ false
    → Found
        (join root cache_name)
        cache
        (mode_of a)
        (first_under cache (candidates workspace inputs (some cache) a))
        (base_of workspace inputs (some cache) cache root)
cache-Found root workspace inputs cache a w i =
    let below = under_refl cache in
    let equal = ==_refl cache in
    let other = under-== cache workspace w in
    let another = under-== cache inputs i in
    record {
      access = a;
      first = simp (w, i, below) refl;
      same_mode = refl;
      based = simp (other, another, equal) refl;
    }
