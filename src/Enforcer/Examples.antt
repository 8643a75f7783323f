-- ===== src/Enforcer/Examples.antt =====
-- An enforcer of a run in a folder, with its launch, its requests, its publication and its wipe.
use Prim.Native.Char.{code}
use testudo.Prelude.{
  arith, Some, ◌≡◌, ◌≤◌, ◌+◌, ◌↔◌, inr, refl, Bool, true, false, List, [], ◌∷◌, none, some, ℤ,
  String, ok, All, Comparable-nat, Comparable-list, Comparable-int, Comparable-string,
}
use testudo.Prelude.Text.{is_space}
use testudo.Policy.Path.{Text, starts, under, split_slash, has_double, validate_guest_path}
use testudo.Policy.Storage.{
  StoragePhase, CacheAccess, StoragePolicy, validate_cache, any_overlap, validate_storage_boundary,
  validate_storage,
}
use testudo.Policy.Host.{
  contains, rstrip_dots, ends, is_label, labels_of, validate_name, validate_host,
}
use testudo.Policy.Network.{NetworkPhase, NetworkPurpose, NetworkPolicy}
use testudo.Enforcer.{
  PolicyReason, PolicySetting, Enforcer, World, PolicyDecision, is_policy_digest, verify_receipt,
}
use testudo.Enforcer.Decisions.{decide, bound_denial, common_denial, network_expiry_reason}
use testudo.Enforcer.Paths.{
  safe_guest_path, safe_host_path, posix_parts, relative, join, mounts, mount_for_guest,
  lstrip_slashes, expected_host_path, validate_run_root,
}
use testudo.Enforcer.Mounts.{judge_mount, check_mount, each_mount, before_launch}
use testudo.Enforcer.Egress.{NetworkRequest, judge_network, check_network}
use testudo.Enforcer.Publication.{
  Given, judge_launch, judge_publication, before_publication, check_policy_digest, wipe_once, wipe,
}
use testudo.Enforcer.Init.{Arguments, as_timestamp, binding_error_of, new_enforcer}
use testudo.Enforcer.Guards.{Live}
use testudo.Enforcer.Course.{PolicyCall, perform_call, run_calls}
use testudo.Enforcer.Effects.{Bound, flag}
use testudo.Enforcer.Limits.{
  Counted, run_calls-Counted, publications, run_calls-Published, Denied, run_calls-Ended,
}
use testudo.Enforcer.Bindings.{StaysBelow, Named, check_mount-Named}
use testudo.Enforcer.Allowed.{Admissible, check_network-Admissible}
use testudo.Enforcer.Mismatch.{new_enforcer-Denied}
use testudo.Enforcer.Launch.{before_launch-Admitted}

abbrev text : String → Text
text String.[] = []
text (String.◌∷◌ c s) = code c ∷ text s

abbrev zero_digest : Text
zero_digest = text "0000000000000000000000000000000000000000000000000000000000000000"

abbrev world : World
world = record {
  sha256 = λ p. p.sequence ∷ [];
  clock = λ n. n;
  resolve = λ path. path;
  is_symlink = λ path. false;
  names = record { ip_address = λ t. none; lower = λ t. t; strip = λ t. t };
  upper = λ m. m;
}

abbrev storage : StoragePolicy
storage = record {
  phase = StoragePhase.provision;
  workspace = text "/runs/a";
  inputs = text "/inputs";
  cache = some (text "/cache");
  cache_access = CacheAccess.read_write;
  host_mounts = [];
}

abbrev network : NetworkPolicy
network = record {
  phase = NetworkPhase.provision;
  purpose = NetworkPurpose.dependency_fetch;
  egress_hosts = text "pypi.org" ∷ [];
  egress_ports = ℤ.pos 443 ∷ [];
  methods = "GET" ∷ [];
  max_bytes = some (ℤ.pos 1000);
  max_duration_seconds = some (ℤ.pos 600);
  cache_write = true;
}

abbrev arguments : Arguments
arguments = record {
  storage_policy = storage;
  network_policy = network;
  policy_expires_at = none;
  run_root = some (text "/srv/run");
  expected_digest = none;
  policy_digest = none;
  expires_at = none;
  callbacks = 1;
}

abbrev set : PolicySetting
set = record {
  storage_policy = storage;
  network_policy = network;
  run_root = some (text "/srv/run");
  policy_digest = zero_digest;
  binding_error = none;
  started_at = 0;
  expires_at = none;
}

abbrev new : Enforcer
new = record {
  network_bytes = 0;
  sequence = 0;
  readings = 1;
  launch_receipt = none;
  published = false;
  wipe_state = record { has_callback = true; wiped = false; receipt = none; calls = 0 };
}

created : new_enforcer world (λ s n. zero_digest) arguments ≡ ok (set, new)
unfolding new_enforcer as_timestamp binding_error_of is_policy_digest validate_run_root posix_parts
    starts split_slash
created = refl

abbrev pypi_request : NetworkRequest
pypi_request = record {
  host = text "pypi.org";
  port = ℤ.pos 443;
  method = "GET";
  phase = none;
  purpose = none;
  byte_count = ℤ.pos 600;
  bytes = none;
  policy_digest = none;
  elapsed_seconds = none;
}

abbrev all_calls : List PolicyCall
all_calls =
    PolicyCall.launching none
    ∷ PolicyCall.requesting pypi_request
    ∷ PolicyCall.requesting pypi_request
    ∷ PolicyCall.publishing Given.nothing_given none (ℤ.pos 10) none
    ∷ PolicyCall.publishing Given.nothing_given none (ℤ.pos 10) none
    ∷ PolicyCall.wiping true "end"
    ∷ PolicyCall.wiping false "end"
    ∷ PolicyCall.checking none
    ∷ []

abbrev answers : List PolicyDecision → List (Bool × PolicyReason)
answers [] = []
answers (d ∷ ds) = (d.allowed, d.reason) ∷ answers ds

all_calls-answers :
    answers (run_calls world set all_calls new).0
    ≡ (true, PolicyReason.plan_enforceable)
      ∷ (true, PolicyReason.egress_exact)
      ∷ (false, PolicyReason.byte_limit)
      ∷ (true, PolicyReason.publication_bound)
      ∷ (false, PolicyReason.already_published)
      ∷ (false, PolicyReason.digest_required)
      ∷ []
unfolding run_calls perform_call before_launch each_mount check_mount judge_mount check_network
    judge_network before_publication judge_launch judge_publication wipe wipe_once
    check_policy_digest common_denial bound_denial network_expiry_reason decide verify_receipt
    is_policy_digest safe_guest_path safe_host_path posix_parts relative join mounts mount_for_guest
    lstrip_slashes expected_host_path starts under split_slash has_double validate_host
    validate_name contains rstrip_dots ends is_label labels_of is_space
all_calls-answers = refl

run_calls-Counted_example :
    Counted world set new
      (run_calls world set all_calls new).0
      (run_calls world set all_calls new).1
run_calls-Counted_example = run_calls-Counted world set all_calls new

run_calls-Published_example :
    (flag new.published + publications (run_calls world set all_calls new).0 ≤ 1)
    × All (Bound world set) (run_calls world set all_calls new).0
run_calls-Published_example = run_calls-Published world set all_calls new

abbrev wiped : Enforcer
wiped = record new {
  wipe_state = record { has_callback = true; wiped = true; receipt = none; calls = 1 };
}

run_calls-Ended_example :
    All Denied (run_calls world set all_calls wiped).0
    × ((run_calls world set all_calls wiped).1.wipe_state.wiped ≡ true)
run_calls-Ended_example = run_calls-Ended world set all_calls wiped refl

request_allowed : (check_network world set pypi_request new).0.allowed ≡ true
unfolding check_network judge_network common_denial bound_denial network_expiry_reason decide starts
    validate_host validate_name contains rstrip_dots ends is_label labels_of is_space
request_allowed = refl

check_network-Admissible_example :
    ((check_network world set pypi_request new).0.allowed ≡ true)
    ↔ Admissible world set pypi_request new
check_network-Admissible_example = check_network-Admissible world set pypi_request new

mount_allowed :
    (check_mount world set (text "/srv/run/inputs") (text "/inputs") "ro" none new).0.allowed ≡ true
unfolding check_mount judge_mount common_denial bound_denial decide safe_guest_path safe_host_path
    posix_parts relative join mount_for_guest lstrip_slashes expected_host_path starts under
    split_slash has_double
mount_allowed = refl

check_mount-Named_example :
    Live world set none false new
    × (root : Text) × (set.run_root ≡ some root)
    × StaysBelow world set (text "/srv/run/inputs") root
    × Some (Named world set (text "/srv/run/inputs") (text "/inputs") "ro") (mounts set)
check_mount-Named_example =
    check_mount-Named world set (text "/srv/run/inputs") (text "/inputs") "ro" none new
      mount_allowed

storage_accepted : validate_storage storage ≡ ok storage
unfolding validate_storage validate_storage_boundary validate_cache any_overlap validate_guest_path
    starts has_double split_slash under is_space
storage_accepted = refl

-- The policy expires at the reading behind the last check of the launch.
abbrev expiring : PolicySetting
expiring = record set { expires_at = some 9 }

before_launch-Admitted_example :
    ((before_launch world expiring none new).0.allowed ≡ true)
    × ((before_launch world expiring none new).1.launch_receipt
        ≡ some (before_launch world expiring none new).0.receipt)
unfolding safe_host_path posix_parts relative join mounts starts split_slash
before_launch-Admitted_example =
    before_launch-Admitted world expiring (text "/srv/run") refl storage none new storage_accepted
      (refl, (refl, (refl, tt)))
      (record { bound = refl; given = refl; matched = refl; unwiped = refl; unexpired = refl })
      (λ n early. ground (arith, early)) refl

abbrev mistaken : Arguments
mistaken = record arguments { policy_digest = some (text "abc") }

mistaken_arguments :
    new_enforcer world (λ s n. zero_digest) mistaken
    ≡ ok (record set { binding_error = some PolicyReason.binding_malformed }, new)
unfolding new_enforcer as_timestamp binding_error_of is_policy_digest validate_run_root posix_parts
    starts split_slash
mistaken_arguments = refl

new_enforcer-Denied_example :
    All Denied
      (run_calls world
        (record set { binding_error = some PolicyReason.binding_malformed })
        all_calls
        new).0
new_enforcer-Denied_example =
    new_enforcer-Denied world (λ s n. zero_digest) mistaken
      (record set { binding_error = some PolicyReason.binding_malformed }) new (text "abc")
      all_calls new mistaken_arguments (inr refl) (λ h. cc)
