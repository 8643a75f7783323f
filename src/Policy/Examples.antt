-- ===== src/Policy/Examples.antt =====
-- Policies that are accepted and refused, to which the theorems are applied.
use Prim.Native.Char.{code}
use testudo.Prelude.{
  ◌≡◌, refl, true, [], ◌∷◌, none, some, ℤ, String, ok, err, Comparable-nat, Comparable-list,
  Comparable-int, Comparable-string,
}
use testudo.Prelude.Text.{is_space}
use testudo.Policy.Path.{
  PolicyError, Text, starts, under, split_slash, has_double, validate_guest_path, validate_limit,
}
use testudo.Policy.Storage.{
  StoragePhase, CacheAccess, StoragePolicy, validate_cache, any_overlap, validate_storage_boundary,
  validate_storage, Contained, validate_storage-Contained, runs_prefix,
}
use testudo.Policy.Host.{
  HostError, Names, contains, rstrip_dots, ends, is_label, labels_of, validate_name, validate_host,
}
use testudo.Policy.Network.{
  NetworkPhase, NetworkPurpose, NetworkPolicy, each_host, normalize_hosts, validate_ports,
  normalize_methods, check_access, validate_phase_purpose, validate_network,
}
use testudo.Policy.Egress.{Egress, validate_network-Egress}

abbrev text : String → Text
text String.[] = []
text (String.◌∷◌ c s) = code c ∷ text s

path_accepted : validate_guest_path runs_prefix (text "/runs/a/b") ≡ ok (text "/runs/a/b")
unfolding validate_guest_path starts has_double split_slash under is_space
path_accepted = refl

traversal_refused :
    validate_guest_path runs_prefix (text "/runs/../host") ≡ err PolicyError.traversal
unfolding validate_guest_path starts has_double split_slash under is_space
traversal_refused = refl

sibling_refused : validate_guest_path runs_prefix (text "/runs2") ≡ err PolicyError.outside
unfolding validate_guest_path starts has_double split_slash under is_space
sibling_refused = refl

abbrev storage : StoragePolicy
storage = record {
  phase = StoragePhase.evaluation;
  workspace = text "/runs/a";
  inputs = text "/inputs";
  cache = some (text "/cache");
  cache_access = CacheAccess.read_only;
  host_mounts = [];
}

storage_accepted : validate_storage storage ≡ ok storage
unfolding validate_storage validate_storage_boundary validate_cache any_overlap validate_guest_path
    starts has_double split_slash under is_space
storage_accepted = refl

writable_refused :
    validate_storage (record storage { cache_access = CacheAccess.read_write })
    ≡ err PolicyError.writable_evaluation
unfolding validate_storage validate_storage_boundary validate_cache any_overlap validate_guest_path
    starts has_double split_slash under is_space
writable_refused = refl

validate_storage-Contained_example : Contained storage
validate_storage-Contained_example = validate_storage-Contained storage storage storage_accepted

abbrev names : Names
names = record { ip_address = λ t. none; lower = λ t. t; strip = λ t. t }

abbrev network : NetworkPolicy
network = record {
  phase = NetworkPhase.provision;
  purpose = NetworkPurpose.dependency_fetch;
  egress_hosts = text "pypi.org" ∷ [];
  egress_ports = ℤ.pos 443 ∷ [];
  methods = "GET" ∷ [];
  max_bytes = some (ℤ.pos 1000);
  max_duration_seconds = some (ℤ.pos 60);
  cache_write = true;
}

network_accepted : validate_network names (λ m. m) network ≡ ok network
unfolding validate_network validate_phase_purpose check_access normalize_methods validate_ports
    normalize_hosts each_host validate_host validate_name validate_limit contains rstrip_dots ends
    is_label labels_of starts is_space
network_accepted = refl

local_refused : validate_host names (text "db.internal") ≡ err HostError.unsafe_host
unfolding validate_host validate_name contains rstrip_dots ends is_label labels_of starts is_space
local_refused = refl

validate_network-Egress_example : Egress network
validate_network-Egress_example =
    validate_network-Egress names (λ m. m) network network network_accepted
