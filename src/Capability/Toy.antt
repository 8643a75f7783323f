-- ===== src/Capability/Toy.antt =====
-- A token that verifies under a toy library.
use testudo.Prelude.{
  ℕ, String, ◌≡◌, refl, [], ◌∷◌, Option, none, some, ok, Comparable-string, Comparable-nat, ◌==◌,
  if◌then◌else◌,
}
use testudo.Prelude.Dict.{get}
use testudo.Capability.{Token, payload, to_dict}
use testudo.Capability.Verify.{
  Library, Keys, canonical, parse_time, text_field, list_field, gather, from_payload,
  compare_digest, unsigned, check_signature, check_times, verify,
}

abbrev clock_text : ℕ → String
clock_text t = if t == 10 then "t10" else if t == 30 then "t30" else "later"

abbrev text_clock : String → Option ℕ
text_clock s = if s == "t10" then some 10 else if s == "t30" then some 30 else none

abbrev pub library : Library
library = record {
  canonical = λ d. some [];
  hmac = λ key bytes. "mac";
  format_time = clock_text;
  parse_time = text_clock;
}

abbrev pub keys : Keys
keys = record { signing_key = some (1 ∷ []); signer = none }

abbrev pub token : Token
token = record {
  token_id = "id";
  run_id = "run";
  lease_id = "lease";
  host_id = "host";
  vm_id = "vm";
  repository = "repo";
  branch = "agent/fix";
  base_sha = "0123456789012345678901234567890123456789";
  capabilities = "git.push" ∷ [];
  allowed_paths = [];
  allowed_commands = [];
  issued_at = "t10";
  expires_at = "t30";
  nonce = "nonce";
  signature = "mac";
  signature_algorithm = "HS256";
  key_id = "prototype";
}

pub token_verifies : verify library keys 20 (to_dict token) ≡ ok token
unfolding verify to_dict payload unsigned check_signature canonical compare_digest from_payload
    gather text_field list_field parse_time check_times get
token_verifies = refl
