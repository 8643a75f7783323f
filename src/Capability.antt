-- ===== src/Capability.antt =====
-- src/testudo/runtime/capability.py: the capability token with its payload. Signing and checking,
-- and the supervisor of a worker, are the modules below.
pub mod Verify
pub mod Issue
pub mod Toy
pub mod Supervisor
pub mod RoundTrip
pub mod Issued
use Prim.Native.Char.{code}
use testudo.Prelude.{
  ℕ, String, Bool, true, false, not, ◌&&◌, ◌||◌, List, [], ◌∷◌, ◌++◌, Option, none, some, Result,
  ok, err, ◌>>=◌, ◌>>◌, raise_if, ◌==◌, Comparable-string, ltb, if◌then◌else◌,
}
use testudo.Prelude.Dict.{Dict, get, set}
use testudo.Value.{Value, Items}

-- The messages of `CapabilityError`, and the `TypeError` of the library's functions.
pub data Reason : Type 0 where
  both_signers no_signer signer_required scope_required not_agent_branch bad_base_sha : Reason
  no_verifier unsupported signer_mismatch asymmetric signature_mismatch : Reason
  missing_field bad_metadata not_yet_valid expired : Reason
  not_string_list not_granted invalid_timestamp : String → Reason

pub data Raised : Type 0 where
  capability_error : Reason → Raised
  type_error : Raised

pub record Token : Type 0 where
  pub token_id : String
  pub run_id : String
  pub lease_id : String
  pub host_id : String
  pub vm_id : String
  pub repository : String
  pub branch : String
  pub base_sha : String
  pub capabilities : List String
  pub allowed_paths : List String
  pub allowed_commands : List String
  pub issued_at : String
  pub expires_at : String
  pub nonce : String
  pub signature : String
  pub signature_algorithm : String
  pub key_id : String

abbrev pub schema : String
schema = "contained_capability.v1"

-- `list(strings)`
abbrev pub items_of : List String → Items
items_of [] = Items.nil
items_of (s ∷ l) = Items.cons (Value.str s) (items_of l)

-- The entries that the payload of every token has.
abbrev pub base_payload : Token → Dict Value
base_payload t =
    ("schema", Value.str schema)
    ∷ ("token_id", Value.str t.token_id)
    ∷ ("run_id", Value.str t.run_id)
    ∷ ("lease_id", Value.str t.lease_id)
    ∷ ("host_id", Value.str t.host_id)
    ∷ ("vm_id", Value.str t.vm_id)
    ∷ ("repository", Value.str t.repository)
    ∷ ("branch", Value.str t.branch)
    ∷ ("base_sha", Value.str t.base_sha)
    ∷ ("capabilities", Value.list (items_of t.capabilities))
    ∷ ("allowed_paths", Value.list (items_of t.allowed_paths))
    ∷ ("allowed_commands", Value.list (items_of t.allowed_commands))
    ∷ ("issued_at", Value.str t.issued_at)
    ∷ ("expires_at", Value.str t.expires_at)
    ∷ ("nonce", Value.str t.nonce)
    ∷ []

abbrev pub with_signer : Dict Value → String → String → Dict Value
with_signer payload algorithm key_id =
    payload ++ ("signature_alg", Value.str algorithm) ∷ ("key_id", Value.str key_id) ∷ []

-- `CapabilityToken.payload`
unfoldable pub payload : Token → Dict Value
payload t =
    if t.signature_algorithm == "HS256"
    then base_payload t
    else with_signer (base_payload t) t.signature_algorithm t.key_id

unfoldable pub to_dict : Token → Dict Value
to_dict t = payload t ++ ("signature", Value.str t.signature) ∷ []
