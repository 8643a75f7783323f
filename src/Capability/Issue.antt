-- ===== src/Capability/Issue.antt =====
-- `CapabilityToken.issue` with `_sign_payload`. The random id and nonce and the clock are arguments.
use Prim.Native.Char.{code}
use Prim.Native.String.{count}
use testudo.Prelude.{
  ℕ, zero, suc, ◌+◌, String, Bool, true, not, ◌&&◌, ◌||◌, List, [], ◌∷◌, Option, none, some, ℤ,
  Result, ok, ◌>>=◌, ◌>>◌, raise_if, ◌==◌, Comparable-string, Comparable-nat, leb,
}
use testudo.Prelude.Dict.{Dict}
use testudo.Prelude.Text.{starts_with}
use testudo.Value.{Value}
use testudo.Capability.{Reason, Raised, Token, base_payload, with_signer}
use testudo.Capability.Verify.{
  Bytes, Library, Signer, Keys, canonical, from_payload, refuse, not_one,
}

-- The keyword arguments beside the keys, the lifetime and the clock.
pub record Grant : Type 0 where
  pub run_id : String
  pub lease_id : String
  pub host_id : String
  pub vm_id : String
  pub repository : String
  pub branch : String
  pub base_sha : String
  pub capabilities : List String
  pub allowed_paths : List String
  pub allowed_commands : List String

abbrev is_hex : ℕ → Bool
is_hex c = leb b'0' c && leb c b'9' || leb b'a' c && leb c b'f'

abbrev all_hex : String → Bool
all_hex String.[] = true
all_hex (String.◌∷◌ c s) = is_hex (code c) && all_hex s

unfoldable pub is_digest : String → Bool
is_digest s = (count s == 40 || count s == 64) && all_hex s

-- `lifetime <= timedelta(0)` holds for `none`.
abbrev pub positive : ℤ → Option ℕ
positive (ℤ.pos zero) = none
positive (ℤ.pos (suc n)) = some (suc n)
positive (ℤ.negsuc n) = none

-- `all((run_id, ..., base_sha))`
abbrev pub is_complete : Grant → Bool
is_complete g = not (
    g.run_id == ""
    || g.lease_id == ""
    || g.host_id == ""
    || g.vm_id == ""
    || g.repository == ""
    || g.branch == ""
    || g.base_sha == "")

-- The payload as a token without a signature.
abbrev pub unsigned_token : Library → Grant → String → String → ℕ → ℕ → Token
unsigned_token lib g token_id nonce issued lifetime = record {
  token_id = token_id;
  run_id = g.run_id;
  lease_id = g.lease_id;
  host_id = g.host_id;
  vm_id = g.vm_id;
  repository = g.repository;
  branch = g.branch;
  base_sha = g.base_sha;
  capabilities = g.capabilities;
  allowed_paths = g.allowed_paths;
  allowed_commands = g.allowed_commands;
  issued_at = lib.format_time issued;
  expires_at = lib.format_time (issued + lifetime);
  nonce = nonce;
  signature = "";
  signature_algorithm = "HS256";
  key_id = "prototype";
}

pub record Signed : Type 0 where
  pub payload : Dict Value
  pub signature : String
  pub algorithm : String
  pub key_id : String

-- `_sign_payload`, with the payload as it leaves it.
unfoldable pub sign_payload :
    Library → Dict Value → Option Bytes → Option Signer → Result Raised Signed
sign_payload lib d (some key) (some s) = refuse Reason.both_signers
sign_payload lib d none (some s) =
    let full = with_signer d s.algorithm s.key_id in
    canonical lib full >>= λ bytes. ok (record {
      payload = full;
      signature = s.sign bytes;
      algorithm = s.algorithm;
      key_id = s.key_id;
    })
sign_payload lib d (some []) none = refuse Reason.signer_required
sign_payload lib d (some (b ∷ key)) none = canonical lib d >>= λ bytes. ok (record {
  payload = d;
  signature = lib.hmac (b ∷ key) bytes;
  algorithm = "HS256";
  key_id = "prototype";
})
sign_payload lib d none none = refuse Reason.signer_required

-- What is done once the arguments have been checked.
unfoldable pub issue_signed : Library → Keys → Grant → String → String → ℕ → ℕ → Result Raised Token
issue_signed lib keys g token_id nonce issued lifetime =
    sign_payload lib (base_payload (unsigned_token lib g token_id nonce issued lifetime))
      keys.signing_key keys.signer
    >>= λ s. from_payload lib s.payload s.signature (some s.algorithm) (some s.key_id)

abbrev pub lasting : Option ℕ → Result Raised ℕ
lasting none = refuse Reason.no_signer
lasting (some lifetime) = ok lifetime

unfoldable pub issue : Library → Keys → Grant → String → String → ℕ → ℤ → Result Raised Token
issue lib keys g token_id nonce issued lifetime =
    raise_if (not_one keys.signing_key keys.signer) (Raised.capability_error Reason.no_signer)
    >> (lasting (positive lifetime) >>= λ length.
        raise_if (not (is_complete g)) (Raised.capability_error Reason.scope_required)
        >> (raise_if (not (starts_with g.branch "agent/"))
              (Raised.capability_error Reason.not_agent_branch)
            >> (raise_if (not (is_digest g.base_sha)) (Raised.capability_error Reason.bad_base_sha)
                >> issue_signed lib keys g token_id nonce issued length)))
