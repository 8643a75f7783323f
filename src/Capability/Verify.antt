-- ===== src/Capability/Verify.antt =====
-- `CapabilityToken.issue`, `verify` and `_from_payload`, with `_sign_payload`. Instants are numbers;
-- JSON, HMAC, the signer and the format of instants are parameters.
use Prim.Native.Char.{code}
use testudo.Prelude.{
  ℕ, String, Bool, true, false, not, ◌&&◌, ◌||◌, List, [], ◌∷◌, Option, none, some, Result, ok, err,
  ◌>>=◌, ◌>>◌, raise_if, ◌==◌, Comparable-string, Comparable-nat, ltb, leb, if◌then◌else◌,
}
use testudo.Prelude.Dict.{Dict, get}
use testudo.Value.{Value, Items}
use testudo.Capability.{Reason, Raised, Token, schema}

abbrev pub Bytes : Type 0
Bytes = List ℕ

-- `TokenSigner`
pub record Signer : Type 0 where
  pub algorithm : String
  pub key_id : String
  pub sign : Bytes → String
  pub verify : Bytes → String → Bool

-- What the module uses of Python's library: `json.dumps` of a payload, which may raise, the HMAC's
-- hexadecimal digest, and ISO timestamps.
pub record Library : Type 0 where
  pub canonical : Dict Value → Option Bytes
  pub hmac : Bytes → Bytes → String
  pub format_time : ℕ → String
  pub parse_time : String → Option ℕ

abbrev pub refuse {ℓ} : {A : Type ℓ} → Reason → Result Raised A
refuse reason = err (Raised.capability_error reason)

-- `_canonical`
unfoldable pub canonical : Library → Dict Value → Result Raised Bytes
canonical lib d = elim (lib.canonical d) [ none ↦ err Raised.type_error | some bytes ↦ ok bytes ]

-- `_parse_time`
unfoldable pub parse_time : Library → String → Result Raised ℕ
parse_time lib s = elim (lib.parse_time s) [
  | none ↦ refuse (Reason.invalid_timestamp s)
  | some t ↦ ok t
]

abbrev pub as_text : Value → Option String
as_text (Value.str s) = some s
as_text (Value.dict fs) = none
as_text (Value.list vs) = none
as_text (Value.int i) = none
as_text (Value.bool b) = none
as_text (Value.object n) = none
as_text Value.null = none

abbrev pub as_items : Value → Option Items
as_items (Value.list vs) = some vs
as_items (Value.str s) = none
as_items (Value.dict fs) = none
as_items (Value.int i) = none
as_items (Value.bool b) = none
as_items (Value.object n) = none
as_items Value.null = none

abbrev pub nonempty : Reason → Option String → Result Raised String
nonempty reason none = refuse reason
nonempty reason (some s) = if s == "" then refuse reason else ok s

-- `payload.get(name, default)`
abbrev pub get_or : Dict Value → String → Value → Value
get_or d name default = elim (get d name) [ none ↦ default | some v ↦ v ]

-- `payload.get(name)`, which must be a text that is not empty.
unfoldable pub text_field : Dict Value → String → Result Raised String
text_field d name = nonempty Reason.missing_field (as_text (get_or d name Value.null))

abbrev pub texts : Items → Option (List String)
texts Items.nil = some []
texts (Items.cons v vs) = elim (as_text v) [
  | none ↦ none
  | some s ↦ elim (texts vs) [ none ↦ none | some l ↦ some (s ∷ l) ]
]

abbrev pub listed : String → Option (List String) → Result Raised (List String)
listed name none = refuse (Reason.not_string_list name)
listed name (some l) = ok l

abbrev pub string_list : String → Option Items → Result Raised (List String)
string_list name none = refuse (Reason.not_string_list name)
string_list name (some vs) = listed name (texts vs)

unfoldable pub list_field : Dict Value → String → Result Raised (List String)
list_field d name = string_list name (as_items (get_or d name Value.null))

-- The algorithm and the key id, given or from the payload.
abbrev pub metadata : Option String → Dict Value → String → String → Result Raised String
metadata (some given) d name default =
    if given == ""
    then nonempty Reason.bad_metadata (as_text (get_or d name (Value.str default)))
    else ok given
metadata none d name default =
    nonempty Reason.bad_metadata (as_text (get_or d name (Value.str default)))

-- The token of a payload, given what becomes of its algorithm and its key id.
unfoldable pub gather :
    Library
    → Dict Value
    → String
    → Result Raised String
    → Result Raised String
    → Result Raised Token
gather lib d signature algorithm key_id = text_field d "token_id" >>= λ token_id.
    text_field d "run_id" >>= λ run_id. text_field d "lease_id" >>= λ lease_id.
    text_field d "host_id" >>= λ host_id. text_field d "vm_id" >>= λ vm_id.
    text_field d "repository" >>= λ repository. text_field d "branch" >>= λ branch.
    text_field d "base_sha" >>= λ base_sha. text_field d "issued_at" >>= λ issued_at.
    text_field d "expires_at" >>= λ expires_at. text_field d "nonce" >>= λ nonce.
    list_field d "capabilities" >>= λ capabilities.
    list_field d "allowed_paths" >>= λ allowed_paths.
    list_field d "allowed_commands" >>= λ allowed_commands. algorithm >>= λ signature_algorithm.
    key_id >>= λ token_key_id. parse_time lib issued_at >>= λ issued.
    parse_time lib expires_at >>= λ expires. ok (record {
      token_id = token_id;
      run_id = run_id;
      lease_id = lease_id;
      host_id = host_id;
      vm_id = vm_id;
      repository = repository;
      branch = branch;
      base_sha = base_sha;
      capabilities = capabilities;
      allowed_paths = allowed_paths;
      allowed_commands = allowed_commands;
      issued_at = issued_at;
      expires_at = expires_at;
      nonce = nonce;
      signature = signature;
      signature_algorithm = signature_algorithm;
      key_id = token_key_id;
    })

unfoldable pub from_payload :
    Library → Dict Value → String → Option String → Option String → Result Raised Token
from_payload lib d signature algorithm key_id =
    gather lib d signature (metadata algorithm d "signature_alg" "HS256")
      (metadata key_id d "key_id" "prototype")

-- The signer that a call is given: `signing_key` and `signer` are both optional.
pub record Keys : Type 0 where
  pub signing_key : Option Bytes
  pub signer : Option Signer

-- `(signing_key is None) == (signer is None)`
abbrev pub not_one : Option Bytes → Option Signer → Bool
not_one none none = true
not_one (some key) (some s) = true
not_one (some key) none = false
not_one none (some s) = false

-- `str.isascii`
abbrev pub is_ascii : String → Bool
is_ascii String.[] = true
is_ascii (String.◌∷◌ c s) = ltb (code c) 128 && is_ascii s

-- `hmac.compare_digest` of two texts
unfoldable pub compare_digest : String → String → Result Raised Bool
compare_digest a b = if is_ascii a && is_ascii b then ok (a == b) else err Raised.type_error

abbrev pub is_text : Value → String → Bool
is_text v s = elim (as_text v) [ none ↦ false | some t ↦ t == s ]

-- `{key: value[key] for key in value if key != "signature"}`
unfoldable pub unsigned : Dict Value → Dict Value
unsigned [] = []
unsigned ((k, v) ∷ d) = let rest = unsigned d in if k == "signature" then rest else (k, v) ∷ rest

-- The signature of a payload by the verifier that the caller gave.
unfoldable pub check_signature :
    Library → Option Bytes → Option Signer → Dict Value → String → Result Raised Bool
check_signature lib key (some s) d signature =
    raise_if
      (not (is_text (get_or d "signature_alg" (Value.str "HS256")) s.algorithm)
        || not (is_text (get_or d "key_id" (Value.str "prototype")) s.key_id))
      (Raised.capability_error Reason.signer_mismatch)
    >> (canonical lib d >>= λ bytes. ok (s.verify bytes signature))
check_signature lib (some key) none d signature =
    raise_if (not (is_text (get_or d "signature_alg" (Value.str "HS256")) "HS256"))
      (Raised.capability_error Reason.asymmetric)
    >> (canonical lib d >>= λ bytes. compare_digest signature (lib.hmac key bytes))
check_signature lib none none d signature = refuse Reason.no_verifier

-- The two comparisons with the clock.
unfoldable pub check_times : Library → ℕ → Token → Result Raised Token
check_times lib now token = parse_time lib token.issued_at >>= λ issued.
    raise_if (ltb now issued) (Raised.capability_error Reason.not_yet_valid)
    >> (parse_time lib token.expires_at >>= λ expires.
        raise_if (leb expires now) (Raised.capability_error Reason.expired) >> ok token)

abbrev pub signature_of : Option String → Result Raised String
signature_of none = refuse Reason.unsupported
signature_of (some s) = ok s

unfoldable pub verify : Library → Keys → ℕ → Dict Value → Result Raised Token
verify lib keys now value =
    raise_if (not_one keys.signing_key keys.signer) (Raised.capability_error Reason.no_verifier)
    >> (raise_if (not (is_text (get_or (unsigned value) "schema" Value.null) schema))
          (Raised.capability_error Reason.unsupported)
        >> (signature_of (as_text (get_or value "signature" Value.null)) >>= λ signature.
            check_signature lib keys.signing_key keys.signer (unsigned value) signature >>= λ valid.
            raise_if (not valid) (Raised.capability_error Reason.signature_mismatch)
            >> (from_payload lib (unsigned value) signature none none >>= check_times lib now)))
