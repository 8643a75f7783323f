-- ===== src/Transport.antt =====
-- src/testudo/runtime/transport.py: length-framed canonical CBOR. cbor2 is the parameter `Codec`.
pub mod Stream
pub mod Schema
pub mod RoundTrip
pub mod Toy
mod Examples
use testudo.Prelude.{
  ℕ, zero, suc, ◌+◌, ◌*◌, ◌/◌, ◌%◌, String, Bool, true, not, ◌&&◌, ◌||◌, Option, none, some, List,
  [], ◌∷◌, ◌++◌, ℤ, is_negative, Result, ok, err, ◌>>=◌, ◌>>◌, raise_if, ◌==◌, Comparable-nat,
  Comparable-string, Comparable-list, elem, ltb, length, all, if◌then◌else◌,
}
use testudo.Prelude.Dict.{get, keys}
use testudo.Value.{Value, int, str, dict, Fields, end, field, entries}
use Stream.{
  TransportError, os_error, frame_length, frame_too_large, body_size, invalid_cbor, trailing_bytes,
  root_not_map, not_canonical, keys_mismatch, unsupported_schema, sequence_not_integer,
  sequence_negative, run_id_required, token_id_required, nonce_required, kind_required,
  payload_not_map, Inbox, read_exact,
}

-- What the program calls of cbor2: `dumps(value, canonical=True)`, and `CBORDecoder(stream)
-- .decode()` with the bytes that it leaves in the stream. `none` is an exception of the decoder.
pub record Codec : Type 0 where
  pub dumps : Value → List ℕ
  pub decode : List ℕ → Option (Value × List ℕ)

abbrev pub max_frame_bytes : ℕ
max_frame_bytes = 4 * 1024 * 1024

abbrev pub frame_schema : String
frame_schema = "testudo.vsock.frame.v1"

-- `_KEYS`
abbrev pub frame_keys : List String
frame_keys = "schema" ∷ "sequence" ∷ "run_id" ∷ "token_id" ∷ "nonce" ∷ "kind" ∷ "payload" ∷ []

pub record Frame : Type 0 where
  pub sequence : ℤ
  pub run_id : String
  pub token_id : String
  pub nonce : String
  pub kind : String
  pub payload : Fields

-- The constructor of `Frame` with its `__post_init__`; the types of the fields say the rest.
unfoldable pub post_init : Frame → Result TransportError Frame
post_init f = do
  raise_if (is_negative f.sequence) sequence_negative
  raise_if (f.run_id == "") run_id_required
  raise_if (f.token_id == "") token_id_required
  raise_if (f.nonce == "") nonce_required
  raise_if (f.kind == "") kind_required
  ok f

unfoldable pub to_mapping : Frame → Fields
to_mapping f = field "schema" (str frame_schema) (
    field "sequence" (int f.sequence) (
      field "run_id" (str f.run_id) (
        field "token_id" (str f.token_id) (
          field "nonce" (str f.nonce)
            (field "kind" (str f.kind) (field "payload" (dict f.payload) end))))))

-- `set(value) == _KEYS`
same_keys : List String → Bool
same_keys ks = all (λ k. elem k frame_keys) ks && all (λ k. elem k ks) frame_keys

is_schema : Option Value → Bool
is_schema (some (str s)) = s == frame_schema
is_schema _ = not true

-- `isinstance(value, int) and not isinstance(value, bool)`
as_integer : Option Value → Result TransportError ℤ
as_integer (some (int i)) = ok i
as_integer _ = err sequence_not_integer

as_text : TransportError → Option Value → Result TransportError String
as_text e (some (str s)) = if s == "" then err e else ok s
as_text e _ = err e

as_mapping : Option Value → Result TransportError Fields
as_mapping (some (dict fs)) = ok fs
as_mapping _ = err payload_not_map

unfoldable pub from_mapping : Fields → Result TransportError Frame
unfolding same_keys is_schema as_integer as_text as_mapping post_init
from_mapping fs = do
  let value = entries fs
  raise_if (not (same_keys (keys value))) keys_mismatch
  raise_if (not (is_schema (get value "schema"))) unsupported_schema
  sequence ← as_integer (get value "sequence")
  run_id ← as_text run_id_required (get value "run_id")
  token_id ← as_text token_id_required (get value "token_id")
  nonce ← as_text nonce_required (get value "nonce")
  kind ← as_text kind_required (get value "kind")
  payload ← as_mapping (get value "payload")
  post_init (record {
    sequence = sequence;
    run_id = run_id;
    token_id = token_id;
    nonce = nonce;
    kind = kind;
    payload = payload;
  })

-- `struct.Struct(">I")`
abbrev pub pack_length : ℕ → List ℕ
pack_length n = n / 16777216 ∷ (n / 65536) % 256 ∷ (n / 256) % 256 ∷ n % 256 ∷ []

-- Four bytes are always handed over.
abbrev pub unpack_length : List ℕ → ℕ
unpack_length (a ∷ b ∷ c ∷ d ∷ []) = a * 16777216 + b * 65536 + c * 256 + d
unpack_length _ = 0

as_root : Value → Result TransportError Fields
as_root (dict fs) = ok fs
as_root _ = err root_not_map

as_decoded : Option (Value × List ℕ) → Result TransportError (Value × List ℕ)
as_decoded (some d) = ok d
as_decoded none = err invalid_cbor

module _ (c : Codec) where
  unfoldable pub encode_frame : ℕ → Frame → Result TransportError (List ℕ)
  unfolding to_mapping
  encode_frame max_bytes f =
      let body = c.dumps (dict (to_mapping f)) in
      if ltb max_bytes (length body) || ltb 4294967295 (length body)
      then err frame_too_large
      else ok (pack_length (length body) ++ body)

  unfoldable pub decode_frame : ℕ → List ℕ → Result TransportError Frame
  unfolding as_decoded as_root
  decode_frame max_bytes body = do
    raise_if (length body == 0 || ltb max_bytes (length body)) body_size
    decoded ← as_decoded (c.decode body)
    raise_if (not (length decoded.1 == 0)) trailing_bytes
    fs ← as_root decoded.0
    raise_if (not (c.dumps decoded.0 == body)) not_canonical
    from_mapping fs

  unfoldable pub read_body : ℕ → ℕ → Inbox → Result TransportError Frame × Inbox
  read_body max_bytes size inbox =
      if size == 0 || ltb max_bytes size
      then (err frame_length, inbox)
      else let (body, rest) = read_exact size inbox in (body >>= decode_frame max_bytes, rest)

  unfoldable pub read_frame : ℕ → Inbox → Result TransportError Frame × Inbox
  read_frame max_bytes inbox =
      let (prefix, rest) = read_exact 4 inbox in
      elim prefix [
        | err e ↦ (err e, rest)
        | ok bytes ↦ read_body max_bytes (unpack_length bytes) rest
      ]

-- The host's end of the connection: what is still to be read, what has been written, and whether
-- `sendall` raises an `OSError`.
pub record Socket : Type 0 where
  pub inbox : Inbox
  pub outbox : List ℕ
  pub broken : Bool

module _ (c : Codec) where
  unfoldable pub write_frame : ℕ → Frame → Socket → Result TransportError Socket
  unfolding encode_frame
  write_frame max_bytes f sock = do
    bytes ← encode_frame c max_bytes f
    raise_if sock.broken os_error
    ok (record sock { outbox = sock.outbox ++ bytes })
