-- ===== src/Transport/Schema.antt =====
-- `Frame.from_mapping` against `Frame.to_mapping`: the schema is read whatever the order of keys.
use mathlib.Core.Path.{fun_ext}
use testudo.Prelude.{
  none, all-elem, elem-all, All-elem, &&-left, Bool-cases, inl, inr, Result, raise_if, not, ◌>>=◌,
  ◌>>◌, ◌≡◌, sym, ap, ◌∙◌, String, Bool, true, false, ok, arith, eq_iff, elem, all, Option, some, ℤ,
  Comparable-string,
}
use testudo.Prelude.Dict.{Dict, get, has, keys, elem-keys, SameDict}
use testudo.Value.{Value, int, str, dict, Fields, entries}
use testudo.Transport.Stream.{
  TransportError, keys_mismatch, unsupported_schema, run_id_required, token_id_required,
  nonce_required, kind_required,
}
use testudo.Transport.{
  Frame, frame_schema, frame_keys, to_mapping, post_init, from_mapping, same_keys, is_schema,
  as_integer, as_text, as_mapping,
}

module _ (f : Frame) (d : Dict Value) (same : SameDict d (entries (to_mapping f))) where
  elem-keys_frame : (k : String) → elem k (keys d) ≡ elem k frame_keys
  unfolding to_mapping has
  elem-keys_frame k =
      elem-keys d k
      ∙ ap (λ (o : Option Value). elim o [ Option.none ↦ false | Option.some _ ↦ true ]) (same k)
      ∙ sym (elem-keys (entries (to_mapping f)) k)

  same_keys_frame : same_keys (keys d) ≡ true
  unfolding same_keys
  same_keys_frame =
      rw (all-elem (λ k. elem k frame_keys) (keys d) (λ k e. sym (elem-keys_frame k) ∙ e))
        (ap (λ p. all p frame_keys) (fun_ext elem-keys_frame))

-- A frame that its constructor accepts is read back from any dict that equals its mapping.
pub from_mapping-to_mapping :
    (f : Frame) (fs : Fields)
    → post_init f ≡ ok f
    → SameDict (entries fs) (entries (to_mapping f))
    → from_mapping fs ≡ ok f
unfolding from_mapping get to_mapping
from_mapping-to_mapping f fs valid same =
    let keys_ok = same_keys_frame f (entries fs) same in
    rw
      (
        keys_ok,
        same "schema",
        same "sequence",
        same "run_id",
        same "token_id",
        same "nonce",
        same "kind",
        same "payload",
      )
      (ground arith)

is_schema_of : (o : Option Value) → is_schema o ≡ true → o ≡ some (str frame_schema)
unfolding is_schema
is_schema_of (some (str s)) h = ap (λ t. some (str t)) ((eq_iff s frame_schema).0 h)
is_schema_of o h = cc

as_integer_of : (o : Option Value) (i : ℤ) → as_integer o ≡ ok i → o ≡ some (int i)
unfolding as_integer
as_integer_of (some (int j)) i h = ground arith
as_integer_of o i h = cc

as_text_of :
    (e : TransportError) (o : Option Value) (s : String) → as_text e o ≡ ok s → o ≡ some (str s)
unfolding as_text
as_text_of e (some (str t)) s h = ground arith
as_text_of e o s h = cc

as_mapping_of : (o : Option Value) (fs : Fields) → as_mapping o ≡ ok fs → o ≡ some (dict fs)
unfolding as_mapping
as_mapping_of (some (dict gs)) fs h = ground arith
as_mapping_of o fs h = cc

pub post_init_of : (f g : Frame) → post_init f ≡ ok g → (f ≡ g) × (post_init g ≡ ok g)
unfolding post_init
post_init_of f g h = ground arith

-- What a dict that is accepted holds.
record Holds (d : Dict Value) (f : Frame) : Type 0 where
  keys_are : same_keys (keys d) ≡ true
  schema_is : get d "schema" ≡ some (str frame_schema)
  sequence_is : get d "sequence" ≡ some (int f.sequence)
  run_id_is : get d "run_id" ≡ some (str f.run_id)
  token_id_is : get d "token_id" ≡ some (str f.token_id)
  nonce_is : get d "nonce" ≡ some (str f.nonce)
  kind_is : get d "kind" ≡ some (str f.kind)
  payload_is : get d "payload" ≡ some (dict f.payload)
  accepted : post_init f ≡ ok f

-- The checks of `from_mapping` over the outcomes of its lookups, and what they leave open.
module _ (b c : Bool) (i : Result TransportError ℤ) (r t n k : Result TransportError String)
    (p : Result TransportError Fields) where
  abbrev assemble : Result TransportError Frame
  assemble = do
    raise_if (not b) keys_mismatch
    raise_if (not c) unsupported_schema
    sequence ← i
    run_id ← r
    token_id ← t
    nonce ← n
    kind ← k
    payload ← p
    post_init (record {
      sequence = sequence;
      run_id = run_id;
      token_id = token_id;
      nonce = nonce;
      kind = kind;
      payload = payload;
    })

  assemble_of :
      (f : Frame)
      → assemble ≡ ok f
      → (b ≡ true)
        × (c ≡ true)
        × (i ≡ ok f.sequence)
        × (r ≡ ok f.run_id)
        × (t ≡ ok f.token_id)
        × (n ≡ ok f.nonce)
        × (k ≡ ok f.kind)
        × (p ≡ ok f.payload)
        × (post_init f ≡ ok f)
  unfolding post_init
  assemble_of f h = ground arith

from_mapping-Holds : (f : Frame) (fs : Fields) → from_mapping fs ≡ ok f → Holds (entries fs) f
unfolding from_mapping
from_mapping-Holds f fs h =
    let d = entries fs in
    let found =
      assemble_of (same_keys (keys d)) (is_schema (get d "schema")) (as_integer (get d "sequence"))
        (as_text run_id_required (get d "run_id")) (as_text token_id_required (get d "token_id"))
        (as_text nonce_required (get d "nonce")) (as_text kind_required (get d "kind"))
        (as_mapping (get d "payload")) f h in
    record {
      keys_are = found.0;
      schema_is = is_schema_of (get d "schema") found.1;
      sequence_is = as_integer_of (get d "sequence") f.sequence found.2;
      run_id_is = as_text_of run_id_required (get d "run_id") f.run_id found.3;
      token_id_is = as_text_of token_id_required (get d "token_id") f.token_id found.4;
      nonce_is = as_text_of nonce_required (get d "nonce") f.nonce found.5;
      kind_is = as_text_of kind_required (get d "kind") f.kind found.6;
      payload_is = as_mapping_of (get d "payload") f.payload found.7;
      accepted = found.8;
    }

get_of_has : (d : Dict Value) (k : String) → has d k ≡ false → get d k ≡ none
unfolding has
get_of_has d k h = ground arith

-- A key outside the schema is in neither dict.
lookup_of_keys :
    (d : Dict Value) (k : String)
    → same_keys (keys d) ≡ true
    → elem k frame_keys ≡ false
    → get d k ≡ none
unfolding same_keys
lookup_of_keys d k h e = elim (Bool-cases (has d k)) [
  | inl there ↦
      cc (elem-all (λ j. elem j frame_keys) (keys d) k (&&-left _ _ h) (elem-keys d k ∙ there), e)
  | inr absent ↦ get_of_has d k absent
]

same_lookup : (d : Dict Value) (f : Frame) → Holds d f → SameDict d (entries (to_mapping f))
unfolding get to_mapping
same_lookup d f held k = elim (Bool-cases (elem k frame_keys)) [
  | inl inside ↦
      All-elem (λ j. get d j ≡ get (entries (to_mapping f)) j) frame_keys k
        (
          held.schema_is,
          (
            held.sequence_is,
            (
              held.run_id_is,
              (held.token_id_is, (held.nonce_is, (held.kind_is, (held.payload_is, tt)))),
            ),
          ),
        )
        inside
  | inr outside ↦
      lookup_of_keys d k held.keys_are outside
      ∙ sym (
          get_of_has (entries (to_mapping f)) k
            (sym (elem-keys (entries (to_mapping f)) k) ∙ outside))
]

-- Nothing that the peer sent is lost: the frame's mapping has the items of the dict it was read from.
pub to_mapping-from_mapping :
    (f : Frame) (fs : Fields)
    → from_mapping fs ≡ ok f
    → SameDict (entries fs) (entries (to_mapping f)) × (post_init f ≡ ok f)
to_mapping-from_mapping f fs h =
    let held = from_mapping-Holds f fs h in (same_lookup (entries fs) f held, held.accepted)
