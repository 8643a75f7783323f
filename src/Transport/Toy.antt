-- ===== src/Transport/Toy.antt =====
-- A codec of two frames, at which the assumptions on cbor2 hold.
use testudo.Prelude.{
  ℕ, List, [], ◌∷◌, Option, none, some, pos, ◌==◌, Comparable-nat, Comparable-string, String,
  if◌then◌else◌,
}
use testudo.Prelude.Dict.{get}
use testudo.Value.{Value, str, dict, end, entries}
use testudo.Transport.{Codec, Frame, to_mapping}

abbrev pub guest_frame : String → Frame
guest_frame kind = record {
  sequence = pos 0;
  run_id = "r";
  token_id = "t";
  nonce = "n";
  kind = kind;
  payload = end;
}

abbrev byte_of : Option Value → List ℕ
byte_of (some (str k)) = if k == "ready" then 7 ∷ [] else 8 ∷ []
byte_of _ = 9 ∷ []

abbrev toy_dumps : Value → List ℕ
toy_dumps (dict fs) = byte_of (get (entries fs) "kind")
toy_dumps _ = 9 ∷ []

abbrev toy_decode : List ℕ → Option (Value × List ℕ)
toy_decode [] = none
toy_decode (b ∷ rest) =
    if b == 7
    then some (dict (to_mapping (guest_frame "ready")), rest)
    else if b == 8
    then some (dict (to_mapping (guest_frame "result")), rest)
    else none

abbrev pub toy : Codec
toy = record { dumps = toy_dumps; decode = toy_decode }
