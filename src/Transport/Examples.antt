-- ===== src/Transport/Examples.antt =====
-- Frames of the toy codec on the wire: tests, and the theorems at concrete inputs.
use testudo.Prelude.{◌≡◌, refl, List, [], ◌∷◌, ℕ, ok, arith, false, length, ◌<◌, ◌≤◌, some}
use testudo.Prelude.Dict.{get, SameDict}
use testudo.Value.{Fields, dict, entries}
use testudo.Transport.Stream.{Inbox, segment, available}
use testudo.Transport.Schema.{from_mapping-to_mapping, to_mapping-from_mapping}
use testudo.Transport.RoundTrip.{Encodes, read_frame-write_frame, decode_frame-ok}
use testudo.Transport.Toy.{toy, guest_frame}
use testudo.Transport.{
  Frame, Socket, to_mapping, post_init, from_mapping, read_frame, write_frame, decode_frame,
}

abbrev two_segments : Inbox
two_segments = segment 1 (2 ∷ []) ∷ segment 3 (4 ∷ 5 ∷ []) ∷ []

abbrev hello : Frame
hello = guest_frame "ready"

hello_valid : post_init hello ≡ ok hello
unfolding post_init
hello_valid = refl

abbrev idle : Socket
idle = record { inbox = []; outbox = []; broken = false }

hello-Encodes : Encodes toy (to_mapping hello)
unfolding to_mapping get
hello-Encodes = record {
  back = to_mapping hello;
  decoded = refl;
  equal = λ k. refl;
  canonical = refl;
  nonempty = omega arith;
}

abbrev written : Socket
written = record { inbox = []; outbox = 0 ∷ 0 ∷ 0 ∷ 1 ∷ 7 ∷ []; broken = false }

hello_written : write_frame toy 100 hello idle ≡ ok written
unfolding write_frame get
hello_written = refl

-- The frame arrives in two segments, the second of which has the first bytes of the next frame.
abbrev arriving : Inbox
arriving = segment 0 (0 ∷ []) ∷ segment 0 (1 ∷ 7 ∷ 0 ∷ 0 ∷ []) ∷ []

read_frame-write_frame_example :
    ((read_frame toy 100 arriving).0 ≡ ok hello)
    × (available (read_frame toy 100 arriving).1 ≡ 0 ∷ 0 ∷ [])
read_frame-write_frame_example =
    read_frame-write_frame toy 100 hello hello_valid hello-Encodes idle written arriving
      (0 ∷ 0 ∷ []) hello_written refl

from_mapping-to_mapping_example : from_mapping (to_mapping hello) ≡ ok hello
from_mapping-to_mapping_example =
    from_mapping-to_mapping hello (to_mapping hello) hello_valid (λ k. refl)

hello_read : from_mapping (to_mapping hello) ≡ ok hello
unfolding from_mapping to_mapping get
hello_read = refl

to_mapping-from_mapping_example :
    SameDict (entries (to_mapping hello)) (entries (to_mapping hello))
    × (post_init hello ≡ ok hello)
to_mapping-from_mapping_example = to_mapping-from_mapping hello (to_mapping hello) hello_read

abbrev one_byte : List ℕ
one_byte = 7 ∷ []

hello_decoded : decode_frame toy 100 one_byte ≡ ok hello
unfolding decode_frame from_mapping to_mapping get
hello_decoded = refl

decode_frame-ok_example :
    (0 < length one_byte)
    × (length one_byte ≤ 100)
    × (fs : Fields) × (toy.decode one_byte ≡ some (dict fs, []))
    × (toy.dumps (dict fs) ≡ one_byte)
    × SameDict (entries fs) (entries (to_mapping hello))
    × (post_init hello ≡ ok hello)
decode_frame-ok_example = decode_frame-ok toy one_byte hello 100 hello_decoded
