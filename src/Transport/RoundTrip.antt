-- ===== src/Transport/RoundTrip.antt =====
-- What one end writes, the other end reads, however the socket cuts the bytes into segments.
use testudo.Prelude.{
  raise_if-eq-ok, ◌||◌, ltb, Option, none, ◌∷◌, raise_if, not, ◌>>=◌, ◌>>◌, ◌==◌, ==_iff, refl,
  Result, ◌⊎◌, ltb_of_le, nat_eq_of_pos, ℕ, ◌<◌, ◌≤◌, ◌≡◌, ap, ◌∙◌, some, List, [], ◌++◌, ok, err,
  arith, length, drop, length-append, take-length-append, drop-length-append, Comparable-nat,
  ==_refl, Comparable-list,
}
use testudo.Prelude.Dict.{SameDict}
use testudo.Value.{Value, dict, Fields, entries}
use testudo.Transport.Stream.{
  TransportError, body_size, trailing_bytes, not_canonical, frame_length, Inbox, available,
  read_exact, read_exact_full,
}
use testudo.Transport.Schema.{from_mapping-to_mapping, to_mapping-from_mapping}
use testudo.Transport.{
  Codec, Frame, Socket, to_mapping, post_init, pack_length, unpack_length, as_decoded, as_root,
  from_mapping, decode_frame, read_body, read_frame, write_frame,
}

-- What cbor2 documents of one value: its canonical encoding is not empty, and is decoded to an
-- equal dict, which is encoded alike.
pub record Encodes (c : Codec) (fs : Fields) : Type 0 where
  pub back : Fields
  pub decoded : c.decode (c.dumps (dict fs)) ≡ some (dict back, [])
  pub equal : SameDict (entries back) (entries fs)
  pub canonical : c.dumps (dict back) ≡ c.dumps (dict fs)
  pub nonempty : 0 < length (c.dumps (dict fs))

pub unpack_length-pack_length : (n : ℕ) → unpack_length (pack_length n) ≡ n
unpack_length-pack_length n = omega arith

-- `read_frame` by what its two reads deliver.
module _ (c : Codec) (max_bytes : ℕ) (inbox : Inbox) where
  read_frame_prefix :
      (n : ℕ) (rest : List ℕ)
      → available inbox ≡ pack_length n ++ rest
      → (read_frame c max_bytes inbox ≡ read_body c max_bytes n (read_exact 4 inbox).1)
        × (available (read_exact 4 inbox).1 ≡ rest)
  unfolding read_frame
  read_frame_prefix n rest wire =
      let (prefix, left) = read_exact_full 4 inbox (rw wire (omega arith)) in
      (
        rw (prefix, read_frame)
            (rw wire (
              ap (λ k. read_body c max_bytes k (read_exact 4 inbox).1)
                (unpack_length-pack_length n))),
        left ∙ rw wire,
      )

  read_body_whole :
      (body rest : List ℕ)
      → available inbox ≡ body ++ rest
      → 0 < length body
      → length body ≤ max_bytes
      → ((read_body c max_bytes (length body) inbox).0 ≡ decode_frame c max_bytes body)
        × (available (read_body c max_bytes (length body) inbox).1 ≡ rest)
  unfolding read_body
  read_body_whole body rest wire some_bytes fits =
      let (read, left) =
        read_exact_full (length body) inbox (rw wire (omega (arith, length-append body rest))) in
      rw (ltb_of_le max_bytes (length body) fits, nat_eq_of_pos (length body) some_bytes)
        (
          rw (read, wire, take-length-append body rest),
          left ∙ rw (wire, drop-length-append body rest),
        )

  -- A length of zero or above the limit is refused, and no byte behind the prefix is read.
  pub read_frame_too_long :
      (n : ℕ) (rest : List ℕ)
      → available inbox ≡ pack_length n ++ rest
      → (n ≡ 0) ⊎ (max_bytes < n)
      → ((read_frame c max_bytes inbox).0 ≡ err frame_length)
        × (available (read_frame c max_bytes inbox).1 ≡ rest)
  unfolding read_body
  read_frame_too_long n rest wire h =
      let (shape, left) = read_frame_prefix n rest wire in rw shape (ground (arith, left))

module _ (c : Codec) (max_bytes : ℕ) (f : Frame) (valid : post_init f ≡ ok f)
    (enc : Encodes c (to_mapping f)) where
  abbrev body : List ℕ
  body = c.dumps (dict (to_mapping f))

  decode_frame-body : length body ≤ max_bytes → decode_frame c max_bytes body ≡ ok f
  unfolding decode_frame
  decode_frame-body fits =
      rw (enc.decoded, enc.canonical, ==_refl body)
        (ground (arith, enc.nonempty, from_mapping-to_mapping f enc.back valid enc.equal))

  written_bytes :
      (sock sent : Socket)
      → write_frame c max_bytes f sock ≡ ok sent
      → (sent.outbox ≡ sock.outbox ++ (pack_length (length body) ++ body))
        × (length body ≤ max_bytes)
  unfolding write_frame
  written_bytes sock sent h = ground arith

  -- The frame is read back, and the bytes behind it are left, after any segmentation of the wire.
  pub read_frame-write_frame :
      (sock sent : Socket) (inbox : Inbox) (rest : List ℕ)
      → write_frame c max_bytes f sock ≡ ok sent
      → available inbox ≡ drop (length sock.outbox) sent.outbox ++ rest
      → ((read_frame c max_bytes inbox).0 ≡ ok f)
        × (available (read_frame c max_bytes inbox).1 ≡ rest)
  read_frame-write_frame sock sent inbox rest written wire =
      let (bytes, fits) = written_bytes sock sent written in
      let framed : available inbox ≡ pack_length (length body) ++ (body ++ rest) =
        wire ∙ rw (bytes, drop-length-append sock.outbox (pack_length (length body) ++ body)) in
      let (shape, left) = read_frame_prefix c max_bytes inbox (length body) (body ++ rest) framed in
      let (read, after) =
        read_body_whole c max_bytes (read_exact 4 inbox).1 body rest left enc.nonempty fits in
      rw shape (read ∙ decode_frame-body fits, after)

-- The shape of what `decode_frame` reads, by what the decoder returned.
module _ (c : Codec) (body : List ℕ) (f : Frame) where
  abbrev Accepted : Fields → Type 0
  Accepted fs =
      (c.dumps (dict fs) ≡ body)
      × SameDict (entries fs) (entries (to_mapping f))
      × (post_init f ≡ ok f)

  finish_decode : Option (Value × List ℕ) → Result TransportError Frame
  unfolding as_decoded as_root
  finish_decode o = do
    decoded ← as_decoded o
    raise_if (not (length decoded.1 == 0)) trailing_bytes
    fs ← as_root decoded.0
    raise_if (not (c.dumps decoded.0 == body)) not_canonical
    from_mapping fs

  finish_decode-ok :
      (o : Option (Value × List ℕ))
      → finish_decode o ≡ ok f
      → (fs : Fields) × (o ≡ some (dict fs, [])) × Accepted fs
  unfolding finish_decode
  finish_decode-ok none h = cc
  finish_decode-ok (some (dict fs, [])) h =
      let (same, read) =
        raise_if-eq-ok (not (c.dumps (dict fs) == body)) not_canonical (from_mapping fs) h in
      let (equal, valid) = to_mapping-from_mapping f fs read in
      (fs, refl, ((==_iff (c.dumps (dict fs)) body).0 (ground (arith, same)), equal, valid))
  finish_decode-ok (some (dict fs, b ∷ bs)) h = ground arith
  finish_decode-ok (some (v, [])) h = cc
  finish_decode-ok (some (v, b ∷ bs)) h = ground arith

  -- A body is accepted only within the limit, whole, and if it is the canonical encoding of a dict
  -- with the items of the frame.
  pub decode_frame-ok :
      (max_bytes : ℕ)
      → decode_frame c max_bytes body ≡ ok f
      → (0 < length body)
        × (length body ≤ max_bytes)
        × (fs : Fields) × (c.decode body ≡ some (dict fs, []))
        × (c.dumps (dict fs) ≡ body)
        × SameDict (entries fs) (entries (to_mapping f))
        × (post_init f ≡ ok f)
  unfolding decode_frame finish_decode
  decode_frame-ok max_bytes h =
      let (size, rest) =
        raise_if-eq-ok (length body == 0 || ltb max_bytes (length body)) body_size
          (finish_decode (c.decode body)) h in
      let (fs, decoded, held) = finish_decode-ok (c.decode body) rest in
      (ground (arith, size), ground (arith, size), fs, decoded, held.0, held.1, held.2)
