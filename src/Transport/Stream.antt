-- ===== src/Transport/Stream.antt =====
-- The connected socket that `_read_exact` of src/testudo/runtime/transport.py reads, and the loop.
use mathlib.Core.List.{append-nil, append_assoc}
use mathlib.Core.Path.{subst}
use native.Mathlib.Nat.{suc-sub-suc}
use testudo.Prelude.{
  ℕ, zero, suc, ◌-◌, ◌≤◌, ◌<◌, sym, ◌≡◌, refl, List, [], ◌∷◌, ◌++◌, Result, ok, err, arith, length,
  take, drop, length-append, length-drop, length-take, ◌∙◌, ap, take-append_rest, drop-append_rest,
}

pub data TransportError : Type 0 where
  os_error socket_closed frame_length frame_too_large body_size invalid_cbor trailing_bytes
        root_not_map not_canonical keys_mismatch unsupported_schema sequence_not_integer
        sequence_negative run_id_required token_id_required nonce_required kind_required
        payload_not_map :
      TransportError

-- What the peer's side of the socket delivers next: one non-empty segment, or an `OSError`.
pub data Arrival : Type 0 where
  segment : ℕ → List ℕ → Arrival
  fault : Arrival

abbrev pub Inbox : Type 0
Inbox = List Arrival

abbrev push : List ℕ → Inbox → Inbox
push [] rest = rest
push (b ∷ bs) rest = segment b bs ∷ rest

-- `sock.recv(size)`: at most `size` bytes of the next segment; empty once the peer has closed.
recv : ℕ → Inbox → Result TransportError (List ℕ) × Inbox
recv size [] = (ok [], [])
recv size (segment b bs ∷ rest) = (ok (take size (b ∷ bs)), push (drop size (b ∷ bs)) rest)
recv size (fault ∷ rest) = (err os_error, rest)

-- The `while remaining` loop of `_read_exact`. Each round takes a byte at least, so `size` rounds
-- are enough, and the clause without fuel is never reached from `read_exact`.
read_loop : ℕ → ℕ → List ℕ → Inbox → Result TransportError (List ℕ) × Inbox
read_loop fuel zero parts inbox = (ok parts, inbox)
read_loop zero (suc r) parts inbox = (err socket_closed, inbox)
read_loop (suc fuel) (suc r) parts inbox =
    let (received, rest) = recv (suc r) inbox in
    elim received [
      | err e ↦ (err e, rest)
      | ok chunk ↦ elim chunk [
        | [] ↦ (err socket_closed, rest)
        | b ∷ bs ↦ read_loop fuel (suc r - length (b ∷ bs)) (parts ++ (b ∷ bs)) rest
      ]
    ]

unfoldable pub read_exact : ℕ → Inbox → Result TransportError (List ℕ) × Inbox
unfolding read_loop recv
read_exact size inbox = read_loop size size [] inbox

-- The bytes that arrive before the peer closes or a read fails.
abbrev pub available : Inbox → List ℕ
available [] = []
available (segment b bs ∷ rest) = (b ∷ bs) ++ available rest
available (fault ∷ rest) = []

available-push : (xs : List ℕ) (rest : Inbox) → available (push xs rest) ≡ xs ++ available rest
available-push [] rest = refl
available-push (b ∷ bs) rest = refl

-- What a run of the loop owes: the next `n` bytes behind `parts`, and the others left to be read.
abbrev Reads :
    (n : ℕ) (parts : List ℕ) (inbox : Inbox) → Result TransportError (List ℕ) × Inbox → Type 0
Reads n parts inbox r =
    (r.0 ≡ ok (parts ++ take n (available inbox))) × (available r.1 ≡ drop n (available inbox))

read_loop_lem :
    (fuel n : ℕ) (parts : List ℕ) (inbox : Inbox)
    → n ≤ fuel
    → n ≤ length (available inbox)
    → Reads n parts inbox (read_loop fuel n parts inbox)
unfolding read_loop recv
read_loop_lem fuel zero parts inbox f h = (rw append-nil, refl)
read_loop_lem zero (suc n) parts inbox f h = absurd (omega arith)
read_loop_lem (suc fuel) (suc n) parts [] f h = absurd (omega arith)
read_loop_lem (suc fuel) (suc n) parts (fault ∷ rest) f h = absurd (omega arith)
read_loop_lem (suc fuel) (suc n) parts (segment b bs ∷ rest) f h =
    let left = available-push (drop n bs) rest in
    let m = n - length (take n bs) in
    let ih =
      read_loop_lem fuel m (parts ++ b ∷ take n bs) (push (drop n bs) rest) (omega arith)
        (rw left (omega (arith, fits))) in
    subst
      (λ k.
        Reads (suc n) parts (segment b bs ∷ rest)
          (read_loop fuel k (parts ++ b ∷ take n bs) (push (drop n bs) rest)))
      (sym (suc-sub-suc n (length (take n bs))))
      (
        ih.0
            ∙ ap ok (
                rw (left, append_assoc)
                  (ap (λ l. parts ++ (b ∷ l)) (take-append_rest n bs (available rest)))),
        ih.1 ∙ rw left (drop-append_rest n bs (available rest)),
      )
  where
    fits : n - length (take n bs) ≤ length (drop n bs ++ available rest)
    fits = omega (
      arith,
      length-append bs (available rest),
      length-append (drop n bs) (available rest),
      length-drop n bs,
      length-take n bs,
    )

-- The two ways in which a read ends short.
pub data IsCutOff : TransportError → Type 0 where
  closed : IsCutOff socket_closed
  faulted : IsCutOff os_error

read_loop_short :
    (fuel n : ℕ) (parts : List ℕ) (inbox : Inbox)
    → n ≤ fuel
    → length (available inbox) < n
    → (e : TransportError) × ((read_loop fuel n parts inbox).0 ≡ err e) × IsCutOff e
unfolding read_loop recv
read_loop_short fuel zero parts inbox f h = absurd (omega arith)
read_loop_short zero (suc n) parts inbox f h = absurd (omega arith)
read_loop_short (suc fuel) (suc n) parts [] f h = (socket_closed, refl, closed)
read_loop_short (suc fuel) (suc n) parts (fault ∷ rest) f h = (os_error, refl, faulted)
read_loop_short (suc fuel) (suc n) parts (segment b bs ∷ rest) f h =
    read_loop_short fuel (suc n - suc (length (take n bs))) (parts ++ b ∷ take n bs)
      (push (drop n bs) rest) (omega arith)
      (rw (available-push (drop n bs) rest) (
        omega (
          arith,
          length-append bs (available rest),
          length-append (drop n bs) (available rest),
          length-drop n bs,
          length-take n bs,
        )))

module _ (size : ℕ) (inbox : Inbox) where
  -- However the bytes are cut into segments, the first `size` of them are returned, and the ones
  -- behind them are still to be read.
  pub read_exact_full :
      size ≤ length (available inbox)
      → ((read_exact size inbox).0 ≡ ok (take size (available inbox)))
        × (available (read_exact size inbox).1 ≡ drop size (available inbox))
  unfolding read_exact
  read_exact_full h = read_loop_lem size size [] inbox (omega arith) h

  pub read_exact_short :
      length (available inbox) < size
      → (e : TransportError) × ((read_exact size inbox).0 ≡ err e) × IsCutOff e
  unfolding read_exact
  read_exact_short h = read_loop_short size size [] inbox (omega arith) h
