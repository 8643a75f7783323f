-- ===== src/Broker/Moves.antt =====
-- Each method of the session, on every branch, against the moves of the protocol.
use testudo.Prelude.{
  ◌+◌, ◌≡◌, refl, sym, ◌∙◌, ap, String, true, false, ◌⊎◌, inl, inr, pos, Result, ok, err, arith,
  eq_iff, elem, Comparable-string, Bool-cases, int_eq_iff, ◌==◌,
}
use testudo.Value.{Fields}
use testudo.Transport.Stream.{TransportError}
use testudo.Transport.Schema.{post_init_of}
use testudo.Transport.{Codec, Frame, Socket, post_init, write_frame, read_frame}
use testudo.Broker.{
  Phase, new, ready, running, stop_requested, terminal, closed, BrokerError, Session, outgoing,
  after_write, admit, after_read, transmit, send, receive, state_sent, state_received,
  check_send_state, check_receive_state, host_kinds, guest_kinds, stream_kinds, is_new, is_live,
}

-- The host's frames, with the phases that they join.
pub data SendMove : Phase → String → Phase → Type 0 where
  bootstrap : {k : String} → k ≡ "bootstrap" → SendMove new k new
  run : {k : String} → k ≡ "run" → SendMove ready k running
  stop_early : {k : String} → k ≡ "stop" → SendMove ready k stop_requested
  stop : {k : String} → k ≡ "stop" → SendMove running k stop_requested

-- The guest's frames.
pub data ReceiveMove : Phase → String → Phase → Type 0 where
  greet : {k : String} → k ≡ "ready" → ReceiveMove new k ready
  stream :
      {p : Phase} {k : String} → elem k stream_kinds ≡ true → is_live p ≡ true → ReceiveMove p k p
  finish :
      {p : Phase} {k : String}
      → (k ≡ "result") ⊎ (k ≡ "error")
      → is_live p ≡ true
      → ReceiveMove p k terminal

pub record Sent (c : Codec) (kind : String) (payload : Fields) (s : Session) (f : Frame)
    (t : Session) : Type 0 where
  pub opened : s.is_closed ≡ false
  pub frame_is : f ≡ outgoing s kind payload
  pub written : write_frame c s.max_bytes f s.sock ≡ ok t.sock
  pub rest_is : t ≡ record s { sock = t.sock; send_sequence = s.send_sequence + 1; state = t.state }
  pub move : SendMove s.state kind t.state

named : (k kind : String) → (kind ≡ k) ⊎ ((kind == k) ≡ false)
named k kind = elim (Bool-cases (kind == k)) [ inl e ↦ inl ((eq_iff kind k).0 e) | inr e ↦ inr e ]

-- What the two tables allow is a move, at a kind that the peer may send.
send_move :
    (kind : String) (p : Phase)
    → elem kind host_kinds ≡ true
    → check_send_state kind p ≡ true
    → SendMove p kind (state_sent kind p)
unfolding check_send_state state_sent
send_move kind new h k = elim (named "bootstrap" kind) [
  | inl e ↦ rw e (bootstrap refl)
  | inr e ↦ absurd (ground (arith, e))
]
send_move kind ready h k = elim (named "run" kind) [
  | inl e ↦ rw e (run refl)
  | inr e ↦ elim (named "stop" kind) [
    | inl e' ↦ rw e' (stop_early refl)
    | inr e' ↦ absurd (ground (arith, e, e'))
  ]
]
send_move kind running h k = elim (named "stop" kind) [
  | inl e ↦ rw e (stop refl)
  | inr e ↦ absurd (ground (arith, e))
]
send_move kind stop_requested h k = absurd (ground arith)
send_move kind terminal h k = absurd (ground arith)
send_move kind closed h k = absurd (ground arith)

is_new_of : (p : Phase) → is_new p ≡ true → p ≡ new
is_new_of p h = ground arith

receive_move :
    (kind : String) (p : Phase)
    → elem kind guest_kinds ≡ true
    → check_receive_state kind p ≡ true
    → ReceiveMove p kind (state_received kind p)
unfolding check_receive_state state_received
receive_move kind p h k = elim (named "ready" kind) [
  | inl e ↦ rw (e, is_new_of p (ground (arith, e, eq_iff kind "ready"))) (greet refl)
  | inr e ↦ elim (named "result" kind) [
    | inl e' ↦ rw e' (finish (inl refl) (ground (arith, e)))
    | inr e' ↦ elim (named "error" kind) [
      | inl e'' ↦ rw e'' (finish (inr refl) (ground (arith, e)))
      | inr e'' ↦ rw (e, e', e'') (stream (ground (arith, e, e', e'')) (ground (arith, e)))
    ]
  ]
]

-- The session once `f` has been written.
abbrev advanced : Session → Frame → Socket → Session
advanced s f sock = record s {
  sock = sock;
  send_sequence = s.send_sequence + 1;
  state = state_sent f.kind s.state;
}

after_write-ok :
    (s : Session) (f g : Frame) (w : Result TransportError Socket)
    → (after_write f s w).0 ≡ ok g
    → (f ≡ g) × (sock : Socket) × (w ≡ ok sock) × ((after_write f s w).1 ≡ advanced s f sock)
unfolding after_write
after_write-ok s f g (ok sock) h = (ground arith, sock, refl, refl)
after_write-ok s f g (err e) h = cc

transmit-ok :
    (c : Codec) (s : Session) (r : Result TransportError Frame) (f : Frame)
    → (transmit c s r).0 ≡ ok f
    → (r ≡ ok f)
      × (sock : Socket) × (write_frame c s.max_bytes f s.sock ≡ ok sock)
      × ((transmit c s r).1 ≡ advanced s f sock)
unfolding transmit
transmit-ok c s (err e) f h = cc
transmit-ok c s (ok g) f h =
    let (same, sock, written, next) = after_write-ok s g f (write_frame c s.max_bytes g s.sock) h in
    (ap ok same, sock, rw same at written, next ∙ ap (λ k. advanced s k sock) same)

module _ (c : Codec) (kind : String) (payload : Fields) (s : Session) where
  send_guards :
      (f : Frame)
      → (send c kind payload s).0 ≡ ok f
      → (s.is_closed ≡ false)
        × (elem kind host_kinds ≡ true)
        × (check_send_state kind s.state ≡ true)
        × (send c kind payload s ≡ transmit c s (post_init (outgoing s kind payload)))
  unfolding send
  send_guards f h = ground arith

  -- A frame that `send` returns is the next one of the session, was written, and is a move.
  pub send-Sent :
      (f : Frame)
      → (send c kind payload s).0 ≡ ok f
      → Sent c kind payload s f (send c kind payload s).1
  send-Sent f h =
      let (opened, known, allowed, shape) = send_guards f h in
      let (made, sock, written, next) =
        transmit-ok c s (post_init (outgoing s kind payload)) f (rw shape at h) in
      let same = (post_init_of (outgoing s kind payload) f made).0 in
      rw (shape, next)
        (record {
          opened = opened;
          frame_is = sym same;
          written = written;
          rest_is = refl;
          move = rw (← same) (send_move kind s.state known allowed);
        })

  -- A call that raises leaves the session as it was, or ends it after a failed write.
  pub send_raises :
      (e : BrokerError)
      → (send c kind payload s).0 ≡ err e
      → ((send c kind payload s).1 ≡ s)
        ⊎ (((send c kind payload s).1 ≡ record s { state = terminal }) × (s.is_closed ≡ false))
  unfolding send transmit after_write
  send_raises e h = ground arith

pub record Received (c : Codec) (s : Session) (f : Frame) (t : Session) : Type 0 where
  pub opened : s.is_closed ≡ false
  pub read : (read_frame c s.max_bytes s.sock.inbox).0 ≡ ok f
  pub run_is : f.run_id ≡ s.run_id
  pub token_is : f.token_id ≡ s.token_id
  pub nonce_is : f.nonce ≡ s.nonce
  pub sequence_is : f.sequence ≡ pos s.receive_sequence
  pub rest_is : t ≡ record s {
    sock = record s.sock { inbox = (read_frame c s.max_bytes s.sock.inbox).1 };
    receive_sequence = s.receive_sequence + 1;
    state = t.state;
  }
  pub move : ReceiveMove s.state f.kind t.state

-- What `admit` found true of the frame that it returns.
record Admitted (f : Frame) (s : Session) : Type 0 where
  run_is : f.run_id ≡ s.run_id
  token_is : f.token_id ≡ s.token_id
  nonce_is : f.nonce ≡ s.nonce
  sequence_is : f.sequence ≡ pos s.receive_sequence
  known : elem f.kind guest_kinds ≡ true
  allowed : check_receive_state f.kind s.state ≡ true
  next : (admit f s).1 ≡ record s {
    receive_sequence = s.receive_sequence + 1;
    state = state_received f.kind s.state;
  }

admit-ok : (f g : Frame) (s : Session) → (admit f s).0 ≡ ok g → (f ≡ g) × Admitted f s
unfolding admit
admit-ok f g s h = ground (
  arith,
  eq_iff f.run_id s.run_id,
  eq_iff f.token_id s.token_id,
  eq_iff f.nonce s.nonce,
  int_eq_iff f.sequence (pos s.receive_sequence),
)

after_read-ok :
    (r : Result TransportError Frame) (f : Frame) (s : Session)
    → (after_read r s).0 ≡ ok f
    → (r ≡ ok f) × ((after_read r s).1 ≡ (admit f s).1) × Admitted f s
unfolding after_read
after_read-ok (err e) f s h = cc
after_read-ok (ok g) f s h =
    let (same, found) = admit-ok g f s h in
    (ap ok same, ap (λ k. (admit k s).1) same, rw same at found)

module _ (c : Codec) (s : Session) where
  receive_open :
      (f : Frame)
      → (receive c s).0 ≡ ok f
      → (s.is_closed ≡ false)
        × (receive c s
            ≡ after_read (read_frame c s.max_bytes s.sock.inbox).0 (record s {
              sock = record s.sock { inbox = (read_frame c s.max_bytes s.sock.inbox).1 };
            }))
  unfolding receive
  receive_open f h = ground arith

  -- A frame that `receive` returns is the next one of this session, and is a move.
  pub receive-Received : (f : Frame) → (receive c s).0 ≡ ok f → Received c s f (receive c s).1
  receive-Received f h =
      let (opened, shape) = receive_open f h in
      let (read, next, found) =
        after_read-ok (read_frame c s.max_bytes s.sock.inbox).0 f
          (record s { sock = record s.sock { inbox = (read_frame c s.max_bytes s.sock.inbox).1 } })
          (rw shape at h) in
      rw (shape, next, found.next)
        (record {
          opened = opened;
          read = read;
          run_is = found.run_is;
          token_is = found.token_is;
          nonce_is = found.nonce_is;
          sequence_is = found.sequence_is;
          rest_is = refl;
          move = receive_move f.kind s.state found.known found.allowed;
        })

  -- A call that raises ends the session, unless it is closed; no frame is counted.
  pub receive_raises :
      (e : BrokerError)
      → (receive c s).0 ≡ err e
      → ((receive c s).1 ≡ s) × (s.is_closed ≡ true)
        ⊎ (((receive c s).1 ≡ record s { sock = (receive c s).1.sock; state = terminal })
            × (s.is_closed ≡ false))
  unfolding receive after_read admit
  receive_raises e h = ground arith
