-- ===== src/Broker.antt =====
-- src/testudo/runtime/broker.py: one host/guest conversation over a connected socket. A method
-- returns its result, or what it raises, with the session that it leaves.
pub mod Moves
pub mod Conversation
pub mod Accounts
pub mod Bootstrap
mod Examples
use testudo.Prelude.{
  ℕ, zero, ◌+◌, String, Bool, true, false, not, ◌&&◌, ◌||◌, List, [], ◌∷◌, pos, Result, ok, err,
  ◌==◌, Comparable-nat, Comparable-string, Comparable-int, elem, ltb, if◌then◌else◌,
}
use testudo.Value.{str, dict, Fields, end, field}
use testudo.Transport.Stream.{TransportError}
use testudo.Transport.{Codec, Frame, Socket, max_frame_bytes, post_init, write_frame, read_frame}

-- `_HOST_KINDS`, `_STREAM_KINDS`, `_GUEST_KINDS`
abbrev pub host_kinds : List String
host_kinds = "bootstrap" ∷ "run" ∷ "stop" ∷ []

abbrev pub stream_kinds : List String
stream_kinds = "stdout" ∷ "stderr" ∷ "receipt" ∷ []

abbrev pub guest_kinds : List String
guest_kinds = "ready" ∷ "result" ∷ "error" ∷ stream_kinds

-- The texts that `_state` holds.
pub data Phase : Type 0 where
  new ready running stop_requested terminal closed : Phase

pub data BrokerError : Type 0 where
  session_closed identity_required max_bytes_range host_kind send_state identity_mismatch
        nonce_mismatch sequence_mismatch guest_kind receive_state ready_expected reason_required :
      BrokerError
  invalid_frame send_failed read_failed : TransportError → BrokerError

pub record Session : Type 0 where
  pub sock : Socket
  pub run_id : String
  pub token_id : String
  pub nonce : String
  pub max_bytes : ℕ
  pub send_sequence : ℕ
  pub receive_sequence : ℕ
  pub state : Phase
  pub is_closed : Bool

-- `BrokerSession.__init__`
unfoldable pub new_session : Socket → String → String → String → ℕ → Result BrokerError Session
new_session sock run_id token_id nonce max_bytes =
    if run_id == "" || token_id == "" || nonce == ""
    then err identity_required
    else if max_bytes == 0 || ltb max_frame_bytes max_bytes
    then err max_bytes_range
    else ok (record {
      sock = sock;
      run_id = run_id;
      token_id = token_id;
      nonce = nonce;
      max_bytes = max_bytes;
      send_sequence = 0;
      receive_sequence = 0;
      state = new;
      is_closed = false;
    })

abbrev pub is_new : Phase → Bool
is_new new = true
is_new _ = false

abbrev pub is_ready : Phase → Bool
is_ready ready = true
is_ready _ = false

-- `{"ready", "running"}`
abbrev pub can_stop : Phase → Bool
can_stop ready = true
can_stop running = true
can_stop _ = false

-- `{"running", "stop_requested"}`
abbrev pub is_live : Phase → Bool
is_live running = true
is_live stop_requested = true
is_live _ = false

-- The table of `_check_send_state`, at a kind of `_HOST_KINDS`.
unfoldable pub check_send_state : String → Phase → Bool
check_send_state kind state =
    if kind == "bootstrap"
    then is_new state
    else if kind == "run"
    then is_ready state
    else can_stop state

-- The table of `_check_receive_state`, at a kind of `_GUEST_KINDS`.
unfoldable pub check_receive_state : String → Phase → Bool
check_receive_state kind state = if kind == "ready" then is_new state else is_live state

-- The state after a frame is sent, or accepted.
unfoldable pub state_sent : String → Phase → Phase
state_sent kind state =
    if kind == "run" then running else if kind == "stop" then stop_requested else state

unfoldable pub state_received : String → Phase → Phase
state_received kind state =
    if kind == "ready"
    then ready
    else if kind == "result" || kind == "error"
    then terminal
    else state

-- `_reject`
abbrev pub reject : BrokerError → Session → Result BrokerError Frame × Session
reject e s = (err e, record s { state = terminal })

abbrev pub outgoing : Session → String → Fields → Frame
outgoing s kind payload = record {
  sequence = pos s.send_sequence;
  run_id = s.run_id;
  token_id = s.token_id;
  nonce = s.nonce;
  kind = kind;
  payload = payload;
}

unfoldable pub after_write :
    Frame → Session → Result TransportError Socket → Result BrokerError Frame × Session
after_write f s (err e) = reject (send_failed e) s
after_write f s (ok sock) = (
  ok f,
  record s { sock = sock; send_sequence = s.send_sequence + 1; state = state_sent f.kind s.state },
)

-- The checks of `receive` on a frame that was read.
unfoldable pub admit : Frame → Session → Result BrokerError Frame × Session
admit f s =
    if not (f.run_id == s.run_id) || not (f.token_id == s.token_id)
    then reject identity_mismatch s
    else if not (f.nonce == s.nonce)
    then reject nonce_mismatch s
    else if not (f.sequence == pos s.receive_sequence)
    then reject sequence_mismatch s
    else if not (elem f.kind guest_kinds)
    then reject guest_kind s
    else if not (check_receive_state f.kind s.state)
    then reject receive_state s
    else (
      ok f,
      record s { receive_sequence = s.receive_sequence + 1; state = state_received f.kind s.state },
    )

unfoldable pub after_read :
    Result TransportError Frame → Session → Result BrokerError Frame × Session
after_read (err e) s = reject (read_failed e) s
after_read (ok f) s = admit f s

-- The last check of `bootstrap`.
unfoldable pub expect_ready :
    Result BrokerError Frame × Session → Result BrokerError Frame × Session
expect_ready (err e, s) = (err e, s)
expect_ready (ok f, s) = if not (f.kind == "ready") then reject ready_expected s else (ok f, s)

module _ (c : Codec) where
  unfoldable pub transmit :
      Session → Result TransportError Frame → Result BrokerError Frame × Session
  transmit s (err e) = (err (invalid_frame e), s)
  transmit s (ok f) = after_write f s (write_frame c s.max_bytes f s.sock)

  unfoldable pub send : String → Fields → Session → Result BrokerError Frame × Session
  send kind payload s =
      if s.is_closed
      then (err session_closed, s)
      else if not (elem kind host_kinds)
      then (err host_kind, s)
      else if not (check_send_state kind s.state)
      then (err send_state, s)
      else transmit s (post_init (outgoing s kind payload))

  unfoldable pub receive : Session → Result BrokerError Frame × Session
  receive s =
      if s.is_closed
      then (err session_closed, s)
      else let (r, inbox) = read_frame c s.max_bytes s.sock.inbox in
        after_read r (record s { sock = record s.sock { inbox = inbox } })

  unfoldable pub after_bootstrap :
      Result BrokerError Frame × Session → Result BrokerError Frame × Session
  after_bootstrap (err e, s) = (err e, s)
  after_bootstrap (ok f, s) = expect_ready (receive s)

  unfoldable pub bootstrap : Fields → Session → Result BrokerError Frame × Session
  bootstrap contract s = after_bootstrap (send "bootstrap" contract s)

  unfoldable pub run : Fields → Fields → Session → Result BrokerError Frame × Session
  run workflow inputs =
      send "run" (field "workflow" (dict workflow) (field "inputs" (dict inputs) end))

  unfoldable pub stop : String → Session → Result BrokerError Frame × Session
  stop reason s =
      if reason == ""
      then (err reason_required, s)
      else send "stop" (field "reason" (str reason) end) s

-- The call of `sock.close()` ends the connection: nothing is read or written after it.
unfoldable pub close : Session → Session
close s = if s.is_closed then s else record s { is_closed = true; state = closed }
