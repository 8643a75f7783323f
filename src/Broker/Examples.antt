-- ===== src/Broker/Examples.antt =====
-- A whole conversation over the toy codec.
use testudo.Prelude.{◌≡◌, refl, List, [], ◌∷◌, ok, false}
use testudo.Prelude.Dict.{get}
use testudo.Value.{end}
use testudo.Transport.Stream.{segment, read_exact}
use testudo.Transport.Toy.{toy, guest_frame}
use testudo.Transport.{
  Frame, from_mapping, to_mapping, read_frame, write_frame, decode_frame, read_body, post_init,
}
use testudo.Broker.{
  Session, new, ready, new_session, send, receive, bootstrap, transmit, after_write, after_read,
  admit, check_send_state, check_receive_state, state_sent, after_bootstrap, expect_ready,
}
use testudo.Broker.Moves.{Sent, Received, send-Sent, receive-Received}
use testudo.Broker.Conversation.{Op, sending, receiving, closing, Opening, converse, converse-Word}
use testudo.Broker.Accounts.{Accounted, converse-Accounted}
use testudo.Broker.Bootstrap.{bootstrap-ready}

abbrev started : Session
started = record {
  sock = record { inbox = segment 0 (0 ∷ 0 ∷ 1 ∷ 7 ∷ []) ∷ []; outbox = []; broken = false };
  run_id = "r";
  token_id = "t";
  nonce = "n";
  max_bytes = 100;
  send_sequence = 0;
  receive_sequence = 0;
  state = new;
  is_closed = false;
}

started_is_new : new_session started.sock "r" "t" "n" 100 ≡ ok started
unfolding new_session
started_is_new = refl

abbrev greeting : Frame
greeting = guest_frame "bootstrap"

started_sends : (send toy "bootstrap" end started).0 ≡ ok greeting
unfolding send check_send_state transmit post_init after_write write_frame get
started_sends = refl

send-Sent_example : Sent toy "bootstrap" end started greeting (send toy "bootstrap" end started).1
send-Sent_example = send-Sent toy "bootstrap" end started greeting started_sends

started_receives : (receive toy started).0 ≡ ok (guest_frame "ready")
unfolding receive after_read admit check_receive_state read_frame read_body read_exact decode_frame
    from_mapping to_mapping get
started_receives = refl

receive-Received_example : Received toy started (guest_frame "ready") (receive toy started).1
receive-Received_example = receive-Received toy started (guest_frame "ready") started_receives

abbrev calls : List Op
calls = sending "bootstrap" end ∷ receiving ∷ sending "run" end ∷ receiving ∷ closing ∷ []

converse-Word_example : Opening (converse toy calls started).0
converse-Word_example = converse-Word toy calls started

converse-Accounted_example :
    Accounted started (converse toy calls started).0 (converse toy calls started).1
converse-Accounted_example = converse-Accounted toy calls started

started_boots : (bootstrap toy end started).0 ≡ ok (guest_frame "ready")
unfolding bootstrap after_bootstrap expect_ready send check_send_state transmit post_init
    after_write write_frame receive after_read admit check_receive_state read_frame read_body
    read_exact decode_frame from_mapping to_mapping get state_sent
started_boots = refl

bootstrap-ready_example :
    (started.state ≡ new)
    × ((guest_frame "ready").kind ≡ "ready")
    × ((bootstrap toy end started).1.state ≡ ready)
bootstrap-ready_example = bootstrap-ready toy end started (guest_frame "ready") started_boots
