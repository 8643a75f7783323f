-- ===== src/Broker/Conversation.antt =====
-- Whole conversations: any calls of `send`, `receive` and `close`, in any order, and the log of the
-- frames that they returned. `bootstrap`, `run` and `stop` are such calls.
use testudo.Prelude.{
  ◌≡◌, refl, ap, ◌∙◌, String, ◌⊎◌, inl, inr, true, List, [], ◌∷◌, ◌++◌, Result, ok, err, Bool-cases,
  elem, Comparable-string,
}
use testudo.Value.{Fields}
use testudo.Transport.{Codec, Frame}
use testudo.Broker.{
  Phase, new, ready, running, stop_requested, terminal, closed, BrokerError, Session, stream_kinds,
  send, receive, close, is_live,
}
use testudo.Broker.Moves.{
  SendMove, ReceiveMove, send-Sent, send_raises, receive-Received, receive_raises,
}

pub data Op : Type 0 where
  sending : String → Fields → Op
  receiving closing : Op

pub data Event : Type 0 where
  sent received : Frame → Event

abbrev pub logged : (Frame → Event) → Result BrokerError Frame → List Event
logged tag (ok f) = tag f ∷ []
logged tag (err e) = []

module _ (c : Codec) where
  step : Op → Session → List Event × Session
  step (sending kind payload) s = let (r, t) = send c kind payload s in (logged sent r, t)
  step receiving s = let (r, t) = receive c s in (logged received r, t)
  step closing s = ([], close s)

  unfoldable pub converse : List Op → Session → List Event × Session
  unfolding step
  converse [] s = ([], s)
  converse (op ∷ ops) s =
      let (es, t) = step op s in let (rest, u) = converse ops t in (es ++ rest, u)

-- The language of the protocol, one nonterminal for each phase. A word may end anywhere.
pub data Stopping : List Event → Type 0 where
  end : Stopping []
  stream :
      {f : Frame} {es : List Event}
      → elem f.kind stream_kinds ≡ true
      → Stopping es
      → Stopping (received f ∷ es)
  final : {f : Frame} → (f.kind ≡ "result") ⊎ (f.kind ≡ "error") → Stopping (received f ∷ [])

pub data Running : List Event → Type 0 where
  end : Running []
  stream :
      {f : Frame} {es : List Event}
      → elem f.kind stream_kinds ≡ true
      → Running es
      → Running (received f ∷ es)
  stop : {f : Frame} {es : List Event} → f.kind ≡ "stop" → Stopping es → Running (sent f ∷ es)
  final : {f : Frame} → (f.kind ≡ "result") ⊎ (f.kind ≡ "error") → Running (received f ∷ [])

pub data Greeted : List Event → Type 0 where
  end : Greeted []
  run : {f : Frame} {es : List Event} → f.kind ≡ "run" → Running es → Greeted (sent f ∷ es)
  stop : {f : Frame} {es : List Event} → f.kind ≡ "stop" → Stopping es → Greeted (sent f ∷ es)

pub data Opening : List Event → Type 0 where
  end : Opening []
  bootstrap :
      {f : Frame} {es : List Event} → f.kind ≡ "bootstrap" → Opening es → Opening (sent f ∷ es)
  greeting :
      {f : Frame} {es : List Event} → f.kind ≡ "ready" → Greeted es → Opening (received f ∷ es)

abbrev pub Word : Phase → List Event → Type 0
Word new es = Opening es
Word ready es = Greeted es
Word running es = Running es
Word stop_requested es = Stopping es
Word terminal es = es ≡ []
Word closed es = es ≡ []

Word-end : (p : Phase) → Word p []
Word-end new = Opening.end
Word-end ready = Greeted.end
Word-end running = Running.end
Word-end stop_requested = Stopping.end
Word-end terminal = refl
Word-end closed = refl

Word-sent :
    {p q : Phase} {k : String} (f : Frame) (es : List Event)
    → f.kind ≡ k
    → SendMove p k q
    → Word q es
    → Word p (sent f ∷ es)
Word-sent f es e (SendMove.bootstrap h) w = Opening.bootstrap (e ∙ h) w
Word-sent f es e (SendMove.run h) w = Greeted.run (e ∙ h) w
Word-sent f es e (SendMove.stop_early h) w = Greeted.stop (e ∙ h) w
Word-sent f es e (SendMove.stop h) w = Running.stop (e ∙ h) w

Word-stream :
    (p : Phase) (f : Frame) (es : List Event)
    → elem f.kind stream_kinds ≡ true
    → is_live p ≡ true
    → Word p es
    → Word p (received f ∷ es)
Word-stream running f es h l w = Running.stream h w
Word-stream stop_requested f es h l w = Stopping.stream h w
Word-stream p f es h l w = cc

Word-final :
    (p : Phase) (f : Frame)
    → (f.kind ≡ "result") ⊎ (f.kind ≡ "error")
    → is_live p ≡ true
    → Word p (received f ∷ [])
Word-final running f h l = Running.final h
Word-final stop_requested f h l = Stopping.final h
Word-final p f h l = cc

Word-received :
    {p q : Phase} {k : String} (f : Frame) (es : List Event)
    → f.kind ≡ k
    → ReceiveMove p k q
    → Word q es
    → Word p (received f ∷ es)
Word-received f es e (ReceiveMove.greet h) w = Opening.greeting (e ∙ h) w
Word-received f es e (ReceiveMove.stream {p} h l) w = Word-stream p f es (rw e h) l w
Word-received f es e (ReceiveMove.finish {p} h l) w = rw w (Word-final p f (rw e h) l)

-- No frame follows the end of a session.
Word-dead : (p : Phase) {q : Phase} (es : List Event) → q ≡ terminal → Word q es → Word p es
Word-dead p es e w = rw (rw e at w) (Word-end p)

Word-close : (s : Session) (es : List Event) → Word (close s).state es → Word s.state es
unfolding close
Word-close s es w = elim (Bool-cases s.is_closed) [
  | inl shut ↦ rw (shut, close) at w
  | inr shut ↦ let none_left : es ≡ [] = rw (shut, close) at w in rw none_left (Word-end s.state)
]

module _ (c : Codec) where
  Word-logged_sent :
      (kind : String) (payload : Fields) (s : Session) (rest : List Event)
      → Word (send c kind payload s).1.state rest
      → Word s.state (logged sent (send c kind payload s).0 ++ rest)
  Word-logged_sent kind payload s rest w = go (send c kind payload s).0 refl
    where
      go :
          (r : Result BrokerError Frame)
          → (send c kind payload s).0 ≡ r
          → Word s.state (logged sent r ++ rest)
      go (ok f) e =
          let made = send-Sent c kind payload s f e in
          Word-sent f rest (ap (λ (g : Frame). g.kind) made.frame_is) made.move w
      go (err x) e = elim (send_raises c kind payload s x e) [
        | inl same ↦ rw (ap (λ (t : Session). t.state) same) at w
        | inr ended ↦ Word-dead s.state rest (ap (λ (t : Session). t.state) ended.0) w
      ]

  Word-logged_received :
      (s : Session) (rest : List Event)
      → Word (receive c s).1.state rest
      → Word s.state (logged received (receive c s).0 ++ rest)
  Word-logged_received s rest w = go (receive c s).0 refl
    where
      go :
          (r : Result BrokerError Frame)
          → (receive c s).0 ≡ r
          → Word s.state (logged received r ++ rest)
      go (ok f) e = Word-received f rest refl (receive-Received c s f e).move w
      go (err x) e = elim (receive_raises c s x e) [
        | inl same ↦ rw (ap (λ (t : Session). t.state) same.0) at w
        | inr ended ↦ Word-dead s.state rest (ap (λ (t : Session). t.state) ended.0) w
      ]

  -- Whatever is called in whatever order, the frames that were accepted are a word of the protocol.
  pub converse-Word : (ops : List Op) (s : Session) → Word s.state (converse c ops s).0
  unfolding converse
  converse-Word [] s = Word-end s.state
  converse-Word (sending kind payload ∷ ops) s =
      Word-logged_sent kind payload s _ (converse-Word ops (send c kind payload s).1)
  converse-Word (receiving ∷ ops) s = Word-logged_received s _ (converse-Word ops (receive c s).1)
  converse-Word (closing ∷ ops) s = Word-close s _ (converse-Word ops (close s))
