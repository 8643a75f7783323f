-- ===== src/Broker/Accounts.antt =====
-- The counters and the identity of a session over whole conversations.
use mathlib.Core.Path.{subst}
use native.Mathlib.Nat.{add-zero}
use testudo.Prelude.{
  ℕ, ◌+◌, ◌≡◌, refl, sym, ap, ◌∙◌, String, List, [], ◌∷◌, ◌++◌, pos, Result, ok, err, inl, inr,
  arith, length, length-append,
}
use testudo.Value.{Fields}
use testudo.Transport.{Codec, Frame}
use testudo.Broker.{terminal, BrokerError, Session, send, receive, close}
use testudo.Broker.Moves.{Sent, Received, send-Sent, send_raises, receive-Received, receive_raises}
use testudo.Broker.Conversation.{
  Op, sending, receiving, closing, Event, sent, received, logged, converse,
}

abbrev pub sent_frames : List Event → List Frame
sent_frames [] = []
sent_frames (sent f ∷ es) = f ∷ sent_frames es
sent_frames (received f ∷ es) = sent_frames es

abbrev pub received_frames : List Event → List Frame
received_frames [] = []
received_frames (sent f ∷ es) = received_frames es
received_frames (received f ∷ es) = f ∷ received_frames es

-- The frames carry the sequence numbers `n`, `n + 1`, … and the identity of the session.
abbrev pub Numbered : Session → ℕ → List Frame → Type 0
Numbered s n [] = Unit
Numbered s n (f ∷ fs) =
    ((f.sequence ≡ pos n) × (f.run_id ≡ s.run_id) × (f.token_id ≡ s.token_id) × (f.nonce ≡ s.nonce))
    × Numbered s (n + 1) fs

pub record SameIdentity (s t : Session) : Type 0 where
  pub run_is : t.run_id ≡ s.run_id
  pub token_is : t.token_id ≡ s.token_id
  pub nonce_is : t.nonce ≡ s.nonce

pub record Accounted (s : Session) (es : List Event) (t : Session) : Type 0 where
  pub sent_numbered : Numbered s s.send_sequence (sent_frames es)
  pub received_numbered : Numbered s s.receive_sequence (received_frames es)
  pub sent_counted : t.send_sequence ≡ s.send_sequence + length (sent_frames es)
  pub received_counted : t.receive_sequence ≡ s.receive_sequence + length (received_frames es)
  pub identity : SameIdentity s t

Numbered-SameIdentity :
    (s t : Session) (n : ℕ) (fs : List Frame) → SameIdentity s t → Numbered t n fs → Numbered s n fs
Numbered-SameIdentity s t n [] i h = tt
Numbered-SameIdentity s t n (f ∷ fs) i h = (
  (h.0.0, h.0.1 ∙ i.run_is, h.0.2 ∙ i.token_is, h.0.3 ∙ i.nonce_is),
  Numbered-SameIdentity s t (n + 1) fs i h.1,
)

Numbered-append :
    (s : Session) (n : ℕ) (fs gs : List Frame)
    → Numbered s n fs
    → Numbered s (n + length fs) gs
    → Numbered s n (fs ++ gs)
Numbered-append s n [] gs hf hg = rw add-zero at hg
Numbered-append s n (f ∷ fs) gs hf hg =
    (hf.0, Numbered-append s (n + 1) fs gs hf.1 (subst (λ k. Numbered s k gs) (omega arith) hg))

sent_frames-append :
    (es fs : List Event) → sent_frames (es ++ fs) ≡ sent_frames es ++ sent_frames fs
sent_frames-append [] fs = refl
sent_frames-append (sent f ∷ es) fs = ap (λ l. f ∷ l) (sent_frames-append es fs)
sent_frames-append (received f ∷ es) fs = sent_frames-append es fs

received_frames-append :
    (es fs : List Event) → received_frames (es ++ fs) ≡ received_frames es ++ received_frames fs
received_frames-append [] fs = refl
received_frames-append (sent f ∷ es) fs = received_frames-append es fs
received_frames-append (received f ∷ es) fs = ap (λ l. f ∷ l) (received_frames-append es fs)

Accounted-append :
    (s t u : Session) (es fs : List Event)
    → Accounted s es t
    → Accounted t fs u
    → Accounted s (es ++ fs) u
Accounted-append s t u es fs a b = record {
  sent_numbered = rw sent_frames-append (
      Numbered-append s s.send_sequence (sent_frames es) (sent_frames fs) a.sent_numbered (
        rw a.sent_counted at
          (Numbered-SameIdentity s t t.send_sequence (sent_frames fs) a.identity b.sent_numbered)));
  received_numbered = rw received_frames-append (
      Numbered-append s s.receive_sequence (received_frames es) (received_frames fs)
        a.received_numbered
        (rw a.received_counted at (
          Numbered-SameIdentity s t t.receive_sequence (received_frames fs) a.identity
            b.received_numbered)));
  sent_counted = rw sent_frames-append (
      omega
        (arith, length-append (sent_frames es) (sent_frames fs), a.sent_counted, b.sent_counted));
  received_counted = rw received_frames-append (
      omega (
        arith,
        length-append (received_frames es) (received_frames fs),
        a.received_counted,
        b.received_counted,
      ));
  identity = record {
    run_is = b.identity.run_is ∙ a.identity.run_is;
    token_is = b.identity.token_is ∙ a.identity.token_is;
    nonce_is = b.identity.nonce_is ∙ a.identity.nonce_is;
  };
}

-- A call that returns no frame, and touches neither the counters nor the identity.
Accounted-quiet :
    (s t : Session)
    → t.send_sequence ≡ s.send_sequence
    → t.receive_sequence ≡ s.receive_sequence
    → SameIdentity s t
    → Accounted s [] t
Accounted-quiet s t p q i = record {
  sent_numbered = tt;
  received_numbered = tt;
  sent_counted = p ∙ sym (add-zero s.send_sequence);
  received_counted = q ∙ sym (add-zero s.receive_sequence);
  identity = i;
}

Accounted-unchanged : (s t : Session) → t ≡ s → Accounted s [] t
Accounted-unchanged s t e =
    rw e
      (Accounted-quiet s s refl refl (record { run_is = refl; token_is = refl; nonce_is = refl }))

Accounted-sent :
    (c : Codec) (kind : String) (payload : Fields) (s t : Session) (f : Frame)
    → Sent c kind payload s f t
    → Accounted s (sent f ∷ []) t
Accounted-sent c kind payload s t f m = record {
  sent_numbered = (
    (
      ground (arith, m.frame_is),
      ground (arith, m.frame_is),
      ground (arith, m.frame_is),
      ground (arith, m.frame_is),
    ),
    tt,
  );
  received_numbered = tt;
  sent_counted = ground (arith, m.rest_is);
  received_counted = ground (arith, m.rest_is);
  identity = ground (arith, m.rest_is);
}

Accounted-received :
    (c : Codec) (s t : Session) (f : Frame) → Received c s f t → Accounted s (received f ∷ []) t
Accounted-received c s t f m = record {
  sent_numbered = tt;
  received_numbered = ((m.sequence_is, m.run_is, m.token_is, m.nonce_is), tt);
  sent_counted = ground (arith, m.rest_is);
  received_counted = ground (arith, m.rest_is);
  identity = ground (arith, m.rest_is);
}

module _ (c : Codec) where
  Accounted-send :
      (kind : String) (payload : Fields) (s : Session)
      → Accounted s (logged sent (send c kind payload s).0) (send c kind payload s).1
  Accounted-send kind payload s = go (send c kind payload s).0 refl
    where
      t : Session
      t = (send c kind payload s).1

      go :
          (r : Result BrokerError Frame)
          → (send c kind payload s).0 ≡ r
          → Accounted s (logged sent r) t
      go (ok f) e = Accounted-sent c kind payload s t f (send-Sent c kind payload s f e)
      go (err x) e = elim (send_raises c kind payload s x e) [
        | inl same ↦ Accounted-unchanged s t same
        | inr ended ↦ rw ended.0 (
            Accounted-quiet s (record s { state = terminal }) refl refl
              (record { run_is = refl; token_is = refl; nonce_is = refl }))
      ]

  Accounted-receive : (s : Session) → Accounted s (logged received (receive c s).0) (receive c s).1
  Accounted-receive s = go (receive c s).0 refl
    where
      t : Session
      t = (receive c s).1

      go : (r : Result BrokerError Frame) → (receive c s).0 ≡ r → Accounted s (logged received r) t
      go (ok f) e = Accounted-received c s t f (receive-Received c s f e)
      go (err x) e = elim (receive_raises c s x e) [
        | inl same ↦ Accounted-unchanged s t same.0
        | inr ended ↦ rw ended.0 (
            Accounted-quiet s (record s { sock = t.sock; state = terminal }) refl refl
              (record { run_is = refl; token_is = refl; nonce_is = refl }))
      ]

  Accounted-close : (s : Session) → Accounted s [] (close s)
  unfolding close
  Accounted-close s = ground arith

  -- The frames that a conversation sent, and those that it accepted, are numbered without gap or
  -- repetition from the session's counters, and all carry its identity.
  pub converse-Accounted :
      (ops : List Op) (s : Session) → Accounted s (converse c ops s).0 (converse c ops s).1
  unfolding converse
  converse-Accounted [] s = Accounted-unchanged s s refl
  converse-Accounted (sending kind payload ∷ ops) s =
      Accounted-append s _ _ _ _ (Accounted-send kind payload s)
        (converse-Accounted ops (send c kind payload s).1)
  converse-Accounted (receiving ∷ ops) s =
      Accounted-append s _ _ _ _ (Accounted-receive s) (converse-Accounted ops (receive c s).1)
  converse-Accounted (closing ∷ ops) s =
      Accounted-append s _ _ _ _ (Accounted-close s) (converse-Accounted ops (close s))
