-- ===== src/Controller/Returned.antt =====
-- Inversion of the parts of a run that return.
use mathlib.Core.Path.{subst}
use testudo.Prelude.{
  Some, ℕ, suc, String, ◌≡◌, refl, sym, ◌∙◌, Bool, true, false, ◌||◌, inl, inr, ◌⊎◌, List, [], ◌∷◌,
  ◌++◌, Option, none, some, Result, ok, Bool-cases, if◌then◌else◌, ◌==◌, Comparable-string,
  some-injective,
}
use testudo.Value.{Fields}
use testudo.Transport.{Frame}
use testudo.Controller.{
  Fault, HostController, Turn, Worker, World, Act, lift, call, emit_host, new_event,
}
use testudo.Prelude.State.{Returns, bind-Returns, return-Returns, raise}
use testudo.Controller.Checks.{Identity}
use testudo.Controller.Receive.{
  Capture, Handled, raise_act, on_stdout, on_stderr, on_receipt, handle_frame, take_turn,
  proceed_with, receive_all,
}

module _ {A : Type 0} where
  pub lift-Returns :
      (r : Result Fault A) (s : HostController) (a : A) (t : HostController)
      → Returns (lift r) s a t
      → (r ≡ ok a) × (s ≡ t)
  lift-Returns r s a t h = (h.result, h.left)

pub raise_act-Returns :
    (b : Bool) (e : Fault) (s : HostController) (a : Unit {0}) (t : HostController)
    → Returns (raise_act b e) s a t
    → (b ≡ false) × (s ≡ t)
raise_act-Returns true e s a t h = let r = h.result in cc
raise_act-Returns false e s a t h = (refl, h.left)

if-Returns :
    {A : Type 0} (b : Bool) (m n : Act A) (s : HostController) (a : A) (t : HostController)
    → Returns (if b then m else n) s a t
    → ((b ≡ true) × Returns m s a t) ⊎ ((b ≡ false) × Returns n s a t)
if-Returns true m n s a t h = inl (refl, h)
if-Returns false m n s a t h = inr (refl, h)

call-left :
    (o : Option Fault) (s : HostController) (a : Unit {0}) → (call o s).0 ≡ ok a → (call o s).1 ≡ s
call-left none s a h = refl
call-left (some e) s a h = refl

pub emit_host-Returns :
    (world : World) (event run_id token_id : String) (details : Fields) (s : HostController)
    (a : Unit {0}) (t : HostController)
    → Returns (emit_host world event run_id token_id details) s a t
    → t ≡ record s {
      sequence = suc s.sequence;
      events = s.events ++ new_event world event run_id token_id s.sequence details ∷ [];
    }
unfolding emit_host
emit_host-Returns world event run_id token_id details s a t h =
    let result = h.result in
    let left = h.left in
    elim (Bool-cases (run_id == "" || token_id == "")) [
      | inl missing ↦ cc (rw missing at result)
      | inr named ↦
          sym (rw named at left)
          ∙ call-left (world.sink (new_event world event run_id token_id s.sequence details)) _ a
              (rw named at result)
    ]

module _ (world : World) (worker : Worker) (i : Identity) where
  -- What a frame that was handled does to the capture.
  data After (f : Frame) (c : Capture) : Handled → Type 0 where
    result : (f.kind == "result") ≡ true → After f c (Handled.finished f.payload c)
    receipt :
        (f.kind == "receipt") ≡ true
        → After f c (Handled.going (record c { guest_receipt = some f.payload }))
    other : (d : Capture) → d.guest_receipt ≡ c.guest_receipt → After f c (Handled.going d)

  on_stdout-After :
      (f : Frame) (c : Capture) (s : HostController) (x : Handled) (t : HostController)
      → Returns (on_stdout world worker i f c) s x t
      → After f c x
  on_stdout-After f c s x t h =
      let (chunk, s1, first, h1) = bind-Returns _ _ s x t h in
      let (_, s2, bounded, h2) = bind-Returns _ _ s1 x t h1 in
      let (_, s3, told, h3) = bind-Returns _ _ s2 x t h2 in
      subst (After f c) (return-Returns _ s3 x t h3).0 (After.other _ refl)

  on_stderr-After :
      (f : Frame) (c : Capture) (s : HostController) (x : Handled) (t : HostController)
      → Returns (on_stderr world worker i f c) s x t
      → After f c x
  on_stderr-After f c s x t h =
      let (chunk, s1, first, h1) = bind-Returns _ _ s x t h in
      let (_, s2, bounded, h2) = bind-Returns _ _ s1 x t h1 in
      let (_, s3, told, h3) = bind-Returns _ _ s2 x t h2 in
      subst (After f c) (return-Returns _ s3 x t h3).0 (After.other _ refl)

  on_receipt-After :
      (o : Option Fields) (f : Frame) (c : Capture) (s : HostController) (x : Handled)
      (t : HostController)
      → (f.kind == "receipt") ≡ true
      → Returns (on_receipt world worker i o f c) s x t
      → After f c x
  on_receipt-After (some before) f c s x t kind h = let r = h.result in cc
  on_receipt-After none f c s x t kind h =
      subst (After f c) (return-Returns _ s x t h).0 (After.receipt kind)

  raise-Returns :
      {A : Type 0} (e : Fault) (s : HostController) (a : A) (t : HostController)
      → Returns (raise e) s a t
      → ⊥
  raise-Returns e s a t h = let r = h.result in cc

  handle_frame-After :
      (f : Frame) (c : Capture) (s : HostController) (x : Handled) (t : HostController)
      → Returns (handle_frame world worker i f c) s x t
      → After f c x
  unfolding handle_frame
  handle_frame-After f c s x t h = elim (if-Returns (f.kind == "stdout") _ _ s x t h) [
    | inl (_, a) ↦ on_stdout-After f c s x t a
    | inr (_, a) ↦ elim (if-Returns (f.kind == "stderr") _ _ s x t a) [
      | inl (_, b) ↦ on_stderr-After f c s x t b
      | inr (_, b) ↦ elim (if-Returns (f.kind == "receipt") _ _ s x t b) [
        | inl (kind, d) ↦ on_receipt-After c.guest_receipt f c s x t kind d
        | inr (_, d) ↦ elim (if-Returns (f.kind == "result") _ _ s x t d) [
          | inl (kind, y) ↦ subst (After f c) (return-Returns _ s x t y).0 (After.result kind)
          | inr (_, y) ↦ elim (if-Returns (f.kind == "error") _ _ s x t y) [
            | inl (_, z) ↦ absurd (raise-Returns Fault.guest_failed s x t z)
            | inr (_, z) ↦ subst (After f c) (return-Returns _ s x t z).0 (After.other c refl)
          ]
        ]
      ]
    ]
  ]

  take_turn-After :
      (deadline : Option ℕ) (n : Turn) (c : Capture) (s : HostController) (x : Handled)
      (t : HostController)
      → Returns (take_turn world worker i deadline n c) s x t
      → (f : Frame) × (n.received ≡ ok f) × After f c x
  take_turn-After deadline n c s x t h =
      let (_, s1, stopped, h1) = bind-Returns _ _ s x t h in
      let (_, s2, checked, h2) = bind-Returns _ _ s1 x t h1 in
      let (_, s3, timely, h3) = bind-Returns _ _ s2 x t h2 in
      let (f, s4, received, h4) = bind-Returns _ _ s3 x t h3 in
      (f, received.result, handle_frame-After f c s4 x t h4)

  -- A frame of the kind came with the payload.
  pub record Came (kind : String) (payload : Fields) (n : Turn) : Type 0 where
    pub frame : Frame
    pub received : n.received ≡ ok frame
    pub of_kind : (frame.kind == kind) ≡ true
    pub same_payload : frame.payload ≡ payload

  -- The receipt that the loop kept.
  abbrev pub Kept : Option Fields → Option Fields → List Turn → Type 0
  Kept before none ts = Unit
  Kept before (some r) ts = (before ≡ some r) ⊎ Some (Came "receipt" r) ts

  Kept-later :
      (n : Turn) (f : Frame) (c : Capture) (d : Capture) (o : Option Fields) (ts : List Turn)
      → n.received ≡ ok f
      → After f c (Handled.going d)
      → Kept d.guest_receipt o ts
      → Kept c.guest_receipt o (n ∷ ts)
  Kept-later n f c _ none ts received after kept = tt
  Kept-later n f c _ (some r) ts received (After.receipt kind) (inl same) = inr (
      inl (record {
        frame = f;
        received = received;
        of_kind = kind;
        same_payload = some-injective _ _ same;
      }))
  Kept-later n f c _ (some r) ts received (After.receipt kind) (inr later) = inr (inr later)
  Kept-later n f c _ (some r) ts received (After.other d same) (inl held) = inl (sym same ∙ held)
  Kept-later n f c _ (some r) ts received (After.other d same) (inr later) = inr (inr later)

  Kept-before : (o : Option Fields) (n : Turn) (ts : List Turn) → Kept o o (n ∷ ts)
  Kept-before none n ts = tt
  Kept-before (some r) n ts = inl refl

  abbrev pub Arrived : Capture → Fields × Capture → List Turn → Type 0
  Arrived c (payload, d) ts =
      Some (Came "result" payload) ts × Kept c.guest_receipt d.guest_receipt ts

  proceed_with-Arrived :
      (rest : Capture → Act (Fields × Capture)) (n : Turn) (ts : List Turn) (f : Frame)
      (c : Capture) (x : Handled) (s : HostController) (done : Fields × Capture)
      (t : HostController)
      → n.received ≡ ok f
      → After f c x
      → ((d : Capture) → Returns (rest d) s done t → Arrived d done ts)
      → Returns (proceed_with world worker i rest x) s done t
      → Arrived c done (n ∷ ts)
  proceed_with-Arrived rest n ts f c _ s done t received (After.result kind) later h =
      subst (λ q. Arrived c q (n ∷ ts)) (return-Returns (f.payload, c) s done t h).0
        (
          inl (record { frame = f; received = received; of_kind = kind; same_payload = refl }),
          Kept-before c.guest_receipt n ts,
        )
  proceed_with-Arrived rest n ts f c _ s done t received (After.receipt kind) later h =
      let (came, kept) = later (record c { guest_receipt = some f.payload }) h in
      (inr came, Kept-later n f c _ done.1.guest_receipt ts received (After.receipt kind) kept)
  proceed_with-Arrived rest n ts f c _ s done t received (After.other d same) later h =
      let (came, kept) = later d h in
      (inr came, Kept-later n f c d done.1.guest_receipt ts received (After.other d same) kept)

  -- The loop ends with the payload of a result that came, and with a receipt that came.
  pub receive_all-Arrived :
      (deadline : Option ℕ) (ts : List Turn) (c : Capture) (s : HostController)
      (done : Fields × Capture) (t : HostController)
      → Returns (receive_all world worker i deadline ts c) s done t
      → Arrived c done ts
  unfolding receive_all
  receive_all-Arrived deadline [] c s done t h = absurd (raise-Returns worker.after s done t h)
  receive_all-Arrived deadline (n ∷ ts) c s done t h =
      let (x, s1, turn, h1) = bind-Returns _ _ s done t h in
      let (f, received, after) = take_turn-After deadline n c s x s1 turn in
      proceed_with-Arrived (receive_all world worker i deadline ts) n ts f c x s1 done t received
        after (λ d r. receive_all-Arrived deadline ts d s1 done t r) h1
