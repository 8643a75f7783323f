-- ===== src/Assignment/Life.antt =====
-- The steps of a run over any interleaving of its sections, and what holds of its state: at most one
-- terminal event, which is the last one and the one that the receipt binds.
use testudo.Prelude.{
  ℕ, suc, ◌&&◌, ◌+◌, ◌≡◌, refl, Bool, true, false, not, List, [], ◌∷◌, ◌++◌, none, some, ok, length,
  all, arith,
}
use testudo.Assignment.{
  Status, EventName, AssignmentEvent, Thread, RunState, Outcome, emit_event, cancel, launch, leave,
  receipted, close, finish, terminalize,
}

abbrev pub is_exit : Outcome → Bool
is_exit (Outcome.exit n) = true
is_exit Outcome.assignment_error = false
is_exit Outcome.other_error = false

-- One section of the thread, or one call of `cancel` or `terminalize` that passes its guards, whether or not
-- its writes return.
pub data Step : RunState → RunState → Type 0 where
  cancels : (size : ℕ) (s t : RunState) → cancel size s ≡ ok t → Step s t
  fails :
      (outcome : Outcome) (s : RunState)
      → is_exit outcome ≡ false
      → s.thread ≡ Thread.preparing
      → Step s (leave outcome s)
  launches : (s : RunState) → s.thread ≡ Thread.preparing → Step s (launch s)
  returns :
      (outcome : Outcome) (s : RunState) → s.thread ≡ Thread.running → Step s (leave outcome s)
  finishes :
      (written : Bool) (status : Status) (s : RunState)
      → s.thread ≡ Thread.decided status
      → Step s (finish written status s)
  terminalizes :
      (written authorized : Bool) (status : Status) (size : ℕ) (s t : RunState)
      → terminalize written authorized status size s ≡ ok t
      → Step s t

-- What may come of a run.
pub data Steps : RunState → RunState → Type 0 where
  here : (s : RunState) → Steps s s
  then : (s m t : RunState) → Step s m → Steps m t → Steps s t

-- The write of the terminal event of a step returned, if it has one.
abbrev pub step_written : {s t : RunState} → Step s t → Bool
step_written (Step.cancels size s t h) = true
step_written (Step.fails outcome s mild at) = true
step_written (Step.launches s at) = true
step_written (Step.returns outcome s at) = true
step_written (Step.finishes written status s at) = written
step_written (Step.terminalizes written authorized status size s t h) = written

abbrev pub all_written : {s t : RunState} → Steps s t → Bool
all_written (Steps.here s) = true
all_written (Steps.then s m t first rest) = step_written first && all_written rest

abbrev pub is_terminal : EventName → Bool
is_terminal (EventName.terminal status) = true
is_terminal EventName.admitted = false
is_terminal EventName.started = false
is_terminal EventName.cancel_requested = false

abbrev pub none_terminal : List AssignmentEvent → Bool
none_terminal = all (λ e. not (is_terminal e.event))

abbrev pub is_absent : Thread → Bool
is_absent Thread.absent = true
is_absent Thread.preparing = false
is_absent Thread.running = false
is_absent Thread.ended = false
is_absent (Thread.decided status) = false

-- The thread has no section left.
abbrev pub is_quiet : Thread → Bool
is_quiet Thread.absent = true
is_quiet Thread.ended = true
is_quiet Thread.preparing = false
is_quiet Thread.running = false
is_quiet (Thread.decided status) = false

abbrev pub Numbered : ℕ → List AssignmentEvent → Type 0
Numbered n [] = Unit
Numbered n (e ∷ events) = (e.sequence ≡ n) × Numbered (suc n) events

abbrev pub is_ended : Thread → Bool
is_ended Thread.ended = true
is_ended Thread.absent = false
is_ended Thread.preparing = false
is_ended Thread.running = false
is_ended (Thread.decided status) = false

pub data Phase (s : RunState) : Type 0 where
  active : s.receipt ≡ none → none_terminal s.events ≡ true → is_ended s.thread ≡ false → Phase s
  settled :
      (status : Status) (front : List AssignmentEvent) (number : ℕ)
      → none_terminal front ≡ true
      → s.events ≡ front ++ record { sequence = number; event = EventName.terminal status } ∷ []
      → s.receipt ≡ some (record { status = status; events = s.events })
      → is_quiet s.thread ≡ true
      → Phase s

pub record Life (s : RunState) : Type 0 where
  pub numbered : Numbered 0 s.events
  pub recovery : s.recovered ≡ is_absent s.thread
  pub phase : Phase s

Numbered-append :
    (n : ℕ) (events : List AssignmentEvent) (name : EventName) (m : ℕ)
    → n + length events ≡ m
    → Numbered n events
    → Numbered n (events ++ record { sequence = m; event = name } ∷ [])
Numbered-append n [] name m at h = (omega (arith, at), tt)
Numbered-append n (e ∷ events) name m at h =
    (h.0, Numbered-append (suc n) events name m (omega (arith, at)) h.1)

none_terminal-append :
    (events : List AssignmentEvent) (e : AssignmentEvent)
    → is_terminal e.event ≡ false
    → none_terminal events ≡ true
    → none_terminal (events ++ e ∷ []) ≡ true
none_terminal-append [] e mild h = ground (arith, mild)
none_terminal-append (x ∷ events) e mild h = ground (arith, none_terminal-append events e mild)

-- An event that is not terminal, added to a run that is open.
pub emit_event-Life :
    (name : EventName) (s : RunState)
    → is_terminal name ≡ false
    → Numbered 0 s.events
    → s.recovered ≡ is_absent s.thread
    → s.receipt ≡ none
    → none_terminal s.events ≡ true
    → is_ended s.thread ≡ false
    → Life (emit_event name s)
unfolding emit_event
emit_event-Life name s mild numbered recovery unclosed clear going = record {
  numbered = Numbered-append 0 s.events name (length s.events) (omega arith) numbered;
  recovery = recovery;
  phase =
      Phase.active unclosed
        (none_terminal-append s.events (record { sequence = length s.events; event = name }) mild
          clear)
        going;
}

pub close-Life :
    (status : Status) (s : RunState)
    → Numbered 0 s.events
    → s.recovered ≡ is_absent s.thread
    → none_terminal s.events ≡ true
    → is_quiet s.thread ≡ true
    → Life (close true status s)
unfolding close receipted emit_event
close-Life status s numbered recovery clear quiet = record {
  numbered =
      Numbered-append 0 s.events (EventName.terminal status) (length s.events) (omega arith)
        numbered;
  recovery = recovery;
  phase = Phase.settled status s.events (length s.events) clear refl refl quiet;
}
