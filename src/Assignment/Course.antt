-- ===== src/Assignment/Course.antt =====
-- The life of a run over any interleaving of its sections and calls.
use mathlib.Core.Path.{subst}
use testudo.Prelude.{
  ℕ, &&-left, &&-right, ◌≡◌, refl, sym, ap, ◌∙◌, Bool, true, false, not, ◌&&◌, ◌||◌, [], none, some,
  ok, ok-injective, if_err-ok, arith,
}
use testudo.Assignment.{
  Status, EventName, AssignmentReceipt, AssignmentError, Thread, RunState, Outcome, emit_event,
  admit, is_some, is_bad_reason, any_started, mark, cancel, launched, launch, leave, finish,
  terminalize,
}
use testudo.Assignment.Life.{
  Step, Steps, step_written, all_written, Phase, Life, none_terminal, is_absent, is_quiet, is_ended,
  emit_event-Life, close-Life,
}

-- A run that is not over.
pub record Open (s : RunState) : Type 0 where
  pub unclosed : s.receipt ≡ none
  pub clear : none_terminal s.events ≡ true
  pub going : is_ended s.thread ≡ false

Life-Open_receipt : (s : RunState) → Life s → is_some s.receipt ≡ false → Open s
Life-Open_receipt s life none_yet = elim life.phase [
  | Phase.active unclosed clear going ↦ record { unclosed = unclosed; clear = clear; going = going }
  | Phase.settled status front number clear last bound quiet ↦ cc (rw bound at none_yet)
]

Life-Open_thread : (s : RunState) → Life s → is_quiet s.thread ≡ false → Open s
Life-Open_thread s life busy = elim life.phase [
  | Phase.active unclosed clear going ↦ record { unclosed = unclosed; clear = clear; going = going }
  | Phase.settled status front number clear last bound quiet ↦ cc
]

mark-Life : (before : Bool) (s : RunState) → Open s → Life s → Life (mark before s)
unfolding mark
mark-Life true s free life = life
mark-Life false s free life =
    emit_event-Life EventName.cancel_requested (record s { is_cancelled = true }) refl life.numbered
      life.recovery free.unclosed free.clear free.going

cancel-Life : (size : ℕ) (s t : RunState) → cancel size s ≡ ok t → Life s → Life t
unfolding cancel
cancel-Life size s t h life =
    let (_, h1) = if_err-ok (is_bad_reason size) AssignmentError.bad_reason _ h in
    let (none_yet, h2) = if_err-ok (is_some s.receipt) AssignmentError.already_terminal _ h1 in
    let (_, h3) =
      if_err-ok (not s.has_runner && any_started s.events) AssignmentError.needs_reconciliation _
        h2 in
    let free = Life-Open_receipt s life none_yet in
    subst Life (ok-injective h3) (mark-Life s.is_cancelled s free life)

leave-Life :
    (outcome : Outcome) (s : RunState) → is_quiet s.thread ≡ false → Life s → Life (leave outcome s)
unfolding leave
leave-Life outcome s busy life =
    let free = Life-Open_thread s life busy in
    record {
      numbered = life.numbered;
      recovery = life.recovery ∙ absent_busy s.thread busy;
      phase = Phase.active free.unclosed free.clear refl;
    }
  where
    absent_busy : (thread : Thread) → is_quiet thread ≡ false → is_absent thread ≡ false
    absent_busy Thread.absent quiet = cc
    absent_busy Thread.preparing quiet = refl
    absent_busy Thread.running quiet = refl
    absent_busy Thread.ended quiet = refl
    absent_busy (Thread.decided status) quiet = refl

launched-Life :
    (before : Bool) (s : RunState)
    → Open s
    → s.recovered ≡ false
    → Life s
    → Life (launched before s)
unfolding launched
launched-Life true s free present life = record {
  numbered = life.numbered;
  recovery = present;
  phase = Phase.active free.unclosed free.clear refl;
}
launched-Life false s free present life =
    emit_event-Life EventName.started (record s { thread = Thread.running }) refl life.numbered
      present free.unclosed free.clear refl

with_runner-Life : (s : RunState) → Life s → Open s → Life (record s { has_runner = true })
with_runner-Life s life free = record {
  numbered = life.numbered;
  recovery = life.recovery;
  phase = Phase.active free.unclosed free.clear free.going;
}

launch-Life : (s : RunState) → s.thread ≡ Thread.preparing → Life s → Life (launch s)
unfolding launch
launch-Life s at life =
    let free = Life-Open_thread s life (ap is_quiet at) in
    launched-Life s.is_cancelled (record s { has_runner = true })
      (record { unclosed = free.unclosed; clear = free.clear; going = free.going })
      (life.recovery ∙ ap is_absent at) (with_runner-Life s life free)

finish-Life :
    (status : Status) (s : RunState)
    → s.thread ≡ Thread.decided status
    → Life s
    → Life (finish true status s)
unfolding finish
finish-Life status s at life =
    let free = Life-Open_thread s life (ap is_quiet at) in
    close-Life status (record s { has_runner = false; thread = Thread.ended }) life.numbered
      (life.recovery ∙ ap is_absent at) free.clear refl

terminalize-Life :
    (authorized : Bool) (status : Status) (size : ℕ) (s t : RunState)
    → terminalize true authorized status size s ≡ ok t
    → Life s
    → Life t
unfolding terminalize
terminalize-Life authorized status size s t h life =
    let (_, h1) = if_err-ok (not authorized) AssignmentError.not_authorized _ h in
    let (_, h2) = if_err-ok (is_bad_reason size) AssignmentError.bad_reason _ h1 in
    let (none_yet, h3) = if_err-ok (is_some s.receipt) AssignmentError.already_terminal _ h2 in
    let (idle, h4) =
      if_err-ok (s.has_runner || not s.recovered) AssignmentError.not_interrupted _ h3 in
    let free = Life-Open_receipt s life none_yet in
    let gone : is_absent s.thread ≡ true = ground (arith, idle, life.recovery) in
    subst Life (ok-injective h4) (
      close-Life status (record s { is_cancelled = true }) life.numbered life.recovery free.clear
        (absent_quiet s.thread gone))
  where
    absent_quiet : (thread : Thread) → is_absent thread ≡ true → is_quiet thread ≡ true
    absent_quiet Thread.absent gone = refl
    absent_quiet Thread.preparing gone = cc
    absent_quiet Thread.running gone = cc
    absent_quiet Thread.ended gone = cc
    absent_quiet (Thread.decided status) gone = cc

Step-Life : (s t : RunState) (step : Step s t) → step_written step ≡ true → Life s → Life t
Step-Life _ _ (Step.cancels size s t h) written life = cancel-Life size s t h life
Step-Life _ _ (Step.fails outcome s mild at) written life =
    leave-Life outcome s (ap is_quiet at) life
Step-Life _ _ (Step.launches s at) written life = launch-Life s at life
Step-Life _ _ (Step.returns outcome s at) written life = leave-Life outcome s (ap is_quiet at) life
Step-Life _ _ (Step.finishes true status s at) written life = finish-Life status s at life
Step-Life _ _ (Step.finishes false status s at) written life = cc
Step-Life _ _ (Step.terminalizes true authorized status size s t h) written life =
    terminalize-Life authorized status size s t h life
Step-Life _ _ (Step.terminalizes false authorized status size s t h) written life = cc

-- From a state of which this holds, such as that of an admission, and however the sections and the calls
-- of a run follow each other, as long as no write of a terminal event raises, its events are numbered
-- from 0 without a gap, and it has no terminal event and no receipt, or one terminal event, which is
-- the last one, and a receipt of its status for exactly its events.
pub Steps-Life : (s t : RunState) (steps : Steps s t) → all_written steps ≡ true → Life s → Life t
Steps-Life _ _ (Steps.here s) written life = life
Steps-Life _ _ (Steps.then s m t first rest) written life =
    Steps-Life m t rest (&&-right (step_written first) (all_written rest) written)
      (Step-Life s m first (&&-left (step_written first) (all_written rest) written) life)

pub admit-Life : Life admit
unfolding admit emit_event
admit-Life =
    emit_event-Life EventName.admitted
      (record {
        thread = Thread.preparing;
        has_runner = false;
        events = [];
        receipt = none;
        is_cancelled = false;
        recovered = false;
      })
      refl tt refl refl refl refl

cancel-Open : (size : ℕ) (s t : RunState) → cancel size s ≡ ok t → Life s → Open s
unfolding cancel
cancel-Open size s t h life =
    let (_, h1) = if_err-ok (is_bad_reason size) AssignmentError.bad_reason _ h in
    Life-Open_receipt s life (if_err-ok (is_some s.receipt) AssignmentError.already_terminal _ h1).0

terminalize-Open :
    (written authorized : Bool) (status : Status) (size : ℕ) (s t : RunState)
    → terminalize written authorized status size s ≡ ok t
    → Life s
    → Open s
unfolding terminalize
terminalize-Open written authorized status size s t h life =
    let (_, h1) = if_err-ok (not authorized) AssignmentError.not_authorized _ h in
    let (_, h2) = if_err-ok (is_bad_reason size) AssignmentError.bad_reason _ h1 in
    Life-Open_receipt s life (if_err-ok (is_some s.receipt) AssignmentError.already_terminal _ h2).0

-- Every step is one of a run that is not over.
Step-Open : (s t : RunState) → Step s t → Life s → Open s
Step-Open _ _ (Step.cancels size s t h) life = cancel-Open size s t h life
Step-Open _ _ (Step.fails outcome s mild at) life = Life-Open_thread s life (ap is_quiet at)
Step-Open _ _ (Step.launches s at) life = Life-Open_thread s life (ap is_quiet at)
Step-Open _ _ (Step.returns outcome s at) life = Life-Open_thread s life (ap is_quiet at)
Step-Open _ _ (Step.finishes written status s at) life = Life-Open_thread s life (ap is_quiet at)
Step-Open _ _ (Step.terminalizes written authorized status size s t h) life =
    terminalize-Open written authorized status size s t h life

-- Once a run of which `Life` holds has a receipt, no section and no call changes anything of it, whether or
-- not the writes return.
pub Steps-final :
    (s t : RunState) (receipt : AssignmentReceipt)
    → Steps s t
    → Life s
    → s.receipt ≡ some receipt
    → s ≡ t
Steps-final _ _ receipt (Steps.here s) life has_one = refl
Steps-final _ _ receipt (Steps.then s m t first rest) life has_one =
    let free = Step-Open s m first life in cc (sym free.unclosed ∙ has_one)
