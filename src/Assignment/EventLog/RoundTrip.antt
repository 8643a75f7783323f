-- ===== src/Assignment/EventLog/RoundTrip.antt =====
-- What is read from a log that was appended to, whole or with a torn tail.
use mathlib.Core.Path.{subst}
use testudo.Prelude.{
  ℕ, suc, String, ◌≡◌, refl, sym, ap, ◌∙◌, false, List, [], ◌∷◌, ◌++◌, Option, none, some, Result,
  ok, ◌>>=◌, length, length-append, All, append_assoc, append-nil, inl, inr, ◌⊎◌, ◌==◌, ==_refl,
  Comparable-nat, Comparable-string, elem, arith,
}
use testudo.Policy.Path.{Text}
use testudo.Assignment.EventLog.{
  LogEvent, LogError, Codec, newline, add_byte, split_lines, log_of, accept_record, parsed_line,
  read_lines, parsed_tail, read_tail, read_durable_events,
}

-- The records of one run, numbered from `n` on.
abbrev pub Contiguous : String → String → ℕ → List LogEvent → Type 0
Contiguous assignment_id run_id n [] = Unit
Contiguous assignment_id run_id n (e ∷ events) =
    ((e.assignment_id ≡ assignment_id) × (e.run_id ≡ run_id) × (e.sequence ≡ n))
    × Contiguous assignment_id run_id (suc n) events

split_lines-no_newline : (s : Text) → elem newline s ≡ false → split_lines s ≡ ([], s)
unfolding split_lines
split_lines-no_newline [] h = refl
split_lines-no_newline (c ∷ s) h = ground (arith, split_lines-no_newline s)

-- A line is split off at its newline.
split_lines-line :
    (line rest : Text)
    → elem newline line ≡ false
    → split_lines (line ++ newline ∷ rest) ≡ (line ∷ (split_lines rest).0, (split_lines rest).1)
unfolding split_lines
split_lines-line [] rest h = refl
split_lines-line (c ∷ line) rest h =
    let other : (c == newline) ≡ false = ground (arith, h) in
    let later : elem newline line ≡ false = ground (arith, h) in
    simp (other)
      (ap (λ (p : List Text × Text). add_byte c (p.0, p.1)) (split_lines-line line rest later))

-- The printed records of a log.
abbrev lines_of : Codec → List LogEvent → List Text
lines_of codec [] = []
lines_of codec (e ∷ events) = codec.canonical e ∷ lines_of codec events

-- What the codec does with a record: it is read back from its print, which is one line.
pub record Printed (codec : Codec) (e : LogEvent) : Type 0 where
  pub back : codec.parse (codec.canonical e) ≡ some e
  pub one_line : elem newline (codec.canonical e) ≡ false

module _ (codec : Codec) (assignment_id run_id : String) where
  split_lines-log_of :
      (events : List LogEvent) (torn : Text)
      → All (Printed codec) events
      → elem newline torn ≡ false
      → split_lines (log_of codec events ++ torn) ≡ (lines_of codec events, torn)
  unfolding log_of
  split_lines-log_of [] torn printed h = split_lines-no_newline torn h
  split_lines-log_of (e ∷ events) torn printed h =
      let line = codec.canonical e in
      let rest = log_of codec events ++ torn in
      ap split_lines (append_assoc line (newline ∷ log_of codec events) torn)
      ∙ split_lines-line line rest printed.0.one_line
      ∙ ap (λ (p : List Text × Text). (line ∷ p.0, p.1))
          (split_lines-log_of events torn printed.1 h)

  abbrev pub Belongs : ℕ → LogEvent → Type 0
  Belongs n e = (e.assignment_id ≡ assignment_id) × (e.run_id ≡ run_id) × (e.sequence ≡ n)

  accept_record-ok :
      (events : List LogEvent) (e : LogEvent)
      → Belongs (length events) e
      → accept_record codec assignment_id run_id events e ≡ ok (events ++ e ∷ [])
  unfolding accept_record
  accept_record-ok events e (same_id, same_run, next) =
      simp (same_id, same_run, next, ==_refl assignment_id, ==_refl run_id, ==_refl (length events))

  read_lines-ok :
      (done events : List LogEvent)
      → All (Printed codec) events
      → Contiguous assignment_id run_id (length done) events
      → read_lines codec assignment_id run_id done (lines_of codec events) ≡ ok (done ++ events)
  unfolding read_lines
  read_lines-ok done [] printed h = ap ok (sym (append-nil done))
  read_lines-ok done (e ∷ events) printed (here, later) =
      let longer : length (done ++ e ∷ []) ≡ suc (length done) =
        omega (arith, length-append done (e ∷ [])) in
      ap
        (λ (o : Option LogEvent). parsed_line codec assignment_id run_id done o >>= λ more.
          read_lines codec assignment_id run_id more (lines_of codec events))
        printed.0.back
      ∙ ap
          (λ (r : Result LogError (List LogEvent)).
            r >>= λ more. read_lines codec assignment_id run_id more (lines_of codec events))
          (accept_record-ok done e here)
      ∙ read_lines-ok (done ++ e ∷ []) events printed.1
          (subst (λ n. Contiguous assignment_id run_id n events) (sym longer) later)
      ∙ ap ok (append_assoc done (e ∷ []) events)

  -- The log without its tail.
  read-tail :
      (events : List LogEvent) (torn : Text)
      → All (Printed codec) events
      → Contiguous assignment_id run_id 0 events
      → elem newline torn ≡ false
      → read_durable_events codec assignment_id run_id (log_of codec events ++ torn)
        ≡ read_tail codec assignment_id run_id events torn
  unfolding read_durable_events
  read-tail events torn printed h one_line =
      ap
        (λ (p : List Text × Text). read_lines codec assignment_id run_id [] p.0 >>= λ es.
          read_tail codec assignment_id run_id es p.1)
        (split_lines-log_of events torn printed one_line)
      ∙ ap
          (λ (r : Result LogError (List LogEvent)).
            r >>= λ es. read_tail codec assignment_id run_id es torn)
          (read_lines-ok [] events printed h)

  -- These records are read, and the log is left as it is or rewritten to them.
  pub record Reads (raw : Text) (events : List LogEvent) : Type 0 where
    pub rewritten : Option Text
    pub read : read_durable_events codec assignment_id run_id raw ≡ ok (events, rewritten)
    pub same_log : (rewritten ≡ none) ⊎ (rewritten ≡ some (log_of codec events))

  pub read-whole :
      (events : List LogEvent)
      → All (Printed codec) events
      → Contiguous assignment_id run_id 0 events
      → Reads (log_of codec events) events
  unfolding read_tail
  read-whole events printed h = record {
    rewritten = none;
    read =
        ap (read_durable_events codec assignment_id run_id) (sym (append-nil (log_of codec events)))
        ∙ read-tail events [] printed h refl;
    same_log = inl refl;
  }

  pub read-torn :
      (events : List LogEvent) (torn : Text)
      → All (Printed codec) events
      → Contiguous assignment_id run_id 0 events
      → elem newline torn ≡ false
      → codec.parse torn ≡ none
      → Reads (log_of codec events ++ torn) events
  unfolding read_tail
  read-torn events [] printed h one_line bad = record {
    rewritten = none;
    read = read-tail events [] printed h refl;
    same_log = inl refl;
  }
  read-torn events (c ∷ s) printed h one_line bad = record {
    rewritten = some (log_of codec events);
    read =
        read-tail events (c ∷ s) printed h one_line
        ∙ ap
            (λ (o : Option LogEvent). parsed_tail codec assignment_id run_id events o >>= λ all.
              ok (all, some (log_of codec all)))
            bad;
    same_log = inr refl;
  }

  pub read-unended :
      (events : List LogEvent) (tail : Text) (e : LogEvent)
      → All (Printed codec) events
      → Contiguous assignment_id run_id 0 events
      → elem newline tail ≡ false
      → codec.parse tail ≡ some e
      → codec.parse [] ≡ none
      → Belongs (length events) e
      → Reads (log_of codec events ++ tail) (events ++ e ∷ [])
  unfolding read_tail
  read-unended events [] e printed h one_line good empty next = cc
  read-unended events (c ∷ s) e printed h one_line good empty next = record {
    rewritten = some (log_of codec (events ++ e ∷ []));
    read =
        read-tail events (c ∷ s) printed h one_line
        ∙ ap
            (λ (o : Option LogEvent). parsed_tail codec assignment_id run_id events o >>= λ all.
              ok (all, some (log_of codec all)))
            good
        ∙ ap
            (λ (r : Result LogError (List LogEvent)).
              r >>= λ all. ok (all, some (log_of codec all)))
            (accept_record-ok events e next);
    same_log = inr refl;
  }
