-- ===== src/Assignment/EventLog/Crash.antt =====
-- A crash in the middle of an append, and what any log that is read holds.
use mathlib.Core.Path.{subst}
use testudo.Prelude.{
  ℕ, zero, suc, ◌+◌, ◌≤◌, ◌<◌, String, ◌≡◌, refl, sym, ap, ◌∙◌, true, false, not, ◌||◌, inl, inr,
  ◌⊎◌, List, [], ◌∷◌, ◌++◌, Option, none, some, ok, raise_if-eq-ok, bind-ok, ok-injective, length,
  length-append, take, take-length-append, All, All-append, append_assoc, Bool-cases, ltb, ◌==◌,
  ==_iff, Comparable-nat, Comparable-string, elem, arith,
}
use testudo.Policy.Path.{Text}
use testudo.Assignment.EventLog.{
  LogEvent, LogError, Codec, newline, split_lines, log_of, accept_record, parsed_line, read_lines,
  parsed_tail, read_tail, read_durable_events,
}
use testudo.Assignment.EventLog.RoundTrip.{
  Contiguous, Printed, Belongs, Reads, read-whole, read-torn, read-unended,
}

take-append_left : (n : ℕ) (xs ys : Text) → n ≤ length xs → take n (xs ++ ys) ≡ take n xs
take-append_left zero xs ys h = refl
take-append_left (suc n) [] ys h = ground (arith, h)
take-append_left (suc n) (x ∷ xs) ys h =
    ap (λ l. x ∷ l) (take-append_left n xs ys (omega (arith, h)))

take_all : (n : ℕ) (xs : Text) → length xs ≤ n → take n xs ≡ xs
take_all zero [] h = refl
take_all zero (x ∷ xs) h = ground (arith, h)
take_all (suc n) [] h = refl
take_all (suc n) (x ∷ xs) h = ap (λ l. x ∷ l) (take_all n xs (omega (arith, h)))

elem-take : (k n : ℕ) (xs : Text) → elem k xs ≡ false → elem k (take n xs) ≡ false
elem-take k zero xs h = refl
elem-take k (suc n) [] h = refl
elem-take k (suc n) (x ∷ xs) h = ground (arith, h, elem-take k n xs)

module _ (codec : Codec) (assignment_id run_id : String) where
  log_of-append :
      (events : List LogEvent) (e : LogEvent)
      → log_of codec (events ++ e ∷ []) ≡ log_of codec events ++ (codec.canonical e ++ newline ∷ [])
  unfolding log_of
  log_of-append [] e = refl
  log_of-append (x ∷ events) e =
      ap (λ l. codec.canonical x ++ newline ∷ l) (log_of-append events e)
      ∙ sym (
          append_assoc (codec.canonical x) (newline ∷ log_of codec events)
            (codec.canonical e ++ newline ∷ []))

  Contiguous-append :
      (n : ℕ) (events : List LogEvent) (e : LogEvent)
      → Contiguous assignment_id run_id n events
      → Belongs codec assignment_id run_id (n + length events) e
      → Contiguous assignment_id run_id n (events ++ e ∷ [])
  Contiguous-append n [] e h (same_id, same_run, next) =
      ((same_id, same_run, omega (arith, next)), tt)
  Contiguous-append n (x ∷ events) e (here, later) (same_id, same_run, next) =
      (here, Contiguous-append (suc n) events e later (same_id, same_run, omega (arith, next)))

  -- What is left of an append that a crash cut off behind `n` bytes.
  abbrev pub cut_log : List LogEvent → LogEvent → ℕ → Text
  cut_log events e n = log_of codec events ++ take n (codec.canonical e ++ newline ∷ [])

  -- The record was not yet part of the log, or it is.
  abbrev pub Survives : List LogEvent → LogEvent → Text → Type 0
  Survives events e raw =
      Reads codec assignment_id run_id raw events
      ⊎ Reads codec assignment_id run_id raw (events ++ e ∷ [])

  module _ (events : List LogEvent) (e : LogEvent) (n : ℕ) (printed : All (Printed codec) events)
      (printed_e : Printed codec e) (contiguous : Contiguous assignment_id run_id 0 events)
      (next : Belongs codec assignment_id run_id (length events) e)
      (torn : (m : ℕ)
        → m < length (codec.canonical e)
        → codec.parse (take m (codec.canonical e)) ≡ none)
      (empty : codec.parse [] ≡ none) where
    cut_short : n < length (codec.canonical e) → Survives events e (cut_log events e n)
    cut_short h =
        let line = codec.canonical e in
        let short : n ≤ length line = omega (arith, h) in
        inl (
          subst (λ l. Reads codec assignment_id run_id (log_of codec events ++ l) events)
            (sym (take-append_left n line (newline ∷ []) short))
            (read-torn codec assignment_id run_id events (take n line) printed contiguous
              (elem-take newline n line printed_e.one_line) (torn n h)))

    cut_behind : n ≡ length (codec.canonical e) → Survives events e (cut_log events e n)
    cut_behind h =
        let line = codec.canonical e in
        inr (
          subst
            (λ l. Reads codec assignment_id run_id (log_of codec events ++ l) (events ++ e ∷ []))
            (sym (take-length-append line (newline ∷ []))
              ∙ ap (λ k. take k (line ++ newline ∷ [])) (sym h))
            (read-unended codec assignment_id run_id events line e printed contiguous
              printed_e.one_line printed_e.back empty next))

    not_cut : length (codec.canonical e) < n → Survives events e (cut_log events e n)
    not_cut h =
        let line = codec.canonical e in
        let long : length (line ++ newline ∷ []) ≤ n =
          omega (arith, h, length-append line (newline ∷ [])) in
        inr (
          subst (λ raw. Reads codec assignment_id run_id raw (events ++ e ∷ []))
            (log_of-append events e
              ∙ ap (λ l. log_of codec events ++ l) (sym (take_all n (line ++ newline ∷ []) long)))
            (read-whole codec assignment_id run_id (events ++ e ∷ [])
              (All-append (Printed codec) events (e ∷ []) printed (printed_e, tt))
              (Contiguous-append 0 events e contiguous (next.0, next.1, omega (arith, next.2)))))

    -- A log of records of one run to which one more is appended: wherever a crash cuts the append off,
    -- the records before it are read, and the new one is read or was never there; the log is then left
    -- as it is or rewritten to exactly what was read. Its records are read back from their prints, and
    -- neither a beginning of the new record's print nor an empty text parses.
    pub read-Survives : Survives events e (cut_log events e n)
    read-Survives = elim (Bool-cases (ltb n (length (codec.canonical e)))) [
      | inl short ↦ cut_short (ground (arith, short))
      | inr other ↦ elim (Bool-cases (n == length (codec.canonical e))) [
        | inl same ↦ cut_behind (ground (arith, same))
        | inr more ↦ not_cut (ground (arith, other, more))
      ]
    ]

  -- A record that is accepted carries on the numbers.
  accept_record-Contiguous :
      (events all : List LogEvent) (e : LogEvent)
      → Contiguous assignment_id run_id 0 events
      → accept_record codec assignment_id run_id events e ≡ ok all
      → Contiguous assignment_id run_id 0 all
  unfolding accept_record
  accept_record-Contiguous events all e h accepted =
      let (identity, h1) =
        raise_if-eq-ok (not (e.assignment_id == assignment_id) || not (e.run_id == run_id))
          LogError.wrong_identity _ accepted in
      let (next, h2) =
        raise_if-eq-ok (not (e.sequence == length events)) LogError.not_contiguous _ h1 in
      let same_id : (e.assignment_id == assignment_id) ≡ true = ground (arith, identity) in
      let same_run : (e.run_id == run_id) ≡ true = ground (arith, identity) in
      subst (Contiguous assignment_id run_id 0) (ok-injective h2) (
        Contiguous-append 0 events e h (
          (==_iff e.assignment_id assignment_id).0 same_id,
          (==_iff e.run_id run_id).0 same_run,
          ground (arith, next),
        ))

  parsed_line-Contiguous :
      (events all : List LogEvent) (o : Option LogEvent)
      → Contiguous assignment_id run_id 0 events
      → parsed_line codec assignment_id run_id events o ≡ ok all
      → Contiguous assignment_id run_id 0 all
  parsed_line-Contiguous events all none h parsed = cc
  parsed_line-Contiguous events all (some e) h parsed =
      accept_record-Contiguous events all e h parsed

  read_lines-Contiguous :
      (events all : List LogEvent) (lines : List Text)
      → Contiguous assignment_id run_id 0 events
      → read_lines codec assignment_id run_id events lines ≡ ok all
      → Contiguous assignment_id run_id 0 all
  unfolding read_lines
  read_lines-Contiguous events all [] h read =
      subst (Contiguous assignment_id run_id 0) (ok-injective read) h
  read_lines-Contiguous events all (line ∷ lines) h read =
      let (more, parsed, later) =
        bind-ok (parsed_line codec assignment_id run_id events (codec.parse line)) _ all read in
      read_lines-Contiguous more all lines
        (parsed_line-Contiguous events more (codec.parse line) h parsed) later

  parsed_tail-Contiguous :
      (events all : List LogEvent) (o : Option LogEvent)
      → Contiguous assignment_id run_id 0 events
      → parsed_tail codec assignment_id run_id events o ≡ ok all
      → Contiguous assignment_id run_id 0 all
  parsed_tail-Contiguous events all none h parsed =
      subst (Contiguous assignment_id run_id 0) (ok-injective parsed) h
  parsed_tail-Contiguous events all (some e) h parsed =
      accept_record-Contiguous events all e h parsed

  -- Whatever bytes are read as a log, its records are those of the run, numbered from zero without a
  -- gap.
  pub read-Contiguous :
      (raw : Text) (events : List LogEvent) (rewritten : Option Text)
      → read_durable_events codec assignment_id run_id raw ≡ ok (events, rewritten)
      → Contiguous assignment_id run_id 0 events
  unfolding read_durable_events read_tail
  read-Contiguous raw events rewritten read =
      let (lines, tail) = split_lines raw in
      let (done, first, last) =
        bind-ok (read_lines codec assignment_id run_id [] lines) _ (events, rewritten) read in
      ended done tail (read_lines-Contiguous [] done lines tt first) last
    where
      ended :
          (done : List LogEvent) (tail : Text)
          → Contiguous assignment_id run_id 0 done
          → read_tail codec assignment_id run_id done tail ≡ ok (events, rewritten)
          → Contiguous assignment_id run_id 0 events
      ended done [] h last =
          subst (Contiguous assignment_id run_id 0)
            (ap (λ (p : List LogEvent × Option Text). p.0) (ok-injective last)) h
      ended done (c ∷ s) h last =
          let (all, parsed, same) =
            bind-ok (parsed_tail codec assignment_id run_id done (codec.parse (c ∷ s))) _
              (events, rewritten) last in
          subst (Contiguous assignment_id run_id 0)
            (ap (λ (p : List LogEvent × Option Text). p.0) (ok-injective same))
            (parsed_tail-Contiguous done all (codec.parse (c ∷ s)) h parsed)
