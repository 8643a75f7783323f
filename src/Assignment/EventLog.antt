-- ===== src/Assignment/EventLog.antt =====
-- `_read_durable_events` and the append of `_emit` and `_persist` of src/testudo/runtime/assignment.py: the
-- event log of one run as bytes. The parser and the printer of a record are parameters.
pub mod RoundTrip
pub mod Crash
use testudo.Prelude.{
  ℕ, String, Bool, not, ◌||◌, List, [], ◌∷◌, ◌++◌, Option, none, some, Result, ok, err, ◌>>=◌, ◌>>◌,
  raise_if, length, ◌==◌, Comparable-nat, Comparable-string, if◌then◌else◌,
}
use testudo.Value.{Fields}
use testudo.Policy.Path.{Text}
use testudo.Assignment.{EventName}

-- `AssignmentEvent` with all its fields
pub record LogEvent : Type 0 where
  pub assignment_id : String
  pub run_id : String
  pub sequence : ℕ
  pub event : EventName
  pub at : ℕ
  pub details : Fields

pub data LogError : Type 0 where
  unparsable wrong_identity not_contiguous : LogError

-- `model_validate_json`, whose exception is `none`, and `_canonical`.
pub record Codec : Type 0 where
  pub parse : Text → Option LogEvent
  pub canonical : LogEvent → Text

abbrev pub newline : ℕ
newline = 10

abbrev pub add_byte : ℕ → List Text × Text → List Text × Text
add_byte c ([], trailing) = ([], c ∷ trailing)
add_byte c (line ∷ lines, trailing) = ((c ∷ line) ∷ lines, trailing)

-- `raw.split(b"\n")` with its last item taken off
unfoldable pub split_lines : Text → List Text × Text
split_lines [] = ([], [])
split_lines (c ∷ s) =
    let (lines, trailing) = split_lines s in
    if c == newline then ([] ∷ lines, trailing) else add_byte c (lines, trailing)

module _ (codec : Codec) where
  -- `b"".join(line + b"\n" for line in complete)`
  unfoldable pub log_of : List LogEvent → Text
  log_of [] = []
  log_of (e ∷ events) = codec.canonical e ++ newline ∷ log_of events

  module _ (assignment_id run_id : String) where
    -- The checks of a record that has been parsed.
    unfoldable pub accept_record : List LogEvent → LogEvent → Result LogError (List LogEvent)
    accept_record events e =
        raise_if (not (e.assignment_id == assignment_id) || not (e.run_id == run_id))
          LogError.wrong_identity
        >> (raise_if (not (e.sequence == length events)) LogError.not_contiguous
            >> ok (events ++ e ∷ []))

    abbrev pub parsed_line : List LogEvent → Option LogEvent → Result LogError (List LogEvent)
    parsed_line events none = err LogError.unparsable
    parsed_line events (some e) = accept_record events e

    -- The loop over the lines that a newline ends.
    unfoldable pub read_lines : List LogEvent → List Text → Result LogError (List LogEvent)
    read_lines events [] = ok events
    read_lines events (line ∷ lines) =
        parsed_line events (codec.parse line) >>= λ more. read_lines more lines

    -- A tail that does not parse is torn and left out.
    abbrev pub parsed_tail : List LogEvent → Option LogEvent → Result LogError (List LogEvent)
    parsed_tail events none = ok events
    parsed_tail events (some e) = accept_record events e

    -- The events, and the bytes that the log is rewritten to where it has a tail.
    unfoldable pub read_tail : List LogEvent → Text → Result LogError (List LogEvent × Option Text)
    read_tail events [] = ok (events, none)
    read_tail events (c ∷ s) =
        parsed_tail events (codec.parse (c ∷ s)) >>= λ all. ok (all, some (log_of all))

    unfoldable pub read_durable_events : Text → Result LogError (List LogEvent × Option Text)
    read_durable_events raw =
        let (lines, trailing) = split_lines raw in
        read_lines [] lines >>= λ events. read_tail events trailing
