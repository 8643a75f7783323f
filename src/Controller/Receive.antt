-- ===== src/Controller/Receive.antt =====
-- The loop of `HostController.run` over the frames of its worker.
use Prim.Native.Char.{code}
use testudo.Prelude.{
  ℕ, ◌+◌, ◌*◌, String, Bool, true, false, List, [], ◌∷◌, ◌++◌, Option, none, some, Result, ok, err,
  ◌==◌, Comparable-nat, Comparable-int, Comparable-string, leb, ltb, if◌then◌else◌,
}
use testudo.Prelude.Dict.{get}
use testudo.Prelude.Text.{append}
use testudo.Value.{Value, Fields, str, int, field, end, entries}
use testudo.Transport.{Frame}
use testudo.Controller.{Fault, Turn, Worker, World, Act, lift, call, emit_host, stop_host}
use testudo.Prelude.State.{return, raise, ◌>>=◌, ◌>>◌}
use testudo.Controller.Checks.{Identity}

-- `MAX_OUTPUT_BYTES`
abbrev pub max_output_bytes : ℕ
max_output_bytes = 4 * 1024 * 1024

abbrev width : ℕ → ℕ
width c = if ltb c 128 then 1 else if ltb c 2048 then 2 else if ltb c 65536 then 3 else 4

-- `len(chunk.encode("utf-8"))`
unfoldable pub utf8_length : String → ℕ
utf8_length String.[] = 0
utf8_length (String.◌∷◌ c s) = width (code c) + utf8_length s

-- `"".join(parts)`
unfoldable pub joined : List String → String
joined [] = ""
joined (part ∷ parts) = append part (joined parts)

-- The variables that the loop fills.
pub record Capture : Type 0 where
  pub stdout_parts : List String
  pub stderr_parts : List String
  pub stdout_bytes : ℕ
  pub stderr_bytes : ℕ
  pub guest_receipt : Option Fields

abbrev pub no_capture : Capture
no_capture = record {
  stdout_parts = [];
  stderr_parts = [];
  stdout_bytes = 0;
  stderr_bytes = 0;
  guest_receipt = none;
}

-- What a frame does to the loop: it goes on, or the result ends it.
pub data Handled : Type 0 where
  going : Capture → Handled
  finished : Fields → Capture → Handled

abbrev pub raise_act : Bool → Fault → Act (Unit {0})
raise_act true e s = (err e, s)
raise_act false e s = (ok tt, s)

-- `deadline is not None and self._clock() >= deadline`
abbrev pub is_late : Option ℕ → ℕ → Bool
is_late none now = false
is_late (some deadline) now = leb deadline now

abbrev pub chunk_of : Option Value → Result Fault String
chunk_of (some (str chunk)) = ok chunk
chunk_of _ = err Fault.not_text

module _ (world : World) (worker : Worker) (i : Identity) where
  abbrev chunk_details : String → Frame → Fields
  chunk_details chunk f = field "chunk" (str chunk) (field "sequence" (int f.sequence) end)

  abbrev pub report : String → String → Frame → Act (Unit {0})
  report kind chunk f = emit_host world kind i.run_id i.token_id (chunk_details chunk f)

  abbrev pub on_stdout : Frame → Capture → Act Handled
  on_stdout f c = do
    chunk ← lift (chunk_of (get (entries f.payload) "chunk"))
    raise_act (ltb max_output_bytes (c.stdout_bytes + utf8_length chunk)) Fault.stdout_exceeded
    report "stdout" chunk f
    return (
        Handled.going (record c {
          stdout_bytes = c.stdout_bytes + utf8_length chunk;
          stdout_parts = c.stdout_parts ++ chunk ∷ [];
        }))

  abbrev pub on_stderr : Frame → Capture → Act Handled
  on_stderr f c = do
    chunk ← lift (chunk_of (get (entries f.payload) "chunk"))
    raise_act (ltb max_output_bytes (c.stderr_bytes + utf8_length chunk)) Fault.stderr_exceeded
    report "stderr" chunk f
    return (
        Handled.going (record c {
          stderr_bytes = c.stderr_bytes + utf8_length chunk;
          stderr_parts = c.stderr_parts ++ chunk ∷ [];
        }))

  abbrev pub on_receipt : Option Fields → Frame → Capture → Act Handled
  on_receipt (some before) f c = raise Fault.duplicate_receipt
  on_receipt none f c = return (Handled.going (record c { guest_receipt = some f.payload }))

  -- The branches over the kind; a frame of another kind is passed over.
  unfoldable pub handle_frame : Frame → Capture → Act Handled
  handle_frame f c =
      if f.kind == "stdout"
      then on_stdout f c
      else if f.kind == "stderr"
      then on_stderr f c
      else if f.kind == "receipt"
      then on_receipt c.guest_receipt f c
      else if f.kind == "result"
      then return (Handled.finished f.payload c)
      else if f.kind == "error"
      then raise Fault.guest_failed
      else return (Handled.going c)

  -- `stop` by another thread or by the sink, whose exception is not the run's.
  abbrev pub interrupted : Option String → Act (Unit {0})
  interrupted none s = (ok tt, s)
  interrupted (some reason) s = (ok tt, (stop_host world worker reason s).1)

  abbrev pub take_turn : Option ℕ → Turn → Capture → Act Handled
  take_turn deadline t c = do
    interrupted t.operator
    call t.check
    raise_act (is_late deadline t.now) Fault.timed_out
    f ← lift t.received
    handle_frame f c

  abbrev pub proceed_with : (Capture → Act (Fields × Capture)) → Handled → Act (Fields × Capture)
  proceed_with rest (Handled.going c) = rest c
  proceed_with rest (Handled.finished payload c) = return (payload, c)

  -- `while True`
  unfoldable pub receive_all : Option ℕ → List Turn → Capture → Act (Fields × Capture)
  receive_all deadline [] c = raise worker.after
  receive_all deadline (t ∷ ts) c =
      take_turn deadline t c >>= proceed_with (receive_all deadline ts)
