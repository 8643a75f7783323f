-- ===== src/Orchestrator/Executor/Examples.antt =====
-- Runs of small workflows, to which the theorems about the executor are applied.
use testudo.Prelude.{
  ap, ℕ, suc, ◌≡◌, refl, String, true, List, [], ◌∷◌, ◌++◌, Option, none, some, ok, err, All,
  Comparable-string, Comparable-nat,
}
use testudo.Prelude.Dict.{get, set, has}
use testudo.Prelude.Text.{
  strip, lstrip, rstrip, is_space, starts_open, ends_close, count_open, split_dot,
}
use testudo.Value.{Value, Fields}
use testudo.Orchestrator.{Step, Workflow}
use testudo.Orchestrator.Refs.{
  Objects, Raised, ExceptionClass, class_of, bool_of, walk, from_steps, from_parts, resolve_ref,
  advance, pieces, substitute, resolve_text, resolve_fields, eval_when,
}
use testudo.Orchestrator.Sort.{topological_sort, each, visit, finish, discard, by_id, index_from}
use testudo.Orchestrator.Executor.{AuditEvent, Tool, lookup}
use testudo.Orchestrator.Executor.Run.{
  Setting, State, Ending, Escaped, fresh, emit, writing, fail, succeed, catch, after_call,
  after_tool, call_tool, on_tool, on_args, proceed, on_condition, on_when, run_step, run_steps,
  on_order, run,
}
use testudo.Orchestrator.Executor.Results.{Tables}
use testudo.Orchestrator.Executor.Correct.{run-needs_ready, run-Tables, run-has}
use testudo.Orchestrator.Executor.Log.{EscapeOf, RunTrace, run-RunTrace, run-EscapeOf}

abbrev objects : Objects
objects = record {
  getattr = λ v name. err (Raised.from_object ExceptionClass.other_error name);
  show = λ v. ok "shown";
  truth = λ n. ok true;
}

-- A tool that counts its calls in the world and returns its arguments.
abbrev echo : Tool ℕ
echo ctx args n = record { outcome = ok (Value.dict args); emitted = []; world = suc n }

abbrev broken : Tool ℕ
broken ctx args n = record {
  outcome = err (record { name = "OSError"; text = "disk"; is_exception = true });
  emitted = [];
  world = n;
}

abbrev setting : Setting ℕ
setting = record {
  objects = objects;
  registry = ("echo", echo) ∷ ("broken", broken) ∷ [];
  audited = true;
  writes = λ log event. none;
  inputs = Fields.field "path" (Value.str "data.csv") Fields.end;
  permissions = Value.null;
  run_id = "r1";
}

abbrev step_of : String → String → List String → String → Option String → Step
step_of id uses needs text when = record {
  id = id;
  uses = uses;
  needs = needs;
  with_ = Fields.field "x" (Value.str text) Fields.end;
  when = when;
}

abbrev load : Step
load = step_of "load" "echo" [] "${inputs.path}" none

abbrev report : Step
report = step_of "report" "echo" ("load" ∷ []) "<${steps.load.x}>" (some "${steps.load}")

abbrev flow : Workflow
flow = record { name = "flow"; steps = report ∷ load ∷ [] }

abbrev ended : State ℕ × Ending
ended = run setting flow 0 []

flow_ends : (ended.1 ≡ Ending.completed) × (ended.0.world ≡ 2)
unfolding run on_order run_steps run_step on_when on_condition proceed on_args on_tool call_tool
    after_tool after_call succeed emit writing lookup eval_when resolve_ref from_parts from_steps
    walk resolve_fields resolve_text substitute pieces advance bool_of split_dot strip lstrip rstrip
    is_space starts_open ends_close count_open topological_sort each visit finish discard by_id
    index_from get set
flow_ends = (refl, refl)

flow_sorted : topological_sort flow.steps ≡ ok (load ∷ report ∷ [])
unfolding topological_sort each visit finish discard by_id index_from get set
flow_sorted = refl

load_ends : (run_steps setting "flow" (load ∷ []) (fresh 0 [])).1 ≡ Ending.completed
unfolding run_steps run_step on_when proceed on_args on_tool call_tool after_tool after_call succeed
    emit writing lookup resolve_ref from_parts walk resolve_fields resolve_text split_dot strip
    lstrip rstrip is_space starts_open ends_close count_open get set
load_ends = refl

flow-run : run setting flow 0 [] ≡ (ended.0, Ending.completed)
flow-run = ap (λ e. (ended.0, e)) flow_ends.0

run-has_example : has ended.0.results "load" ≡ true
run-has_example = run-has setting flow 0 [] ended.0 flow-run "load"

run-Tables_example : Tables ended.0
run-Tables_example = run-Tables setting flow 0 [] ended.0 Ending.completed flow-run

abbrev loaded : State ℕ × Ending
loaded = run_steps setting "flow" (load ∷ []) (fresh 0 [])

run-needs_ready_example : All (λ d. has loaded.0.results d ≡ true) ("load" ∷ [])
run-needs_ready_example =
    run-needs_ready setting flow 0 [] (load ∷ []) [] report loaded.0 flow_sorted
      (ap (λ e. (loaded.0, e)) load_ends)

run-RunTrace_example :
    (ordered : List Step) × (l : List AuditEvent) × (topological_sort flow.steps ≡ ok ordered)
    × RunTrace "r1" ordered l
    × (ended.0.log ≡ [] ++ l)
run-RunTrace_example = run-RunTrace setting flow 0 [] ended.0 refl flow-run

-- A reference below a text: what `getattr` raises is not caught.
abbrev below : Workflow
below = record { name = "below"; steps = step_of "s" "echo" [] "${inputs.path.x}" none ∷ [] }

abbrev left : State ℕ × Ending
left = run setting below 0 []

abbrev no_attribute : Escaped
no_attribute = Escaped.uncaught (Raised.from_object ExceptionClass.other_error "x")

below_escapes : left.1 ≡ Ending.escaped no_attribute
unfolding run on_order run_steps run_step on_when proceed on_args catch class_of resolve_ref
    from_parts walk resolve_fields resolve_text split_dot strip lstrip rstrip is_space starts_open
    ends_close count_open topological_sort each visit finish discard by_id index_from get set
below_escapes = refl

run-EscapeOf_example : EscapeOf setting below no_attribute
run-EscapeOf_example =
    run-EscapeOf setting below 0 [] left.0 no_attribute (ap (λ e. (left.0, e)) below_escapes)

-- A log whose file cannot be written: the first event leaves `run`.
abbrev full : Setting ℕ
full = record setting { writes = λ log event. some "disk full" }

full_escapes : (run full flow 0 []).1 ≡ Ending.escaped (Escaped.unlogged "disk full")
unfolding run on_order run_steps run_step on_when proceed on_args on_tool call_tool writing lookup
    resolve_ref from_parts walk resolve_fields resolve_text split_dot strip lstrip rstrip is_space
    starts_open ends_close count_open topological_sort each visit finish discard by_id index_from
    get set
full_escapes = refl

-- The whole text is taken for one reference, up to the last brace.
brace_taken :
    resolve_text objects setting.inputs [] "${inputs.path} in {}"
    ≡ err (Raised.missing_key "path} in {" "inputs.path} in {")
unfolding resolve_text resolve_ref from_parts walk split_dot strip lstrip rstrip is_space
    starts_open ends_close count_open get
brace_taken = refl

broken_caught :
    (run_steps setting "flow" (step_of "b" "broken" [] "x" none ∷ load ∷ []) (fresh 0 [])).0.world
    ≡ 1
unfolding run_steps run_step on_when proceed on_args on_tool call_tool after_tool after_call succeed
    fail emit writing lookup resolve_ref from_parts walk resolve_fields resolve_text split_dot strip
    lstrip rstrip is_space starts_open ends_close count_open get set
broken_caught = refl
