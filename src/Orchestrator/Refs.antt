-- ===== src/Orchestrator/Refs.antt =====
-- `Executor._resolve_ref`, `_resolve` and `_eval_when` of src/testudo/orchestrator/executor.py: the
-- references `${...}` in the arguments and the condition of a step.
use Prim.Native.Char.{Char, code}
use Prim.Native.String.{◌++◌ as append}
use testudo.Prelude.{
  ℕ, String, Bool, true, false, not, ◌&&◌, List, [], ◌∷◌, ◌++◌, none, some, ℤ, Result, ok, err,
  ◌>>=◌, ◌==◌, Comparable-nat, Comparable-string, Comparable-int, if◌then◌else◌,
}
use testudo.Prelude.Dict.{Dict, get}
use testudo.Prelude.Text.{strip, starts_open, ends_close, count_open, inner, split_dot}
use testudo.Value.{Value, Fields, Items, entries}

-- The exceptions that end the resolution of a reference, by class and message. The last is what
-- `getattr`, `str` or `bool` of a value raises.
pub data ExceptionClass : Type 0 where
  key_error value_error other_error : ExceptionClass

pub data Raised : Type 0 where
  empty_reference requires_step unknown_root invalid_when : String → Raised
  not_available not_registered : String → Raised
  missing_key : String → String → Raised
  from_object : ExceptionClass → String → Raised

unfoldable pub class_of : Raised → ExceptionClass
class_of (Raised.empty_reference ref) = ExceptionClass.value_error
class_of (Raised.requires_step ref) = ExceptionClass.value_error
class_of (Raised.unknown_root root) = ExceptionClass.value_error
class_of (Raised.invalid_when expr) = ExceptionClass.value_error
class_of (Raised.not_available id) = ExceptionClass.key_error
class_of (Raised.not_registered name) = ExceptionClass.key_error
class_of (Raised.missing_key part ref) = ExceptionClass.key_error
class_of (Raised.from_object c message) = c

-- What the operations need of Python's values: `getattr`, `str` and `bool` of a value.
pub record Objects : Type 0 where
  pub getattr : Value → String → Result Raised Value
  pub show : Value → Result Raised String
  pub truth : ℕ → Result Raised Bool

abbrev no_items : Items → Bool
no_items Items.nil = true
no_items (Items.cons v vs) = false

abbrev no_fields : Fields → Bool
no_fields Fields.end = true
no_fields (Fields.field k v fs) = false

unfoldable pub bool_of : Objects → Value → Result Raised Bool
bool_of o (Value.dict fs) = ok (not (no_fields fs))
bool_of o (Value.list vs) = ok (not (no_items vs))
bool_of o (Value.str s) = ok (not (s == ""))
bool_of o (Value.int i) = ok (not (i == ℤ.pos 0))
bool_of o (Value.bool b) = ok b
bool_of o (Value.object n) = o.truth n
bool_of o Value.null = ok false

-- The loop over the parts behind the root.
unfoldable pub walk : Objects → String → List String → Value → Result Raised Value
walk o ref [] value = ok value
walk o ref (part ∷ parts) (Value.dict fs) = elim (get (entries fs) part) [
  | none ↦ err (Raised.missing_key part ref)
  | some value ↦ walk o ref parts value
]
walk o ref (part ∷ parts) (Value.list vs) = o.getattr (Value.list vs) part >>= walk o ref parts
walk o ref (part ∷ parts) (Value.str s) = o.getattr (Value.str s) part >>= walk o ref parts
walk o ref (part ∷ parts) (Value.int i) = o.getattr (Value.int i) part >>= walk o ref parts
walk o ref (part ∷ parts) (Value.bool b) = o.getattr (Value.bool b) part >>= walk o ref parts
walk o ref (part ∷ parts) (Value.object n) = o.getattr (Value.object n) part >>= walk o ref parts
walk o ref (part ∷ parts) Value.null = o.getattr Value.null part >>= walk o ref parts

-- The branch of the root `steps`, given the parts behind it.
unfoldable pub from_steps : Objects → String → Dict Value → List String → Result Raised Value
from_steps o ref outputs [] = err (Raised.requires_step ref)
from_steps o ref outputs (id ∷ parts) = elim (get outputs id) [
  | none ↦ err (Raised.not_available id)
  | some value ↦ walk o ref parts value
]

unfoldable pub from_parts :
    Objects → String → Fields → Dict Value → List String → Result Raised Value
from_parts o ref inputs outputs [] = err (Raised.empty_reference ref)
from_parts o ref inputs outputs (root ∷ parts) =
    if root == "inputs"
    then walk o ref parts (Value.dict inputs)
    else if root == "steps"
    then from_steps o ref outputs parts
    else err (Raised.unknown_root root)

unfoldable pub resolve_ref : Objects → Fields → Dict Value → String → Result Raised Value
resolve_ref o inputs outputs ref = from_parts o ref inputs outputs (split_dot ref)

-- The matches of the pattern `\$\{([^${}]+)\}` and the text between them, by a scanner that has
-- seen nothing of a match, its `$`, or `${` and some of the reference.
pub data Piece : Type 0 where
  verbatim reference : String → Piece

pub data Scan : Type 0 where
  outside opened : Scan
  inside : String → Scan

abbrev one : Char → String
one c = String.◌∷◌ c ""

unfoldable pub advance : Scan → Char → List Piece × Scan
advance Scan.outside c =
    if code c == b'$' then ([], Scan.opened) else (Piece.verbatim (one c) ∷ [], Scan.outside)
advance Scan.opened c =
    if code c == b'{'
    then ([], Scan.inside "")
    else if code c == b'$'
    then (Piece.verbatim "$" ∷ [], Scan.opened)
    else (Piece.verbatim "$" ∷ Piece.verbatim (one c) ∷ [], Scan.outside)
advance (Scan.inside r) c =
    if code c == b'}'
    then ((if r == "" then Piece.verbatim "${}" ∷ [] else Piece.reference r ∷ []), Scan.outside)
    else if code c == b'$'
    then (Piece.verbatim (append "${" r) ∷ [], Scan.opened)
    else if code c == b'{'
    then (Piece.verbatim (append "${" (append r "{")) ∷ [], Scan.outside)
    else ([], Scan.inside (append r (one c)))

abbrev flush : Scan → List Piece
flush Scan.outside = []
flush Scan.opened = Piece.verbatim "$" ∷ []
flush (Scan.inside r) = Piece.verbatim (append "${" r) ∷ []

unfoldable pub pieces : Scan → String → List Piece
pieces scan String.[] = flush scan
pieces scan (String.◌∷◌ c s) = let (out, next) = advance scan c in out ++ pieces next s

-- `pattern.sub`
unfoldable pub substitute : Objects → Fields → Dict Value → List Piece → Result Raised String
substitute o inputs outputs [] = ok ""
substitute o inputs outputs (Piece.verbatim s ∷ ps) =
    substitute o inputs outputs ps >>= λ rest. ok (append s rest)
substitute o inputs outputs (Piece.reference ref ∷ ps) =
    resolve_ref o inputs outputs ref >>= λ value.
    o.show value >>= λ shown. substitute o inputs outputs ps >>= λ rest. ok (append shown rest)

-- The string case of `_resolve`.
unfoldable pub resolve_text : Objects → Fields → Dict Value → String → Result Raised Value
resolve_text o inputs outputs s =
    let stripped = strip s in
    if (starts_open stripped && ends_close stripped && count_open stripped == 1 && s == stripped)
    then resolve_ref o inputs outputs (inner s)
    else if count_open s == 0
    then ok (Value.str s)
    else (substitute o inputs outputs (pieces Scan.outside s) >>= λ t. ok (Value.str t))

unfoldable mutual
  pub resolve : Objects → Fields → Dict Value → Value → Result Raised Value
  resolve o inputs outputs (Value.str s) = resolve_text o inputs outputs s
  resolve o inputs outputs (Value.dict fs) =
      resolve_fields o inputs outputs fs >>= λ gs. ok (Value.dict gs)
  resolve o inputs outputs (Value.list vs) =
      resolve_items o inputs outputs vs >>= λ ws. ok (Value.list ws)
  resolve o inputs outputs (Value.int i) = ok (Value.int i)
  resolve o inputs outputs (Value.bool b) = ok (Value.bool b)
  resolve o inputs outputs (Value.object n) = ok (Value.object n)
  resolve o inputs outputs Value.null = ok Value.null

  pub resolve_fields : Objects → Fields → Dict Value → Fields → Result Raised Fields
  resolve_fields o inputs outputs Fields.end = ok Fields.end
  resolve_fields o inputs outputs (Fields.field k v fs) = resolve o inputs outputs v >>= λ w.
      resolve_fields o inputs outputs fs >>= λ gs. ok (Fields.field k w gs)

  pub resolve_items : Objects → Fields → Dict Value → Items → Result Raised Items
  resolve_items o inputs outputs Items.nil = ok Items.nil
  resolve_items o inputs outputs (Items.cons v vs) = resolve o inputs outputs v >>= λ w.
      resolve_items o inputs outputs vs >>= λ ws. ok (Items.cons w ws)

unfoldable pub eval_when : Objects → Fields → Dict Value → String → Result Raised Bool
eval_when o inputs outputs expr =
    let stripped = strip expr in
    if starts_open stripped && ends_close stripped
    then (resolve_ref o inputs outputs (inner stripped) >>= bool_of o)
    else err (Raised.invalid_when stripped)
