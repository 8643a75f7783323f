-- ===== src/Assignment/Recovery.antt =====
-- `_load_durable_state` of src/testudo/runtime/assignment.py: the state root as a list of named nodes, in the
-- order of its sorted listing, and what a restart makes of it. Parsers, printers and digests are parameters,
-- and each write may raise; listings do not.
pub mod Quarantine
pub mod Load
pub mod Grows
pub mod Admitted
pub mod Held
pub mod Restart
pub mod Operator
mod Examples
use testudo.Prelude.{
  ℕ, String, Bool, true, false, not, ◌&&◌, ◌||◌, List, [], ◌∷◌, ◌++◌, Option, none, some, Result,
  ok, err, any, all, ◌==◌, Comparable-string, elem, if◌then◌else◌,
}
use testudo.Prelude.Dict.{Dict, get, set, has, keys}
use testudo.Prelude.State.{Act, return, raise, ◌>>=◌}
use testudo.Prelude.Text.{append}
use testudo.Policy.Path.{Text}
use testudo.Assignment.EventLog.{LogEvent, LogError, Codec, read_durable_events}
use testudo.Assignment.Identity.{Request, RunDir, Service}

-- A name by its endings: `quarantined n` is `n` with ".quarantined", `marker n` with
-- ".quarantined.ambiguous", and a base has neither.
pub data Name : Type 0 where
  base : String → Name
  quarantined marker : Name → Name

abbrev pub text : Name → String
text (Name.base s) = s
text (Name.quarantined n) = append (text n) ".quarantined"
text (Name.marker n) = append (text n) ".quarantined.ambiguous"

-- An entry of a directory: a file, one that cannot be read, or a directory or a link.
pub data Entry : Type 0 where
  file : Text → Entry
  unreadable no_file : Entry

abbrev pub Files : Type 0
Files = Dict Entry

-- `other` is what is neither a directory nor leads to a file.
pub data Node : Type 0 where
  directory : Files → Node
  plain_file other : Node

abbrev pub Root : Type 0
Root = List (Name × Node)

-- The fields of `AssignmentRequest` that recovery reads.
pub record DurableRequest : Type 0 where
  pub assignment_id : String
  pub envelope_id : String
  pub envelope_sha256 : String
  pub backend : String

-- Those of `AssignmentReceipt`
pub record DurableReceipt : Type 0 where
  pub assignment_id : String
  pub envelope_id : String
  pub envelope_sha256 : String
  pub run_id : String
  pub backend : String
  pub events_sha256 : String

pub data LoadError : Type 0 where
  not_read bad_request not_rewritten bad_receipt receipt_identity receipt_events : LoadError
  duplicate_identity : LoadError
  event_log : LogError → LoadError

pub data QuarantineReason : Type 0 where
  missing_request pre_admission operator_reconciliation target_exists rename_failed :
      QuarantineReason
  unrecoverable : QuarantineReason
  raised : LoadError → QuarantineReason
  recorded : String → QuarantineReason

-- `IdentityTombstone`
pub record Tombstone : Type 0 where
  pub assignment_id : String
  pub envelope_id : String
  pub envelope_sha256 : String
  pub quarantined_at : ℕ
  pub reason : QuarantineReason

-- What may raise an OSError, by the run that it is about.
pub data Write : Type 0 where
  renaming noting burying marking rewriting : Name → Write

-- `accepts` is what pydantic checks of the lengths and the patterns of a tombstone that is made.
pub record World : Type 0 where
  pub codec : Codec
  pub parse_request : Text → Option DurableRequest
  pub parse_receipt : Text → Option DurableReceipt
  pub parse_tombstone : Text → Option Tombstone
  pub print_tombstone : Tombstone → Text
  pub accepts : Tombstone → Bool
  pub print_note : Name → QuarantineReason → Text
  pub digest : List LogEvent → String
  pub now : ℕ
  pub fails : Write → Bool

-- A run that is recovered.
pub record Run : Type 0 where
  pub request : DurableRequest
  pub events : List LogEvent
  pub receipt : Option DurableReceipt

pub record Loaded : Type 0 where
  pub runs : List Run
  pub tombstones : Dict Tombstone
  pub envelope_tombstones : Dict String
  pub ambiguous : List Name
  pub root : Root

-- The ValidationError of a tombstone that is made, with the state that it leaves.
pub data Aborted : Type 0 where
  invalid_tombstone : Tombstone → Loaded → Aborted

-- The bytes of a file: it is missing, reading it raises, or they are there.
pub data Read : Type 0 where
  missing failed : Read
  content : Text → Read

abbrev pub read_entry : Option Entry → Read
read_entry none = Read.missing
read_entry (some Entry.no_file) = Read.missing
read_entry (some Entry.unreadable) = Read.failed
read_entry (some (Entry.file t)) = Read.content t

abbrev pub read : Files → String → Read
read files name = read_entry (get files name)

abbrev pub requests : List Run → List Request
requests [] = []
requests (r ∷ runs) =
    record { assignment_id = r.request.assignment_id; envelope_id = r.request.envelope_id }
    ∷ requests runs

abbrev pub ids : List Run → List String
ids [] = []
ids (r ∷ runs) = r.request.assignment_id ∷ ids runs

abbrev pub envelopes : List Run → List String
envelopes [] = []
envelopes (r ∷ runs) = r.request.envelope_id ∷ envelopes runs

abbrev pub exists_in : Root → Name → Bool
exists_in root name = any (λ (x : Name × Node). text x.0 == text name) root

abbrev pub is_file : Node → Bool
is_file Node.plain_file = true
is_file _ = false

abbrev pub is_file_in : Root → Name → Bool
is_file_in root name = any (λ (x : Name × Node). text x.0 == text name && is_file x.1) root

-- The node of that name, put in the place of another or at the end.
abbrev pub put_node : Root → Name → Node → Root
put_node [] name node = (name, node) ∷ []
put_node ((n, old) ∷ root) name node =
    let rest = put_node root name node in
    if text n == text name then (n, node) ∷ root else (n, old) ∷ rest

abbrev pub remove_node : Root → Name → Root
remove_node [] name = []
remove_node ((n, old) ∷ root) name =
    let rest = remove_node root name in if text n == text name then root else (n, old) ∷ rest

abbrev pub is_among : Name → List Name → Bool
is_among name [] = false
is_among name (n ∷ rest) = text n == text name || is_among name rest

abbrev pub texts : List Name → List String
texts [] = []
texts (n ∷ rest) = text n ∷ texts rest

-- `self._ambiguous.add(name)`
abbrev pub add_name : Name → List Name → List Name
add_name name others = if is_among name others then others else others ++ name ∷ []

abbrev pub set_default : Dict String → String → String → Dict String
set_default d k v = if has d k then d else set d k v

-- `_register_tombstone`
unfoldable pub register_tombstone : Tombstone → Loaded → Loaded
register_tombstone t s = record s {
  tombstones = set s.tombstones t.assignment_id t;
  envelope_tombstones = set_default s.envelope_tombstones t.envelope_id t.assignment_id;
}

abbrev pub add_ambiguous : Name → Loaded → Loaded
add_ambiguous name s = record s { ambiguous = add_name name s.ambiguous }

-- Whether a directory has more than what a crash before the admission leaves.
abbrev pub has_evidence : Files → Bool
has_evidence files =
    any (λ k. not (elem k ("quarantine.json" ∷ "request.json.tmp" ∷ []))) (keys files)

-- `not entries or {entry.name for entry in entries} == {"request.json.tmp"}`
abbrev pub is_pre_admission : Files → Bool
is_pre_admission files = all (λ k. k == "request.json.tmp") (keys files)
