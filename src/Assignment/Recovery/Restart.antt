-- ===== src/Assignment/Recovery/Restart.antt =====
-- After a restart, no identity of the state root can be started again.
use testudo.Prelude.{Result, String, ◌≡◌, Bool, true, false, some, ok, err, Comparable-string}
use testudo.Policy.Path.{Text}
use testudo.Assignment.Identity.{Request, IdentityError, Service, start}
use testudo.Assignment.Recovery.{
  Aborted, Name, Files, Root, DurableRequest, Tombstone, World, Loaded, Read, Write, read,
}
use testudo.Assignment.Recovery.Load.{load_durable_state, service_of}
use testudo.Assignment.Recovery.Grows.{Held, Grows}

abbrev pub is_quarantined : Name → Bool
is_quarantined (Name.quarantined n) = true
is_quarantined _ = false

module _ (world : World) where
  -- A directory tells of an identity: by the request of a run, or by the tombstone of a quarantined one.
  pub data Evidence (name : Name) (files : Files) : String → String → Type 0 where
    admitted :
        (t : Text) (q : DurableRequest)
        → is_quarantined name ≡ false
        → read files "request.json" ≡ Read.content t
        → world.parse_request t ≡ some q
        → world.fails (Write.noting name) ≡ false
        → Evidence name files q.assignment_id q.envelope_id
    buried :
        (t : Text) (x : Tombstone)
        → is_quarantined name ≡ true
        → read files "identity-tombstone.json" ≡ Read.content t
        → world.parse_tombstone t ≡ some x
        → Evidence name files x.assignment_id x.envelope_id

  -- The service behind a restart, or the exception of its constructor.
  abbrev pub serving : Result Aborted Loaded → Result Aborted Service
  serving (ok s) = ok (service_of world s)
  serving (err e) = err e

  abbrev pub restarted : Root → Result Aborted Service
  restarted root = serving (load_durable_state world root)

  -- What a start comes to behind a restart: there is no service, since a tombstone could not be made, or the
  -- start is refused.
  pub data Refuses (r : Request) (restart : Result Aborted Service) : Type 0 where
    no_service :
        (t : Tombstone) (s : Loaded)
        → restart ≡ err (Aborted.invalid_tombstone t s)
        → world.accepts t ≡ false
        → Refuses r restart
    refused :
        (service : Service) (error : IdentityError)
        → restart ≡ ok service
        → start r service ≡ err error
        → Refuses r restart
