-- ===== src/Assignment/Recovery/Admitted.antt =====
-- The recovery of a run leaves the request in its directory, and takes the identity from there.
use testudo.Prelude.{
  String, ◌≡◌, refl, sym, ap, ◌∙◌, Bool, false, not, ◌&&◌, inl, inr, List, [], ◌∷◌, Option, none,
  some, Result, ok, err, Bool-cases, ◌==◌, ==_iff, Comparable-string, arith, all, if_holds,
  ok-injective,
}
use testudo.Prelude.Dict.{get, set, keys, get-set}
use testudo.Prelude.State.{Act, Leads, bind-Leads, Returns, bind-Returns, return-Returns}
use testudo.Policy.Path.{Text}
use testudo.Assignment.EventLog.{LogEvent, LogError, read_durable_events}
use testudo.Assignment.Recovery.{
  Name, Entry, Files, DurableRequest, DurableReceipt, LoadError, World, Run, Read, Write,
  is_pre_admission, read, read_entry,
}
use testudo.Assignment.Recovery.Quarantine.{of_request, first_of, of_receipt, recover_identity}
use testudo.Assignment.Recovery.Load.{
  parsed_request, load_request, rewrite, load_events, is_same_identity, checked_receipt,
  load_receipt, load_run,
}

read_entry-content :
    (o : Option Entry) (t : Text) → read_entry o ≡ Read.content t → o ≡ some (Entry.file t)
read_entry-content none t h = cc
read_entry-content (some Entry.no_file) t h = cc
read_entry-content (some Entry.unreadable) t h = cc
read_entry-content (some (Entry.file u)) t h = ap (λ v. some (Entry.file v)) (same h)
  where
    same : {u v : Text} → Read.content u ≡ Read.content v → u ≡ v
    same p = ground arith

all-get :
    (p : String → Bool) (files : Files) (k : String) (v : Entry)
    → get files k ≡ some v
    → p k ≡ false
    → all p (keys files) ≡ false
unfolding get
all-get p [] k v there refused = cc
all-get p ((j, w) ∷ files) k v there refused = elim (Bool-cases (j == k)) [
  | inl same ↦ ap (λ b. b && all p (keys files)) (ap p ((==_iff j k).0 same) ∙ refused)
  | inr other ↦ ground (arith, all-get p files k v (rw other at there) refused)
]

-- A directory with a request is past the admission.
pub admitted :
    (files : Files) (t : Text)
    → read files "request.json" ≡ Read.content t
    → is_pre_admission files ≡ false
admitted files t h =
    all-get (λ k. k == "request.json.tmp") files "request.json" (Entry.file t)
      (read_entry-content (get files "request.json") t h) refl

-- The read of the request when another file has been written.
pub read-set :
    (files : Files) (k : String) (v : Entry)
    → (k == "request.json") ≡ false
    → read (set files k v) "request.json" ≡ read files "request.json"
read-set files k v other = ap read_entry (get-set files k "request.json" v ∙ rw other refl)

module _ (world : World) (t : Text) (q : DurableRequest) where
  abbrev pub HasRequest : Files → Type 0
  HasRequest files = read files "request.json" ≡ Read.content t

  abbrev Keeps : {A : Type 0} → Act Files LoadError A → Type 0
  Keeps m = Leads HasRequest HasRequest m

  pub recover_identity-found :
      (files : Files)
      → HasRequest files
      → world.parse_request t ≡ some q
      → recover_identity world files ≡ some q
  unfolding recover_identity
  recover_identity-found files there parsed =
      ap (λ r. first_of world (of_request world r) (of_receipt world (read files "receipt.json")))
        there
      ∙ ap (λ o. first_of world o (of_receipt world (read files "receipt.json"))) parsed

  parsed_request-Keeps : (o : Option DurableRequest) → Keeps (parsed_request world o)
  parsed_request-Keeps none files h = h
  parsed_request-Keeps (some r) files h = h

  load_request-Keeps : (r : Read) → Keeps (load_request world r)
  load_request-Keeps (Read.content u) files h = parsed_request-Keeps (world.parse_request u) files h
  load_request-Keeps Read.missing files h = h
  load_request-Keeps Read.failed files h = h

  rewrite-Keeps :
      (name : Name) (r : Result LogError (List LogEvent × Option Text))
      → Keeps (rewrite world name r)
  rewrite-Keeps name (err e) files h = h
  rewrite-Keeps name (ok (events, none)) files h = h
  rewrite-Keeps name (ok (events, some payload)) files h =
      if_holds (λ (x : Result LoadError (List LogEvent) × Files). HasRequest x.1)
        (world.fails (Write.rewriting name)) _ _ (λ _. h)
        (λ _. read-set files "events.jsonl" (Entry.file payload) refl ∙ h)

  load_events-Keeps :
      (name : Name) (r : DurableRequest) (x : Read) → Keeps (load_events world name r x)
  load_events-Keeps name r Read.missing files h = h
  load_events-Keeps name r Read.failed files h = h
  load_events-Keeps name r (Read.content raw) files h =
      rewrite-Keeps name (read_durable_events world.codec r.assignment_id r.assignment_id raw) files
        h

  checked_receipt-Keeps :
      (r : DurableRequest) (events : List LogEvent) (o : Option DurableReceipt)
      → Keeps (checked_receipt world r events o)
  checked_receipt-Keeps r events none files h = h
  checked_receipt-Keeps r events (some c) files h =
      let Q : Result LoadError (Option DurableReceipt) × Files → Type 0 = λ y. HasRequest y.1 in
      if_holds Q (not (is_same_identity world c r)) _ _ (λ _. h)
        (λ _. if_holds Q (not (c.events_sha256 == world.digest events)) _ _ (λ _. h) (λ _. h))

  load_receipt-Keeps :
      (r : DurableRequest) (events : List LogEvent) (x : Read)
      → Keeps (load_receipt world r events x)
  load_receipt-Keeps r events Read.missing files h = h
  load_receipt-Keeps r events Read.failed files h = h
  load_receipt-Keeps r events (Read.content u) files h =
      checked_receipt-Keeps r events (world.parse_receipt u) files h

  pub load_run-Keeps : (name : Name) → Keeps (load_run world name)
  unfolding load_run
  load_run-Keeps name =
      bind-Leads HasRequest HasRequest HasRequest _ _
        (λ files h. load_request-Keeps (read files "request.json") files h) (λ s h. h)
        (λ r.
          bind-Leads HasRequest HasRequest HasRequest _ _
            (λ files h. load_events-Keeps name r (read files "events.jsonl") files h) (λ s h. h)
            (λ events.
              bind-Leads HasRequest HasRequest HasRequest _ _
                (λ files h. load_receipt-Keeps r events (read files "receipt.json") files h)
                (λ s h. h) (λ receipt s h. h)))

  -- The run that is recovered is the request's.
  pub load_run-request :
      (name : Name) (files left : Files) (run : Run)
      → HasRequest files
      → world.parse_request t ≡ some q
      → Returns (load_run world name) files run left
      → run.request ≡ q
  unfolding load_run
  load_run-request name files left run there parsed h =
      let (r, f1, first, h1) = bind-Returns _ _ files run left h in
      let (events, f2, _, h2) = bind-Returns _ _ f1 run left h1 in
      let (receipt, f3, _, h3) = bind-Returns _ _ f2 run left h2 in
      let made = return-Returns _ f3 run left h3 in
      sym (ap (λ (x : Run). x.request) made.0)
      ∙ ok-injective (
          sym first.result
          ∙ ap (λ x. (load_request world x files).0) there
          ∙ ap (λ o. (parsed_request world o files).0) parsed)
