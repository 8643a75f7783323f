-- ===== src/Capability/Supervisor/Examples.antt =====
-- A supervisor of the worker of a token that verifies.
use testudo.Prelude.{
  ap, arith, ℕ, zero, suc, String, ◌≡◌, refl, true, false, List, [], ◌∷◌, Option, none, some, ok,
  err, Comparable-string, Comparable-nat, ℤ,
}
use testudo.Prelude.Dict.{get}
use testudo.Prelude.Text.{starts_with}
use testudo.Capability.Toy.{library, keys, token, token_verifies}
use testudo.Capability.{Reason, Raised, Token, payload, to_dict}
use testudo.Capability.Verify.{
  Library, canonical, parse_time, text_field, list_field, gather, from_payload, compare_digest,
  unsigned, check_signature, check_times, verify,
}
use testudo.Capability.Issue.{Grant, is_digest, sign_payload, issue_signed, issue}
use testudo.Capability.Issued.{verify-issue}
use testudo.Capability.Supervisor.{
  TripReason, Call, Supervisor, Stop, perform, event_of, trip, terminate, on_verified, check_expiry,
  after_check, on_checked, request, Operation, operate_all,
}
use testudo.Capability.Supervisor.Correct.{Once, operate_all-Once, request-Granted}
use testudo.Capability.Supervisor.Closed.{request-Closed}

abbrev grant : Grant
grant = record {
  run_id = "run";
  lease_id = "lease";
  host_id = "host";
  vm_id = "vm";
  repository = "repo";
  branch = "agent/fix";
  base_sha = "0123456789012345678901234567890123456789";
  capabilities = "git.push" ∷ [];
  allowed_paths = [];
  allowed_commands = [];
}

token_issued : issue library keys grant "id" "nonce" 10 (ℤ.pos 20) ≡ ok token
unfolding issue issue_signed sign_payload from_payload gather text_field list_field parse_time
    canonical is_digest starts_with get
token_issued = refl

token_expires :
    verify library keys 30 (to_dict token) ≡ err (Raised.capability_error Reason.expired)
unfolding verify to_dict payload unsigned check_signature canonical compare_digest from_payload
    gather text_field list_field parse_time check_times get
token_expires = refl

abbrev supervisor : Supervisor
supervisor = record { token = token; keys = keys; tripped = false; calls = [] }

abbrev faultless : Call → Option String
faultless c = none

request-Granted_example :
    (request library faultless "git.push" "microvm" false 20 21 supervisor).0 ≡ ok tt
request-Granted_example =
    (request-Granted library faultless "git.push" "microvm" false 20 21 supervisor).1
      (refl, refl, (token, token_verifies))

abbrev boundary : TripReason
boundary = TripReason.host_boundary_operation_attempt

boundary_raises :
    (request library faultless "git.push" "host" false 20 21 supervisor).0
    ≡ err (Stop.worker_terminated boundary)
unfolding request check_expiry on_verified on_checked after_check terminate trip perform verify
    to_dict payload unsigned check_signature canonical compare_digest from_payload gather text_field
    list_field parse_time check_times get
boundary_raises = refl

request-Closed_example :
    (request library faultless "git.push" "host" false 20 21 supervisor).1 ≡ record supervisor {
      tripped = true;
      calls =
          Call.sink (event_of library faultless boundary 21 supervisor)
          ∷ Call.revoke supervisor.token.token_id
          ∷ Call.kill
          ∷ Call.wipe
          ∷ [];
    }
request-Closed_example =
    request-Closed library faultless (λ c. refl) "git.push" "host" false 20 21 supervisor boundary
      refl refl boundary_raises

-- A sink that raises: the machine is neither killed nor wiped, then or later.
abbrev sink_fails : Call → Option String
sink_fails (Call.sink event) = some "disk full"
sink_fails (Call.revoke id) = none
sink_fails Call.kill = none
sink_fails Call.wipe = none

abbrev two_requests : List (Operation library sink_fails)
two_requests =
    Operation.requesting "git.push" "host" false 20 21
    ∷ Operation.requesting "git.push" "host" false 22 23
    ∷ []

never_killed :
    (operate_all library sink_fails two_requests supervisor).calls
    ≡ Call.sink (event_of library sink_fails boundary 21 supervisor) ∷ []
unfolding request check_expiry on_verified on_checked after_check terminate trip perform verify
    to_dict payload unsigned check_signature canonical compare_digest from_payload gather text_field
    list_field parse_time check_times get
never_killed = refl

operate_all-Once_example :
    Once library sink_fails (operate_all library sink_fails two_requests supervisor)
operate_all-Once_example =
    operate_all-Once library sink_fails two_requests supervisor (Once.untouched refl refl)

-- Times as texts of that many strokes, which are read back.
abbrev strokes : ℕ → String
strokes zero = ""
strokes (suc n) = String.◌∷◌ "i" (strokes n)

abbrev count_strokes : String → ℕ
count_strokes String.[] = 0
count_strokes (String.◌∷◌ c s) = suc (count_strokes s)

abbrev stroke_library : Library
stroke_library = record {
  canonical = λ d. some [];
  hmac = λ key bytes. "mac";
  format_time = strokes;
  parse_time = λ s. some (count_strokes s);
}

strokes_read : (t : ℕ) → stroke_library.parse_time (stroke_library.format_time t) ≡ some t
strokes_read t = ap some (go t)
  where
    go : (t : ℕ) → count_strokes (strokes t) ≡ t
    go zero = refl
    go (suc n) = ap suc (go n)

abbrev stroke_token : Token
stroke_token = record token { issued_at = "ii"; expires_at = "iiiiii" }

stroke_issued : issue stroke_library keys grant "id" "nonce" 2 (ℤ.pos 4) ≡ ok stroke_token
unfolding issue issue_signed sign_payload from_payload gather text_field list_field parse_time
    canonical is_digest starts_with get
stroke_issued = refl

verify-issue_example : verify stroke_library keys 5 (to_dict stroke_token) ≡ ok stroke_token
verify-issue_example =
    verify-issue stroke_library strokes_read (λ key bytes. refl) keys (λ s h. cc) grant "id" "nonce"
      2 4 5 stroke_token stroke_issued (omega arith) (omega arith)
