-- ===== src/Controller/Checks.antt =====
-- `_validate_identity`, `_validate_guest_receipt`, `HostReceipt` with its own check, and the checks of the
-- terminal payload in `HostController.run`.
use Prim.Native.Char.{code}
use testudo.Prelude.{
  ℕ, suc, String, Bool, true, false, not, ◌&&◌, ◌||◌, [], ◌∷◌, Option, none, some, ℤ, Result, ok,
  err, ◌>>=◌, ◌>>◌, raise_if, ◌==◌, Comparable-nat, Comparable-int, Comparable-string, leb,
  if◌then◌else◌,
}
use testudo.Prelude.Dict.{Dict, get, set, has}
use testudo.Value.{Value, Fields, str, int, bool, dict, list, object, null, field, end, entries}
use testudo.Controller.{Fault, World}

-- `mapping.get(name) == text`
abbrev pub is_text : Option Value → String → Bool
is_text (some (str s)) text = s == text
is_text _ text = false

unfoldable pub validate_identity : String → String → String → Fields → Result Fault (Unit {0})
validate_identity run_id token_id nonce contract =
    let c = entries contract in
    raise_if (run_id == "" || token_id == "" || nonce == "") Fault.identity_required
    >> (raise_if (not (is_text (get c "run_id") run_id)) (Fault.contract_mismatch "run_id")
        >> (raise_if (not (is_text (get c "token_id") token_id))
              (Fault.contract_mismatch "token_id")
            >> raise_if (not (is_text (get c "nonce") nonce)) (Fault.contract_mismatch "nonce")))

-- A hexadecimal digit, in either case
abbrev is_hex_digit : ℕ → Bool
is_hex_digit c = leb b'0' c && leb c b'9' || leb b'a' c && leb c b'f' || leb b'A' c && leb c b'F'

abbrev all_hex : String → Bool
all_hex String.[] = true
all_hex (String.◌∷◌ c s) = is_hex_digit (code c) && all_hex s

abbrev size : String → ℕ
size String.[] = 0
size (String.◌∷◌ c s) = suc (size s)

unfoldable pub is_sha256 : String → Bool
is_sha256 s = size s == 64 && all_hex s

abbrev pub is_artifact_digest : Option Value → Bool
is_artifact_digest (some (str s)) = is_sha256 s
is_artifact_digest _ = false

abbrev fields_of : Dict Value → Fields
fields_of [] = end
fields_of ((k, v) ∷ d) = field k v (fields_of d)

abbrev same_as : (Value → Value → Bool) → Option Value → Value → Bool
same_as equal none v = false
same_as equal (some w) v = equal w v

-- The containment of the contract, where a missing one and None are the same.
unfoldable pub judge_containment :
    (Value → Value → Bool) → Option Value → Dict Value → Result Fault (Unit {0})
judge_containment equal none r = raise_if (has r "containment") Fault.unrequested_containment
judge_containment equal (some null) r = raise_if (has r "containment") Fault.unrequested_containment
judge_containment equal (some (dict c)) r =
    raise_if
      (not (
        same_as equal (get r "containment")
          (dict (fields_of (set (entries c) "monitor_active" (bool true))))))
      Fault.containment_mismatch
judge_containment equal (some (str s)) r = err Fault.bad_containment
judge_containment equal (some (int i)) r = err Fault.bad_containment
judge_containment equal (some (bool b)) r = err Fault.bad_containment
judge_containment equal (some (list l)) r = err Fault.bad_containment
judge_containment equal (some (object n)) r = err Fault.bad_containment

-- What a run is about.
pub record Identity : Type 0 where
  pub run_id : String
  pub token_id : String
  pub nonce : String

unfoldable pub validate_guest_receipt :
    World → Identity → Fields → String → Option Value → Result Fault (Unit {0})
validate_guest_receipt world i receipt result_hash containment =
    let r = entries receipt in
    raise_if (not (is_text (get r "schema") "testudo.guest.receipt.v1"))
      (Fault.receipt_mismatch_of "schema")
    >> (raise_if (not (is_text (get r "run_id") i.run_id)) (Fault.receipt_mismatch_of "run_id")
        >> (raise_if (not (is_text (get r "token_id") i.token_id))
              (Fault.receipt_mismatch_of "token_id")
            >> (raise_if (not (is_text (get r "nonce") i.nonce)) (Fault.receipt_mismatch_of "nonce")
                >> (raise_if (not (is_text (get r "result_sha256") result_hash))
                      (Fault.receipt_mismatch_of "result_sha256")
                    >> (judge_containment world.equal containment r
                        >> raise_if (not (is_artifact_digest (get r "artifact_digest")))
                            Fault.bad_artifact_digest)))))

-- `{key: value for key, value in result_payload.items() if key != "result_sha256"}`
unfoldable pub without_hash : Fields → Fields
without_hash end = end
without_hash (field k v fs) =
    let rest = without_hash fs in if k == "result_sha256" then rest else field k v rest

abbrev pub as_status : Option Value → Result Fault ℤ
as_status (some (int i)) = ok i
as_status _ = err Fault.bad_exit_status

abbrev pub as_receipt : Option Fields → Result Fault Fields
as_receipt (some receipt) = ok receipt
as_receipt none = err Fault.missing_receipt

-- What the checks of a terminal payload have shown.
pub record Verdict : Type 0 where
  pub exit_status : ℤ
  pub result_sha256 : String
  pub guest_receipt : Fields

-- From `result_hash = ...` to `_validate_guest_receipt`.
unfoldable pub judge_result :
    World → Identity → Option Value → Fields → Option Fields → Result Fault Verdict
judge_result world i containment payload guest_receipt =
    let expected = world.sha256 (without_hash payload) in
    raise_if (not (is_text (get (entries payload) "result_sha256") expected)) Fault.hash_mismatch
    >> (as_status (get (entries payload) "exit_status") >>= λ exit_status.
        as_receipt guest_receipt >>= λ receipt.
        validate_guest_receipt world i receipt expected containment
        >> ok (record {
          exit_status = exit_status;
          result_sha256 = expected;
          guest_receipt = receipt;
        }))

abbrev pub status_name : ℤ → String
status_name i = if i == ℤ.pos 0 then "success" else "failed"

-- `HostReceipt`, whose status the controller derives from the exit status.
pub record HostReceipt : Type 0 where
  pub identity : Identity
  pub status : String
  pub exit_status : ℤ
  pub result_sha256 : String
  pub guest_receipt : Fields

unfoldable pub new_host_receipt : Identity → Verdict → Result Fault HostReceipt
new_host_receipt i v =
    raise_if (i.run_id == "" || i.token_id == "" || i.nonce == "" || v.result_sha256 == "")
      Fault.bad_receipt
    >> (raise_if (not (is_sha256 v.result_sha256)) Fault.bad_receipt
        >> ok (record {
          identity = i;
          status = status_name v.exit_status;
          exit_status = v.exit_status;
          result_sha256 = v.result_sha256;
          guest_receipt = v.guest_receipt;
        }))

abbrev receipt_payload : HostReceipt → Fields → Fields
receipt_payload r tail = field "schema" (str "testudo.host.receipt.v1") (
    field "run_id" (str r.identity.run_id) (
      field "token_id" (str r.identity.token_id) (
        field "nonce" (str r.identity.nonce) (
          field "status" (str r.status) (
            field "exit_status" (int r.exit_status) (
              field "result_sha256" (str r.result_sha256)
                (field "guest_receipt" (dict r.guest_receipt) tail)))))))

-- `HostReceipt.to_dict`, with the hash of the payload
unfoldable pub receipt_dict : World → HostReceipt → Fields
receipt_dict world r =
    receipt_payload r (field "receipt_id" (str (world.sha256 (receipt_payload r end))) end)
