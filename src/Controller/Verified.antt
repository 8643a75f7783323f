-- ===== src/Controller/Verified.antt =====
-- What a run that returns has verified.
use mathlib.Core.Path.{subst}
use testudo.Prelude.{
  String, ◌≡◌, refl, ap, Bool, true, false, not, Option, none, some, ℤ, ok, raise_if-eq-ok,
  ok-injective, Comparable-int, Comparable-string,
}
use testudo.Prelude.{bind-ok, raise_if}
use testudo.Prelude.Dict.{get}
use testudo.Value.{Value, Fields, str, int, bool, dict, list, object, null, entries}
use testudo.Controller.{Fault, Worker, World}
use testudo.Controller.Checks.{
  is_text, is_artifact_digest, judge_containment, Identity, validate_guest_receipt, without_hash,
  as_status, as_receipt, Verdict, judge_result,
}

not-false : (b : Bool) → not b ≡ false → b ≡ true
not-false true h = refl
not-false false h = cc

module _ (world : World) (worker : Worker) (i : Identity) where
  -- A guest's receipt for this run and this result.
  pub record Bound (receipt : Fields) (result_hash : String) : Type 0 where
    pub same_run : is_text (get (entries receipt) "run_id") i.run_id ≡ true
    pub same_token : is_text (get (entries receipt) "token_id") i.token_id ≡ true
    pub same_nonce : is_text (get (entries receipt) "nonce") i.nonce ≡ true
    pub same_hash : is_text (get (entries receipt) "result_sha256") result_hash ≡ true
    pub has_digest : is_artifact_digest (get (entries receipt) "artifact_digest") ≡ true

  validate_guest_receipt-Bound :
      (receipt : Fields) (result_hash : String) (containment : Option Value)
      → validate_guest_receipt world i receipt result_hash containment ≡ ok tt
      → Bound receipt result_hash
  unfolding validate_guest_receipt
  validate_guest_receipt-Bound receipt result_hash containment h =
      let r = entries receipt in
      let (schema, h1) =
        raise_if-eq-ok (not (is_text (get r "schema") "testudo.guest.receipt.v1")) _ _ h in
      let (run, h2) = raise_if-eq-ok (not (is_text (get r "run_id") i.run_id)) _ _ h1 in
      let (token, h3) = raise_if-eq-ok (not (is_text (get r "token_id") i.token_id)) _ _ h2 in
      let (nonce, h4) = raise_if-eq-ok (not (is_text (get r "nonce") i.nonce)) _ _ h3 in
      let (hash, h5) = raise_if-eq-ok (not (is_text (get r "result_sha256") result_hash)) _ _ h4 in
      let (_, contained, h6) = bind-ok (judge_containment world.equal containment r) _ tt h5 in
      record {
        same_run = not-false _ run;
        same_token = not-false _ token;
        same_nonce = not-false _ nonce;
        same_hash = not-false _ hash;
        has_digest =
            not-false _ (raise_if-ok (not (is_artifact_digest (get r "artifact_digest"))) h6);
      }
    where
      raise_if-ok : (b : Bool) → raise_if b Fault.bad_artifact_digest ≡ ok tt → b ≡ false
      raise_if-ok true h = cc
      raise_if-ok false h = refl

  as_status-ok : (o : Option Value) (n : ℤ) → as_status o ≡ ok n → o ≡ some (int n)
  as_status-ok (some (int m)) n h = ap (λ k. some (int k)) (ok-injective h)
  as_status-ok (some (str s)) n h = cc
  as_status-ok (some (bool b)) n h = cc
  as_status-ok (some (dict d)) n h = cc
  as_status-ok (some (list l)) n h = cc
  as_status-ok (some (object k)) n h = cc
  as_status-ok (some null) n h = cc
  as_status-ok none n h = cc

  as_receipt-ok : (o : Option Fields) (r : Fields) → as_receipt o ≡ ok r → o ≡ some r
  as_receipt-ok none r h = cc
  as_receipt-ok (some x) r h = ap some (ok-injective h)

  -- The terminal payload, the guest's receipt and the verdict agree.
  pub record Agreed (payload : Fields) (guest : Option Fields) (v : Verdict) : Type 0 where
    pub hash_holds : is_text (get (entries payload) "result_sha256") v.result_sha256 ≡ true
    pub same_hash : world.sha256 (without_hash payload) ≡ v.result_sha256
    pub exit_holds : get (entries payload) "exit_status" ≡ some (int v.exit_status)
    pub same_receipt : guest ≡ some v.guest_receipt
    pub bound : Bound v.guest_receipt v.result_sha256

  pub judge_result-Agreed :
      (containment : Option Value) (payload : Fields) (guest : Option Fields) (v : Verdict)
      → judge_result world i containment payload guest ≡ ok v
      → Agreed payload guest v
  unfolding judge_result
  judge_result-Agreed containment payload guest v h =
      let expected = world.sha256 (without_hash payload) in
      let (hash, h1) =
        raise_if-eq-ok (not (is_text (get (entries payload) "result_sha256") expected))
          Fault.hash_mismatch _ h in
      let (status, status_ok, h2) =
        bind-ok (as_status (get (entries payload) "exit_status")) _ v h1 in
      let (receipt, receipt_ok, h3) = bind-ok (as_receipt guest) _ v h2 in
      let (_, valid, h4) =
        bind-ok (validate_guest_receipt world i receipt expected containment) _ v h3 in
      subst (Agreed payload guest) (ok-injective h4) (record {
        hash_holds = not-false _ hash;
        same_hash = refl;
        exit_holds = as_status-ok (get (entries payload) "exit_status") status status_ok;
        same_receipt = as_receipt-ok guest receipt receipt_ok;
        bound = validate_guest_receipt-Bound receipt expected containment valid;
      })
