-- ===== src/Enforcer/Course.antt =====
-- Any calls of an enforcer's methods one after the other, with the decisions that they return.
use testudo.Prelude.{
  ℕ, suc, ◌≡◌, refl, String, Bool, true, false, inl, inr, List, [], ◌∷◌, Option, none, some, ℤ,
  arith, Bool-cases,
}
use testudo.Policy.Path.{Text}
use testudo.Enforcer.{
  PolicyReason, PolicyReceipt, PolicyDecision, WipeState, PolicySetting, Enforcer, World,
  is_policy_digest, new_receipt,
}
use testudo.Enforcer.Mounts.{check_mount, check_storage, before_launch}
use testudo.Enforcer.Egress.{NetworkRequest, check_network}
use testudo.Enforcer.Publication.{
  Given, before_publication, check_policy_digest, wipe_payload, called, wiped_with, wipe_once,
  mark_wiped, wipe,
}
use testudo.Enforcer.Ways.{Way, check_mount-Way, before_launch-Way}
use testudo.Enforcer.Outcomes.{
  check_storage-Way, check_network-Way, before_publication-Way, check_policy_digest-Way,
}

-- A method with its arguments; the first of `wiping` says whether the callback would raise.
pub data PolicyCall : Type 0 where
  mounting : Text → Text → String → Option Text → PolicyCall
  storing : Text → String → Option Text → Option Text → PolicyCall
  requesting : NetworkRequest → PolicyCall
  launching : Option Text → PolicyCall
  publishing : Given → Option Text → ℤ → Option ℤ → PolicyCall
  checking : Option Text → PolicyCall
  wiping : Bool → String → PolicyCall
  marking : PolicyCall

abbrev pub decided : PolicyDecision × Enforcer → Option PolicyDecision × Enforcer
decided (d, e) = (some d, e)

abbrev pub add : Option PolicyDecision → List PolicyDecision → List PolicyDecision
add none ds = ds
add (some d) ds = d ∷ ds

module _ (world : World) (set : PolicySetting) where
  unfoldable pub perform_call : PolicyCall → Enforcer → Option PolicyDecision × Enforcer
  perform_call (PolicyCall.mounting host_path guest_path mode candidate) e =
      decided (check_mount world set host_path guest_path mode candidate e)
  perform_call (PolicyCall.storing guest_path operation host_path candidate) e =
      decided (check_storage world set guest_path operation host_path candidate e)
  perform_call (PolicyCall.requesting r) e = decided (check_network world set r e)
  perform_call (PolicyCall.launching candidate) e = decided (before_launch world set candidate e)
  perform_call (PolicyCall.publishing given candidate byte_count bytes) e =
      decided (before_publication world set given candidate byte_count bytes e)
  perform_call (PolicyCall.checking candidate) e =
      decided (check_policy_digest world set candidate e)
  perform_call (PolicyCall.wiping faulty reason) e = (none, (wipe world set faulty reason e).1)
  perform_call PolicyCall.marking e =
      (none, record e { wipe_state = mark_wiped world e.wipe_state })

  unfoldable pub run_calls : List PolicyCall → Enforcer → List PolicyDecision × Enforcer
  run_calls [] e = ([], e)
  run_calls (c ∷ cs) e =
      let (d, next) = perform_call c e in let (ds, last) = run_calls cs next in (add d ds, last)

  -- How the state of a wipe moves.
  pub data Wiping (w : WipeState) : WipeState → Type 0 where
    kept : Wiping w w
    recorded : (r : PolicyReceipt) → Wiping w (record w { wiped = true; receipt = some r })
    called_back :
        (r : PolicyReceipt)
        → w.receipt ≡ none
        → Wiping w (record w { wiped = true; receipt = some r; calls = suc w.calls })

  called-Wiping :
      (has_callback faulty : Bool) (r : PolicyReceipt) (w : WipeState)
      → w.receipt ≡ none
      → Wiping w (called has_callback faulty r (record w { wiped = true; receipt = some r })).1
  called-Wiping true faulty r w fresh = Wiping.called_back r fresh
  called-Wiping false faulty r w fresh = Wiping.recorded r

  wiped_with-Wiping :
      (faulty : Bool) (r : PolicyReceipt) (o : Option PolicyReceipt) (w : WipeState)
      → w.receipt ≡ o
      → Wiping w (wiped_with faulty r o w).1
  wiped_with-Wiping faulty r (some before) w same = Wiping.kept
  wiped_with-Wiping faulty r none w same = called-Wiping w.has_callback faulty r w same

  wipe_once-Wiping :
      (faulty : Bool) (reason : PolicyReason) (digest : Text) (at : ℕ) (w : WipeState)
      → Wiping w (wipe_once world faulty reason digest at w).1
  unfolding wipe_once
  wipe_once-Wiping faulty reason digest at w = elim (Bool-cases (is_policy_digest digest)) [
    | inl valid ↦ simp (valid) (
        wiped_with-Wiping faulty (new_receipt world (wipe_payload digest reason at)) w.receipt w
          refl)
    | inr invalid ↦ simp (invalid) Wiping.kept
  ]

  -- What a call comes to: a decision, or a move of the state of the wipe.
  pub data CallStep (e : Enforcer) : Option PolicyDecision × Enforcer → Type 0 where
    deciding : (q : PolicyDecision × Enforcer) → Way world set e q → CallStep e (decided q)
    moving :
        (n : ℕ) (w : WipeState)
        → Wiping e.wipe_state w
        → CallStep e (none, record e { readings = n; wipe_state = w })

  pub perform_call-CallStep : (c : PolicyCall) (e : Enforcer) → CallStep e (perform_call c e)
  unfolding perform_call wipe mark_wiped
  perform_call-CallStep (PolicyCall.mounting host_path guest_path mode candidate) e =
      CallStep.deciding _ (
        check_mount-Way world set host_path guest_path mode candidate e e.sequence e.readings
          (omega arith))
  perform_call-CallStep (PolicyCall.storing guest_path operation host_path candidate) e =
      CallStep.deciding _ (check_storage-Way world set guest_path operation host_path candidate e)
  perform_call-CallStep (PolicyCall.requesting r) e =
      CallStep.deciding _ (check_network-Way world set r e)
  perform_call-CallStep (PolicyCall.launching candidate) e =
      CallStep.deciding _ (before_launch-Way world set candidate e)
  perform_call-CallStep (PolicyCall.publishing given candidate byte_count bytes) e =
      CallStep.deciding _ (before_publication-Way world set given candidate byte_count bytes e)
  perform_call-CallStep (PolicyCall.checking candidate) e =
      CallStep.deciding _ (check_policy_digest-Way world set candidate e)
  perform_call-CallStep (PolicyCall.wiping faulty reason) e = CallStep.moving (suc e.readings) _ (
      wipe_once-Wiping faulty (PolicyReason.wiping reason) set.policy_digest
        (world.clock e.readings) e.wipe_state)
  perform_call-CallStep PolicyCall.marking e = CallStep.moving e.readings _ (Wiping.recorded _)
