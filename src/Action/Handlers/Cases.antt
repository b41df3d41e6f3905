-- ===== src/Action/Handlers/Cases.antt =====
-- What a handler that succeeds has done: the record that it made, and that the record passed validation.
use alice_brain_hermes.Prelude.{
  ◌≡◌, String, Bool, false, Option, some, List, arith, ok, domain_invariant, leb, take_last,
  length-take_last, length-append, ◌∷◌, ◌++◌, >>=-eq-ok, guard-eq-ok, ◌>>=◌, length, ◌+◌, ◌≤◌, ◌⊎◌,
  [],
}
use alice_brain_hermes.Events.{EventEnvelope}
use alice_brain_hermes.Action.{
  ActionPhase, RdPhase, EnergyAssessmentStatus, ActionRecord, ActionReceiptRecord,
  ActionReconstructionRecord, max_action_receipt_history,
}
use alice_brain_hermes.Action.Validate.Claims.{validate_action-eq}
use alice_brain_hermes.Json.{get}
use alice_brain_hermes.Action.Grounding.{require, as_id}
use alice_brain_hermes.Action.Transition.{moved, LifecycleEvent, receipt_disposition, energy_is}
use alice_brain_hermes.Action.Receive.{
  counted, receive_with, Receipt, read_receipt, receive, receive_updates,
}
use alice_brain_hermes.Action.Handlers.{
  branch_id_of, requested, assessed, failed, prepare_with, fail_with, reconstruct_with,
  read_reconstruction, prepare, block, dispatch, reconstruct, reconstruct_updates, handle,
  request_energy, assess_energy, fail_energy,
}
use alice_brain_hermes.Action.Handlers.Steps.{transition_lem, Handled, extended_phases}

prepare_with_lem :
    (a : ActionRecord) (e : EventEnvelope) (branch : Option String) (b : ActionRecord)
    → prepare_with a e branch ≡ ok b
    → Handled LifecycleEvent.prepared a b []
unfolding prepare_with moved
prepare_with_lem a e branch b h =
    let done =
      transition_lem a e ActionPhase.proposed ActionPhase.prepared RdPhase.prepare
        (λ x. record x { prepared_branch_id = branch }) b h in
    ground (arith, extended_phases ActionPhase.prepared a b)

prepare_lem :
    (a : ActionRecord) (e : EventEnvelope) (b : ActionRecord)
    → prepare a e ≡ ok b
    → Handled LifecycleEvent.prepared a b []
unfolding prepare
prepare_lem a e b h =
    let (branch, _, moves) =
      >>=-eq-ok (branch_id_of (get e.payload "branch_id")) (prepare_with a e) h in
    prepare_with_lem a e branch b moves

block_lem :
    (a : ActionRecord) (e : EventEnvelope) (b : ActionRecord)
    → block a e ≡ ok b
    → Handled LifecycleEvent.blocked a b []
unfolding block moved
block_lem a e b h = ground (
  arith,
  extended_phases ActionPhase.blocked a b,
  transition_lem a e ActionPhase.prepared ActionPhase.blocked RdPhase.prepare
      (λ x. record x { execution_confirmed = some false }) b,
)

dispatch_lem :
    (a : ActionRecord) (e : EventEnvelope) (b : ActionRecord)
    → dispatch a e ≡ ok b
    → Handled LifecycleEvent.dispatched a b []
unfolding dispatch moved
dispatch_lem a e b h = ground (
  arith,
  extended_phases ActionPhase.dispatched a b,
  transition_lem a e ActionPhase.prepared ActionPhase.dispatched RdPhase.prepare (λ x. x) b,
)

request_energy_lem :
    (a : ActionRecord) (e : EventEnvelope) (b : ActionRecord)
    → request_energy a e ≡ ok b
    → Handled LifecycleEvent.energy_requested a b []
unfolding request_energy
request_energy_lem a e b h = ground (arith, validate_action-eq (requested a e) b)

assess_energy_lem :
    (a : ActionRecord) (e : EventEnvelope) (b : ActionRecord)
    → assess_energy a e ≡ ok b
    → Handled LifecycleEvent.energy_assessed a b []
unfolding assess_energy
assess_energy_lem a e b h = ground (arith, validate_action-eq (assessed a e) b)

fail_with_lem :
    (a : ActionRecord) (code : String) (b : ActionRecord)
    → a.energy_assessment_status ≡ EnergyAssessmentStatus.pending
    → fail_with a code ≡ ok b
    → Handled LifecycleEvent.energy_assessment_failed a b []
unfolding fail_with
fail_with_lem a code b waits h = ground (arith, validate_action-eq (failed a code) b)

fail_energy_lem :
    (a : ActionRecord) (e : EventEnvelope) (b : ActionRecord)
    → fail_energy a e ≡ ok b
    → Handled LifecycleEvent.energy_assessment_failed a b []
unfolding fail_energy
fail_energy_lem a e b h =
    let (waits, rest) =
      guard-eq-ok (energy_is EnergyAssessmentStatus.pending a.energy_assessment_status)
        domain_invariant (require (as_id (get e.payload "failure_code")) >>= fail_with a) h in
    let (code, _, fails) =
      >>=-eq-ok (require (as_id (get e.payload "failure_code"))) (fail_with a) rest in
    fail_with_lem a code b (ground arith) fails

reconstruct_with_lem :
    (a : ActionRecord) (e : EventEnvelope) (r : ActionReconstructionRecord) (b : ActionRecord)
    → (a.phase ≡ ActionPhase.blocked) ⊎ (a.phase ≡ ActionPhase.receipt)
    → reconstruct_with a e r ≡ ok b
    → Handled LifecycleEvent.reconstructed a b []
unfolding reconstruct_with moved reconstruct_updates
reconstruct_with_lem a e r b from h = ground (
  arith,
  extended_phases ActionPhase.reconstructed a b,
  transition_lem a e a.phase ActionPhase.reconstructed RdPhase.reconstruct
      (reconstruct_updates e.payload r) b,
)

reconstruct_lem :
    (a : ActionRecord) (e : EventEnvelope) (b : ActionRecord)
    → reconstruct a e ≡ ok b
    → Handled LifecycleEvent.reconstructed a b []
unfolding reconstruct
reconstruct_lem a e b h =
    let (r, reads, makes) = >>=-eq-ok (read_reconstruction a e) (reconstruct_with a e) h in
    reconstruct_with_lem a e r b (unfold read_reconstruction in (ground arith)) makes

abbrev pub updates_of : ActionRecord → EventEnvelope → Receipt → ActionRecord → ActionRecord
updates_of a e r = receive_updates e r.status (receipt_disposition a r.status) r.entry r.grounded

abbrev pub received_again : ActionRecord → EventEnvelope → Receipt → ActionRecord
unfolding receive_updates
received_again a e r =
    let updated = updates_of a e r a in record updated { last_event_id = e.event_id }

-- A full history drops one receipt for the one that it takes in.
received_length :
    (history : List ActionReceiptRecord) (entry : ActionReceiptRecord)
    → length history ≤ max_action_receipt_history
    → length (take_last max_action_receipt_history (history ++ entry ∷ []))
        + counted (leb max_action_receipt_history (length history))
      ≡ length history + 1
received_length history entry h = ground (
  arith,
  length-take_last max_action_receipt_history (history ++ entry ∷ []),
  length-append history (entry ∷ []),
)

receive_with_lem :
    (a : ActionRecord) (e : EventEnvelope) (r : Receipt) (b : ActionRecord) (grounded : List String)
    → (a.phase ≡ ActionPhase.dispatched)
      ⊎ (a.phase ≡ ActionPhase.receipt)
      ⊎ (a.phase ≡ ActionPhase.reconstructed)
    → receive_with a e r ≡ ok (b, grounded)
    → Handled LifecycleEvent.receipt a b grounded
unfolding receive_with moved receive_updates
receive_with_lem a e r b grounded from h = ground (
  arith,
  extended_phases ActionPhase.receipt a b,
  received_length a.receipt_history r.entry,
  validate_action-eq (received_again a e r) b,
  transition_lem a e ActionPhase.dispatched ActionPhase.receipt RdPhase.prepare (updates_of a e r)
      b,
  transition_lem a e ActionPhase.reconstructed ActionPhase.receipt RdPhase.prepare
      (updates_of a e r) b,
)

receive_lem :
    (a : ActionRecord) (e : EventEnvelope) (trusted : Bool) (b : ActionRecord)
    (grounded : List String)
    → receive a e trusted ≡ ok (b, grounded)
    → Handled LifecycleEvent.receipt a b grounded
unfolding receive
receive_lem a e trusted b grounded h =
    let (r, reads, makes) = >>=-eq-ok (read_receipt a e trusted) (receive_with a e) h in
    receive_with_lem a e r b grounded (unfold read_receipt in (ground arith)) makes

-- Every handler that succeeds.
pub handle-Handled :
    (kind : LifecycleEvent) (a : ActionRecord) (e : EventEnvelope) (trusted : Bool)
    (b : ActionRecord) (grounded : List String)
    → handle kind a e trusted ≡ ok (b, grounded)
    → Handled kind a b grounded
unfolding handle
handle-Handled LifecycleEvent.proposed a e trusted b grounded h = cc
handle-Handled LifecycleEvent.prepared a e trusted b grounded h = ground (arith, prepare_lem a e b)
handle-Handled LifecycleEvent.blocked a e trusted b grounded h = ground (arith, block_lem a e b)
handle-Handled LifecycleEvent.dispatched a e trusted b grounded h =
    ground (arith, dispatch_lem a e b)
handle-Handled LifecycleEvent.receipt a e trusted b grounded h =
    receive_lem a e trusted b grounded h
handle-Handled LifecycleEvent.reconstructed a e trusted b grounded h =
    ground (arith, reconstruct_lem a e b)
handle-Handled LifecycleEvent.energy_requested a e trusted b grounded h =
    ground (arith, request_energy_lem a e b)
handle-Handled LifecycleEvent.energy_assessed a e trusted b grounded h =
    ground (arith, assess_energy_lem a e b)
handle-Handled LifecycleEvent.energy_assessment_failed a e trusted b grounded h =
    ground (arith, fail_energy_lem a e b)
