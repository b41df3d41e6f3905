-- ===== src/Action/Transition.antt =====
-- The lifecycle events of actions, and what their branches share (action.py, _transition and _receipt_disposition).
use alice_brain_hermes.Prelude.{
  String, Bool, true, false, Option, none, some, [], ◌∷◌, ◌++◌, str_eq, any, if◌then◌else◌, Result,
  domain_invariant, guard, rewrap, ◌>>◌,
}
use alice_brain_hermes.Events.{EventEnvelope}
use alice_brain_hermes.Action.{
  ActionPhase, RdPhase, ActionReceiptStatus, ActionReceiptDisposition, EnergyAssessmentStatus,
  ActionRecord, phase_is, outcome_is, outcome_of,
}
use alice_brain_hermes.Action.Validate.{validate_action}

-- The event types that concern actions.
pub data LifecycleEvent : Type 0 where
  proposed prepared blocked dispatched receipt reconstructed : LifecycleEvent
  energy_requested energy_assessed energy_assessment_failed : LifecycleEvent

unfoldable pub lifecycle_of : String → Option LifecycleEvent
lifecycle_of event_type =
    if str_eq event_type "action.proposed"
    then some proposed
    else if str_eq event_type "action.prepared"
    then some prepared
    else if str_eq event_type "action.blocked"
    then some blocked
    else if str_eq event_type "action.dispatched"
    then some dispatched
    else if str_eq event_type "action.receipt"
    then some receipt
    else if str_eq event_type "action.reconstructed"
    then some reconstructed
    else if str_eq event_type "action.energy_requested"
    then some energy_requested
    else if str_eq event_type "action.energy_assessed"
    then some energy_assessed
    else if str_eq event_type "action.energy_assessment_failed"
    then some energy_assessment_failed
    else none

-- The record that `_transition` validates; `updates` are the caller's.
unfoldable pub moved :
    ActionRecord
    → EventEnvelope
    → ActionPhase
    → RdPhase
    → (ActionRecord → ActionRecord)
    → ActionRecord
moved action event phase rd_phase updates =
    let here = record action {
      phase = phase;
      phase_history =
          if any (phase_is phase) action.phase_history
          then action.phase_history
          else action.phase_history ++ phase ∷ [];
      rd_phase = rd_phase;
      last_event_id = event.event_id;
    } in
    updates here

unfoldable pub transition :
    ActionRecord
    → EventEnvelope
    → ActionPhase
    → ActionPhase
    → RdPhase
    → (ActionRecord → ActionRecord)
    → Result ActionRecord
transition action event required phase rd_phase updates = do
  guard (phase_is required action.phase) domain_invariant
  rewrap domain_invariant (validate_action (moved action event phase rd_phase updates))

-- `_receipt_disposition`
unfoldable pub receipt_disposition : ActionRecord → ActionReceiptStatus → ActionReceiptDisposition
receipt_disposition action status = elim (outcome_of status) [
  | none ↦ ActionReceiptDisposition.pending
  | some incoming ↦ elim action.outcome [
    | none ↦
        if phase_is ActionPhase.dispatched action.phase
        then ActionReceiptDisposition.confirmed
        else ActionReceiptDisposition.resolution
    | some settled ↦
        if outcome_is settled incoming
        then ActionReceiptDisposition.corroboration
        else ActionReceiptDisposition.conflict
  ]
]

-- `action.energy_assessment_status is ...`
abbrev pub energy_is : EnergyAssessmentStatus → EnergyAssessmentStatus → Bool
energy_is EnergyAssessmentStatus.unrequested EnergyAssessmentStatus.unrequested = true
energy_is EnergyAssessmentStatus.pending EnergyAssessmentStatus.pending = true
energy_is EnergyAssessmentStatus.assessed EnergyAssessmentStatus.assessed = true
energy_is EnergyAssessmentStatus.failed EnergyAssessmentStatus.failed = true
energy_is _ _ = false
