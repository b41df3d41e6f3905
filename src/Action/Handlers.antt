-- ===== src/Action/Handlers.antt =====
-- What each lifecycle event does to the action that it names (action.py, the branches of reduce_actions below `_find`;
-- that of a receipt is in Action.Receive).
pub mod Evaluation
pub mod Steps
pub mod Cases
pub mod Verdicts
use alice_brain_hermes.Prelude.{
  ◌+◌, String, Bool, true, false, not, ◌&&◌, ◌||◌, Option, none, some, List, [], ◌∷◌, ◌++◌, leb,
  opt_str_eq, length, take_last, Result, ok, err, domain_invariant, guard, rewrap, ◌>>=◌, ◌>>◌,
}
use alice_brain_hermes.Text.{has_length}
use alice_brain_hermes.Json.{Json, Fields, null, get, is_str, is_opt_str}
use alice_brain_hermes.Events.{EventEnvelope}
use alice_brain_hermes.Action.{
  ActionPhase, RdPhase, EnergyAssessmentStatus, ActionReceiptRecord, ActionReconstructionRecord,
  ActionRecord, max_action_reconstruction_history,
}
use alice_brain_hermes.Action.Source.{validate_blocked_source_semantics}
use alice_brain_hermes.Action.Validate.{validate_reconstruction_record, validate_action}
use alice_brain_hermes.Action.Grounding.{require, as_id}
use alice_brain_hermes.Action.Transition.{
  LifecycleEvent, proposed, prepared, blocked, dispatched, receipt, reconstructed, energy_requested,
  energy_assessed, energy_assessment_failed, transition, energy_is,
}
use alice_brain_hermes.Action.Receive.{counted, receive}

legacy_reassessment : ActionRecord → EventEnvelope → Bool
legacy_reassessment action event =
    opt_str_eq event.adapter_id (some "alice-brain-hermes-energy-migration-v1")
    && is_str (get event.payload "reassessment_reason") "legacy_neutral_default"
    && is_opt_str (get event.payload "replaces_event_id") action.energy_assessment_event_id

abbrev requested : ActionRecord → EventEnvelope → ActionRecord
requested action event = record action {
  energy_assessment_status = EnergyAssessmentStatus.pending;
  energy_request_event_id = some event.event_id;
  energy_assessment_event_id = none;
  energy_failure_code = none;
}

pub request_energy : ActionRecord → EventEnvelope → Result ActionRecord
request_energy action event = do
  guard
      (energy_is EnergyAssessmentStatus.unrequested action.energy_assessment_status
        || (energy_is EnergyAssessmentStatus.assessed action.energy_assessment_status
            && legacy_reassessment action event))
      domain_invariant
  validate_action (requested action event)

abbrev assessed : ActionRecord → EventEnvelope → ActionRecord
assessed action event = record action {
  energy_assessment_status = EnergyAssessmentStatus.assessed;
  energy_assessment_event_id = some event.event_id;
  energy_failure_code = none;
}

pub assess_energy : ActionRecord → EventEnvelope → Result ActionRecord
assess_energy action event = do
  guard
      (energy_is EnergyAssessmentStatus.unrequested action.energy_assessment_status
        || energy_is EnergyAssessmentStatus.pending action.energy_assessment_status)
      domain_invariant
  validate_action (assessed action event)

abbrev failed : ActionRecord → String → ActionRecord
failed action failure_code = record action {
  energy_assessment_status = EnergyAssessmentStatus.failed;
  energy_failure_code = some failure_code;
}

fail_with : ActionRecord → String → Result ActionRecord
fail_with action failure_code = do
  guard (has_length 0 160 failure_code) domain_invariant
  validate_action (failed action failure_code)

pub fail_energy : ActionRecord → EventEnvelope → Result ActionRecord
fail_energy action event = do
  guard (energy_is EnergyAssessmentStatus.pending action.energy_assessment_status) domain_invariant
  require (as_id (get event.payload "failure_code")) >>= fail_with action

-- `payload.get("branch_id")`: absent, or a non-blank text
abbrev branch_id_of : Json → Result (Option String)
branch_id_of null = ok none
branch_id_of value = do id ← require (as_id value); ok (some id)

prepare_with : ActionRecord → EventEnvelope → Option String → Result ActionRecord
prepare_with action event branch_id =
    transition action event ActionPhase.proposed ActionPhase.prepared RdPhase.prepare
      (λ a. record a { prepared_branch_id = branch_id })

prepare : ActionRecord → EventEnvelope → Result ActionRecord
prepare action event = branch_id_of (get event.payload "branch_id") >>= prepare_with action event

pub block : ActionRecord → EventEnvelope → Result ActionRecord
block action event = do
  validate_blocked_source_semantics event.payload
  transition action event ActionPhase.prepared ActionPhase.blocked RdPhase.prepare
      (λ a. record a { execution_confirmed = some false })

pub dispatch : ActionRecord → EventEnvelope → Result ActionRecord
dispatch action event =
    transition action event ActionPhase.prepared ActionPhase.dispatched RdPhase.prepare (λ a. a)

last_event_of : List ActionReceiptRecord → Option String
last_event_of [] = none
last_event_of (r ∷ []) = some r.event_id
last_event_of (r ∷ s ∷ rest) = last_event_of (s ∷ rest)

abbrev may_reconstruct : ActionPhase → Bool
may_reconstruct ActionPhase.blocked = true
may_reconstruct ActionPhase.receipt = true
may_reconstruct _ = false

pub reconstruct_updates : Fields → ActionReconstructionRecord → ActionRecord → ActionRecord
reconstruct_updates payload r action = record action {
  reconstruction = some payload;
  reconstruction_history =
      take_last max_action_reconstruction_history (action.reconstruction_history ++ r ∷ []);
  reconstruction_history_evicted =
      action.reconstruction_history_evicted
      + counted (leb max_action_reconstruction_history (length action.reconstruction_history));
}

read_reconstruction : ActionRecord → EventEnvelope → Result ActionReconstructionRecord
unfolding last_event_of
read_reconstruction action event = do
  guard (may_reconstruct action.phase) domain_invariant
  rewrap domain_invariant (
      validate_reconstruction_record (record {
        event_id = event.event_id;
        after_receipt_event_id = last_event_of action.receipt_history;
        payload = event.payload;
      }))

reconstruct_with : ActionRecord → EventEnvelope → ActionReconstructionRecord → Result ActionRecord
reconstruct_with action event r =
    transition action event action.phase ActionPhase.reconstructed RdPhase.reconstruct
      (reconstruct_updates event.payload r)

reconstruct : ActionRecord → EventEnvelope → Result ActionRecord
reconstruct action event = read_reconstruction action event >>= reconstruct_with action event

abbrev grounding_nothing : Result ActionRecord → Result (ActionRecord × List String)
grounding_nothing m = do action ← m; ok (action, [])

-- The branch of each event. A proposal finds no action, and is not one of these branches.
pub handle :
    LifecycleEvent → ActionRecord → EventEnvelope → Bool → Result (ActionRecord × List String)
handle energy_requested action event trusted = grounding_nothing (request_energy action event)
handle energy_assessed action event trusted = grounding_nothing (assess_energy action event)
handle energy_assessment_failed action event trusted = grounding_nothing (fail_energy action event)
handle prepared action event trusted = grounding_nothing (prepare action event)
handle blocked action event trusted = grounding_nothing (block action event)
handle dispatched action event trusted = grounding_nothing (dispatch action event)
handle receipt action event trusted = receive action event trusted
handle reconstructed action event trusted = grounding_nothing (reconstruct action event)
handle proposed action event trusted = err domain_invariant
