-- ===== src/Action/Validate.antt =====
-- Validation of action records (action.py, the field constraints and validators of ActionReceiptRecord,
-- ActionReconstructionRecord and ActionRecord).
pub mod Evaluation
pub mod Claims
use alice_brain_hermes.Prelude.{
  ℕ, String, Bool, true, false, not, ◌&&◌, ◌||◌, Option, none, some, List, [], ◌∷◌, leb, is_none,
  is_some, is_empty, is_unique, all, any, length, if◌then◌else◌, Result, ok, value_error, guard,
  ◌>>=◌, ◌>>◌,
}
use alice_brain_hermes.Text.{is_blank, has_length}
use alice_brain_hermes.Json.{Json, Fields, bool, get, get_or, is_str, is_opt_str, of_opt_str}
use alice_brain_hermes.Action.{
  ActionPhase, blocked, dispatched, receipt, ActionReceiptStatus, ActionReceiptDisposition,
  EnergyAssessmentStatus, ActionReceiptRecord, ActionReconstructionRecord, ActionRecord, phase_is,
  opt_outcome_is, status_value, outcome_of, is_true, is_false, max_action_receipt_history,
  max_action_reconstruction_history, max_world_propositions_per_layer,
}
use alice_brain_hermes.Action.Source.{validate_receipt_source_semantics}

abbrev opt_has_length : ℕ → ℕ → Option String → Bool
opt_has_length lo hi none = true
opt_has_length lo hi (some s) = has_length lo hi s

abbrev is_pending : ActionReceiptDisposition → Bool
is_pending ActionReceiptDisposition.pending = true
is_pending _ = false

abbrev is_bool : Json → Bool → Bool
is_bool (bool true) b = b
is_bool (bool false) b = not b
is_bool _ b = false

bounded_observation_ids : List String → Bool
bounded_observation_ids ids =
    leb (length ids) max_world_propositions_per_layer
    && is_unique ids
    && all (λ s. not (is_blank s)) ids

receipt_fields_ok : ActionReceiptRecord → Bool
unfolding bounded_observation_ids
receipt_fields_ok r =
    has_length 1 512 r.event_id
    && opt_has_length 1 160 r.source_status
    && opt_has_length 1 160 r.source_error_type
    && bounded_observation_ids r.effect_observation_ids

receipt_matches_payload : ActionReceiptRecord → Bool
receipt_matches_payload r =
    is_str (get r.payload "status") (status_value r.status)
    && is_opt_str (get r.payload "source_status") r.source_status
    && is_opt_str (get r.payload "source_error_type") r.source_error_type
    && is_bool (get_or r.payload "late" (bool false)) r.late

-- An unknown receipt confirms nothing and stays pending; a confirmed one has the outcome of its status.
receipt_claims_ok : ActionReceiptStatus → ActionReceiptRecord → Bool
receipt_claims_ok ActionReceiptStatus.unknown r =
    is_none r.execution_confirmed && is_none r.outcome && is_pending r.disposition
receipt_claims_ok status r =
    is_true r.execution_confirmed
    && opt_outcome_is r.outcome (outcome_of status)
    && not (is_pending r.disposition)

pub validate_receipt_record : ActionReceiptRecord → Result ActionReceiptRecord
validate_receipt_record r = do
  guard (receipt_fields_ok r) value_error
  validate_receipt_source_semantics r.status (of_opt_str r.source_status)
      (of_opt_str r.source_error_type)
  guard (receipt_matches_payload r) value_error
  guard (receipt_claims_ok r.status r) value_error
  ok r

validate_receipt_records : List ActionReceiptRecord → Result (Unit {0})
validate_receipt_records [] = ok tt
validate_receipt_records (r ∷ rest) = do validate_receipt_record r; validate_receipt_records rest

reconstruction_ok : ActionReconstructionRecord → Bool
reconstruction_ok r = has_length 1 512 r.event_id && opt_has_length 0 512 r.after_receipt_event_id

pub validate_reconstruction_record : ActionReconstructionRecord → Result ActionReconstructionRecord
validate_reconstruction_record r = do guard (reconstruction_ok r) value_error; ok r

-- `phase in self.phase_history`
abbrev pub was : ActionPhase → ActionRecord → Bool
was phase a = any (phase_is phase) a.phase_history

fields_ok : ActionRecord → Bool
fields_ok a =
    has_length 1 512 a.action_id
    && opt_has_length 0 256 a.prepared_branch_id
    && opt_has_length 0 160 a.energy_failure_code
    && all reconstruction_ok a.reconstruction_history

histories_bounded : ActionRecord → Bool
histories_bounded a =
    leb (length a.receipt_history) max_action_receipt_history
    && leb (length a.reconstruction_history) max_action_reconstruction_history

blocked_or_dispatched : ActionRecord → Bool
blocked_or_dispatched a = not (was blocked a && was dispatched a)

blocked_claims_nothing : ActionRecord → Bool
blocked_claims_nothing a =
    not (was blocked a)
    || (is_false a.execution_confirmed
        && is_none a.outcome
        && is_none a.effect_confirmed
        && is_none a.receipt
        && is_empty a.receipt_history)

outcome_iff_executed : ActionRecord → Bool
outcome_iff_executed a =
    not (is_some a.outcome && not (is_true a.execution_confirmed))
    && not (is_true a.execution_confirmed && is_none a.outcome)

receipt_claimed : ActionRecord → Bool
receipt_claimed a =
    was receipt a
    || is_true a.execution_confirmed
    || is_some a.outcome
    || is_some a.effect_confirmed
    || is_some a.receipt
    || not (is_empty a.receipt_history)

receipt_needs_dispatch : ActionRecord → Bool
unfolding receipt_claimed
receipt_needs_dispatch a = not (receipt_claimed a && not (was dispatched a))

evidence_needs_receipt : ActionRecord → Bool
evidence_needs_receipt a =
    not ((is_some a.receipt || not (is_empty a.receipt_history)) && not (was receipt a))

non_execution_needs_block : ActionRecord → Bool
non_execution_needs_block a = not (is_false a.execution_confirmed && not (was blocked a))

-- `ActionReceiptStatus(status)`, where the payload's status is one of the three texts
pub receipt_status : Json → Option ActionReceiptStatus
receipt_status status =
    if is_str status "success"
    then some ActionReceiptStatus.success
    else if is_str status "failure"
    then some ActionReceiptStatus.failure
    else if is_str status "unknown"
    then some ActionReceiptStatus.unknown
    else none

canonical_matches : ActionReceiptStatus → ActionRecord → Bool
canonical_matches ActionReceiptStatus.unknown a = is_none a.execution_confirmed && is_none a.outcome
canonical_matches status a =
    is_true a.execution_confirmed && opt_outcome_is a.outcome (outcome_of status)

validate_canonical : ActionRecord → Fields → Option ActionReceiptStatus → Result (Unit {0})
validate_canonical a payload none = guard false value_error
validate_canonical a payload (some status) = do
  validate_receipt_source_semantics status (get payload "source_status")
      (get payload "source_error_type")
  guard (canonical_matches status a) value_error

validate_canonical_receipt : ActionRecord → Option Fields → Result (Unit {0})
validate_canonical_receipt a none = ok tt
validate_canonical_receipt a (some payload) =
    validate_canonical a payload (receipt_status (get payload "status"))

-- `if self.energy_failure_code` is false of an empty text too
abbrev truthy : Option String → Bool
truthy none = false
truthy (some s) = not (has_length 0 0 s)

energy_evidence_ok : EnergyAssessmentStatus → ActionRecord → Bool
energy_evidence_ok EnergyAssessmentStatus.unrequested a =
    is_none a.energy_request_event_id
    && is_none a.energy_assessment_event_id
    && is_none a.energy_failure_code
energy_evidence_ok EnergyAssessmentStatus.pending a =
    is_some a.energy_request_event_id
    && is_none a.energy_assessment_event_id
    && is_none a.energy_failure_code
energy_evidence_ok EnergyAssessmentStatus.assessed a =
    is_some a.energy_assessment_event_id && not (truthy a.energy_failure_code)
energy_evidence_ok EnergyAssessmentStatus.failed a =
    is_some a.energy_request_event_id
    && is_none a.energy_assessment_event_id
    && is_some a.energy_failure_code

-- `ActionRecord.model_validate`
pub validate_action : ActionRecord → Result ActionRecord
validate_action a = do
  guard (fields_ok a) value_error
  validate_receipt_records a.receipt_history
  guard (histories_bounded a) value_error
  guard (blocked_or_dispatched a) value_error
  guard (blocked_claims_nothing a) value_error
  guard (outcome_iff_executed a) value_error
  guard (receipt_needs_dispatch a) value_error
  guard (evidence_needs_receipt a) value_error
  guard (non_execution_needs_block a) value_error
  validate_canonical_receipt a a.receipt
  guard (energy_evidence_ok a.energy_assessment_status a) value_error
  ok a
