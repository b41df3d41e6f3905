-- ===== src/Action.antt =====
-- The action records and their enumerations (src/alice_brain_hermes/core/action.py). The children have
-- the validation of records, the reduction of events, and the proofs.
pub mod Source
pub mod Validate
pub mod Grounding
pub mod Transition
pub mod Receive
pub mod Handlers
pub mod Reduce
use alice_brain_hermes.Prelude.{ℕ, String, Bool, true, false, Option, none, some, List}
use alice_brain_hermes.Json.{Fields}

pub data RdPhase : Type 0 where
  simulate prepare reconstruct : RdPhase

pub data ActionPhase : Type 0 where
  proposed prepared blocked dispatched receipt reconstructed : ActionPhase

pub data ActionOutcome : Type 0 where
  success failure : ActionOutcome

pub data ActionReceiptStatus : Type 0 where
  success failure unknown : ActionReceiptStatus

pub data ActionReceiptDisposition : Type 0 where
  pending confirmed resolution corroboration conflict : ActionReceiptDisposition

pub data EnergyAssessmentStatus : Type 0 where
  unrequested pending assessed failed : EnergyAssessmentStatus

abbrev pub max_action_receipt_history : ℕ
max_action_receipt_history = 16

abbrev pub max_action_reconstruction_history : ℕ
max_action_reconstruction_history = 16

abbrev pub max_action_source_error_type_length : ℕ
max_action_source_error_type_length = 160

-- core/limits.py
abbrev pub max_world_propositions_per_layer : ℕ
max_world_propositions_per_layer = 256

pub record ActionReceiptRecord : Type 0 where
  pub event_id : String
  pub status : ActionReceiptStatus
  pub disposition : ActionReceiptDisposition
  pub source_status : Option String
  pub source_error_type : Option String
  pub late : Bool
  pub execution_confirmed : Option Bool
  pub outcome : Option ActionOutcome
  pub effect_observation_ids : List String
  pub payload : Fields

pub record ActionReconstructionRecord : Type 0 where
  pub event_id : String
  pub after_receipt_event_id : Option String
  pub payload : Fields

pub record ActionRecord : Type 0 where
  pub action_id : String
  pub intent : Fields
  pub phase : ActionPhase
  pub phase_history : List ActionPhase
  pub rd_phase : RdPhase
  pub prepared_branch_id : Option String
  pub execution_confirmed : Option Bool
  pub outcome : Option ActionOutcome
  pub effect_confirmed : Option Bool
  pub receipt : Option Fields
  pub receipt_history : List ActionReceiptRecord
  pub receipt_history_evicted : ℕ
  pub receipt_corroboration_count : ℕ
  pub receipt_conflict_count : ℕ
  pub reconstruction : Option Fields
  pub reconstruction_history : List ActionReconstructionRecord
  pub reconstruction_history_evicted : ℕ
  pub energy_assessment_status : EnergyAssessmentStatus
  pub energy_request_event_id : Option String
  pub energy_assessment_event_id : Option String
  pub energy_failure_code : Option String
  pub proposed_event_id : String
  pub last_event_id : String

-- `a is b` of enumeration members
abbrev pub phase_is : ActionPhase → ActionPhase → Bool
phase_is proposed proposed = true
phase_is prepared prepared = true
phase_is blocked blocked = true
phase_is dispatched dispatched = true
phase_is receipt receipt = true
phase_is reconstructed reconstructed = true
phase_is _ _ = false

abbrev pub outcome_is : ActionOutcome → ActionOutcome → Bool
outcome_is ActionOutcome.success ActionOutcome.success = true
outcome_is ActionOutcome.failure ActionOutcome.failure = true
outcome_is _ _ = false

abbrev pub status_is : ActionReceiptStatus → ActionReceiptStatus → Bool
status_is ActionReceiptStatus.success ActionReceiptStatus.success = true
status_is ActionReceiptStatus.failure ActionReceiptStatus.failure = true
status_is ActionReceiptStatus.unknown ActionReceiptStatus.unknown = true
status_is _ _ = false

-- `ActionReceiptStatus.value`, and the reverse
abbrev pub status_value : ActionReceiptStatus → String
status_value ActionReceiptStatus.success = "success"
status_value ActionReceiptStatus.failure = "failure"
status_value ActionReceiptStatus.unknown = "unknown"

-- `ActionOutcome(status.value)`, where the status is success or failure
abbrev pub outcome_of : ActionReceiptStatus → Option ActionOutcome
outcome_of ActionReceiptStatus.success = some ActionOutcome.success
outcome_of ActionReceiptStatus.failure = some ActionOutcome.failure
outcome_of ActionReceiptStatus.unknown = none

-- `value is True`, `value is False`
abbrev pub is_true : Option Bool → Bool
is_true (some true) = true
is_true _ = false

abbrev pub is_false : Option Bool → Bool
is_false (some false) = true
is_false _ = false

-- `value is outcome`, where either may be None
abbrev pub opt_outcome_is : Option ActionOutcome → Option ActionOutcome → Bool
opt_outcome_is none none = true
opt_outcome_is (some a) (some b) = outcome_is a b
opt_outcome_is none (some _) = false
opt_outcome_is (some _) none = false
