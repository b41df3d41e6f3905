-- ===== src/Action/Validate/Evaluation.antt =====
-- Opens the definitions of the module above for tests that evaluate them.
use alice_brain_hermes.Action.Validate.{
  bounded_observation_ids, receipt_fields_ok, receipt_matches_payload, receipt_claims_ok,
  validate_receipt_record, validate_receipt_records, reconstruction_ok,
  validate_reconstruction_record, fields_ok, histories_bounded, blocked_or_dispatched,
  blocked_claims_nothing, outcome_iff_executed, receipt_claimed, receipt_needs_dispatch,
  evidence_needs_receipt, non_execution_needs_block, receipt_status, canonical_matches,
  validate_canonical, validate_canonical_receipt, energy_evidence_ok, validate_action,
}

unfoldable pub validation_evaluation : Unit {0}
unfolding bounded_observation_ids receipt_fields_ok receipt_matches_payload receipt_claims_ok
    validate_receipt_record validate_receipt_records reconstruction_ok
    validate_reconstruction_record fields_ok histories_bounded blocked_or_dispatched
    blocked_claims_nothing outcome_iff_executed receipt_claimed receipt_needs_dispatch
    evidence_needs_receipt non_execution_needs_block receipt_status canonical_matches
    validate_canonical validate_canonical_receipt energy_evidence_ok validate_action
validation_evaluation = tt
