-- ===== src/Action/Source/Evaluation.antt =====
-- Opens the definitions of the module above for tests that evaluate them.
use alice_brain_hermes.Action.Source.{
  validate_source_error_type, expected_status, consistent, attributed,
  validate_receipt_source_semantics, validate_blocked_source_semantics,
}

unfoldable pub source_evaluation : Unit {0}
unfolding validate_source_error_type expected_status consistent attributed
    validate_receipt_source_semantics validate_blocked_source_semantics
source_evaluation = tt
