-- ===== src/Action/Validate/Claims.antt =====
-- What a validated action record claims.
use alice_brain_hermes.Prelude.{◌≤◌, ◌≡◌, ◌≢◌, true, false, none, some, [], length, arith, ok}
use alice_brain_hermes.Action.{
  blocked, dispatched, receipt, ActionRecord, max_action_receipt_history,
  max_action_reconstruction_history,
}
use alice_brain_hermes.Action.Validate.{
  was, validate_action, histories_bounded, blocked_or_dispatched, blocked_claims_nothing,
  outcome_iff_executed, receipt_needs_dispatch, evidence_needs_receipt, non_execution_needs_block,
  energy_evidence_ok,
}

-- The lifecycle claims of one action: a blocked action was never dispatched and claims nothing; an outcome is
-- there exactly when execution is confirmed; what a receipt tells needs a dispatch; the histories are bounded.
pub record IsLifecycle (a : ActionRecord) : Type 0 where
  pub never_both : was blocked a ≡ true → was dispatched a ≡ false
  pub blocked_not_run : was blocked a ≡ true → a.execution_confirmed ≡ some false
  pub blocked_no_outcome : was blocked a ≡ true → a.outcome ≡ none
  pub blocked_no_effect : was blocked a ≡ true → a.effect_confirmed ≡ none
  pub blocked_no_history : was blocked a ≡ true → a.receipt_history ≡ []
  pub run_has_outcome : a.execution_confirmed ≡ some true → a.outcome ≢ none
  pub outcome_was_run : a.outcome ≢ none → a.execution_confirmed ≡ some true
  pub receipt_dispatched : was receipt a ≡ true → was dispatched a ≡ true
  pub outcome_dispatched : a.outcome ≢ none → was dispatched a ≡ true
  pub effect_dispatched : a.effect_confirmed ≢ none → was dispatched a ≡ true
  pub history_received : a.receipt_history ≢ [] → was receipt a ≡ true
  pub not_run_blocked : a.execution_confirmed ≡ some false → was blocked a ≡ true
  pub receipts_bounded : length a.receipt_history ≤ max_action_receipt_history
  pub reconstructions_bounded : length a.reconstruction_history ≤ max_action_reconstruction_history

-- Every check of the validator.
record Checks (a : ActionRecord) : Type 0 where
  histories : histories_bounded a ≡ true
  apart : blocked_or_dispatched a ≡ true
  nothing : blocked_claims_nothing a ≡ true
  executed : outcome_iff_executed a ≡ true
  dispatched : receipt_needs_dispatch a ≡ true
  received : evidence_needs_receipt a ≡ true
  not_run : non_execution_needs_block a ≡ true
  energy : energy_evidence_ok a.energy_assessment_status a ≡ true

validate_action-Checks : (a : ActionRecord) {b : ActionRecord} → validate_action a ≡ ok b → Checks a
unfolding validate_action
validate_action-Checks a h = ground arith

-- Validation returns the record that it was given.
pub validate_action-eq : (a b : ActionRecord) → validate_action a ≡ ok b → b ≡ a
unfolding validate_action
validate_action-eq a b h = ground arith

Checks-IsLifecycle : (a : ActionRecord) → Checks a → IsLifecycle a
unfolding histories_bounded blocked_or_dispatched blocked_claims_nothing outcome_iff_executed
    receipt_needs_dispatch evidence_needs_receipt non_execution_needs_block
Checks-IsLifecycle a c = ground arith

-- A record that passes validation keeps the lifecycle claims.
pub validate_action-IsLifecycle : (a b : ActionRecord) → validate_action a ≡ ok b → IsLifecycle b
validate_action-IsLifecycle a b h =
    rw (validate_action-eq a b h) (Checks-IsLifecycle a (validate_action-Checks a h))
