-- ===== src/Action/Source.antt =====
-- The attributed source of a receipt or a block (action.py, _validate_source_error_type,
-- _validate_receipt_source_semantics and _validate_blocked_source_semantics).
pub mod Evaluation
pub mod Table
use alice_brain_hermes.Prelude.{
  String, Bool, false, not, ◌&&◌, ◌||◌, Option, none, some, List, [], ◌∷◌, str_eq, str_mem,
  if◌then◌else◌, Result, ok, err, value_error, domain_invariant, guard, rewrap, ◌>>◌,
}
use alice_brain_hermes.Text.{is_blank, has_length}
use alice_brain_hermes.Json.{Json, Fields, get, is_null, is_str, null, str}
use alice_brain_hermes.Action.{ActionReceiptStatus, status_is, max_action_source_error_type_length}

abbrev hermes_source_statuses : List String
hermes_source_statuses = "ok" ∷ "error" ∷ "timeout" ∷ "cancelled" ∷ "blocked" ∷ []

abbrev thread_missing_result : String
thread_missing_result = "thread_missing_result"

pub validate_source_error_type : Json → Result (Unit {0})
validate_source_error_type null = ok tt
validate_source_error_type (str s) =
    guard (not (is_blank s) && has_length 0 max_action_source_error_type_length s) value_error
validate_source_error_type _ = err value_error

-- The receipt status that a source status and an error type stand for.
pub expected_status : String → Json → Option ActionReceiptStatus
expected_status source_status source_error_type =
    if str_eq source_status "error"
    then (if is_str source_error_type thread_missing_result
        then some ActionReceiptStatus.unknown
        else some ActionReceiptStatus.failure)
    else if str_eq source_status "ok"
    then some ActionReceiptStatus.success
    else if str_eq source_status "timeout" || str_eq source_status "cancelled"
    then some ActionReceiptStatus.unknown
    else none

abbrev opt_status_is : ActionReceiptStatus → Option ActionReceiptStatus → Bool
opt_status_is status none = false
opt_status_is status (some expected) = status_is status expected

consistent : ActionReceiptStatus → String → Json → Result (Unit {0})
unfolding expected_status validate_source_error_type
consistent status source_status source_error_type = do
  validate_source_error_type source_error_type
  guard (not (str_eq source_status "ok" && not (is_null source_error_type))) value_error
  guard (str_eq source_status "error" || not (is_str source_error_type thread_missing_result))
      value_error
  guard (not (str_eq source_status "blocked")) value_error
  guard (opt_status_is status (expected_status source_status source_error_type)) value_error

attributed : ActionReceiptStatus → String → Json → Result (Unit {0})
attributed status source_status source_error_type = do
  guard (str_mem source_status hermes_source_statuses) value_error
  consistent status source_status source_error_type

pub validate_receipt_source_semantics : ActionReceiptStatus → Json → Json → Result (Unit {0})
unfolding attributed
validate_receipt_source_semantics status null source_error_type =
    guard (is_null source_error_type) value_error
validate_receipt_source_semantics status (str source_status) source_error_type =
    attributed status source_status source_error_type
validate_receipt_source_semantics status _ source_error_type = err value_error

pub validate_blocked_source_semantics : Fields → Result (Unit {0})
validate_blocked_source_semantics payload = do
  let source_status = get payload "source_status"
  let source_error_type = get payload "source_error_type"
  guard (is_null source_status || is_str source_status "blocked") domain_invariant
  guard (not (is_null source_status && not (is_null source_error_type))) domain_invariant
  rewrap domain_invariant (validate_source_error_type source_error_type)
  guard (not (is_str source_error_type thread_missing_result)) domain_invariant
