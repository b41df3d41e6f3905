-- ===== src/Action/Receive.antt =====
-- The branch of reduce_actions for a receipt (action.py).
use alice_brain_hermes.Prelude.{
  ℕ, ◌+◌, String, Bool, true, false, not, ◌||◌, Option, none, some, List, [], ◌∷◌, ◌++◌, leb,
  is_none, is_some, is_empty, length, take_last, if◌then◌else◌, Result, ok, err, domain_invariant,
  guard, rewrap, ◌>>=◌, ◌>>◌,
}
use alice_brain_hermes.Text.{str_sorted}
use alice_brain_hermes.Json.{Json, bool, get, get_or, as_bool, opt_str}
use alice_brain_hermes.Events.{EventEnvelope}
use alice_brain_hermes.Action.{
  ActionPhase, RdPhase, ActionReceiptStatus, ActionReceiptDisposition, ActionReceiptRecord,
  ActionRecord, outcome_of, is_true, max_action_receipt_history,
}
use alice_brain_hermes.Action.Source.{validate_receipt_source_semantics}
use alice_brain_hermes.Action.Validate.{receipt_status, validate_receipt_record, validate_action}
use alice_brain_hermes.Action.Grounding.{require, receipt_grounded_ids}
use alice_brain_hermes.Action.Transition.{transition, receipt_disposition}

-- The first receipt is not late, and every later one is.
unfoldable pub lateness : ActionPhase → Bool → Result (Unit {0})
lateness ActionPhase.dispatched late = guard (not late) domain_invariant
lateness ActionPhase.receipt late = guard late domain_invariant
lateness ActionPhase.reconstructed late = guard late domain_invariant
lateness _ late = err domain_invariant

abbrev pub confirmed_by : ActionReceiptStatus → Option Bool
confirmed_by ActionReceiptStatus.unknown = none
confirmed_by _ = some true

abbrev pub counted : Bool → ℕ
counted true = 1
counted false = 0

abbrev pub is_resolution : ActionReceiptDisposition → Bool
is_resolution ActionReceiptDisposition.resolution = true
is_resolution _ = false

abbrev pub is_corroboration : ActionReceiptDisposition → Bool
is_corroboration ActionReceiptDisposition.corroboration = true
is_corroboration _ = false

abbrev pub is_conflict : ActionReceiptDisposition → Bool
is_conflict ActionReceiptDisposition.conflict = true
is_conflict _ = false

-- The dictionary `updates` of a receipt.
unfoldable pub receive_updates :
    EventEnvelope
    → ActionReceiptStatus
    → ActionReceiptDisposition
    → ActionReceiptRecord
    → List String
    → ActionRecord
    → ActionRecord
receive_updates event status disposition receipt_record grounded action = record action {
  execution_confirmed =
      if is_some (confirmed_by status) then some true else action.execution_confirmed;
  outcome = if is_none action.outcome then outcome_of status else action.outcome;
  effect_confirmed =
      if not (is_empty grounded) || is_true action.effect_confirmed
      then some true
      else action.effect_confirmed;
  receipt =
      if is_none action.receipt || is_resolution disposition
      then some event.payload
      else action.receipt;
  receipt_history =
      take_last max_action_receipt_history (action.receipt_history ++ receipt_record ∷ []);
  receipt_history_evicted =
      action.receipt_history_evicted
      + counted (leb max_action_receipt_history (length action.receipt_history));
  receipt_corroboration_count =
      action.receipt_corroboration_count + counted (is_corroboration disposition);
  receipt_conflict_count = action.receipt_conflict_count + counted (is_conflict disposition);
}

-- `event.payload.get("late", False)`, which has to be a bool
abbrev pub late_of : Json → Result Bool
late_of value = require (as_bool value)

-- A pydantic field `str | None` at a payload's value.
abbrev pub opt_text : Json → Result (Option String)
opt_text value = require (opt_str value)

unfoldable pub receipt_record_of :
    ActionRecord
    → EventEnvelope
    → ActionReceiptStatus
    → Bool
    → List String
    → Result ActionReceiptRecord
receipt_record_of action event status late grounded = do
  source_status ← opt_text (get event.payload "source_status")
  source_error_type ← opt_text (get event.payload "source_error_type")
  rewrap domain_invariant (
      validate_receipt_record (record {
        event_id = event.event_id;
        status = status;
        disposition = receipt_disposition action status;
        source_status = source_status;
        source_error_type = source_error_type;
        late = late;
        execution_confirmed = confirmed_by status;
        outcome = outcome_of status;
        effect_observation_ids = str_sorted grounded;
        payload = event.payload;
      }))

unfoldable pub settle_receipt :
    ActionPhase → ActionRecord → EventEnvelope → (ActionRecord → ActionRecord) → Result ActionRecord
settle_receipt ActionPhase.receipt action event updates =
    let updated = updates action in
    validate_action (record updated { last_event_id = event.event_id })
settle_receipt phase action event updates =
    transition action event phase ActionPhase.receipt RdPhase.prepare updates

-- What the branch has found out before it writes `updates`.
pub record Receipt : Type 0 where
  pub status : ActionReceiptStatus
  pub grounded : List String
  pub entry : ActionReceiptRecord

unfoldable pub read_receipt : ActionRecord → EventEnvelope → Bool → Result Receipt
unfolding lateness
read_receipt action event trusted = do
  status ← require (receipt_status (get event.payload "status"))
  rewrap domain_invariant (
      validate_receipt_source_semantics status (get event.payload "source_status")
        (get event.payload "source_error_type"))
  late ← late_of (get_or event.payload "late" (bool false))
  lateness action.phase late
  grounded ← receipt_grounded_ids event trusted
  entry ← receipt_record_of action event status late grounded
  ok (record { status = status; grounded = grounded; entry = entry })

unfoldable pub receive_with :
    ActionRecord → EventEnvelope → Receipt → Result (ActionRecord × List String)
unfolding settle_receipt
receive_with action event r = do
  updated ←
      settle_receipt action.phase action event
        (receive_updates event r.status (receipt_disposition action r.status) r.entry r.grounded)
  ok (updated, r.grounded)

unfoldable pub receive : ActionRecord → EventEnvelope → Bool → Result (ActionRecord × List String)
receive action event trusted = read_receipt action event trusted >>= receive_with action event
