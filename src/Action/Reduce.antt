-- ===== src/Action/Reduce.antt =====
-- The reduction of action events (action.py, from action_id_from_event to reduce_actions).

pub mod Evaluation
pub mod Lookup
pub mod Change
pub mod Ledger
pub mod Histories
pub mod Runs
use alice_brain_hermes.Prelude.{
  String, Bool, true, not, Option, none, some, List, [], ◌∷◌, ◌++◌, str_eq, any, not, if◌then◌else◌,
  Result, ok, domain_invariant, guard, rewrap, ◌>>=◌, ◌>>◌,
}
use alice_brain_hermes.Json.{Fields, get, as_obj}
use alice_brain_hermes.Events.{EventEnvelope}
use alice_brain_hermes.Action.{ActionRecord, ActionPhase, RdPhase, EnergyAssessmentStatus}
use alice_brain_hermes.Action.Validate.{validate_action}
use alice_brain_hermes.Action.Grounding.{require, as_id}
use alice_brain_hermes.Action.Transition.{LifecycleEvent, proposed, lifecycle_of}
use alice_brain_hermes.Action.Handlers.{handle}

abbrev same_envelope_id : Option String → String → Bool
same_envelope_id none payload_id = true
same_envelope_id (some envelope_id) payload_id = str_eq envelope_id payload_id

pub action_id_from_event : EventEnvelope → Result String
action_id_from_event event = do
  payload_id ← require (as_id (get event.payload "action_id"))
  guard (same_envelope_id event.action_id payload_id) domain_invariant
  ok payload_id

-- `_replace`: the action moves to the end.
pub without : String → List ActionRecord → List ActionRecord
without id [] = []
without id (item ∷ rest) =
    let kept = without id rest in if str_eq item.action_id id then kept else item ∷ kept

pub replace : List ActionRecord → ActionRecord → List ActionRecord
unfolding without
replace actions action = without action.action_id actions ++ action ∷ []

-- `_find`
pub find : String → List ActionRecord → Option ActionRecord
find id [] = none
find id (item ∷ rest) = if str_eq item.action_id id then some item else find id rest

abbrev pub fresh : String → Fields → EventEnvelope → ActionRecord
fresh id intent event = record {
  action_id = id;
  intent = intent;
  phase = ActionPhase.proposed;
  phase_history = ActionPhase.proposed ∷ [];
  rd_phase = RdPhase.simulate;
  prepared_branch_id = none;
  execution_confirmed = none;
  outcome = none;
  effect_confirmed = none;
  receipt = none;
  receipt_history = [];
  receipt_history_evicted = 0;
  receipt_corroboration_count = 0;
  receipt_conflict_count = 0;
  reconstruction = none;
  reconstruction_history = [];
  reconstruction_history_evicted = 0;
  energy_assessment_status = EnergyAssessmentStatus.unrequested;
  energy_request_event_id = none;
  energy_assessment_event_id = none;
  energy_failure_code = none;
  proposed_event_id = event.event_id;
  last_event_id = event.event_id;
}

propose_with : String → List ActionRecord → EventEnvelope → Fields → Result (List ActionRecord)
propose_with id actions event intent = do
  action ← rewrap domain_invariant (validate_action (fresh id intent event))
  ok (actions ++ action ∷ [])

propose : String → List ActionRecord → EventEnvelope → Result (List ActionRecord)
propose id actions event = do
  guard (not (any (λ item. str_eq item.action_id id) actions)) domain_invariant
  require (as_obj (get event.payload "intent")) >>= propose_with id actions event

handle_found :
    LifecycleEvent
    → List ActionRecord
    → EventEnvelope
    → Bool
    → ActionRecord
    → Result (List ActionRecord × List String)
handle_found kind actions event trusted action = do
  (updated, grounded) ← handle kind action event trusted
  ok (replace actions updated, grounded)

-- Everything below `action_id = action_id_from_event(event)`.
step :
    LifecycleEvent
    → List ActionRecord
    → EventEnvelope
    → Bool
    → String
    → Result (List ActionRecord × List String)
step proposed actions event trusted id = do proposals ← propose id actions event; ok (proposals, [])
step kind actions event trusted id =
    require (find id actions) >>= handle_found kind actions event trusted

reduce_lifecycle :
    Option LifecycleEvent
    → List ActionRecord
    → EventEnvelope
    → Bool
    → Result (List ActionRecord × List String)
unfolding step
reduce_lifecycle none actions event trusted = ok (actions, [])
reduce_lifecycle (some kind) actions event trusted =
    action_id_from_event event >>= step kind actions event trusted

pub reduce_actions :
    List ActionRecord → EventEnvelope → Bool → Result (List ActionRecord × List String)
unfolding reduce_lifecycle
reduce_actions actions event trusted =
    reduce_lifecycle (lifecycle_of event.event_type) actions event trusted
