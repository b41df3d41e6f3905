-- ===== src/Tests/Events.antt =====
-- Sample events and payloads.
use alice_brain_hermes.Prelude.{String, true, none}
use alice_brain_hermes.Json.{Json, Fields, str, obj, arr, bool, nil, cons, end, field}
use alice_brain_hermes.Events.{EventEnvelope}

abbrev pub brain : String
brain = "0f8fad5b-d9cb-469f-a165-70867728950e"

abbrev pub event : String → String → Fields → EventEnvelope
event event_id event_type payload = record {
  schema_version = 1;
  event_id = event_id;
  event_type = event_type;
  brain_id = brain;
  sequence = none;
  wall_time = record { microseconds = 0; aware = true };
  monotonic_ns = 0;
  actor_id = brain;
  adapter_id = none;
  session_id = none;
  turn_id = none;
  action_id = none;
  causation_id = none;
  correlation_id = none;
  payload = payload;
}

abbrev pub of_action : Fields → Fields
of_action rest = field "action_id" (str "a1") rest

abbrev pub proposed : EventEnvelope
proposed = event "e1" "action.proposed" (of_action (field "intent" (obj end) end))

abbrev pub prepared : EventEnvelope
prepared = event "e2" "action.prepared" (of_action end)

abbrev pub dispatched : EventEnvelope
dispatched = event "e3" "action.dispatched" (of_action end)

abbrev pub seen : Json
seen = obj (field "proposition_id" (str "p1") (field "content" (obj end) end))

-- A success that links one observation.
abbrev pub confirmed : EventEnvelope
confirmed = event "e4" "action.receipt" (
    of_action (
      field "status" (str "success") (
        field "source_status" (str "ok") (
          field "effect_evidence"
            (obj (
              field "kind" (str "linked_observation")
                (field "observation_ids" (arr (cons (str "p1") nil)) end)))
            (field "observations" (arr (cons seen nil)) end)))))

-- A later report that contradicts it.
abbrev pub contradicted : EventEnvelope
contradicted =
    event "e5" "action.receipt"
      (of_action (field "status" (str "failure") (field "late" (bool true) end)))
