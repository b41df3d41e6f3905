-- ===== src/Bridge/Capture.antt =====
-- The capture of one callback (hermes/bridge.py, _capture_atomic and _publish_observation_or_gap_locked). The shaping of
-- the arguments, which reads the clocks, is a parameter that may fail.
use alice_brain_hermes.Prelude.{
  ℕ, ◌+◌, ◌-◌, String, Bool, true, false, Option, none, some, List, [], ◌∷◌, ltb, str_eq, length,
  if◌then◌else◌,
}
use alice_brain_hermes.Json.{Json, Fields, str, get}
use alice_brain_hermes.Bridge.{
  CopyStats, Observation, BridgeHealth, HookBridge, max_capture_sequence,
}
use alice_brain_hermes.Bridge.Gaps.{drop_captures}

-- `_shape_observation`: the hook, the number, the arguments and what their copy left out, to the content of the record.
abbrev pub Shape : Type 0
Shape = String → ℕ → Fields → CopyStats → Option Fields

-- What else than a full queue `put_nowait` may do: nothing, or raise with the record inserted or not.
pub data Fault : Type 0 where
  no_fault raised_before raised_after : Fault

abbrev pub no_stats : CopyStats
no_stats = record {
  redacted_paths = 0;
  truncated_paths = 0;
  unsupported_paths = 0;
  omitted_nodes = 0;
}

abbrev pub append_observation : List Observation → Observation → List Observation
append_observation [] o = o ∷ []
append_observation (x ∷ rest) o = x ∷ append_observation rest o

-- `queue.put_nowait` and the health that follows it
abbrev pub enqueue : HookBridge → Observation → ℕ → HookBridge
enqueue b o seq = record b {
  queue = append_observation b.queue o;
  health = record b.health { last_capture_seq = seq };
}

-- `put_nowait` with room in the queue, and what is published after it
abbrev pub put_with_room : HookBridge → Fault → Observation → ℕ → HookBridge
put_with_room b no_fault o seq = enqueue b o seq
put_with_room b raised_before o seq = drop_captures b seq seq (("callback_internal", 1) ∷ [])
put_with_room b raised_after o seq = record (enqueue b o seq) { emergency_trace_incomplete = true }

-- `_publish_observation_or_gap_locked`
unfoldable pub publish_observation_or_gap : HookBridge → Fault → Observation → ℕ → HookBridge
unfolding drop_captures
publish_observation_or_gap b fault o seq =
    let full = drop_captures b seq seq (("queue_full", 1) ∷ []) in
    if ltb (length b.queue) b.queue_capacity then put_with_room b fault o seq else full

-- The health after `updated_health` of a capture that comes after the seal.
abbrev pub late_health : BridgeHealth → ℕ → BridgeHealth
late_health h count = record h {
  trace_complete = false;
  dropped_events = h.dropped_events + count;
  late_after_close = h.late_after_close + count;
  last_error = some "capture_after_close_seal";
}

abbrev pub is_source_schema : Json → Bool
is_source_schema (str version) = str_eq version "hermes.observer.v1"
is_source_schema _ = false

abbrev pub publish_shaped : HookBridge → Fault → String → ℕ → ℕ → Option Fields → HookBridge
publish_shaped b fault hook first last none =
    drop_captures b first last (("callback_internal", last + 1 - first) ∷ [])
publish_shaped b fault hook first last (some content) =
    publish_observation_or_gap b fault
      (record { capture_seq = first; hook = hook; content = content }) last

-- The number that a capture takes goes to the queue or to a gap.
unfoldable pub capture_numbered : Shape → HookBridge → Fault → String → Fields → HookBridge
unfolding publish_observation_or_gap drop_captures
capture_numbered shape b fault hook kwargs =
    let seq = b.next_capture_seq in
    let invalid = drop_captures b seq seq (("invalid_source_schema", 1) ∷ []) in
    if is_source_schema (get kwargs "telemetry_schema_version")
    then publish_shaped b fault hook seq seq (shape hook seq kwargs no_stats)
    else invalid

-- The state and the result by the two guards of `_capture_atomic`, of a capture that was published.
abbrev pub captured : HookBridge → HookBridge → Bool → Bool → HookBridge × Bool
captured b published true exhausted = (record b { health = late_health b.health 1 }, false)
captured b published false true = (
  record b {
    health = record b.health {
      trace_complete = false;
      last_error = some "capture_sequence_capacity_exhausted";
    };
  },
  false,
)
captured b published false false =
    (record published { next_capture_seq = b.next_capture_seq + 1; ever_had_capture = true }, true)

-- `_capture_atomic`
unfoldable pub capture_atomic : Shape → HookBridge → Fault → String → Fields → HookBridge × Bool
capture_atomic shape b fault hook kwargs =
    captured b (capture_numbered shape b fault hook kwargs) b.close_sealed
      (ltb max_capture_sequence b.next_capture_seq)
