-- ===== src/Bridge/Close.antt =====
-- The end of a stream (hermes/bridge.py): request_clean_close, _seal_close_if_ready, and _rotate_abandoned_stream, to
-- which the new instance ID is an argument.
use alice_brain_hermes.Prelude.{
  ℕ, ◌+◌, ◌-◌, String, Bool, true, false, ◌&&◌, Option, none, some, List, [], ◌∷◌, is_none,
  is_empty, if◌then◌else◌,
}
use alice_brain_hermes.Bridge.{GapSpan, Observation, BridgeRecord, HookBridge, observation, gap}

unfoldable pub request_clean_close : HookBridge → HookBridge
request_clean_close b = record b { close_requested = true }

-- Nothing waits to be sent.
abbrev pub is_drained : HookBridge → Bool
is_drained b =
    is_empty b.gap_spans && is_none b.retained && is_none b.queue_head && is_empty b.queue

abbrev pub sealed_at : HookBridge → HookBridge
sealed_at b = record b {
  close_final_capture_seq = some (b.next_capture_seq - 1);
  close_sealed = true;
}

abbrev pub seal_if : HookBridge → Bool → Bool → HookBridge × Bool
seal_if b true drained = (b, true)
seal_if b false true = (sealed_at b, true)
seal_if b false false = (b, false)

-- `_seal_close_if_ready`
unfoldable pub seal_close_if_ready : HookBridge → HookBridge × Bool
seal_close_if_ready b = seal_if b b.close_sealed (is_drained b)

-- How many numbers a record or a span stands for.
abbrev pub first_of : BridgeRecord → ℕ
first_of (observation o) = o.capture_seq
first_of (gap g) = g.first_capture_seq

abbrev pub last_of : BridgeRecord → ℕ
last_of (observation o) = o.capture_seq
last_of (gap g) = g.last_capture_seq

abbrev pub size_of : BridgeRecord → ℕ
size_of r = last_of r + 1 - first_of r

abbrev pub opt_size : Option BridgeRecord → ℕ
opt_size none = 0
opt_size (some r) = size_of r

abbrev pub spans_size : List GapSpan → ℕ
spans_size [] = 0
spans_size (s ∷ rest) = s.last_capture_seq + 1 - s.first_capture_seq + spans_size rest

abbrev pub as_record : Option Observation → List BridgeRecord → List BridgeRecord
as_record none rest = rest
as_record (some o) rest = observation o ∷ rest

abbrev pub as_records : List Observation → List BridgeRecord
as_records [] = []
as_records (o ∷ rest) = observation o ∷ as_records rest

abbrev pub with_retained : Option BridgeRecord → List BridgeRecord → List BridgeRecord
with_retained none rest = rest
with_retained (some r) rest = r ∷ rest

-- `records`: what is retained, the head of the queue, and the queue
abbrev pub local_records : HookBridge → List BridgeRecord
local_records b = with_retained b.retained (as_record b.queue_head (as_records b.queue))

abbrev pub records_size : List BridgeRecord → ℕ
records_size [] = 0
records_size (r ∷ rest) = size_of r + records_size rest

-- `newly_lost_observations`
abbrev pub observations_size : List BridgeRecord → ℕ
observations_size [] = 0
observations_size (observation o ∷ rest) = size_of (observation o) + observations_size rest
observations_size (gap g ∷ rest) = observations_size rest

abbrev pub abandoned_count : HookBridge → ℕ
abandoned_count b = spans_size b.gap_spans + records_size (local_records b)

abbrev pub ambiguous_count : HookBridge → ℕ
ambiguous_count b = if b.retained_attempted then opt_size b.retained else 0

-- `_rotate_abandoned_stream`
unfoldable pub rotate_abandoned_stream : HookBridge → String → HookBridge
rotate_abandoned_stream b replacement_id = record b {
  health = record b.health {
    trace_complete = false;
    dropped_events = b.health.dropped_events + observations_size (local_records b);
    pending_gap_ranges = 0;
    last_capture_seq = 0;
    through_capture_seq = 0;
    last_error = some "bridge_abandoned";
    abandoned_streams = b.health.abandoned_streams + 1;
    abandoned_local_records = b.health.abandoned_local_records + abandoned_count b;
    ambiguous_records = b.health.ambiguous_records + ambiguous_count b;
    last_abandonment = some (record {
      bridge_instance_id = b.bridge_instance_id;
      abandoned_capture_count = abandoned_count b;
      unsent_capture_count = abandoned_count b - ambiguous_count b;
      ambiguous_capture_count = ambiguous_count b;
    });
  };
  frame = none;
  queue = [];
  bridge_instance_id = replacement_id;
  next_capture_seq = 1;
  gap_spans = [];
  queue_head = none;
  retained = none;
  retained_attempted = false;
  exact_retry_pending = false;
  attached_next_capture_seq = none;
  close_sealed = false;
  close_final_capture_seq = none;
  last_bootstrap_reservation = none;
}
