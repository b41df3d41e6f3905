-- ===== src/Bridge.antt =====
-- The capture side of the Hermes plugin's bridge (src/alice_brain_hermes/hermes/bridge.py, HookBridge, with BridgeHealth of
-- projections.py and BridgeGapV1 of protocol/models.py): what the host's callbacks and the worker thread share under
-- the capture lock. An operation that holds the lock is one function; their interleavings are sequences of calls.
-- Threads, events and sockets are not modelled; what a client's call gives is an argument.
pub mod Gaps
pub mod Capture
pub mod Reserve
pub mod Worker
pub mod Connection
pub mod Close
pub mod Exchange
pub mod Commit
pub mod Growth
pub mod Held
pub mod Drops
pub mod Taken
pub mod Edges
pub mod Invariant
pub mod Reservations
pub mod Acceptance
pub mod Accepted
pub mod Bounds
pub mod Keeping
pub mod Selection
pub mod Stream
pub mod Blocked
pub mod Exchanges
pub mod Settling
pub mod Commits
pub mod Unchanged
pub mod Replies
pub mod Run
pub mod Ending
use alice_brain_hermes.Prelude.{ℕ, String, Bool, true, false, Option, none, List, [], ◌∷◌}
use alice_brain_hermes.Json.{Fields}

-- MAX_BRIDGE_INTEGER
abbrev pub max_bridge_integer : ℕ
max_bridge_integer = 9223372036854775807

abbrev pub max_capture_sequence : ℕ
max_capture_sequence = 9223372036854775806

-- GAP_CAUSES
abbrev pub gap_causes : List String
gap_causes =
    "queue_full" ∷ "detach_failed" ∷ "serialization_failed" ∷ "shutdown" ∷ "fork_reset"
    ∷ "shape_failed" ∷ "validation_failed" ∷ "invalid_source_schema" ∷ "record_too_large"
    ∷ "record_too_deep" ∷ "record_too_complex" ∷ "unsupported_value" ∷ "capture_failed"
    ∷ "callback_internal" ∷ "transport_failed" ∷ "daemon_unavailable" ∷ "backpressure" ∷ "other"
    ∷ []

-- A dict from causes to counts.
abbrev pub Causes : Type 0
Causes = List (String × ℕ)

-- `_GapSpan`
pub record GapSpan : Type 0 where
  pub first_capture_seq : ℕ
  pub last_capture_seq : ℕ
  pub cause_counts : Causes

-- A captured observation: its number and its hook, and what the shaping made of the arguments.
pub record Observation : Type 0 where
  pub capture_seq : ℕ
  pub hook : String
  pub content : Fields

-- `BridgeGapV1`
pub record BridgeGap : Type 0 where
  pub bridge_instance_id : String
  pub first_capture_seq : ℕ
  pub last_capture_seq : ℕ
  pub dropped_count : ℕ
  pub cause_counts : Causes

pub data BridgeRecord : Type 0 where
  observation : Observation → BridgeRecord
  gap : BridgeGap → BridgeRecord

-- What the bridge reads of a ConsciousnessFrameV3.
pub record Frame : Type 0 where
  pub brain_id : String
  pub state_sequence : ℕ
  pub through_capture_seq : ℕ
  pub trace_complete : Bool
  pub projected_at_state_sequence : ℕ
  pub stream_connection : String
  pub scheduler_sample : String

-- The audit of a stream that was abandoned; its other fields are constants.
pub record Abandonment : Type 0 where
  pub bridge_instance_id : String
  pub abandoned_capture_count : ℕ
  pub unsent_capture_count : ℕ
  pub ambiguous_capture_count : ℕ

pub record BridgeHealth : Type 0 where
  pub connected : Bool
  pub trace_complete : Bool
  pub dropped_events : ℕ
  pub pending_gap_ranges : ℕ
  pub last_capture_seq : ℕ
  pub through_capture_seq : ℕ
  pub last_error : Option String
  pub abandoned_streams : ℕ
  pub abandoned_local_records : ℕ
  pub ambiguous_records : ℕ
  pub late_after_close : ℕ
  pub last_abandonment : Option Abandonment

pub data Disposition : Type 0 where
  accepted late_after_close : Disposition

-- `_DetachStats`, as far as a reservation fills it
pub record CopyStats : Type 0 where
  pub redacted_paths : ℕ
  pub truncated_paths : ℕ
  pub unsupported_paths : ℕ
  pub omitted_nodes : ℕ

-- `_BootstrapReservationReceipt`
pub record Receipt : Type 0 where
  pub first_capture_seq : ℕ
  pub last_capture_seq : ℕ
  pub hook : Option String
  pub detached_kwargs : Option Fields
  pub gap_cause_counts : Option Causes
  pub copy_stats : CopyStats
  pub disposition : Disposition

-- `frame` is what the projection cache publishes; a client is connected if there is a binding.
pub record HookBridge : Type 0 where
  pub bridge_instance_id : String
  pub queue_capacity : ℕ
  pub queue : List Observation
  pub next_capture_seq : ℕ
  pub gap_spans : List GapSpan
  pub health : BridgeHealth
  pub emergency_trace_incomplete : Bool
  pub frame : Option Frame
  pub binding : Option String
  pub retained : Option BridgeRecord
  pub queue_head : Option Observation
  pub brain_id : Option String
  pub brain_state_sequence_floor : ℕ
  pub attached_next_capture_seq : Option ℕ
  pub retained_attempted : Bool
  pub exact_retry_pending : Bool
  pub stop_requested : Bool
  pub close_requested : Bool
  pub close_sealed : Bool
  pub close_final_capture_seq : Option ℕ
  pub ever_had_capture : Bool
  pub last_bootstrap_reservation : Option Receipt

-- The defaults of `BridgeHealth`.
abbrev pub fresh_health : BridgeHealth
fresh_health = record {
  connected = false;
  trace_complete = true;
  dropped_events = 0;
  pending_gap_ranges = 0;
  last_capture_seq = 0;
  through_capture_seq = 0;
  last_error = none;
  abandoned_streams = 0;
  abandoned_local_records = 0;
  ambiguous_records = 0;
  late_after_close = 0;
  last_abandonment = none;
}

-- `HookBridge.__init__`, of the fields that are modelled
abbrev pub fresh_bridge : String → ℕ → HookBridge
fresh_bridge id capacity = record {
  bridge_instance_id = id;
  queue_capacity = capacity;
  queue = [];
  next_capture_seq = 1;
  gap_spans = [];
  health = fresh_health;
  emergency_trace_incomplete = false;
  frame = none;
  binding = none;
  retained = none;
  queue_head = none;
  brain_id = none;
  brain_state_sequence_floor = 0;
  attached_next_capture_seq = none;
  retained_attempted = false;
  exact_retry_pending = false;
  stop_requested = false;
  close_requested = false;
  close_sealed = false;
  close_final_capture_seq = none;
  ever_had_capture = false;
  last_bootstrap_reservation = none;
}
