-- ===== src/Bridge/Connection.antt =====
-- The connection of the worker (hermes/bridge.py): _publish_connection, _disconnect_client, _validate_connected_frame, and
-- what _connect checks of the daemon's answers.
use alice_brain_hermes.Prelude.{
  ℕ, ◌+◌, ◌-◌, String, Bool, true, false, not, ◌&&◌, ◌||◌, Option, none, some, ltb, leb, ◌==◌,
  str_eq, if◌then◌else◌, Result, ok, err, value_error, guard, ◌>>◌,
}
use alice_brain_hermes.Bridge.{Frame, HookBridge, max_bridge_integer}
use alice_brain_hermes.Bridge.Close.{first_of, last_of}

abbrev pub frame_trace : Option Frame → Bool
frame_trace none = true
frame_trace (some f) = f.trace_complete

abbrev pub frame_through : ℕ → Option Frame → ℕ
frame_through through none = through
frame_through through (some f) = f.through_capture_seq

-- `_publish_connection`
unfoldable pub publish_connection : HookBridge → Bool → Option Frame → Option String → HookBridge
publish_connection b connected frame error = record b {
  health = record b.health {
    connected = connected;
    trace_complete = b.health.trace_complete && frame_trace frame;
    through_capture_seq = frame_through b.health.through_capture_seq frame;
    last_error = error;
  };
}

-- `_disconnect_client`
unfoldable pub disconnect_client : HookBridge → Option String → HookBridge
disconnect_client b error =
    publish_connection
      (record b { binding = none; attached_next_capture_seq = none; exact_retry_pending = false })
      false none error

abbrev pub precedes : Frame → Option Frame → Bool
precedes f none = false
precedes f (some current) =
    ltb f.state_sequence current.state_sequence
    || ltb f.through_capture_seq current.through_capture_seq

abbrev pub is_given : (ℕ → Bool) → Option ℕ → Bool
is_given test none = true
is_given test (some n) = test n

-- `_validate_connected_frame`: whether the frame is older than the one that is published
unfoldable pub validate_connected_frame :
    HookBridge → Frame → String → Option ℕ → Option ℕ → Bool → Result Bool
validate_connected_frame b f brain_id expected_through minimum_state permit_historical = do
  guard (str_eq f.brain_id brain_id) value_error
  guard (is_given (λ through. f.through_capture_seq == through) expected_through) value_error
  guard (is_given (λ minimum. leb minimum f.state_sequence) minimum_state) value_error
  guard (leb b.brain_state_sequence_floor f.state_sequence || permit_historical) value_error
  guard (f.projected_at_state_sequence == f.state_sequence) value_error
  guard (str_eq f.stream_connection "connected") value_error
  guard (not (precedes f b.frame) || permit_historical) value_error
  ok (precedes f b.frame)

abbrev pub max_of : ℕ → ℕ → ℕ
max_of a b = if ltb a b then b else a

-- `publish_frame`, and the floor of the state sequence that follows it
abbrev pub publish_frame : HookBridge → Frame → HookBridge
publish_frame b f = record b {
  frame = some f;
  brain_state_sequence_floor = max_of b.brain_state_sequence_floor f.state_sequence;
}

-- The replies to `brain.resolve` and `brain.attach`.
pub record Attachment : Type 0 where
  pub resolved_brain_id : String
  pub state_sequence : ℕ
  pub binding : String
  pub attached_brain_id : String
  pub next_capture_seq : ℕ

abbrev pub is_stable : Option String → String → Bool
is_stable none brain_id = true
is_stable (some known) brain_id = str_eq brain_id known

-- What attaching does to the record that is retained: whether it is to be sent again exactly, and whether it counts
-- as attempted.
unfoldable pub bind_cursor : HookBridge → ℕ → Result (Bool × Bool)
bind_cursor b next = elim b.retained [
  | some r ↦
      if next == first_of r
      then ok (false, false)
      else if b.retained_attempted && next == last_of r + 1
      then ok (true, b.retained_attempted)
      else err value_error
  | none ↦
      if next == b.health.last_capture_seq + 1
      then ok (false, b.retained_attempted)
      else err value_error
]

-- `_connect` up to the binding of the cursor
unfoldable pub bind_attachment : HookBridge → Attachment → Result (Bool × Bool)
bind_attachment b a = do
  guard (is_stable b.brain_id a.resolved_brain_id) value_error
  guard (leb a.state_sequence max_bridge_integer) value_error
  guard (str_eq a.attached_brain_id a.resolved_brain_id) value_error
  guard (leb 1 a.next_capture_seq && leb a.next_capture_seq max_bridge_integer) value_error
  guard (leb a.next_capture_seq (b.health.last_capture_seq + 1)) value_error
  bind_cursor b a.next_capture_seq

abbrev pub attached : HookBridge → Attachment → Frame → Bool → HookBridge
attached b a f exact_retry = record (publish_frame b f) {
  binding = some a.binding;
  brain_id = some a.resolved_brain_id;
  attached_next_capture_seq = some a.next_capture_seq;
  exact_retry_pending = exact_retry;
}

-- The rest of it, with the frame that `state.get` gave, up to the publication of the connection
unfoldable pub attach : HookBridge → Attachment → Frame → Bool → Result HookBridge
attach b a f exact_retry = do
  validate_connected_frame b f a.resolved_brain_id (some (a.next_capture_seq - 1))
      (some a.state_sequence) false
  ok (attached b a f exact_retry)

abbrev pub same_brain : Option String → String → Bool
same_brain none brain_id = false
same_brain (some known) brain_id = str_eq brain_id known

abbrev pub or_empty : Option String → String
or_empty none = ""
or_empty (some s) = s
