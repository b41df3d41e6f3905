-- ===== src/Tests/Bridges.antt =====
-- Runs of the bridge.
use alice_brain_hermes.Prelude.{
  String, ◌≡◌, refl, true, false, Option, none, some, [], ◌∷◌, arith, Result, ok, err, value_error,
}
use alice_brain_hermes.Json.{Fields, field, end, str, num, non_negative, get, get_elem?}
use alice_brain_hermes.Order.{order_texts}
use alice_brain_hermes.Bridge.{
  Causes, Observation, BridgeRecord, HookBridge, Frame, observation, gap, accepted, fresh_bridge,
}
use alice_brain_hermes.Bridge.Gaps.{drop_captures, is_gap_cause, gap_from_span, gap_ok, causes_ok}
use alice_brain_hermes.Bridge.Capture.{
  Shape, no_fault, raised_before, no_stats, capture_atomic, capture_numbered,
  publish_observation_or_gap,
}
use alice_brain_hermes.Bridge.Reserve.{
  Reservation, capture_number, as_stat, read_stats, read_causes, gap_of, observation_of,
  read_reserved, read_reservation, publish_reserved, accept_reservation, capture_reserved,
}
use alice_brain_hermes.Bridge.Worker.{
  poll_queue, claim_first_gap, choose_record, select_next_record,
}
use alice_brain_hermes.Bridge.Close.{seal_close_if_ready, rotate_abandoned_stream}
use alice_brain_hermes.Bridge.Connection.{
  publish_connection, disconnect_client, validate_connected_frame,
}
use alice_brain_hermes.Bridge.Exchange.{replied}
use alice_brain_hermes.Bridge.Commit.{Ack, ack_binds, acknowledge, commit_retained}
use alice_brain_hermes.Bridge.Invariant.{Captures, capture_atomic-Captures}
use alice_brain_hermes.Bridge.Accepted.{capture_reserved_again}
use alice_brain_hermes.Bridge.Stream.{
  IsStream, Selects, Keeps-IsStream, choose_record-Selects, select_next_record-Selects,
}
use alice_brain_hermes.Bridge.Keeping.{poll_queue-Keeps}
use alice_brain_hermes.Bridge.Blocked.{is_ok, select_next_record_ok}
use alice_brain_hermes.Bridge.Exchanges.{Same-IsStream, connection-Same}
use alice_brain_hermes.Bridge.Commits.{commit_retained-IsStream}
use alice_brain_hermes.Bridge.Run.{Step, Run, fresh-Run-IsStream}
use alice_brain_hermes.Bridge.Ending.{
  Seals, Accounts, audit_of, seal_close_if_ready-Seals, rotate_abandoned_stream-Accounts,
}

unfoldable bridge_evaluation : Unit {0}
unfolding order_texts drop_captures is_gap_cause gap_from_span gap_ok causes_ok capture_atomic
    capture_numbered publish_observation_or_gap capture_number as_stat read_stats read_causes gap_of
    observation_of read_reserved read_reservation publish_reserved accept_reservation
    capture_reserved poll_queue claim_first_gap choose_record select_next_record seal_close_if_ready
    rotate_abandoned_stream publish_connection disconnect_client validate_connected_frame ack_binds
    acknowledge commit_retained get get_elem?
bridge_evaluation = tt

-- A shaping that keeps the arguments.
abbrev keep : Shape
keep hook n kwargs stats = some kwargs

abbrev print : BridgeRecord → String
print r = "fingerprint"

abbrev kwargs : Fields
kwargs = field "telemetry_schema_version" (str "hermes.observer.v1") end

abbrev fresh : HookBridge
fresh = fresh_bridge "bridge-1" 2

abbrev start : HookBridge
start = (capture_atomic keep fresh no_fault "on_session_start" kwargs).0

abbrev first_observation : Observation
first_observation = record { capture_seq = 1; hook = "on_session_start"; content = kwargs }

-- The bridge that holds one observation.
abbrev one : HookBridge
one = record fresh {
  queue = first_observation ∷ [];
  health = record fresh.health { last_capture_seq = 1 };
  next_capture_seq = 2;
  ever_had_capture = true;
}

captured_one : (capture_atomic keep fresh no_fault "on_session_start" kwargs) ≡ (one, true)
unfolding bridge_evaluation
captured_one = refl

fresh-IsStream : IsStream 1 fresh
fresh-IsStream = fresh-Run-IsStream keep print "bridge-1" 2 1 fresh (omega arith) Run.stop

one-Run : Run keep print 1 fresh 1 one
unfolding bridge_evaluation
one-Run = Run.next (Step.captures no_fault "on_session_start" kwargs) Run.stop

fresh-Run-IsStream_example : IsStream 1 one
fresh-Run-IsStream_example = fresh-Run-IsStream keep print "bridge-1" 2 1 one (omega arith) one-Run

one-IsStream : IsStream 1 one
one-IsStream = fresh-Run-IsStream keep print "bridge-1" 2 1 one (omega arith) one-Run

abbrev sent : HookBridge
sent = record one { queue = []; retained = some (observation first_observation) }

selected_one : select_next_record one ≡ ok sent
unfolding bridge_evaluation
selected_one = refl

-- The worker has taken the head of the queue, and not yet the lock.
abbrev polled_one : HookBridge
polled_one = record one { queue = []; queue_head = some first_observation }

polled-IsStream : IsStream 1 polled_one
unfolding bridge_evaluation
polled-IsStream =
    Keeps-IsStream 1 one polled_one one-IsStream (poll_queue-Keeps one one-IsStream.consistent) refl

chosen_one : choose_record polled_one ≡ ok sent
unfolding bridge_evaluation
chosen_one = refl

choose_record-Selects_example : IsStream 1 sent × Selects 1 sent
choose_record-Selects_example =
    choose_record-Selects 1 polled_one polled-IsStream (λ e f. refl) chosen_one

capture_atomic-Captures_example : Captures fresh one true
unfolding bridge_evaluation
capture_atomic-Captures_example =
    capture_atomic-Captures keep fresh no_fault "on_session_start" kwargs fresh-IsStream.consistent

select_next_record_ok_example : is_ok (select_next_record one) ≡ true
unfolding bridge_evaluation
select_next_record_ok_example = select_next_record_ok one (one-IsStream.consistent)

-- A reservation of the numbers 2 to 4 as a gap.
abbrev lost : Reservation
lost = record {
  hook = none;
  detached_kwargs = none;
  first_capture_seq = num (non_negative 2);
  last_capture_seq = num (non_negative 4);
  gap_cause_counts =
      some
        (field "shutdown" (num (non_negative 1)) (field "queue_full" (num (non_negative 2)) end));
  copy_stats = end;
}

-- One observation and the gap.
abbrev two : HookBridge
two = record one {
  gap_spans =
      record {
        first_capture_seq = 2;
        last_capture_seq = 4;
        cause_counts = ("shutdown", 1) ∷ ("queue_full", 2) ∷ [];
      }
      ∷ [];
  health = record one.health {
    trace_complete = false;
    dropped_events = 3;
    pending_gap_ranges = 1;
    last_capture_seq = 4;
  };
  next_capture_seq = 5;
  last_bootstrap_reservation = some (record {
    first_capture_seq = 2;
    last_capture_seq = 4;
    hook = none;
    detached_kwargs = none;
    gap_cause_counts = some (("queue_full", 2) ∷ ("shutdown", 1) ∷ []);
    copy_stats = no_stats;
    disposition = accepted;
  });
}

reserved_two : capture_reserved keep no_fault one lost ≡ ok (two, accepted)
unfolding bridge_evaluation
reserved_two = refl

-- The worker has sent the observation meanwhile.
abbrev two_later : HookBridge
two_later = record two { queue = [] }

capture_reserved_again_example :
    capture_reserved keep raised_before two_later lost ≡ ok (two_later, accepted)
capture_reserved_again_example =
    capture_reserved_again keep keep no_fault raised_before one lost two two_later accepted
      reserved_two refl refl

abbrev frame : Frame
frame = record {
  brain_id = "brain-1";
  state_sequence = 7;
  through_capture_seq = 1;
  trace_complete = true;
  projected_at_state_sequence = 7;
  stream_connection = "connected";
  scheduler_sample = "not_sampled";
}

abbrev ack : Ack
ack = record {
  record_fingerprint = "fingerprint";
  through_capture_seq = 1;
  last_event_sequence = 7;
  frame = frame;
}

-- The bridge that is connected, with the observation retained.
abbrev ready : HookBridge
ready = record sent { binding = some "binding-1"; brain_id = some "brain-1" }

ready-IsStream : IsStream 1 ready
ready-IsStream =
    Same-IsStream 1 sent ready
      (connection-Same sent (some "binding-1") none false false false none 0 (some "brain-1"))
      (select_next_record-Selects 1 one one-IsStream selected_one).0

committed_one :
    (commit_retained print ready (observation first_observation) (replied ack) "bridge-2").1 ≡ true
unfolding bridge_evaluation
committed_one = refl

commit_retained-IsStream_example :
    IsStream 2
      (commit_retained print ready (observation first_observation) (replied ack) "bridge-2").0
unfolding bridge_evaluation
commit_retained-IsStream_example =
    commit_retained-IsStream print 1 ready (observation first_observation) (replied ack) "bridge-2"
      ready-IsStream refl

abbrev idle : HookBridge
idle = (commit_retained print ready (observation first_observation) (replied ack) "bridge-2").0

idle-IsStream : IsStream 2 idle
unfolding bridge_evaluation
idle-IsStream =
    commit_retained-IsStream print 1 ready (observation first_observation) (replied ack) "bridge-2"
      ready-IsStream refl

seal_close_if_ready-Seals_example : Seals 2 idle (seal_close_if_ready idle).0
unfolding bridge_evaluation
seal_close_if_ready-Seals_example = seal_close_if_ready-Seals 2 idle idle-IsStream refl refl

rotate_abandoned_stream-Accounts_example :
    (rotate_abandoned_stream ready "bridge-2").health.last_abandonment ≡ some (audit_of ready)
    × Accounts 1 ready (audit_of ready)
rotate_abandoned_stream-Accounts_example =
    rotate_abandoned_stream-Accounts 1 ready "bridge-2" ready-IsStream refl

-- Two callbacks between the steps of the worker: it finds the queue empty, an observation is captured as number 1 and
-- one of another schema becomes a gap at 2, and the worker then chooses the gap while number 1 waits.
abbrev overtaken : HookBridge
overtaken =
    (capture_atomic keep
      (capture_atomic keep (poll_queue fresh) no_fault "on_session_start" kwargs).0 no_fault
      "on_session_start" end).0

abbrev retained_after : Result HookBridge → Option BridgeRecord
retained_after (ok b) = b.retained
retained_after (err e) = none

gap_overtakes :
    retained_after (choose_record overtaken)
    ≡ some (
        gap (record {
          bridge_instance_id = "bridge-1";
          first_capture_seq = 2;
          last_capture_seq = 2;
          dropped_count = 1;
          cause_counts = ("invalid_source_schema", 1) ∷ [];
        }))
unfolding bridge_evaluation
gap_overtakes = refl

-- Two gaps that join into one of seventeen causes.
abbrev many_causes : Causes
many_causes =
    ("queue_full", 1)
    ∷ ("detach_failed", 1)
    ∷ ("serialization_failed", 1)
    ∷ ("shutdown", 1)
    ∷ ("fork_reset", 1)
    ∷ ("shape_failed", 1)
    ∷ ("validation_failed", 1)
    ∷ ("invalid_source_schema", 1)
    ∷ ("record_too_large", 1)
    ∷ ("record_too_deep", 1)
    ∷ ("record_too_complex", 1)
    ∷ ("unsupported_value", 1)
    ∷ ("capture_failed", 1)
    ∷ ("callback_internal", 1)
    ∷ ("transport_failed", 1)
    ∷ ("daemon_unavailable", 1)
    ∷ []

abbrev crowded : HookBridge
crowded =
    drop_captures (record (drop_captures fresh 1 16 many_causes) { next_capture_seq = 17 }) 17 17
      (("backpressure", 1) ∷ [])

crowded_fails : select_next_record crowded ≡ err value_error
unfolding bridge_evaluation
crowded_fails = refl
