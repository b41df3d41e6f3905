-- ===== src/Bridge/Exchanges.antt =====
-- What the exchanges with the daemon leave of a stream: a commit that is acknowledged moves its cursor past the record,
-- the daemon's answer that the stream was abandoned starts another one, and nothing else touches what is held.
use alice_brain_hermes.Prelude.{
  ℕ, String, ◌≡◌, refl, ◌∙◌, Bool, true, false, ◌&&◌, Option, none, some, arith,
}
use alice_brain_hermes.Bridge.{Frame, HookBridge}
use alice_brain_hermes.Bridge.Connection.{
  publish_connection, disconnect_client, publish_frame, frame_trace, frame_through,
}
use alice_brain_hermes.Bridge.Edges.{Same, Same-IsHookBridge, Same-held, Same-edge}
use alice_brain_hermes.Bridge.Stream.{IsStream}

pub Same-refl : (b : HookBridge) → Same b b
Same-refl b = record {
  same_queue = refl;
  same_head = refl;
  same_spans = refl;
  same_retained = refl;
  same_sealed = refl;
  same_final = refl;
  same_next = refl;
  same_capacity = refl;
  same_pending = refl;
  same_dropped = refl;
  not_mended = λ h. h;
}

pub Same-trans : (a b c : HookBridge) → Same a b → Same b c → Same a c
Same-trans a b c s t = record {
  same_queue = t.same_queue ∙ s.same_queue;
  same_head = t.same_head ∙ s.same_head;
  same_spans = t.same_spans ∙ s.same_spans;
  same_retained = t.same_retained ∙ s.same_retained;
  same_sealed = t.same_sealed ∙ s.same_sealed;
  same_final = t.same_final ∙ s.same_final;
  same_next = t.same_next ∙ s.same_next;
  same_capacity = t.same_capacity ∙ s.same_capacity;
  same_pending = t.same_pending ∙ s.same_pending;
  same_dropped = t.same_dropped ∙ s.same_dropped;
  not_mended = λ h. s.not_mended (t.not_mended h);
}

pub Same-IsStream : (c : ℕ) (b b' : HookBridge) → Same b b' → IsStream c b → IsStream c b'
Same-IsStream c b b' s i =
    let e = Same-edge b b' s in
    record {
      consistent = Same-IsHookBridge b b' s i.consistent;
      started = i.started;
      reaches = rw e i.reaches;
      holds = λ n. rw (e, Same-held b b' s n) (i.holds n);
      in_turn = rw s.same_retained i.in_turn;
    }

Same-but_trace :
    (b : HookBridge) (trace : Bool) (through : ℕ) (connected : Bool) (error : Option String)
    → (trace ≡ true → b.health.trace_complete ≡ true)
    → Same b (record b {
      health = record b.health {
        connected = connected;
        trace_complete = trace;
        through_capture_seq = through;
        last_error = error;
      };
    })
Same-but_trace b trace through connected error h = record {
  same_queue = refl;
  same_head = refl;
  same_spans = refl;
  same_retained = refl;
  same_sealed = refl;
  same_final = refl;
  same_next = refl;
  same_capacity = refl;
  same_pending = refl;
  same_dropped = refl;
  not_mended = h;
}

pub publish_connection-Same :
    (b : HookBridge) (connected : Bool) (frame : Option Frame) (error : Option String)
    → Same b (publish_connection b connected frame error)
unfolding publish_connection
publish_connection-Same b connected frame error =
    Same-but_trace b (b.health.trace_complete && frame_trace frame)
      (frame_through b.health.through_capture_seq frame) connected error (λ h. ground arith)

-- The fields of the connection alone.
pub connection-Same :
    (b : HookBridge) (binding : Option String) (attached : Option ℕ) (retry attempted stop : Bool)
    (frame : Option Frame) (floor : ℕ) (brain_id : Option String)
    → Same b (record b {
      binding = binding;
      attached_next_capture_seq = attached;
      exact_retry_pending = retry;
      retained_attempted = attempted;
      stop_requested = stop;
      frame = frame;
      brain_state_sequence_floor = floor;
      brain_id = brain_id;
    })
connection-Same b binding attached retry attempted stop frame floor brain_id = record {
  same_queue = refl;
  same_head = refl;
  same_spans = refl;
  same_retained = refl;
  same_sealed = refl;
  same_final = refl;
  same_next = refl;
  same_capacity = refl;
  same_pending = refl;
  same_dropped = refl;
  not_mended = λ h. h;
}

pub attempted-Same : (b : HookBridge) → Same b (record b { retained_attempted = true })
attempted-Same b =
    connection-Same b b.binding b.attached_next_capture_seq b.exact_retry_pending true
      b.stop_requested b.frame b.brain_state_sequence_floor b.brain_id

pub stopped-Same : (b : HookBridge) → Same b (record b { stop_requested = true })
stopped-Same b =
    connection-Same b b.binding b.attached_next_capture_seq b.exact_retry_pending
      b.retained_attempted true b.frame b.brain_state_sequence_floor b.brain_id

pub publish_frame-Same : (b : HookBridge) (f : Frame) → Same b (publish_frame b f)
publish_frame-Same b f =
    connection-Same b b.binding b.attached_next_capture_seq b.exact_retry_pending
      b.retained_attempted b.stop_requested (some f) _ b.brain_id

pub disconnect_client-Same :
    (b : HookBridge) (error : Option String) → Same b (disconnect_client b error)
unfolding disconnect_client
disconnect_client-Same b error =
    Same-trans b _ _
      (connection-Same b none none false b.retained_attempted b.stop_requested b.frame
        b.brain_state_sequence_floor b.brain_id)
      (publish_connection-Same _ false none error)
