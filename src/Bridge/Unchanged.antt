-- ===== src/Bridge/Unchanged.antt =====
-- Requests and replies that leave alone what is held.
use alice_brain_hermes.Prelude.{
  ℕ, ◌-◌, String, refl, inl, inr, Bool, true, false, Option, none, some, is_none, Bool-cases, ok,
  err, ◌>>◌,
}
use alice_brain_hermes.Bridge.{Frame, HookBridge}
use alice_brain_hermes.Bridge.Close.{request_clean_close}
use alice_brain_hermes.Bridge.Connection.{
  Attachment, publish_frame, attach, attached, validate_connected_frame, or_empty,
}
use alice_brain_hermes.Bridge.Exchange.{
  Reply, StreamState, replied, rpc_error, failed, is_clean_close, accepted_close, recover_with,
  close_with, close_stream, connected_with, refused, after_recovery, error_of,
}
use alice_brain_hermes.Bridge.Edges.{Same}
use alice_brain_hermes.Bridge.Exchanges.{
  Same-refl, Same-trans, publish_connection-Same, connection-Same, stopped-Same, publish_frame-Same,
  disconnect_client-Same,
}

pub request_clean_close-Same : (b : HookBridge) → Same b (request_clean_close b)
unfolding request_clean_close
request_clean_close-Same b = record {
  same_queue = refl;
  same_head = refl;
  same_spans = refl;
  same_retained = refl;
  same_sealed = refl;
  same_final = refl;
  same_next = refl;
  same_capacity = refl;
  same_pending = refl;
  same_dropped = refl;
  not_mended = λ h. h;
}

pub accepted_close-Same :
    (b0 b : HookBridge) (reply : Reply StreamState) (brain_id : String) (final : ℕ)
    (closed refused : HookBridge)
    → Same b0 closed
    → Same b0 refused
    → Same b0 (accepted_close b reply brain_id final closed refused).0
accepted_close-Same b0 b (replied s) brain_id final closed refused c r =
    elim (Bool-cases (is_clean_close b s brain_id final)) [
      | inl good ↦ rw good c
      | inr bad ↦ rw bad r
    ]
accepted_close-Same b0 b (rpc_error code) brain_id final closed refused c r = r
accepted_close-Same b0 b (failed label) brain_id final closed refused c r = r

pub recover_with-Same :
    (b : HookBridge) (final : Option ℕ) (brain_id : String) (reply : Reply StreamState)
    → Same b (recover_with b final brain_id reply).0
recover_with-Same b none brain_id reply = Same-refl b
recover_with-Same b (some final) brain_id reply =
    let stopped : HookBridge = record b { stop_requested = true } in
    accepted_close-Same b b reply brain_id final _ _
      (Same-trans b stopped _ (stopped-Same b) (publish_connection-Same stopped false none none))
      (publish_connection-Same b false none (some (error_of reply)))

pub close_with-Same :
    (b : HookBridge) (final : Option ℕ) (reply : Reply StreamState)
    → Same b (close_with b final reply).0
close_with-Same b none reply = Same-refl b
close_with-Same b (some final) reply =
    accepted_close-Same b b reply (or_empty b.brain_id) final _ _ (stopped-Same b)
      (disconnect_client-Same b (some (error_of reply)))

pub close_stream-Same :
    (b : HookBridge) (reply : Reply StreamState) → Same b (close_stream b reply).0
unfolding close_stream
close_stream-Same b reply = elim (Bool-cases (is_none b.binding)) [
  | inl absent ↦ rw absent (Same-refl b)
  | inr present ↦ rw present (close_with-Same b b.close_final_capture_seq reply)
]

pub after_recovery-Same :
    (b : HookBridge) (recovered : HookBridge × Bool) (code : String)
    → Same b recovered.0
    → Same b (after_recovery recovered code).0
after_recovery-Same b (recovered, true) code s = s
after_recovery-Same b (recovered, false) code s =
    Same-trans b recovered _ s (publish_connection-Same recovered false none (some code))

pub attached-Same :
    (b : HookBridge) (a : Attachment) (f : Frame) (retry : Bool) → Same b (attached b a f retry)
attached-Same b a f retry = Same-trans b (publish_frame b f) _ (publish_frame-Same b f) (
    connection-Same (publish_frame b f) (some a.binding) (some a.next_capture_seq) retry
      b.retained_attempted b.stop_requested (some f) _ (some a.resolved_brain_id))

pub connected_with-Same :
    (b : HookBridge) (a : Attachment) (f : Frame) (retry : Bool)
    → Same b (connected_with b f (attach b a f retry)).0
unfolding attach
connected_with-Same b a f retry =
    elim (validate_connected_frame b f a.resolved_brain_id (some (a.next_capture_seq - 1))
        (some a.state_sequence) false)
      as (λ m. Same b (connected_with b f (m >> ok (attached b a f retry))).0) [
        | ok _ ↦
            Same-trans b (attached b a f retry) _ (attached-Same b a f retry)
              (publish_connection-Same (attached b a f retry) true (some f) none)
        | err _ ↦ publish_connection-Same b false none (some "DaemonClientError")
      ]
