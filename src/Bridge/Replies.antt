-- ===== src/Bridge/Replies.antt =====
-- What connecting, refreshing the frame and closing leave of a stream.
use alice_brain_hermes.Prelude.{
  ℕ, ◌≤◌, String, ◌≡◌, refl, inl, inr, Bool, true, false, ◌&&◌, Option, none, some, is_some,
  is_none, arith, str_eq, eq_iff, Bool-cases, ok, err, Result, if◌then◌else◌,
}
use alice_brain_hermes.Bridge.{Frame, HookBridge}
use alice_brain_hermes.Bridge.Close.{rotate_abandoned_stream}
use alice_brain_hermes.Bridge.Connection.{
  Attachment, publish_frame, bind_attachment, validate_connected_frame,
}
use alice_brain_hermes.Bridge.Exchange.{
  Reply, StreamState, replied, rpc_error, failed, recover_clean_close, ConnectReply, attaches,
  refuses, fails, refused, refused_with, framed, bound_with, connect,
}
use alice_brain_hermes.Bridge.Commit.{refreshed_with, refreshed, refreshed_if, refresh_frame}
use alice_brain_hermes.Bridge.Edges.{Same}
use alice_brain_hermes.Bridge.Stream.{IsStream}
use alice_brain_hermes.Bridge.Exchanges.{
  Same-refl, Same-trans, Same-IsStream, publish_connection-Same, connection-Same,
  publish_frame-Same, disconnect_client-Same,
}
use alice_brain_hermes.Bridge.Commits.{is_abandoned, Leaves, Leaves-IsStream, rotated-Leaves}
use alice_brain_hermes.Bridge.Settling.{rotate-IsStream}
use alice_brain_hermes.Bridge.Unchanged.{
  recover_with-Same, after_recovery-Same, connected_with-Same,
}

refused-Leaves :
    (b0 b : HookBridge) (code id : String)
    → Same b0 b
    → 1 ≤ b.queue_capacity
    → Leaves (str_eq code "bridge_abandoned") b0 (refused b code id).0
refused-Leaves b0 b code id s room = elim (Bool-cases (str_eq code "bridge_abandoned")) [
  | inl abandoned ↦
      let other = rotate_abandoned_stream b id in
      rw abandoned (
        Same-IsStream 1 other _ (publish_connection-Same other false none (some code))
          (rotate-IsStream b id room))
  | inr other ↦ rw other (Same-trans b0 b _ s (publish_connection-Same b false none (some code)))
]

-- A stream that is closed is not abandoned.
not_abandoned :
    (code : String)
    → str_eq code "bridge_clean_closed" ≡ true
    → str_eq code "bridge_abandoned" ≡ false
not_abandoned code h = let e = (eq_iff code "bridge_clean_closed").0 h in rw e refl

refused_with-Leaves :
    (b0 b : HookBridge) (code : String) (brain_id : Option String) (recovery : Reply StreamState)
    (id : String)
    → Same b0 b
    → 1 ≤ b.queue_capacity
    → Leaves (str_eq code "bridge_abandoned") b0 (refused_with b code brain_id recovery id).0
unfolding recover_clean_close
refused_with-Leaves b0 b code none recovery id s room = refused-Leaves b0 b code id s room
refused_with-Leaves b0 b code (some brain_id) recovery id s room =
    elim (Bool-cases (str_eq code "bridge_clean_closed" && b.close_requested)) [
      | inl closed ↦
          let recovered = recover_clean_close b brain_id recovery in
          let other = not_abandoned code (ground arith) in
          rw (closed, other)
            (Same-trans b0 b _ s (
              after_recovery-Same b recovered code
                (recover_with-Same b b.close_final_capture_seq brain_id recovery)))
      | inr open_ ↦ rw open_ (refused-Leaves b0 b code id s room)
    ]

framed-Leaves :
    (b0 b : HookBridge) (a : Attachment) (retry : Bool) (frame : Reply Frame)
    (recovery : Reply StreamState) (id : String)
    → Same b0 b
    → 1 ≤ b.queue_capacity
    → Leaves (is_abandoned frame) b0 (framed b a retry frame recovery id).0
framed-Leaves b0 b a retry (replied f) recovery id s room =
    Same-trans b0 b _ s (connected_with-Same b a f retry)
framed-Leaves b0 b a retry (rpc_error code) recovery id s room =
    refused_with-Leaves b0 b code (some a.resolved_brain_id) recovery id s room
framed-Leaves b0 b a retry (failed label) recovery id s room =
    Same-trans b0 b _ s (publish_connection-Same b false none (some label))

-- Whether connecting starts another stream.
abbrev bound_abandons : Reply Frame → Result (Bool × Bool) → Bool
bound_abandons frame (ok cursor) = is_abandoned frame
bound_abandons frame (err _) = false

abbrev pub connect_abandons : HookBridge → ConnectReply → Bool
connect_abandons b (attaches a frame recovery) = bound_abandons frame (bind_attachment b a)
connect_abandons b (refuses code brain_id recovery) = str_eq code "bridge_abandoned"
connect_abandons b (fails label) = false

bound_with-Leaves :
    (b : HookBridge) (a : Attachment) (frame : Reply Frame) (recovery : Reply StreamState)
    (id : String) (m : Result (Bool × Bool))
    → 1 ≤ b.queue_capacity
    → Leaves (bound_abandons frame m) b (bound_with b a frame recovery id m).0
bound_with-Leaves b a frame recovery id (err _) room =
    publish_connection-Same b false none (some "DaemonClientError")
bound_with-Leaves b a frame recovery id (ok (retry, attempted)) room =
    framed-Leaves b (record b { retained_attempted = attempted }) a retry frame recovery id
      (connection-Same b b.binding b.attached_next_capture_seq b.exact_retry_pending attempted
        b.stop_requested b.frame b.brain_state_sequence_floor b.brain_id)
      room

connect-Leaves :
    (b : HookBridge) (reply : ConnectReply) (id : String)
    → 1 ≤ b.queue_capacity
    → Leaves (connect_abandons b reply) b (connect b reply id).0
unfolding connect
connect-Leaves b (attaches a frame recovery) id room =
    bound_with-Leaves b a frame recovery id (bind_attachment b a) room
connect-Leaves b (refuses code brain_id recovery) id room =
    refused_with-Leaves b b code brain_id recovery id (Same-refl b) room
connect-Leaves b (fails label) id room = publish_connection-Same b false none (some label)

pub connect-IsStream :
    (c : ℕ) (b : HookBridge) (reply : ConnectReply) (id : String)
    → IsStream c b
    → IsStream (if connect_abandons b reply then 1 else c) (connect b reply id).0
connect-IsStream c b reply id i =
    let v = i.consistent in
    Leaves-IsStream c (connect_abandons b reply) b _ i (connect-Leaves b reply id v.sized)

refreshed_with-Same :
    (b : HookBridge) (f : Frame) (m : Result Bool) → Same b (refreshed_with b f m).0
refreshed_with-Same b f (ok _) =
    Same-trans b (publish_frame b f) _ (publish_frame-Same b f)
      (publish_connection-Same (publish_frame b f) true (some f) none)
refreshed_with-Same b f (err _) = disconnect_client-Same b (some "DaemonClientError")

refreshed-Leaves :
    (b : HookBridge) (brain_id : String) (reply : Reply Frame) (id : String)
    → 1 ≤ b.queue_capacity
    → Leaves (is_abandoned reply) b (refreshed b brain_id reply id).0
refreshed-Leaves b brain_id (replied f) id room =
    refreshed_with-Same b f (validate_connected_frame b f brain_id none none false)
refreshed-Leaves b brain_id (rpc_error code) id room =
    rotated-Leaves b b code id (some code) (Same-refl b) room
refreshed-Leaves b brain_id (failed label) id room = disconnect_client-Same b (some label)

-- Whether refreshing the frame starts another stream.
abbrev pub refresh_abandons : HookBridge → Reply Frame → Bool
refresh_abandons b reply = is_some b.brain_id && (is_some b.binding && is_abandoned reply)

refreshed_if-Leaves :
    (b : HookBridge) (brain_id : Option String) (reply : Reply Frame) (id : String)
    → 1 ≤ b.queue_capacity
    → Leaves
        (is_some brain_id && (is_some b.binding && is_abandoned reply))
        b
        (refreshed_if b brain_id reply id).0
refreshed_if-Leaves b none reply id room = Same-refl b
refreshed_if-Leaves b (some brain_id) reply id room = elim (Bool-cases (is_none b.binding)) [
  | inl absent ↦ rw absent (Same-refl b)
  | inr present ↦ rw present (refreshed-Leaves b brain_id reply id room)
]

pub refresh_frame-IsStream :
    (c : ℕ) (b : HookBridge) (reply : Reply Frame) (id : String)
    → IsStream c b
    → IsStream (if refresh_abandons b reply then 1 else c) (refresh_frame b reply id).0
unfolding refresh_frame
refresh_frame-IsStream c b reply id i =
    let v = i.consistent in
    Leaves-IsStream c (refresh_abandons b reply) b _ i
      (refreshed_if-Leaves b b.brain_id reply id v.sized)
