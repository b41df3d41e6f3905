-- ===== src/Bridge/Commit.antt =====
-- The worker's commits (hermes/bridge.py): _commit_retained and _refresh_frame. The fingerprint of a record (SHA-256) is a
-- parameter.
use alice_brain_hermes.Prelude.{
  ℕ, Option, ◌+◌, String, Bool, true, false, ◌&&◌, none, some, ◌==◌, str_eq, is_none, length,
  if◌then◌else◌, Result, ok, err, value_error, guard, ◌>>=◌, ◌>>◌,
}
use alice_brain_hermes.Bridge.{BridgeRecord, Frame, HookBridge}
use alice_brain_hermes.Bridge.Gaps.{is_gap}
use alice_brain_hermes.Bridge.Close.{last_of}
use alice_brain_hermes.Bridge.Connection.{
  publish_connection, disconnect_client, validate_connected_frame, publish_frame, same_brain,
  or_empty,
}
use alice_brain_hermes.Bridge.Exchange.{Reply, replied, rpc_error, failed, rotated_if_abandoned}

-- What the bridge reads of a BridgeCommitAckV2, whose `duplicate` is false.
pub record Ack : Type 0 where
  pub record_fingerprint : String
  pub through_capture_seq : ℕ
  pub last_event_sequence : ℕ
  pub frame : Frame

module _ (fingerprint : BridgeRecord → String) where
  unfoldable pub ack_binds : HookBridge → BridgeRecord → Ack → Bool
  ack_binds b r a =
      str_eq a.record_fingerprint (fingerprint r)
      && a.through_capture_seq == last_of r
      && a.frame.through_capture_seq == last_of r
      && same_brain b.brain_id a.frame.brain_id
      && a.last_event_sequence == a.frame.state_sequence
      && a.frame.projected_at_state_sequence == a.last_event_sequence
      && str_eq a.frame.stream_connection "connected"
      && str_eq a.frame.scheduler_sample "not_sampled"

  -- The frame that is published after the acknowledgement.
  abbrev pub effective_frame : HookBridge → Frame → Bool → Result Frame
  effective_frame b f false = ok f
  effective_frame b f true = elim b.frame [ none ↦ err value_error | some current ↦ ok current ]

  abbrev pub published_unless : HookBridge → Frame → Bool → HookBridge
  published_unless b f historical = if historical then b else publish_frame b f

  abbrev pub pending_after : HookBridge → BridgeRecord → ℕ
  pending_after b r = if is_gap (some r) then length b.gap_spans else b.health.pending_gap_ranges

  -- The record leaves the bridge.
  abbrev pub settled : HookBridge → BridgeRecord → HookBridge
  settled b r = record b {
    retained = none;
    retained_attempted = false;
    exact_retry_pending = false;
    attached_next_capture_seq = some (last_of r + 1);
    health = record b.health { pending_gap_ranges = pending_after b r };
  }

  abbrev pub published : HookBridge → BridgeRecord → Ack → Bool → Frame → Result HookBridge
  published b r a historical effective = ok (
      publish_connection (settled (published_unless b a.frame historical) r) true (some effective)
        none)

  abbrev pub acknowledged_as : HookBridge → BridgeRecord → Ack → Bool → Result HookBridge
  acknowledged_as b r a historical =
      effective_frame b a.frame historical >>= published b r a historical

  unfoldable pub acknowledge : HookBridge → BridgeRecord → Ack → Result HookBridge
  acknowledge b r a = do
    guard (ack_binds b r a) value_error
    historical ←
        validate_connected_frame b a.frame (or_empty b.brain_id) (some (last_of r)) none
          b.exact_retry_pending
    acknowledged_as b r a historical

  abbrev pub acknowledged : HookBridge → Result HookBridge → HookBridge × Bool
  acknowledged b (ok b') = (b', true)
  acknowledged b (err _) = (disconnect_client b (some "DaemonClientError"), false)

  abbrev pub answered : HookBridge → BridgeRecord → Reply Ack → String → HookBridge × Bool
  answered b r (replied a) replacement_id = acknowledged b (acknowledge b r a)
  answered b r (rpc_error code) replacement_id =
      (disconnect_client (rotated_if_abandoned b code replacement_id) (some code), false)
  answered b r (failed label) replacement_id = (disconnect_client b (some label), false)

  -- `_commit_retained`
  unfoldable pub commit_retained :
      HookBridge → BridgeRecord → Reply Ack → String → HookBridge × Bool
  commit_retained b r reply replacement_id =
      let sent = answered (record b { retained_attempted = true }) r reply replacement_id in
      if is_none b.binding then (b, false) else sent

abbrev pub refreshed_with : HookBridge → Frame → Result Bool → HookBridge × Bool
refreshed_with b f (ok _) = (publish_connection (publish_frame b f) true (some f) none, true)
refreshed_with b f (err _) = (disconnect_client b (some "DaemonClientError"), false)

abbrev pub refreshed : HookBridge → String → Reply Frame → String → HookBridge × Bool
refreshed b brain_id (replied f) replacement_id =
    refreshed_with b f (validate_connected_frame b f brain_id none none false)
refreshed b brain_id (rpc_error code) replacement_id =
    (disconnect_client (rotated_if_abandoned b code replacement_id) (some code), false)
refreshed b brain_id (failed label) replacement_id = (disconnect_client b (some label), false)

abbrev pub refreshed_if : HookBridge → Option String → Reply Frame → String → HookBridge × Bool
refreshed_if b none reply replacement_id = (b, false)
refreshed_if b (some brain_id) reply replacement_id =
    let sent = refreshed b brain_id reply replacement_id in
    if is_none b.binding then (b, false) else sent

-- `_refresh_frame`
unfoldable pub refresh_frame : HookBridge → Reply Frame → String → HookBridge × Bool
refresh_frame b reply replacement_id = refreshed_if b b.brain_id reply replacement_id
