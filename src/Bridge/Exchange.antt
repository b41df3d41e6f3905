-- ===== src/Bridge/Exchange.antt =====
-- The worker's connection to the daemon (hermes/bridge.py): _connect, _close_stream and _recover_clean_close, of which the
-- replies of the client's calls are arguments.
use alice_brain_hermes.Prelude.{
  ℕ, String, Bool, true, false, ◌&&◌, Option, none, some, ◌==◌, str_eq, is_none, if◌then◌else◌,
  Result, ok, err,
}
use alice_brain_hermes.Bridge.{Frame, HookBridge}
use alice_brain_hermes.Bridge.Close.{rotate_abandoned_stream}
use alice_brain_hermes.Bridge.Connection.{
  Attachment, publish_connection, disconnect_client, attach, bind_attachment, or_empty,
}

-- What the bridge checks of a BridgeStreamState.
pub record StreamState : Type 0 where
  pub bridge_instance_id : String
  pub brain_id : String
  pub status : String
  pub closed_final_seq : Option ℕ

abbrev pub is_final : Option ℕ → ℕ → Bool
is_final none final = false
is_final (some n) final = n == final

unfoldable pub is_clean_close : HookBridge → StreamState → String → ℕ → Bool
is_clean_close b s brain_id final =
    str_eq s.bridge_instance_id b.bridge_instance_id
    && str_eq s.brain_id brain_id
    && str_eq s.status "clean_closed"
    && is_final s.closed_final_seq final

-- A call of the client: its result, an error that the daemon names, or another failure.
pub data Reply (A : Type 0) : Type 0 where
  replied : A → Reply A
  rpc_error : String → Reply A
  failed : String → Reply A

abbrev pub error_of : {A : Type 0} → Reply A → String
error_of (replied a) = "DaemonClientError"
error_of (rpc_error code) = code
error_of (failed label) = label

abbrev pub accepted_close :
    HookBridge → Reply StreamState → String → ℕ → HookBridge → HookBridge → HookBridge × Bool
accepted_close b (replied s) brain_id final closed refused =
    if is_clean_close b s brain_id final then (closed, true) else (refused, false)
accepted_close b (rpc_error code) brain_id final closed refused = (refused, false)
accepted_close b (failed label) brain_id final closed refused = (refused, false)

abbrev pub recover_with : HookBridge → Option ℕ → String → Reply StreamState → HookBridge × Bool
recover_with b none brain_id reply = (b, false)
recover_with b (some final) brain_id reply =
    accepted_close b reply brain_id final
      (publish_connection (record b { stop_requested = true }) false none none)
      (publish_connection b false none (some (error_of reply)))

-- `_recover_clean_close`
unfoldable pub recover_clean_close : HookBridge → String → Reply StreamState → HookBridge × Bool
recover_clean_close b brain_id reply = recover_with b b.close_final_capture_seq brain_id reply

abbrev pub close_with : HookBridge → Option ℕ → Reply StreamState → HookBridge × Bool
close_with b none reply = (b, false)
close_with b (some final) reply =
    accepted_close b reply (or_empty b.brain_id) final (record b { stop_requested = true })
      (disconnect_client b (some (error_of reply)))

-- `_close_stream`
unfoldable pub close_stream : HookBridge → Reply StreamState → HookBridge × Bool
close_stream b reply =
    if is_none b.binding then (b, false) else close_with b b.close_final_capture_seq reply

abbrev pub rotated_if_abandoned : HookBridge → String → String → HookBridge
rotated_if_abandoned b code replacement_id =
    if str_eq code "bridge_abandoned" then rotate_abandoned_stream b replacement_id else b

-- The outcome of the calls of `_connect`: `brain.resolve` and `brain.attach` answer and `state.get` is called, or one of
-- them fails. An error of the daemon comes with the brain ID, if it was resolved; the last reply is the one to
-- `bridge.close.recover`.
pub data ConnectReply : Type 0 where
  attaches : Attachment → Reply Frame → Reply StreamState → ConnectReply
  refuses : String → Option String → Reply StreamState → ConnectReply
  fails : String → ConnectReply

abbrev pub connected_with : HookBridge → Frame → Result HookBridge → HookBridge × Bool
connected_with b f (ok b') = (publish_connection b' true (some f) none, true)
connected_with b f (err _) = (publish_connection b false none (some "DaemonClientError"), false)

abbrev pub refused : HookBridge → String → String → HookBridge × Bool
refused b code replacement_id =
    (publish_connection (rotated_if_abandoned b code replacement_id) false none (some code), false)

abbrev pub after_recovery : HookBridge × Bool → String → HookBridge × Bool
after_recovery (recovered, true) code = (recovered, false)
after_recovery (recovered, false) code =
    (publish_connection recovered false none (some code), false)

-- `except DaemonRpcError` of `_connect`
abbrev pub refused_with :
    HookBridge → String → Option String → Reply StreamState → String → HookBridge × Bool
refused_with b code none recovery replacement_id = refused b code replacement_id
refused_with b code (some brain_id) recovery replacement_id =
    if str_eq code "bridge_clean_closed" && b.close_requested
    then after_recovery (recover_clean_close b brain_id recovery) code
    else refused b code replacement_id

-- What follows `state.get`, when the cursor was bound.
abbrev pub framed :
    HookBridge → Attachment → Bool → Reply Frame → Reply StreamState → String → HookBridge × Bool
framed b a retry (replied f) recovery replacement_id = connected_with b f (attach b a f retry)
framed b a retry (rpc_error code) recovery replacement_id =
    refused_with b code (some a.resolved_brain_id) recovery replacement_id
framed b a retry (failed label) recovery replacement_id =
    (publish_connection b false none (some label), false)

abbrev pub bound_with :
    HookBridge
    → Attachment
    → Reply Frame
    → Reply StreamState
    → String
    → Result (Bool × Bool)
    → HookBridge × Bool
bound_with b a frame recovery replacement_id (err _) =
    (publish_connection b false none (some "DaemonClientError"), false)
bound_with b a frame recovery replacement_id (ok (retry, attempted)) =
    framed (record b { retained_attempted = attempted }) a retry frame recovery replacement_id

-- `_connect`, with the instance ID that a rotation would take
unfoldable pub connect : HookBridge → ConnectReply → String → HookBridge × Bool
connect b (attaches a frame recovery) replacement_id =
    bound_with b a frame recovery replacement_id (bind_attachment b a)
connect b (refuses code brain_id recovery) replacement_id =
    refused_with b code brain_id recovery replacement_id
connect b (fails label) replacement_id = (publish_connection b false none (some label), false)
