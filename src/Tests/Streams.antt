-- ===== src/Tests/Streams.antt =====
-- Runs of the bridge streams.
use alice_brain_hermes.Prelude.{◌≡◌, refl, some, none, String, true, ok, err, value_error}
use alice_brain_hermes.Text.{has_length, is_blank}
use alice_brain_hermes.Ids.{is_canonical_uuid4, validate_id}
use alice_brain_hermes.Store.Streams.{
  validate_attachment, is_bounded_text, texts_ok, StreamRow, Binding, opened, stream_ok,
  stream_from_row, connected, disconnected, attach_bridge_stream, disconnect_bridge_stream,
  close_bridge_stream, closed,
}
use alice_brain_hermes.Store.Streams.Life.{StreamStep, StreamStep-Continues}
use alice_brain_hermes.Store.Streams.Continuing.{Continues}
use alice_brain_hermes.Store.Streams.Resume.{disconnect-attach}

unfoldable stream_evaluation : Unit {0}
unfolding has_length is_blank is_canonical_uuid4 validate_id is_bounded_text validate_attachment
    texts_ok stream_ok stream_from_row attach_bridge_stream disconnect_bridge_stream
    close_bridge_stream
stream_evaluation = tt

-- One ID serves for the stream, its brain and its actor.
abbrev id : String
id = "0f8fad5b-d9cb-469f-a165-70867728950e"

abbrev binding : Binding
binding = record {
  bridge_instance_id = id;
  brain_id = id;
  server_actor_id = id;
  server_adapter_id = "adapter-1";
  recovery_token = "0123456789abcdef0123456789abcdef0123456789abcdef0123456789abcdef";
  digest = λ s. s;
}

abbrev new_stream : StreamRow
new_stream = opened binding "connection-1" 5

new_stream_ok : stream_ok new_stream ≡ true
unfolding stream_evaluation
new_stream_ok = refl

attached_new : attach_bridge_stream none binding "connection-1" 5 true true ≡ ok new_stream
unfolding stream_evaluation
attached_new = refl

closed_new :
    close_bridge_stream id (some new_stream) 0 (some "connection-1") 7 ≡ ok (closed new_stream 0 7)
unfolding stream_evaluation
closed_new = refl

StreamStep-Continues_example : Continues new_stream (closed new_stream 0 7)
StreamStep-Continues_example =
    StreamStep-Continues new_stream new_stream_ok
      (StreamStep.closes id 0 (some "connection-1") 7 closed_new)

checked_again : validate_attachment binding "connection-2" ≡ ok tt
unfolding stream_evaluation
checked_again = refl

-- A blank connection is refused.
blank_connection : attach_bridge_stream none binding " " 5 true true ≡ err value_error
unfolding stream_evaluation
blank_connection = refl

disconnect-attach_example :
    (disconnect_bridge_stream id (some new_stream) "connection-1" 8
      ≡ ok (disconnected new_stream 8))
    × (attach_bridge_stream (some (disconnected new_stream 8)) binding "connection-2" 9 true true
        ≡ ok (connected (disconnected new_stream 8) "connection-2" 9))
    × ((connected (disconnected new_stream 8) "connection-2" 9).next_capture_seq
        ≡ new_stream.next_capture_seq)
disconnect-attach_example =
    disconnect-attach new_stream binding "connection-1" "connection-2" 8 9 new_stream_ok refl refl
      refl checked_again
