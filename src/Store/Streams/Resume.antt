-- ===== src/Store/Streams/Resume.antt =====
-- A stream that was disconnected can be resumed where it was.
use mathlib.Core.Path.{subst}
use alice_brain_hermes.Prelude.{
  ℕ, String, ◌≡◌, refl, true, none, some, arith, leb, eq_iff, opt_str_eq, is_none, ok, Result,
  guard, ◌>>◌, >>-eq-ok, guard-eq-ok, value_error,
}
use alice_brain_hermes.Text.{has_length}
use alice_brain_hermes.Ids.{is_canonical_uuid4, validate_id}
use alice_brain_hermes.Bridge.{max_bridge_integer}
use alice_brain_hermes.Store.Streams.{
  validate_provenance, is_token, is_bounded_text, validate_attachment, texts_ok, StreamRow,
  StreamStatus, open_, Binding, stream_ok, status_ok, stream_from_row, is_bound, connected,
  attach_by, attach_bridge_stream, disconnected, disconnect_bridge_stream,
}

-- What is kept of a row that is readable and open.
record IsOpen (r : StreamRow) : Type 0 where
  texts : texts_ok r.bridge_instance_id r.brain_id r.server_actor_id r.server_adapter_id ≡ true
  low : leb 1 r.next_capture_seq ≡ true
  high : leb r.next_capture_seq max_bridge_integer ≡ true
  free : is_none r.closed_final_seq ≡ true

readable_IsOpen : (r : StreamRow) → stream_ok r ≡ true → r.status ≡ open_ → IsOpen r
unfolding stream_ok
readable_IsOpen r v e =
    let status : status_ok r open_ ≡ true = subst (λ s. status_ok r s ≡ true) e (ground arith) in
    record { texts = ground arith; low = ground arith; high = ground arith; free = ground arith }

disconnected_ok :
    (r : StreamRow) (now : ℕ) → IsOpen r → r.status ≡ open_ → stream_ok (disconnected r now) ≡ true
unfolding stream_ok
disconnected_ok r now i e = rw (e, i.texts, i.low, i.high, i.free) (ground arith)

connected_ok :
    (r : StreamRow) (nonce : String) (now : ℕ)
    → IsOpen r
    → r.status ≡ open_
    → has_length 1 512 nonce ≡ true
    → stream_ok (connected r nonce now) ≡ true
unfolding stream_ok
connected_ok r nonce now i e fits = rw (e, fits, i.texts, i.low, i.high, i.free) (ground arith)

attach_by_free :
    (r : StreamRow) (status : StreamStatus) (nonce : String) (now : ℕ)
    → status ≡ open_
    → r.connected_nonce ≡ none
    → stream_ok (connected r nonce now) ≡ true
    → attach_by r status nonce now ≡ ok (connected r nonce now)
unfolding stream_from_row
attach_by_free r open_ nonce now e absent readable = rw (absent, readable) refl
attach_by_free r StreamStatus.clean_closed nonce now e absent readable = cc
attach_by_free r StreamStatus.abandoned nonce now e absent readable = cc

texts-id :
    (r : StreamRow)
    → texts_ok r.bridge_instance_id r.brain_id r.server_actor_id r.server_adapter_id ≡ true
    → is_canonical_uuid4 r.bridge_instance_id ≡ true
unfolding texts_ok
texts-id r h = ground arith

attachment-nonce :
    (p : Binding) (nonce : String)
    → validate_attachment p nonce ≡ ok tt
    → has_length 1 512 nonce ≡ true
unfolding validate_attachment is_bounded_text
attachment-nonce p nonce h =
    let token : Result (Unit {0}) = guard (is_token p.recovery_token) value_error in
    let rest =
      >>-eq-ok (validate_provenance p) (guard (is_bounded_text nonce) value_error >> token) h in
    let (bounded, _) = guard-eq-ok (is_bounded_text nonce) value_error token rest in ground arith

-- An open stream that is connected can be disconnected, and, while its brain exists and its last record fits, whoever has
-- its binding, and gives texts and a token that pass the checks of an attachment, can attach it again with another
-- connection, at the cursor where it was.
pub disconnect-attach :
    (r : StreamRow) (p : Binding) (nonce nonce' : String) (now now' : ℕ)
    → stream_ok r ≡ true
    → r.status ≡ open_
    → r.connected_nonce ≡ some nonce
    → is_bound r p ≡ true
    → validate_attachment p nonce' ≡ ok tt
    → (disconnect_bridge_stream r.bridge_instance_id (some r) nonce now ≡ ok (disconnected r now))
      × (attach_bridge_stream (some (disconnected r now)) p nonce' now' true true
          ≡ ok (connected (disconnected r now) nonce' now'))
      × ((connected (disconnected r now) nonce' now').next_capture_seq ≡ r.next_capture_seq)
unfolding disconnect_bridge_stream attach_bridge_stream stream_from_row validate_id
disconnect-attach r p nonce nonce' now now' v e mine bound checked =
    let i = readable_IsOpen r v e in
    let left = disconnected r now in
    let i' : IsOpen left = record { texts = i.texts; low = i.low; high = i.high; free = i.free } in
    let first = disconnected_ok r now i e in
    let second = connected_ok left nonce' now' i' e (attachment-nonce p nonce' checked) in
    let same : opt_str_eq r.connected_nonce (some nonce) ≡ true =
      rw mine (ground (arith, eq_iff nonce nonce)) in
    let named = texts-id r i.texts in
    (
      rw (named, v, same, first) refl,
      rw (checked, first, bound) (attach_by_free left r.status nonce' now' e refl second),
      refl,
    )
