-- ===== src/Store/Streams.antt =====
-- The bridge streams of the event store (runtime/store.py and BridgeStreamState of protocol/models.py): the row of one
-- bridge instance, and what attaching, committing, disconnecting, closing, recovering and abandoning do to it. An instant is
-- a number of microseconds, and `now` what the clock gives. What the other tables say is an argument: whether the brain
-- exists, whether the last record fits, and the outcome of the ledger's part of a commit or an abandonment.
pub mod Restart
pub mod Commits
pub mod Continuing
pub mod Life
pub mod Resume
use alice_brain_hermes.Text.{codes, has_length, is_blank}
use alice_brain_hermes.Ids.{is_canonical_uuid4, validate_id}
use alice_brain_hermes.Prelude.{
  all, value_error, ℕ, ◌+◌, ◌-◌, String, Bool, true, false, not, ◌&&◌, ◌||◌, Option, none, some,
  ltb, leb, ◌==◌, str_eq, opt_str_eq, is_none, is_some, if◌then◌else◌, Error, Result, ok, err,
  guard, ledger_integrity, bridge_binding, bridge_closed, bridge_clean_closed, bridge_abandoned,
  capture_sequence_error, capture_gap_required, ◌>>=◌, ◌>>◌,
}
use alice_brain_hermes.Bridge.{max_bridge_integer, max_capture_sequence}

pub data StreamStatus : Type 0 where
  open_ clean_closed abandoned : StreamStatus

pub data Reason : Type 0 where
  connection_eof daemon_restart clean_close grace_abandonment : Reason

-- `disconnected_reason` and `disconnected_at` of a row, either of which may be null
pub record StreamRow : Type 0 where
  pub bridge_instance_id : String
  pub brain_id : String
  pub server_actor_id : String
  pub server_adapter_id : String
  pub recovery_token_digest : String
  pub next_capture_seq : ℕ
  pub status : StreamStatus
  pub connected_nonce : Option String
  pub disconnected_reason : Option Reason
  pub disconnected_at : Option ℕ
  pub last_seen : ℕ
  pub closed_final_seq : Option ℕ

abbrev pub is_resumable : Option Reason → Bool
is_resumable (some connection_eof) = true
is_resumable (some daemon_restart) = true
is_resumable _ = false

abbrev pub is_clean_close : Option Reason → Bool
is_clean_close (some clean_close) = true
is_clean_close _ = false

abbrev pub is_grace_abandonment : Option Reason → Bool
is_grace_abandonment (some grace_abandonment) = true
is_grace_abandonment _ = false

abbrev pub same_presence : Option Reason → Option ℕ → Bool
same_presence none none = true
same_presence (some r) (some t) = true
same_presence none (some t) = false
same_presence (some r) none = false

abbrev pub not_after : Option ℕ → ℕ → Bool
not_after none last_seen = true
not_after (some t) last_seen = leb t last_seen

abbrev pub is_final : Option ℕ → ℕ → Bool
is_final none next = false
is_final (some final) next = final + 1 == next && leb final max_capture_sequence

abbrev pub status_ok : StreamRow → StreamStatus → Bool
status_ok r open_ =
    is_none r.closed_final_seq
    && (if is_some r.connected_nonce
        then is_none r.disconnected_reason
        else is_resumable r.disconnected_reason)
status_ok r clean_closed =
    is_none r.connected_nonce
    && is_clean_close r.disconnected_reason
    && is_final r.closed_final_seq r.next_capture_seq
status_ok r abandoned =
    is_none r.connected_nonce
    && is_grace_abandonment r.disconnected_reason
    && is_none r.closed_final_seq

-- The constraints of the texts
unfoldable pub texts_ok : String → String → String → String → Bool
texts_ok bridge_instance_id brain_id server_actor_id server_adapter_id =
    is_canonical_uuid4 bridge_instance_id
    && is_canonical_uuid4 brain_id
    && is_canonical_uuid4 server_actor_id
    && has_length 1 512 server_adapter_id

abbrev pub nonce_ok : Option String → Bool
nonce_ok none = true
nonce_ok (some nonce) = has_length 1 512 nonce

-- The bounds of `BridgeStreamState` and its `_connection_freshness`
unfoldable pub stream_ok : StreamRow → Bool
unfolding texts_ok
stream_ok r =
    texts_ok r.bridge_instance_id r.brain_id r.server_actor_id r.server_adapter_id
    && nonce_ok r.connected_nonce
    && leb 1 r.next_capture_seq
    && leb r.next_capture_seq max_bridge_integer
    && same_presence r.disconnected_reason r.disconnected_at
    && not_after r.disconnected_at r.last_seen
    && status_ok r r.status

-- `_stream_from_row`
unfoldable pub stream_from_row : StreamRow → Result StreamRow
stream_from_row r = guard (stream_ok r) ledger_integrity >> ok r

abbrev pub found : Option StreamRow → Result StreamRow
found none = err bridge_binding
found (some r) = stream_from_row r

-- `validate_id`, `_bridge_stream_row`, then `_stream_from_row`; the row is that of the ID, if it has one
abbrev pub find_stream : String → Option StreamRow → Result StreamRow
find_stream id row = validate_id id >> found row

-- `_bridge_timestamp`
abbrev pub timestamp : ℕ → ℕ → ℕ
timestamp last_seen now = if ltb now last_seen then last_seen else now

-- The provenance that an attachment or a recovery gives, with its recovery token, and SHA-256.
pub record Binding : Type 0 where
  pub bridge_instance_id : String
  pub brain_id : String
  pub server_actor_id : String
  pub server_adapter_id : String
  pub recovery_token : String
  pub digest : String → String

abbrev is_hex : ℕ → Bool
is_hex n = leb 48 n && leb n 57 || leb 97 n && leb n 102

-- The check of `_bridge_recovery_token_digest`
unfoldable is_token : String → Bool
is_token s = has_length 64 64 s && all is_hex (codes s)

-- `1 <= len(value) <= 512 and value.strip()`
unfoldable pub is_bounded_text : String → Bool
is_bounded_text s = has_length 1 512 s && not (is_blank s)

abbrev pub validate_provenance : Binding → Result (Unit {0})
validate_provenance p = do
  validate_id p.bridge_instance_id
  validate_id p.brain_id
  validate_id p.server_actor_id
  guard (is_bounded_text p.server_adapter_id) value_error

-- The checks of `attach_bridge_stream`, before its transaction.
unfoldable pub validate_attachment : Binding → String → Result (Unit {0})
unfolding is_token is_bounded_text
validate_attachment p nonce = do
  validate_provenance p
  guard (is_bounded_text nonce) value_error
  guard (is_token p.recovery_token) value_error

-- The checks of `recover_bridge_close`.
unfoldable pub validate_recovery : Binding → Result (Unit {0})
unfolding is_token is_bounded_text
validate_recovery p = do validate_provenance p; guard (is_token p.recovery_token) value_error

-- The provenance and the recovery proof are those of the row.
abbrev pub is_bound : StreamRow → Binding → Bool
is_bound r p =
    str_eq r.brain_id p.brain_id
    && str_eq r.server_actor_id p.server_actor_id
    && str_eq r.server_adapter_id p.server_adapter_id
    && str_eq r.recovery_token_digest (p.digest p.recovery_token)

abbrev pub opened : Binding → String → ℕ → StreamRow
opened p nonce now = record {
  bridge_instance_id = p.bridge_instance_id;
  brain_id = p.brain_id;
  server_actor_id = p.server_actor_id;
  server_adapter_id = p.server_adapter_id;
  recovery_token_digest = p.digest p.recovery_token;
  next_capture_seq = 1;
  status = open_;
  connected_nonce = some nonce;
  disconnected_reason = none;
  disconnected_at = none;
  last_seen = now;
  closed_final_seq = none;
}

abbrev pub connected : StreamRow → String → ℕ → StreamRow
connected r nonce now = record r {
  connected_nonce = some nonce;
  disconnected_reason = none;
  disconnected_at = none;
  last_seen = timestamp r.last_seen now;
}

abbrev pub is_free : Option String → String → Bool
is_free none nonce = true
is_free (some other) nonce = str_eq other nonce

-- By the status of the stream that is there.
abbrev pub attach_by : StreamRow → StreamStatus → String → ℕ → Result StreamRow
attach_by r clean_closed nonce now = err bridge_clean_closed
attach_by r abandoned nonce now = err bridge_abandoned
attach_by r open_ nonce now =
    guard (is_free r.connected_nonce nonce) bridge_binding
    >> stream_from_row (connected r nonce now)

abbrev pub resume : Binding → String → ℕ → Bool → StreamRow → Result StreamRow
resume p nonce now tail_fits r = do
  guard tail_fits ledger_integrity
  guard (is_bound r p) bridge_binding
  attach_by r r.status nonce now

abbrev pub attach_row : Option StreamRow → Binding → String → ℕ → Bool → Result StreamRow
attach_row none p nonce now tail_fits = stream_from_row (opened p nonce now)
attach_row (some r) p nonce now tail_fits = stream_from_row r >>= resume p nonce now tail_fits

-- `attach_bridge_stream`
unfoldable pub attach_bridge_stream :
    Option StreamRow → Binding → String → ℕ → Bool → Bool → Result StreamRow
unfolding validate_attachment
attach_bridge_stream row p nonce now brain_exists tail_fits = do
  validate_attachment p nonce
  guard brain_exists bridge_binding
  attach_row row p nonce now tail_fits

abbrev pub is_at : Option ℕ → ℕ → Bool
is_at none final = false
is_at (some n) final = n == final

abbrev pub recover_by : StreamRow → StreamStatus → ℕ → Result StreamRow
recover_by r clean_closed final =
    guard (is_at r.closed_final_seq final) capture_sequence_error >> ok r
recover_by r open_ final = err bridge_closed
recover_by r abandoned final = err bridge_closed

abbrev pub recover_with : Binding → ℕ → StreamRow → Result StreamRow
recover_with p final r = guard (is_bound r p) bridge_binding >> recover_by r r.status final

-- `recover_bridge_close`
unfoldable pub recover_bridge_close : Option StreamRow → Binding → ℕ → Result StreamRow
unfolding validate_recovery
recover_bridge_close row p final =
    validate_recovery p >> (find_stream p.bridge_instance_id row >>= recover_with p final)

abbrev pub disconnected : StreamRow → ℕ → StreamRow
disconnected r now = record r {
  connected_nonce = none;
  disconnected_reason = some connection_eof;
  disconnected_at = some (timestamp r.last_seen now);
  last_seen = timestamp r.last_seen now;
}

abbrev pub disconnect_with : String → ℕ → StreamRow → Result StreamRow
disconnect_with nonce now r =
    stream_from_row (if opt_str_eq r.connected_nonce (some nonce) then disconnected r now else r)

-- `disconnect_bridge_stream`
unfoldable pub disconnect_bridge_stream : String → Option StreamRow → String → ℕ → Result StreamRow
disconnect_bridge_stream id row nonce now = find_stream id row >>= disconnect_with nonce now

abbrev pub is_connection : Option String → StreamRow → Bool
is_connection none r = true
is_connection (some nonce) r = opt_str_eq r.connected_nonce (some nonce)

abbrev pub closed : StreamRow → ℕ → ℕ → StreamRow
closed r final now = record r {
  status = clean_closed;
  connected_nonce = none;
  disconnected_reason = some clean_close;
  disconnected_at = some (timestamp r.last_seen now);
  closed_final_seq = some final;
  last_seen = timestamp r.last_seen now;
}

abbrev pub close_by : StreamRow → StreamStatus → ℕ → ℕ → Result StreamRow
close_by r clean_closed final now =
    guard (is_at r.closed_final_seq final) capture_sequence_error >> ok r
close_by r abandoned final now = err bridge_closed
close_by r open_ final now =
    guard (final + 1 == r.next_capture_seq) capture_sequence_error
    >> stream_from_row (closed r final now)

abbrev pub close_with : ℕ → Option String → ℕ → StreamRow → Result StreamRow
close_with final nonce now r =
    guard (is_connection nonce r) bridge_binding >> close_by r r.status final now

-- `close_bridge_stream`
unfoldable pub close_bridge_stream :
    String → Option StreamRow → ℕ → Option String → ℕ → Result StreamRow
close_bridge_stream id row final nonce now = find_stream id row >>= close_with final nonce now

abbrev pub abandoned_at : StreamRow → ℕ → StreamRow
abandoned_at r now = record r {
  status = abandoned;
  disconnected_reason = some grace_abandonment;
  disconnected_at = some (timestamp r.last_seen now);
  last_seen = timestamp r.last_seen now;
}

abbrev pub is_before : ℕ → Option ℕ → Bool
is_before last_seen none = true
is_before last_seen (some cutoff) = leb last_seen cutoff

abbrev pub abandon_by :
    StreamRow → StreamStatus → Option ℕ → ℕ → Result (Unit {0}) → Result StreamRow
abandon_by r abandoned cutoff now ledger = ok r
abandon_by r clean_closed cutoff now ledger = err bridge_closed
abandon_by r open_ cutoff now ledger = do
  guard (is_none r.connected_nonce) bridge_binding
  guard (is_before r.last_seen cutoff) bridge_binding
  ledger
  stream_from_row (abandoned_at r now)

abbrev pub abandon_with : String → Option ℕ → ℕ → Result (Unit {0}) → StreamRow → Result StreamRow
abandon_with brain_id cutoff now ledger r =
    guard (str_eq r.brain_id brain_id) bridge_binding >> abandon_by r r.status cutoff now ledger

-- `abandon_bridge_stream`, of the stream
unfoldable pub abandon_bridge_stream :
    String → Option StreamRow → String → Option ℕ → ℕ → Result (Unit {0}) → Result StreamRow
abandon_bridge_stream id row brain_id cutoff now ledger =
    find_stream id row >>= abandon_with brain_id cutoff now ledger
