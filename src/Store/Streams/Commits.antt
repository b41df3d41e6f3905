-- ===== src/Store/Streams/Commits.antt =====
-- The stream's part of a commit (runtime/store.py, commit_bridge_record).
use alice_brain_hermes.Prelude.{
  ℕ, ◌+◌, String, Bool, true, false, ◌&&◌, Option, none, some, ltb, ◌==◌, str_eq, if◌then◌else◌,
  Error, Result, ok, guard, bridge_binding, bridge_closed, capture_sequence_error,
  capture_gap_required, ◌>>=◌, ◌>>◌,
}
use alice_brain_hermes.Ids.{validate_id}
use alice_brain_hermes.Store.Streams.{
  StreamStatus, StreamRow, find_stream, timestamp, is_connection, open_, clean_closed, abandoned,
}

-- The numbers of a record that is to be committed, whether it is an observation, whether a record with this first number
-- is there and is the same one, and the outcome of the ledger's part.
pub record Commit : Type 0 where
  pub bridge_instance_id : String
  pub brain_id : String
  pub first_capture_seq : ℕ
  pub last_capture_seq : ℕ
  pub is_observation : Bool
  pub stored : Option (Result (Unit {0}))
  pub ledger : Result (Unit {0})

abbrev pub is_open : StreamStatus → Bool
is_open open_ = true
is_open clean_closed = false
is_open abandoned = false

abbrev pub moved : StreamRow → ℕ → ℕ → StreamRow
moved r last now = record r { next_capture_seq = last + 1; last_seen = timestamp r.last_seen now }

abbrev pub gap_or_sequence : Commit → StreamRow → Error
gap_or_sequence k r =
    if k.is_observation && ltb r.next_capture_seq k.first_capture_seq
    then capture_gap_required
    else capture_sequence_error

abbrev pub commit_new : Commit → ℕ → StreamRow → Option (Result (Unit {0})) → Result StreamRow
commit_new k now r (some duplicate) = duplicate >> ok r
commit_new k now r none = do
  guard (k.first_capture_seq == r.next_capture_seq) (gap_or_sequence k r)
  k.ledger
  ok (moved r k.last_capture_seq now)

abbrev pub commit_with : Commit → Option String → ℕ → StreamRow → Result StreamRow
commit_with k nonce now r = do
  guard (str_eq r.brain_id k.brain_id) bridge_binding
  guard (is_open r.status) bridge_closed
  guard (is_connection nonce r) bridge_binding
  commit_new k now r k.stored

-- `commit_bridge_record`, of the row of the stream; the events, spans and records that it writes in the same transaction
-- are `ledger`, and a failure there leaves the row as it was
unfoldable pub commit_bridge_record :
    String → Option StreamRow → Commit → Option String → ℕ → Result StreamRow
commit_bridge_record id row k nonce now = do
  validate_id id
  guard (str_eq k.bridge_instance_id id) bridge_binding
  find_stream id row >>= commit_with k nonce now
