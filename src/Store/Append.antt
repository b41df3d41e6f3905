-- ===== src/Store/Append.antt =====
-- append and append_expected of the event store (runtime/store.py, _append).
use alice_brain_hermes.Prelude.{
  ℕ, ◌+◌, String, Bool, true, false, not, ◌&&◌, ◌||◌, Option, none, some, List, [], ◌∷◌, ◌++◌, leb,
  ◌==◌, str_eq, is_none, if◌then◌else◌, Error, Result, ok, err, value_error, guard,
  ledger_integrity, event_conflict, expected_sequence_error, ◌>>=◌, ◌>>◌,
}
use alice_brain_hermes.Events.{EventEnvelope, revalidated}
use alice_brain_hermes.Store.Registry.{register_name, observe_gap, ensure_observability}
use alice_brain_hermes.Store.{
  NameRow, Observability, Row, EventStore, Encoding, body_json, body_fingerprint,
  envelope_fingerprint, decode_event, of_brain, max_sequence, next_sequence_of, ensure_brain,
  set_next_sequence,
}

-- `WHERE event_id = ? OR body_fingerprint = ?`
abbrev pub matching : String → String → List Row → List Row
matching id fingerprint [] = []
matching id fingerprint (r ∷ rest) =
    let more = matching id fingerprint rest in
    if str_eq r.event_id id || str_eq r.body_fingerprint fingerprint then r ∷ more else more

abbrev pub head_of : EventStore → String → ℕ
head_of s id = max_sequence (of_brain id s.events)

-- An append gives the stored event, and whether it was inserted.
pub record Appended : Type 0 where
  pub store : EventStore
  pub stored : EventEnvelope
  pub inserted : Bool

-- `expected_sequence is not None and head != expected_sequence - 1`
abbrev pub is_stale : EventStore → EventEnvelope → Option ℕ → Bool
is_stale s e none = false
is_stale s e (some expected) = not (head_of s e.brain_id + 1 == expected)

-- `expected_sequence is not None and (stored.sequence != expected_sequence or head != expected_sequence)`
abbrev pub is_elsewhere : EventStore → EventEnvelope → Row → Option ℕ → Bool
is_elsewhere s e r none = false
is_elsewhere s e r (some expected) =
    not (r.sequence == expected) || not (head_of s e.brain_id == expected)

abbrev pub disagrees : Option ℕ → ℕ → Bool
disagrees none n = false
disagrees (some m) n = not (m == n)

abbrev pub is_same_body : Encoding → Row → EventEnvelope → Bool
is_same_body c r e =
    str_eq r.body_fingerprint (body_fingerprint c e)
    && str_eq (body_json c r.envelope) (body_json c e)

abbrev pub conflict : Bool → Error
conflict true = expected_sequence_error
conflict false = event_conflict

abbrev pub adopted : EventStore → EventEnvelope → Appended
adopted s stored = record { store = s; stored = stored; inserted = false }

-- The event that is there already.
unfoldable pub adopt : Encoding → EventStore → EventEnvelope → Option ℕ → Row → Result Appended
adopt c s e expected r = do
  stored ← decode_event c r
  guard (is_same_body c r e) (conflict (is_stale s e expected))
  guard (not (disagrees e.sequence r.sequence)) event_conflict
  guard (not (is_elsewhere s e r expected)) expected_sequence_error
  ok (adopted s stored)

abbrev pub row_of : Encoding → EventEnvelope → ℕ → Row
row_of c stored n = record {
  brain_id = stored.brain_id;
  sequence = n;
  event_id = stored.event_id;
  body_fingerprint = body_fingerprint c stored;
  envelope_fingerprint = envelope_fingerprint c stored;
  envelope = stored;
}

abbrev pub or_one : Option ℕ → ℕ
or_one none = 1
or_one (some n) = n

-- `SELECT next_sequence` after the row of the brain is ensured
abbrev pub allocated : EventStore → String → ℕ
allocated s id = or_one (next_sequence_of id (ensure_brain id s.brains))

abbrev pub differs : Option ℕ → ℕ → Bool
differs none n = false
differs (some expected) n = not (n == expected)

abbrev pub sequenced : EventEnvelope → ℕ → EventEnvelope
sequenced e n = record e { sequence = some n }

abbrev pub with_row : Encoding → EventStore → ℕ → EventEnvelope → Appended
with_row c s n stored = record {
  store = record s {
    brains = set_next_sequence stored.brain_id (n + 1) (ensure_brain stored.brain_id s.brains);
    events = s.events ++ row_of c stored n ∷ [];
  };
  stored = stored;
  inserted = true;
}

-- The tables beside the events, as they are left.
abbrev pub with_tables : Appended → List NameRow → List Observability → Appended
with_tables a names rows = record a {
  store = record a.store { names = names; observability = rows };
}

-- A new event takes the next sequence of its brain.
unfoldable pub insert : Encoding → EventStore → EventEnvelope → Option ℕ → Result Appended
insert c s e expected = do
  guard (is_none e.sequence) value_error
  guard (not (differs expected (allocated s e.brain_id))) expected_sequence_error
  stored ← revalidated (sequenced e (allocated s e.brain_id))
  names ← register_name c s.names stored
  rows ← observe_gap (ensure_observability e.brain_id s.observability) stored
  ok (with_tables (with_row c s (allocated s e.brain_id) stored) names rows)

abbrev pub resolve : Encoding → EventStore → EventEnvelope → Option ℕ → List Row → Result Appended
resolve c s e expected [] = insert c s e expected
resolve c s e expected (r ∷ []) = adopt c s e expected r
resolve c s e expected (r ∷ other ∷ rest) = err ledger_integrity

-- `_append`
unfoldable pub append_event : Encoding → EventStore → EventEnvelope → Option ℕ → Result Appended
append_event c s event expected = do
  e ← revalidated event
  resolve c s e expected (matching e.event_id (body_fingerprint c e) s.events)

-- `append`
abbrev pub append : Encoding → EventStore → EventEnvelope → Result Appended
append c s event = append_event c s event none

-- `append_expected`
abbrev pub append_expected : Encoding → EventStore → EventEnvelope → ℕ → Result Appended
append_expected c s event expected =
    guard (leb 1 expected) value_error >> append_event c s event (some expected)
