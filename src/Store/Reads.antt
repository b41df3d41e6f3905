-- ===== src/Store/Reads.antt =====
-- Reads of the event store by the ID of an event (runtime/store.py, get_event and get_event_and_head).
use alice_brain_hermes.Prelude.{
  ℕ, String, Option, none, some, List, [], ◌∷◌, str_eq, if◌then◌else◌, Result, ok, ◌>>=◌, ◌>>◌,
}
use alice_brain_hermes.Ids.{validate_id}
use alice_brain_hermes.Events.{EventEnvelope}
use alice_brain_hermes.Store.{Row, EventStore, Encoding, decode_event}
use alice_brain_hermes.Store.Append.{head_of}

-- `WHERE event_id = ?`, of a column without repeats
abbrev pub find_row : String → List Row → Option Row
find_row id [] = none
find_row id (r ∷ rest) =
    let later = find_row id rest in if str_eq r.event_id id then some r else later

abbrev pub decode_found : Encoding → Option Row → Result (Option EventEnvelope)
decode_found c none = ok none
decode_found c (some r) = do e ← decode_event c r; ok (some e)

-- `get_event`
unfoldable pub get_event : Encoding → EventStore → String → Result (Option EventEnvelope)
get_event c s id = validate_id id >> decode_found c (find_row id s.events)

-- `get_event_and_head`
unfoldable pub get_event_and_head :
    Encoding → EventStore → String → String → Result (Option EventEnvelope × ℕ)
get_event_and_head c s event_id brain_id = do
  validate_id event_id
  validate_id brain_id
  e ← decode_found c (find_row event_id s.events)
  ok (e, head_of s brain_id)
