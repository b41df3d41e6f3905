-- ===== src/Events.antt =====
-- The event envelope and its validation (src/alice_brain_hermes/core/events.py, EventEnvelope).
-- `wall_time` is an instant and whether it carries a time zone; fingerprints are not modelled.
pub mod Validation
use alice_brain_hermes.Prelude.{
  ℕ, String, Bool, true, false, not, ◌&&◌, ◌||◌, Option, none, some, List, [], ◌∷◌, leb, ◌==◌,
  Result, ok, value_error, guard, ◌>>◌,
}
use alice_brain_hermes.Text.{codes, is_blank, has_length}
use alice_brain_hermes.Ids.{validate_id}
use alice_brain_hermes.Json.{Fields}

abbrev pub event_schema_version : ℕ
event_schema_version = 1

pub record WallTime : Type 0 where
  pub microseconds : ℕ
  pub aware : Bool

pub record EventEnvelope : Type 0 where
  pub schema_version : ℕ
  pub event_id : String
  pub event_type : String
  pub brain_id : String
  pub sequence : Option ℕ
  pub wall_time : WallTime
  pub monotonic_ns : ℕ
  pub actor_id : String
  pub adapter_id : Option String
  pub session_id : Option String
  pub turn_id : Option String
  pub action_id : Option String
  pub causation_id : Option String
  pub correlation_id : Option String
  pub payload : Fields

is_lower : ℕ → Bool
is_lower c = leb b'a' c && leb c b'z'

is_tail : List ℕ → Bool
unfolding is_lower
is_tail [] = true
is_tail (c ∷ cs) =
    (is_lower c || (leb b'0' c && leb c b'9') || c == b'_' || c == b'.' || c == b'-') && is_tail cs

-- `^[a-z][a-z0-9_.-]*$`
is_event_type : List ℕ → Bool
unfolding is_tail
is_event_type [] = false
is_event_type (c ∷ cs) = is_lower c && is_tail cs

is_provenance : Option String → Bool
is_provenance none = true
is_provenance (some s) = not (is_blank s) && has_length 0 512 s

is_sequence : Option ℕ → Bool
is_sequence none = true
is_sequence (some n) = leb 1 n

provenance_ok : EventEnvelope → Bool
unfolding is_provenance
provenance_ok e =
    is_provenance e.adapter_id
    && is_provenance e.session_id
    && is_provenance e.turn_id
    && is_provenance e.action_id
    && is_provenance e.causation_id
    && is_provenance e.correlation_id

-- Each field's constraint, in the order of the fields.
unfoldable pub validate_fields : EventEnvelope → Result (Unit {0})
unfolding is_event_type is_sequence provenance_ok
validate_fields e = do
  guard (e.schema_version == event_schema_version) value_error
  validate_id e.event_id
  guard (has_length 1 160 e.event_type && is_event_type (codes e.event_type)) value_error
  validate_id e.brain_id
  guard (is_sequence e.sequence) value_error
  guard e.wall_time.aware value_error
  validate_id e.actor_id
  guard (provenance_ok e) value_error

-- `EventEnvelope.revalidated`
unfoldable pub revalidated : EventEnvelope → Result EventEnvelope
unfolding validate_fields
revalidated e = validate_fields e >> ok e
