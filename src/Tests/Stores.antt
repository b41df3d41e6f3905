-- ===== src/Tests/Stores.antt =====
-- Runs of the event store.
use alice_brain_hermes.Prelude.{◌≡◌, refl, some, none, [], ◌∷◌, arith, ok, err, integrity_error}
use alice_brain_hermes.Json.{end, field, str, get, get_or, get_elem?}
use alice_brain_hermes.Text.{has_length}
use alice_brain_hermes.Ids.{validate_id, is_canonical_uuid4}
use alice_brain_hermes.Events.{EventEnvelope, validate_fields, revalidated}
use alice_brain_hermes.Store.{NameRow, Encoding, empty_store, decode_event}
use alice_brain_hermes.Store.Append.{
  Appended, append, adopt, adopted, insert, append_event, with_row, with_tables, sequenced,
}
use alice_brain_hermes.Store.Pages.{list_events, iter_pages, iter_events}
use alice_brain_hermes.Store.Registry.{
  name_row, register_name, observe_gap, first_row, one_gap_more,
}
use alice_brain_hermes.Store.Reads.{get_event}
use alice_brain_hermes.Store.Names.{IsRegistry, append_event-IsRegistry}
use alice_brain_hermes.Store.Ledger.{IsStore}
use alice_brain_hermes.Store.Sequence.{append_event-IsStore}
use alice_brain_hermes.Store.Retry.{append_event_again}
use alice_brain_hermes.Store.Delivery.{append_delivers}
use alice_brain_hermes.Tests.Events.{brain, event}

unfoldable store_evaluation : Unit {0}
unfolding has_length validate_id is_canonical_uuid4 validate_fields revalidated decode_event adopt
    insert append_event list_events iter_pages iter_events register_name observe_gap get get_or
    get_elem?
store_evaluation = tt

abbrev plain : Encoding
plain = record { canonical_json = λ e. e.event_id; digest = λ s. s; name_key = λ s. some s }

abbrev created : EventEnvelope
created = event brain "brain.created" end

abbrev first : Appended
first = with_tables (with_row plain empty_store 1 (sequenced created 1)) [] (first_row brain ∷ [])

appended_first : append_event plain empty_store created none ≡ ok first
unfolding store_evaluation
appended_first = refl

empty-IsStore : IsStore plain empty_store
empty-IsStore = record { numbered = λ id. refl; next = λ id. omega arith; decodes = tt }

append_event-IsStore_example : IsStore plain first.store
append_event-IsStore_example =
    append_event-IsStore plain empty_store created none empty-IsStore appended_first

append_event_again_example :
    append_event plain first.store created none ≡ ok (adopted first.store first.stored)
append_event_again_example =
    append_event_again plain empty_store created none first empty-IsStore appended_first

first-IsStore : IsStore plain first.store
first-IsStore = append_event-IsStore plain empty_store created none empty-IsStore appended_first

abbrev second : EventEnvelope
second = record (event brain "trace.gap" end) { event_id = "0f8fad5b-d9cb-469f-a165-70867728950f" }

-- The second event is the gap of a bridge.
abbrev both : Appended
both =
    with_tables (with_row plain first.store 2 (sequenced second 2)) []
      (one_gap_more (first_row brain) ∷ [])

append_delivers_example :
    (append plain first.store second ≡ ok both)
    × (get_event plain both.store second.event_id ≡ ok (some (sequenced second 2)))
    × (iter_events plain both.store brain 1 3 0
        ≡ some (ok (sequenced created 1 ∷ sequenced second 2 ∷ [])))
unfolding store_evaluation
append_delivers_example =
    append_delivers plain first.store second 1 3 0 [] (one_gap_more (first_row brain) ∷ [])
      first-IsStore refl refl refl refl refl refl (omega arith) (omega arith)

-- Another brain's event that takes the name of the first one is refused.
abbrev named_row : NameRow
named_row = record {
  brain_id = "brain-1";
  normalized_name = "alice";
  display_name = "Alice";
  source_event_id = "event-1";
}

abbrev names_again : EventEnvelope
names_again = event brain "identity.named" (field "name" (str "alice") end)

name_clash : register_name plain (named_row ∷ []) names_again ≡ err integrity_error
unfolding store_evaluation
name_clash = refl

-- A brain gives itself a name.
abbrev naming : EventEnvelope
naming = record names_again { event_id = "0f8fad5b-d9cb-469f-a165-70867728950a" }

abbrev after_naming : Appended
after_naming =
    with_tables (with_row plain first.store 2 (sequenced naming 2))
      (name_row naming "alice" "alice" ∷ []) (first_row brain ∷ [])

appended_naming : append_event plain first.store naming none ≡ ok after_naming
unfolding store_evaluation
appended_naming = refl

append_event-IsRegistry_example : IsRegistry after_naming.store.names
append_event-IsRegistry_example =
    append_event-IsRegistry plain first.store naming none
      (record { brains = refl; normalized = refl; sources = refl }) appended_naming
