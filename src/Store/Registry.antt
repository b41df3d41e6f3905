-- ===== src/Store/Registry.antt =====
-- The tables that an append fills beside the events (runtime/store.py): the registry of identity names, in which no two
-- brains have the same normalized name, and the counters of observability.
use alice_brain_hermes.Prelude.{
  ◌+◌, String, Bool, true, false, not, ◌&&◌, ◌||◌, Option, none, some, List, [], ◌∷◌, leb, str_eq,
  if◌then◌else◌, Result, ok, err, guard, value_error, type_error, integrity_error, ledger_integrity,
  domain_capacity, ◌>>=◌, ◌>>◌,
}
use alice_brain_hermes.Json.{Json, null, str, get}
use alice_brain_hermes.Bridge.{max_bridge_integer}
use alice_brain_hermes.Events.{EventEnvelope}
use alice_brain_hermes.Store.{NameRow, Observability, Encoding}

-- A row of another brain that has the normalized name or the source event.
abbrev pub clashes : NameRow → List NameRow → Bool
clashes row [] = false
clashes row (r ∷ rest) =
    let later = clashes row rest in
    (not (str_eq r.brain_id row.brain_id)
      && (str_eq r.normalized_name row.normalized_name
          || str_eq r.source_event_id row.source_event_id))
    || later

-- `INSERT … ON CONFLICT(brain_id) DO UPDATE`
abbrev pub put_name : NameRow → List NameRow → List NameRow
put_name row [] = row ∷ []
put_name row (r ∷ rest) =
    let more = put_name row rest in if str_eq r.brain_id row.brain_id then row ∷ rest else r ∷ more

abbrev pub insert_name : List NameRow → NameRow → Result (List NameRow)
insert_name names row = guard (not (clashes row names)) integrity_error >> ok (put_name row names)

abbrev pub name_row : EventEnvelope → String → String → NameRow
name_row e name key = record {
  brain_id = e.brain_id;
  normalized_name = key;
  display_name = name;
  source_event_id = e.event_id;
}

abbrev pub named_as : List NameRow → EventEnvelope → String → Option String → Result (List NameRow)
named_as names e name none = err value_error
named_as names e name (some key) = insert_name names (name_row e name key)

-- `_record_identity_name_in_transaction`, of `payload.get("name")`
abbrev pub record_identity_name :
    Encoding → List NameRow → EventEnvelope → Json → Result (List NameRow)
record_identity_name c names e null = ok names
record_identity_name c names e (str name) = named_as names e name (c.name_key name)
record_identity_name c names e _ = err type_error

abbrev pub is_naming : EventEnvelope → Bool
is_naming e = str_eq e.event_type "brain.created" || str_eq e.event_type "identity.named"

unfoldable pub register_name : Encoding → List NameRow → EventEnvelope → Result (List NameRow)
register_name c names e =
    if is_naming e then record_identity_name c names e (get e.payload "name") else ok names

abbrev pub first_row : String → Observability
first_row id = record {
  brain_id = id;
  trace_complete = true;
  semantic_complete = true;
  dropped_events = 0;
  semantic_records = 0;
  legacy_raw_only_records = 0;
  semantic_gap_records = 0;
}

-- `_ensure_observability_row`
abbrev pub ensure_observability : String → List Observability → List Observability
ensure_observability id [] = first_row id ∷ []
ensure_observability id (r ∷ rest) =
    let more = ensure_observability id rest in if str_eq r.brain_id id then r ∷ rest else r ∷ more

-- The counts of a row are within their bound.
abbrev pub counts_ok : Observability → Bool
counts_ok r =
    leb r.dropped_events max_bridge_integer
    && leb r.semantic_records max_bridge_integer
    && leb r.legacy_raw_only_records max_bridge_integer
    && leb r.semantic_gap_records max_bridge_integer

abbrev pub one_gap_more : Observability → Observability
one_gap_more r = record r {
  trace_complete = false;
  semantic_complete = false;
  semantic_gap_records = r.semantic_gap_records + 1;
}

abbrev pub count_gap : Observability → Result Observability
count_gap r = do
  guard (counts_ok r) ledger_integrity
  guard (leb (r.semantic_gap_records + 1) max_bridge_integer) domain_capacity
  ok (one_gap_more r)

-- `_record_unbounded_gap_observability`
abbrev pub record_gap : String → List Observability → Result (List Observability)
record_gap id [] = err ledger_integrity
record_gap id (r ∷ rest) =
    let later = record_gap id rest >>= λ more. ok (r ∷ more) in
    let here = count_gap r >>= λ r'. ok (r' ∷ rest) in if str_eq r.brain_id id then here else later

abbrev pub is_gap_event : EventEnvelope → Bool
is_gap_event e = str_eq e.event_type "semantic.gap" || str_eq e.event_type "trace.gap"

unfoldable pub observe_gap : List Observability → EventEnvelope → Result (List Observability)
observe_gap rows e =
    let counted = record_gap e.brain_id rows in if is_gap_event e then counted else ok rows
