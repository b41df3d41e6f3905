-- ===== src/Store.antt =====
-- The event store (src/alice_brain_hermes/runtime/store.py, SQLiteLedger): the tables of brains, events, identity names and
-- observability, with append, append_expected and the reads of events. A table is the list of its rows in the order of
-- their insertion, and a transaction is one function. The canonical text of an event, its digest (SHA-256) and the
-- normalization key of a name (Unicode tables) are parameters.
pub mod Registry
pub mod Append
pub mod Pages
pub mod Reads
pub mod Ledger
pub mod Appends
pub mod Sequence
pub mod Names
pub mod Retry
pub mod Iteration
pub mod Delivery
pub mod Streams
use alice_brain_hermes.Prelude.{
  ℕ, ◌+◌, String, Bool, true, false, ◌&&◌, ◌||◌, Option, none, some, List, [], ◌∷◌, ltb, ◌==◌,
  str_eq, any, if◌then◌else◌, Result, ok, guard, rewrap, ledger_integrity, ◌>>◌,
}
use alice_brain_hermes.Events.{EventEnvelope, revalidated}

-- A row of the table `events`.
pub record Row : Type 0 where
  pub brain_id : String
  pub sequence : ℕ
  pub event_id : String
  pub body_fingerprint : String
  pub envelope_fingerprint : String
  pub envelope : EventEnvelope

-- A row of the table `brains`.
pub record Brain : Type 0 where
  pub brain_id : String
  pub next_sequence : ℕ

-- A row of the table `identity_name_registry`.
pub record NameRow : Type 0 where
  pub brain_id : String
  pub normalized_name : String
  pub display_name : String
  pub source_event_id : String

-- A row of the table `brain_observability`.
pub record Observability : Type 0 where
  pub brain_id : String
  pub trace_complete : Bool
  pub semantic_complete : Bool
  pub dropped_events : ℕ
  pub semantic_records : ℕ
  pub legacy_raw_only_records : ℕ
  pub semantic_gap_records : ℕ

pub record EventStore : Type 0 where
  pub brains : List Brain
  pub events : List Row
  pub names : List NameRow
  pub observability : List Observability

abbrev pub empty_store : EventStore
empty_store = record { brains = []; events = []; names = []; observability = [] }

abbrev pub unsequenced : EventEnvelope → EventEnvelope
unsequenced e = record e { sequence = none }

-- `canonical_json`, the digest of a text in hexadecimal, and `identity_name_normalization_key`, which is none where that
-- raises.
pub record Encoding : Type 0 where
  pub canonical_json : EventEnvelope → String
  pub digest : String → String
  pub name_key : String → Option String

-- `canonical_json(exclude_sequence=True)`
abbrev pub body_json : Encoding → EventEnvelope → String
body_json c e = c.canonical_json (unsequenced e)

abbrev pub body_fingerprint : Encoding → EventEnvelope → String
body_fingerprint c e = c.digest (body_json c e)

abbrev pub envelope_fingerprint : Encoding → EventEnvelope → String
envelope_fingerprint c e = c.digest (c.canonical_json e)

abbrev pub is_numbered : Option ℕ → ℕ → Bool
is_numbered none n = false
is_numbered (some m) n = m == n

-- The keys and the fingerprints of a row are those of its envelope.
abbrev pub keys_ok : Encoding → Row → Bool
keys_ok c r =
    str_eq r.envelope.event_id r.event_id
    && str_eq r.envelope.brain_id r.brain_id
    && is_numbered r.envelope.sequence r.sequence
    && str_eq (body_fingerprint c r.envelope) r.body_fingerprint
    && str_eq (envelope_fingerprint c r.envelope) r.envelope_fingerprint

-- `_decode_event`
unfoldable pub decode_event : Encoding → Row → Result EventEnvelope
decode_event c r = do
  rewrap ledger_integrity (revalidated r.envelope)
  guard (keys_ok c r) ledger_integrity
  ok r.envelope

-- `WHERE brain_id = ?`
abbrev pub of_brain : String → List Row → List Row
of_brain id [] = []
of_brain id (r ∷ rest) =
    let others = of_brain id rest in if str_eq r.brain_id id then r ∷ others else others

-- `COALESCE(MAX(sequence), 0)` of rows
abbrev pub max_sequence : List Row → ℕ
max_sequence [] = 0
max_sequence (r ∷ rest) =
    let later = max_sequence rest in if ltb later r.sequence then r.sequence else later

-- `SELECT next_sequence FROM brains WHERE brain_id = ?`
abbrev pub next_sequence_of : String → List Brain → Option ℕ
next_sequence_of id [] = none
next_sequence_of id (b ∷ rest) =
    let later = next_sequence_of id rest in
    if str_eq b.brain_id id then some b.next_sequence else later

-- `INSERT INTO brains … ON CONFLICT(brain_id) DO NOTHING`
abbrev pub ensure_brain : String → List Brain → List Brain
ensure_brain id [] = record { brain_id = id; next_sequence = 1 } ∷ []
ensure_brain id (b ∷ rest) =
    let more = ensure_brain id rest in if str_eq b.brain_id id then b ∷ rest else b ∷ more

-- `UPDATE brains SET next_sequence = ? WHERE brain_id = ?`
abbrev pub set_next_sequence : String → ℕ → List Brain → List Brain
set_next_sequence id n [] = []
set_next_sequence id n (b ∷ rest) =
    let more = set_next_sequence id n rest in
    if str_eq b.brain_id id then record b { next_sequence = n } ∷ more else b ∷ more
