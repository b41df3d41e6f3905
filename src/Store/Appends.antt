-- ===== src/Store/Appends.antt =====
-- The outcome of an append to the event store.
use mathlib.Core.Path.{subst}
use alice_brain_hermes.Prelude.{
  ℕ, ◌≡◌, refl, sym, ap, ◌∙◌, true, not, Option, none, List, [], ◌∷◌, Result, ok, value_error,
  guard, ◌>>◌, ◌>>=◌, >>=-eq-ok, >>-eq-ok, guard-eq-ok, is_none, none_eq, rewrap, ledger_integrity,
  expected_sequence_error, event_conflict,
}
use alice_brain_hermes.Events.{EventEnvelope, revalidated}
use alice_brain_hermes.Events.Validation.{revalidated-eq}
use alice_brain_hermes.Store.Registry.{register_name, observe_gap, ensure_observability}
use alice_brain_hermes.Store.{
  NameRow, Observability, Row, EventStore, Encoding, body_fingerprint, keys_ok, decode_event,
}
use alice_brain_hermes.Store.Append.{
  Appended, matching, is_stale, is_elsewhere, disagrees, is_same_body, conflict, adopted, adopt,
  allocated, differs, sequenced, with_row, with_tables, insert, resolve, append_event,
}

-- What an append that succeeds did: it found the one row that matches, with the same body, or it added a row with the
-- next number of the brain.
pub data Appends (c : Encoding) (s : EventStore) (e : EventEnvelope) (expected : Option ℕ)
    : Appended → Type 0 where
  found :
      (r : Row)
      → matching e.event_id (body_fingerprint c e) s.events ≡ r ∷ []
      → is_same_body c r e ≡ true
      → Appends c s e expected (adopted s r.envelope)
  added :
      e.sequence ≡ none
      → not (differs expected (allocated s e.brain_id)) ≡ true
      → matching e.event_id (body_fingerprint c e) s.events ≡ []
      → revalidated (sequenced e (allocated s e.brain_id))
        ≡ ok (sequenced e (allocated s e.brain_id))
      → (names : List NameRow) (rows : List Observability)
      → register_name c s.names (sequenced e (allocated s e.brain_id)) ≡ ok names
      → observe_gap
          (ensure_observability e.brain_id s.observability)
          (sequenced e (allocated s e.brain_id))
        ≡ ok rows
      → Appends c s e expected (
          with_tables
            (with_row c s (allocated s e.brain_id) (sequenced e (allocated s e.brain_id)))
            names
            rows)

decode_event-eq :
    (c : Encoding) (r : Row) {e : EventEnvelope} → decode_event c r ≡ ok e → r.envelope ≡ e
unfolding decode_event
decode_event-eq c r {e = e} h =
    let done : Result EventEnvelope = ok r.envelope in
    let rest : Result EventEnvelope = guard (keys_ok c r) ledger_integrity >> done in
    let last =
      >>-eq-ok (guard (keys_ok c r) ledger_integrity) done
        (>>-eq-ok (rewrap ledger_integrity (revalidated r.envelope)) rest h) in
    cc

adopt-Appends :
    (c : Encoding) (s : EventStore) (e : EventEnvelope) (expected : Option ℕ) (r : Row)
    {a : Appended}
    → matching e.event_id (body_fingerprint c e) s.events ≡ r ∷ []
    → adopt c s e expected r ≡ ok a
    → Appends c s e expected a
unfolding adopt
adopt-Appends c s e expected r {a = a} one h =
    let done : EventEnvelope → Result Appended = λ stored. ok (adopted s stored) in
    let third : EventEnvelope → Result Appended =
      λ stored. guard (not (is_elsewhere s e r expected)) expected_sequence_error >> done stored in
    let second : EventEnvelope → Result Appended =
      λ stored. guard (not (disagrees e.sequence r.sequence)) event_conflict >> third stored in
    let first : EventEnvelope → Result Appended =
      λ stored. guard (is_same_body c r e) (conflict (is_stale s e expected)) >> second stored in
    let (stored, decoded, checked) = >>=-eq-ok (decode_event c r) first h in
    let (same, rest) =
      guard-eq-ok (is_same_body c r e) (conflict (is_stale s e expected)) (second stored) checked in
    let (_, rest') =
      guard-eq-ok (not (disagrees e.sequence r.sequence)) event_conflict (third stored) rest in
    let (_, last) =
      guard-eq-ok (not (is_elsewhere s e r expected)) expected_sequence_error (done stored) rest' in
    let envelope = decode_event-eq c r decoded in
    let result : adopted s r.envelope ≡ a = cc in
    subst (Appends c s e expected) result (Appends.found r one same)

insert-Appends :
    (c : Encoding) (s : EventStore) (e : EventEnvelope) (expected : Option ℕ) {a : Appended}
    → matching e.event_id (body_fingerprint c e) s.events ≡ []
    → insert c s e expected ≡ ok a
    → Appends c s e expected a
unfolding insert
insert-Appends c s e expected {a = a} fresh h =
    let n = allocated s e.brain_id in
    let tables : EventEnvelope → Result (List Observability) =
      λ stored. observe_gap (ensure_observability e.brain_id s.observability) stored in
    let made : EventEnvelope → List NameRow → List Observability → Result Appended =
      λ stored names rows. ok (with_tables (with_row c s n stored) names rows) in
    let counting : EventEnvelope → List NameRow → Result Appended =
      λ stored names. tables stored >>= made stored names in
    let naming : EventEnvelope → Result Appended =
      λ stored. register_name c s.names stored >>= counting stored in
    let last : Result Appended = revalidated (sequenced e n) >>= naming in
    let (new, rest) =
      guard-eq-ok (is_none e.sequence) value_error
        (guard (not (differs expected n)) expected_sequence_error >> last) h in
    let (expects, rest') =
      guard-eq-ok (not (differs expected n)) expected_sequence_error last rest in
    let (stored, valid, names_it) = >>=-eq-ok (revalidated (sequenced e n)) naming rest' in
    let same = revalidated-eq (sequenced e n) valid in
    let here : naming (sequenced e n) ≡ ok a = subst (λ e'. naming e' ≡ ok a) (sym same) names_it in
    let (names, named, counts) =
      >>=-eq-ok (register_name c s.names (sequenced e n)) (counting (sequenced e n)) here in
    let (rows, counted, done) =
      >>=-eq-ok (tables (sequenced e n)) (made (sequenced e n) names) counts in
    let result : with_tables (with_row c s n (sequenced e n)) names rows ≡ a = cc in
    subst (Appends c s e expected) result (
      Appends.added (none_eq e.sequence new) expects fresh (valid ∙ ap ok (sym same)) names rows
        named counted)

resolve-Appends :
    (c : Encoding) (s : EventStore) (e : EventEnvelope) (expected : Option ℕ) (rows : List Row)
    {a : Appended}
    → matching e.event_id (body_fingerprint c e) s.events ≡ rows
    → resolve c s e expected rows ≡ ok a
    → Appends c s e expected a
resolve-Appends c s e expected [] m h = insert-Appends c s e expected m h
resolve-Appends c s e expected (r ∷ []) m h = adopt-Appends c s e expected r m h
resolve-Appends c s e expected (r ∷ t ∷ rest) m h = cc

pub append_event-Appends :
    (c : Encoding) (s : EventStore) (e : EventEnvelope) (expected : Option ℕ) {a : Appended}
    → append_event c s e expected ≡ ok a
    → (revalidated e ≡ ok e) × Appends c s e expected a
unfolding append_event
append_event-Appends c s e expected {a = a} h =
    let go : EventEnvelope → Result Appended =
      λ e. resolve c s e expected (matching e.event_id (body_fingerprint c e) s.events) in
    let (e', valid, done) = >>=-eq-ok (revalidated e) go h in
    let same = revalidated-eq e valid in
    let here : go e ≡ ok a = subst (λ e. go e ≡ ok a) (sym same) done in
    (valid ∙ ap ok (sym same), resolve-Appends c s e expected _ refl here)
