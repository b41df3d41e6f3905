-- ===== src/Store/Delivery.antt =====
-- What is appended is what a reader of the pages gets.
use mathlib.Core.Path.{subst}
use alice_brain_hermes.Prelude.{
  String, ℕ, zero, suc, ◌+◌, ◌≤◌, ◌<◌, ◌≡◌, refl, ap, ◌∙◌, true, some, none, List, [], ◌∷◌, ◌++◌,
  arith, str_eq, eq_iff, length, length-append, drop, ok,
}
use alice_brain_hermes.Events.{EventEnvelope, revalidated}
use alice_brain_hermes.Events.Validation.{numbered_valid, valid_event_id, valid_brain_id}
use alice_brain_hermes.Store.Registry.{register_name, observe_gap, ensure_observability}
use alice_brain_hermes.Store.{
  NameRow, Observability, Row, EventStore, Encoding, body_fingerprint, of_brain,
}
use alice_brain_hermes.Store.Append.{
  matching, row_of, allocated, sequenced, with_row, with_tables, insert, append_event, append,
}
use alice_brain_hermes.Store.Pages.{is_page_size, iter_events}
use alice_brain_hermes.Store.Ledger.{IsStore, of_brain-append}
use alice_brain_hermes.Store.Reads.{find_row, get_event}
use alice_brain_hermes.Store.Sequence.{
  row_of-IsRow, allocated-eq, with_row-IsStore, with_tables-IsStore,
}
use alice_brain_hermes.Store.Iteration.{envelopes, iter_events_complete}

drop-envelopes :
    (k : ℕ) (rows : List Row) (r : Row)
    → k ≤ length rows
    → envelopes (drop k (rows ++ r ∷ [])) ≡ envelopes (drop k rows) ++ r.envelope ∷ []
drop-envelopes zero [] r h = refl
drop-envelopes zero (x ∷ rest) r h =
    ap (λ l. x.envelope ∷ l) (drop-envelopes zero rest r (omega arith))
drop-envelopes (suc k) [] r h = absurd (omega arith)
drop-envelopes (suc k) (x ∷ rest) r h = drop-envelopes k rest r (omega arith)

-- A new event is added with the number of its brain.
insert_new :
    (c : Encoding) (s : EventStore) (e : EventEnvelope) (n : ℕ) (names : List NameRow)
    (rows : List Observability)
    → e.sequence ≡ none
    → allocated s e.brain_id ≡ n
    → revalidated (sequenced e n) ≡ ok (sequenced e n)
    → register_name c s.names (sequenced e n) ≡ ok names
    → observe_gap (ensure_observability e.brain_id s.observability) (sequenced e n) ≡ ok rows
    → insert c s e none ≡ ok (with_tables (with_row c s n (sequenced e n)) names rows)
unfolding insert
insert_new c s e n names rows new count valid named counted =
    rw (new, count, valid, named, counted) refl

find_row-append :
    (id fingerprint : String) (rows : List Row) (r : Row)
    → matching id fingerprint rows ≡ []
    → r.event_id ≡ id
    → find_row id (rows ++ r ∷ []) ≡ some r
find_row-append id fingerprint [] r fresh here = ground (arith, eq_iff r.event_id id)
find_row-append id fingerprint (x ∷ rest) r fresh here =
    ground (arith, find_row-append id fingerprint rest r)

-- In a consistent store, a valid event without a number, whose ID and body are new, is appended with the number after
-- those of its brain's events, provided that the registry takes the name, if it is an event that names the brain, and that
-- the counters of observability take the gap, if it is a gap event. Then it is found by its ID, and whoever has read the events of the brain up to any cursor
-- gets, in pages of any size within its bounds and with fuel for more than the events and the new one, exactly the events
-- that were left and the new one after them.
pub append_delivers :
    (c : Encoding) (s : EventStore) (e : EventEnvelope) (page_size fuel cursor : ℕ)
    (names : List NameRow) (rows : List Observability)
    → IsStore c s
    → revalidated e ≡ ok e
    → e.sequence ≡ none
    → matching e.event_id (body_fingerprint c e) s.events ≡ []
    → register_name c s.names (sequenced e (length (of_brain e.brain_id s.events) + 1)) ≡ ok names
    → observe_gap
        (ensure_observability e.brain_id s.observability)
        (sequenced e (length (of_brain e.brain_id s.events) + 1))
      ≡ ok rows
    → is_page_size page_size ≡ true
    → cursor ≤ length (of_brain e.brain_id s.events)
    → length (of_brain e.brain_id s.events) + 1 < fuel
    → let n = length (of_brain e.brain_id s.events) + 1 in
      let after = with_tables (with_row c s n (sequenced e n)) names rows in
      (append c s e ≡ ok after)
      × (get_event c after.store e.event_id ≡ ok (some (sequenced e n)))
      × (iter_events c after.store e.brain_id page_size fuel cursor
          ≡ some
              (ok (envelopes (drop cursor (of_brain e.brain_id s.events)) ++ sequenced e n ∷ [])))
unfolding append_event get_event
append_delivers c s e page_size fuel cursor names rows v valid new fresh named counted size read
      enough =
    let n = length (of_brain e.brain_id s.events) + 1 in
    let count : allocated s e.brain_id ≡ n = allocated-eq s e.brain_id ∙ v.next e.brain_id in
    let numbered = numbered_valid e n (omega arith) new valid in
    let r = row_of c (sequenced e n) n in
    let same : str_eq e.brain_id e.brain_id ≡ true = ground (arith, eq_iff e.brain_id e.brain_id) in
    let grown : of_brain e.brain_id (s.events ++ r ∷ []) ≡ of_brain e.brain_id s.events ++ r ∷ [] =
      of_brain-append e.brain_id s.events r ∙ rw same refl in
    let longer : length (of_brain e.brain_id (s.events ++ r ∷ [])) < fuel =
      rw grown (omega (arith, length-append (of_brain e.brain_id s.events) (r ∷ []))) in
    let found : find_row e.event_id (s.events ++ r ∷ []) ≡ some r =
      find_row-append e.event_id (body_fingerprint c e) s.events r fresh refl in
    let kept : IsStore c (with_row c s n (sequenced e n)).store =
      subst
        (λ m.
          revalidated (sequenced e m) ≡ ok (sequenced e m)
          → IsStore c (with_row c s m (sequenced e m)).store)
        count (with_row-IsStore c s e v) numbered in
    let all_kept = with_tables-IsStore c (with_row c s n (sequenced e n)) names rows kept in
    (
      rw (valid, fresh) (insert_new c s e n names rows new count numbered named counted),
      rw (valid_event_id e valid, found, row_of-IsRow c e n numbered) refl,
      iter_events_complete c (with_tables (with_row c s n (sequenced e n)) names rows).store
            e.brain_id page_size fuel cursor all_kept (valid_brain_id e valid) size longer
          ∙ ap (λ rows. some (ok (envelopes (drop cursor rows)))) grown
          ∙ ap (λ es. some (ok es)) (drop-envelopes cursor (of_brain e.brain_id s.events) r read),
    )
