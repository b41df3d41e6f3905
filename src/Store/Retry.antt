-- ===== src/Store/Retry.antt =====
-- An append may be repeated.
use alice_brain_hermes.Prelude.{
  ℕ, ◌≢◌, String, ◌≡◌, refl, sym, ◌∙◌, inl, inr, true, not, ◌||◌, Option, none, some, List, [], ◌∷◌,
  ◌++◌, arith, ◌==◌, str_eq, eq_iff, length-append, Bool-cases, ok,
}
use alice_brain_hermes.Events.{EventEnvelope, revalidated}
use alice_brain_hermes.Store.{
  NameRow, Observability, Row, EventStore, Encoding, body_json, body_fingerprint, of_brain,
}
use alice_brain_hermes.Store.Append.{
  Appended, matching, head_of, is_elsewhere, disagrees, is_same_body, adopted, adopt, row_of,
  allocated, differs, sequenced, with_row, with_tables, append_event,
}
use alice_brain_hermes.Store.Ledger.{IsStore, of_brain-append, Numbered-append, max_sequence_eq}
use alice_brain_hermes.Store.Appends.{Appends, append_event-Appends}
use alice_brain_hermes.Store.Sequence.{allocated-eq, row_of-IsRow}

matching-append :
    (id fingerprint : String) (rows : List Row) (r : Row)
    → matching id fingerprint rows ≡ []
    → (str_eq r.event_id id || str_eq r.body_fingerprint fingerprint) ≡ true
    → matching id fingerprint (rows ++ r ∷ []) ≡ r ∷ []
matching-append id fingerprint [] r fresh here = rw here refl
matching-append id fingerprint (x ∷ rest) r fresh here =
    elim (Bool-cases (str_eq x.event_id id || str_eq x.body_fingerprint fingerprint)) [
      | inl there ↦
          let kept : matching id fingerprint (x ∷ rest) ≡ x ∷ matching id fingerprint rest =
            rw there refl in
          absurd (cons_not_nil (sym kept ∙ fresh))
      | inr other ↦
          let skip : matching id fingerprint (x ∷ rest) ≡ matching id fingerprint rest =
            rw other refl in
          rw other (matching-append id fingerprint rest r (sym skip ∙ fresh) here)
    ]
  where
    cons_not_nil : {y : Row} {ys : List Row} → (y ∷ ys) ≢ []
    cons_not_nil h = cc

-- The event that was added is the last of its brain.
added-head :
    (c : Encoding) (s : EventStore) (e : EventEnvelope)
    → IsStore c s
    → head_of
        (with_row c s (allocated s e.brain_id) (sequenced e (allocated s e.brain_id))).store
        e.brain_id
      ≡ allocated s e.brain_id
added-head c s e v =
    let n = allocated s e.brain_id in
    let r = row_of c (sequenced e n) n in
    let same : str_eq e.brain_id e.brain_id ≡ true = ground (arith, eq_iff e.brain_id e.brain_id) in
    let longer : of_brain e.brain_id (s.events ++ r ∷ []) ≡ of_brain e.brain_id s.events ++ r ∷ [] =
      of_brain-append e.brain_id s.events r ∙ rw same refl in
    let count = allocated-eq s e.brain_id ∙ v.next e.brain_id in
    let numbered =
      Numbered-append 1 (of_brain e.brain_id s.events) r (v.numbered e.brain_id) (omega arith) in
    let size = length-append (of_brain e.brain_id s.events) (r ∷ []) in
    let last =
      max_sequence_eq 1 (of_brain e.brain_id s.events ++ r ∷ []) numbered (omega arith)
        (omega arith) in
    rw longer (omega arith)

added-here :
    (c : Encoding) (s : EventStore) (e : EventEnvelope) (expected : Option ℕ) (names : List NameRow)
    (rows : List Observability)
    → IsStore c s
    → not (differs expected (allocated s e.brain_id)) ≡ true
    → not (
        is_elsewhere
          (with_tables
            (with_row c s (allocated s e.brain_id) (sequenced e (allocated s e.brain_id)))
            names
            rows).store
          e
          (row_of c (sequenced e (allocated s e.brain_id)) (allocated s e.brain_id))
          expected)
      ≡ true
added-here c s e none names rows v expects = refl
added-here c s e (some x) names rows v expects =
    let n = allocated s e.brain_id in
    let head = added-head c s e v in
    let same : (n == x) ≡ true = ground arith in rw (head, same) refl

adopt_added :
    (c : Encoding) (s : EventStore) (e : EventEnvelope) (expected : Option ℕ) (names : List NameRow)
    (rows : List Observability)
    → IsStore c s
    → e.sequence ≡ none
    → not (differs expected (allocated s e.brain_id)) ≡ true
    → revalidated (sequenced e (allocated s e.brain_id)) ≡ ok (sequenced e (allocated s e.brain_id))
    → adopt c
        (with_tables
          (with_row c s (allocated s e.brain_id) (sequenced e (allocated s e.brain_id)))
          names
          rows).store
        e
        expected
        (row_of c (sequenced e (allocated s e.brain_id)) (allocated s e.brain_id))
      ≡ ok (
          adopted
            (with_tables
              (with_row c s (allocated s e.brain_id) (sequenced e (allocated s e.brain_id)))
              names
              rows).store
            (sequenced e (allocated s e.brain_id)))
unfolding adopt
adopt_added c s e expected names rows v new expects valid =
    let n = allocated s e.brain_id in
    let r = row_of c (sequenced e n) n in
    let decoded = row_of-IsRow c e n valid in
    let same : is_same_body c r e ≡ true = ground (
      arith,
      eq_iff (body_fingerprint c e) (body_fingerprint c e),
      eq_iff (body_json c e) (body_json c e),
    ) in
    let agrees : not (disagrees e.sequence n) ≡ true = rw new refl in
    let here = added-here c s e expected names rows v expects in
    rw (decoded, same, agrees, here) refl

-- The event that an append gave is found by the same append, with the same expected sequence.
Appends-again :
    (c : Encoding) (s : EventStore) (e : EventEnvelope) (expected : Option ℕ) {a : Appended}
    → IsStore c s
    → revalidated e ≡ ok e
    → append_event c s e expected ≡ ok a
    → Appends c s e expected a
    → append_event c a.store e expected ≡ ok (adopted a.store a.stored)
unfolding append_event
Appends-again c s e expected v valid h (Appends.found r one same) = h
Appends-again c s e expected v valid h (Appends.added new expects fresh stored names rows _ _) =
    let n = allocated s e.brain_id in
    let r = row_of c (sequenced e n) n in
    let found =
      matching-append e.event_id (body_fingerprint c e) s.events r fresh
        (ground (arith, eq_iff e.event_id e.event_id)) in
    rw (valid, found) (adopt_added c s e expected names rows v new expects stored)

-- In a consistent store, an append that succeeded may be repeated, with the same expected sequence if there was one: it
-- gives the same stored event, inserts nothing, and leaves the tables as they are.
pub append_event_again :
    (c : Encoding) (s : EventStore) (e : EventEnvelope) (expected : Option ℕ) (a : Appended)
    → IsStore c s
    → append_event c s e expected ≡ ok a
    → append_event c a.store e expected ≡ ok (adopted a.store a.stored)
append_event_again c s e expected a v h =
    let (valid, appends) = append_event-Appends c s e expected h in
    Appends-again c s e expected v valid h appends
