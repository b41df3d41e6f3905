-- ===== src/Store/Sequence.antt =====
-- An append keeps the tables of the event store consistent.
use mathlib.Core.Path.{subst}
use alice_brain_hermes.Prelude.{
  List, ℕ, ◌+◌, String, ◌≡◌, refl, sym, ap, ◌∙◌, inl, inr, true, Option, some, [], ◌∷◌, ◌++◌, arith,
  str_eq, eq_iff, length, length-append, All-append, Bool-cases, ok, if◌then◌else◌,
}
use alice_brain_hermes.Events.{EventEnvelope, revalidated}
use alice_brain_hermes.Store.{
  NameRow, Observability, EventStore, Encoding, body_fingerprint, keys_ok, decode_event, of_brain,
  next_sequence_of, ensure_brain, set_next_sequence,
}
use alice_brain_hermes.Store.Append.{
  Appended, row_of, or_one, allocated, differs, sequenced, with_row, with_tables, append_event,
}
use alice_brain_hermes.Store.{envelope_fingerprint}
use alice_brain_hermes.Store.Ledger.{
  Numbered, IsRow, IsStore, of_brain-append, Numbered-append, ensure_brain_same, ensure_brain_other,
  set_next_sequence_same, set_next_sequence_other,
}
use alice_brain_hermes.Store.Appends.{Appends, append_event-Appends}

added-next :
    (s : EventStore) (id other : String)
    → or_one (
        next_sequence_of other
          (set_next_sequence id (allocated s id + 1) (ensure_brain id s.brains)))
      ≡ (if str_eq id other then allocated s id + 1 else or_one (next_sequence_of other s.brains))
added-next s id other = elim (Bool-cases (str_eq id other)) [
  | inl same ↦
      let e : id ≡ other = (eq_iff id other).0 same in
      let here =
        set_next_sequence_same id (allocated s id + 1) (ensure_brain id s.brains)
          (or_one (next_sequence_of id s.brains)) (ensure_brain_same id s.brains) in
      rw same (
        ap or_one (
          subst
            (λ other.
              next_sequence_of other
                (set_next_sequence id (allocated s id + 1) (ensure_brain id s.brains))
              ≡ some (allocated s id + 1))
            e here))
  | inr differs ↦ rw differs (
      ap or_one (
        set_next_sequence_other id other (allocated s id + 1) (ensure_brain id s.brains) differs
        ∙ ensure_brain_other id other s.brains differs))
]

pub allocated-eq :
    (s : EventStore) (id : String) → allocated s id ≡ or_one (next_sequence_of id s.brains)
allocated-eq s id = ap or_one (ensure_brain_same id s.brains)

pub row_of-IsRow :
    (c : Encoding) (e : EventEnvelope) (n : ℕ)
    → revalidated (sequenced e n) ≡ ok (sequenced e n)
    → IsRow c (row_of c (sequenced e n) n)
unfolding decode_event
row_of-IsRow c e n valid =
    let keys : keys_ok c (row_of c (sequenced e n) n) ≡ true = ground (
      arith,
      eq_iff e.event_id e.event_id,
      eq_iff e.brain_id e.brain_id,
      eq_iff (body_fingerprint c e) (body_fingerprint c e),
      eq_iff (envelope_fingerprint c (sequenced e n)) (envelope_fingerprint c (sequenced e n)),
    ) in
    rw (valid, keys) refl

pub with_row-IsStore :
    (c : Encoding) (s : EventStore) (e : EventEnvelope)
    → IsStore c s
    → revalidated (sequenced e (allocated s e.brain_id)) ≡ ok (sequenced e (allocated s e.brain_id))
    → IsStore c (with_row c s (allocated s e.brain_id) (sequenced e (allocated s e.brain_id))).store
with_row-IsStore c s e v valid =
    let n = allocated s e.brain_id in
    let r = row_of c (sequenced e n) n in
    record {
      numbered = λ id.
          let grown = of_brain-append id s.events r in
          elim (Bool-cases (str_eq e.brain_id id)) [
            | inl same ↦
                let here : e.brain_id ≡ id = (eq_iff e.brain_id id).0 same in
                let count = allocated-eq s e.brain_id ∙ v.next e.brain_id in
                let count_here : n ≡ length (of_brain id s.events) + 1 =
                  count ∙ ap (λ id. length (of_brain id s.events) + 1) here in
                subst (Numbered 1) (sym (grown ∙ rw same refl))
                  (Numbered-append 1 (of_brain id s.events) r (v.numbered id) (omega arith))
            | inr other ↦ subst (Numbered 1) (sym (grown ∙ rw other refl)) (v.numbered id)
          ];
      next = λ id.
          let grown = of_brain-append id s.events r in
          let moved = added-next s e.brain_id id in
          elim (Bool-cases (str_eq e.brain_id id)) [
            | inl same ↦
                let here : e.brain_id ≡ id = (eq_iff e.brain_id id).0 same in
                let count = allocated-eq s e.brain_id ∙ v.next e.brain_id in
                let count_here : n ≡ length (of_brain id s.events) + 1 =
                  count ∙ ap (λ id. length (of_brain id s.events) + 1) here in
                let longer : of_brain id (s.events ++ r ∷ []) ≡ of_brain id s.events ++ r ∷ [] =
                  grown ∙ rw same refl in
                moved
                ∙ rw (same, longer) (omega (arith, length-append (of_brain id s.events) (r ∷ [])))
            | inr other ↦
                let kept : of_brain id (s.events ++ r ∷ []) ≡ of_brain id s.events =
                  grown ∙ rw other refl in
                moved ∙ rw (other, kept) (v.next id)
          ];
      decodes = All-append (IsRow c) s.events (r ∷ []) v.decodes (row_of-IsRow c e n valid, tt);
    }

pub with_tables-IsStore :
    (c : Encoding) (a : Appended) (names : List NameRow) (rows : List Observability)
    → IsStore c a.store
    → IsStore c (with_tables a names rows).store
with_tables-IsStore c a names rows v = record {
  numbered = v.numbered;
  next = v.next;
  decodes = v.decodes;
}

pub Appends-IsStore :
    (c : Encoding) (s : EventStore) (e : EventEnvelope) (expected : Option ℕ) {a : Appended}
    → IsStore c s
    → Appends c s e expected a
    → IsStore c a.store
Appends-IsStore c s e expected v (Appends.found r one same) = v
Appends-IsStore c s e expected v (Appends.added new expects fresh valid names rows _ _) =
    let n = allocated s e.brain_id in
    with_tables-IsStore c (with_row c s n (sequenced e n)) names rows
      (with_row-IsStore c s e v valid)

-- An append that succeeds keeps the events of each brain numbered from 1 on without a gap, in the order in which they
-- were appended, with the next number after them, and every row decodable.
pub append_event-IsStore :
    (c : Encoding) (s : EventStore) (e : EventEnvelope) (expected : Option ℕ) {a : Appended}
    → IsStore c s
    → append_event c s e expected ≡ ok a
    → IsStore c a.store
append_event-IsStore c s e expected v h =
    Appends-IsStore c s e expected v (append_event-Appends c s e expected h).1
