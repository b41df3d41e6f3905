-- ===== src/Events/Validation.antt =====
-- Validation returns the event that it was given, and does not depend on which number an event has.
use alice_brain_hermes.Prelude.{
  ℕ, ◌≤◌, ◌≡◌, ap, refl, true, none, some, arith, leb, ◌==◌, ◌&&◌, guard, value_error, String,
  >>=-eq-ok, guard-eq-ok, Result, ok, err, ◌>>◌, >>-eq-ok,
}
use alice_brain_hermes.Text.{has_length, codes}
use alice_brain_hermes.Ids.{is_canonical_uuid4, validate_id}
use alice_brain_hermes.Events.{
  EventEnvelope, event_schema_version, provenance_ok, is_event_type, is_sequence, validate_fields,
  revalidated,
}

pub revalidated-eq : (e : EventEnvelope) {e' : EventEnvelope} → revalidated e ≡ ok e' → e ≡ e'
unfolding revalidated
revalidated-eq e {e' = e'} h =
    let done : Result EventEnvelope = ok e in
    let last : done ≡ ok e' = >>-eq-ok (validate_fields e) done h in cc

first_ok :
    {A : Type 0} (r : Result (Unit {0})) (rest : Result A) {x : A} → (r >> rest) ≡ ok x → r ≡ ok tt
first_ok (ok tt) rest h = refl
first_ok (err e) rest h = cc

-- A valid event without a number stays valid with one.
pub numbered_valid :
    (e : EventEnvelope) (n : ℕ)
    → 1 ≤ n
    → e.sequence ≡ none
    → revalidated e ≡ ok e
    → revalidated (record e { sequence = some n }) ≡ ok (record e { sequence = some n })
unfolding revalidated validate_fields is_sequence
numbered_valid e n low new h =
    let fields = first_ok (validate_fields e) (ok e) h in
    let counted : leb 1 n ≡ true = ground arith in
    let same : validate_fields (record e { sequence = some n }) ≡ ok tt =
      rw (counted) (rw new at fields) in
    ap (λ r. r >> ok (record e { sequence = some n })) same

pub valid_event_id :
    (e : EventEnvelope) → revalidated e ≡ ok e → validate_id e.event_id ≡ ok e.event_id
unfolding revalidated validate_fields is_sequence provenance_ok is_event_type validate_id
valid_event_id e h =
    let fields = first_ok (validate_fields e) (ok e) h in
    let (id, reads, _) =
      >>=-eq-ok (validate_id e.event_id) _
        (>>-eq-ok (guard (e.schema_version == event_schema_version) value_error) _ fields) in
    let done : Result String = ok e.event_id in
    let (canonical, _) = guard-eq-ok (is_canonical_uuid4 e.event_id) value_error done reads in
    rw canonical refl

pub valid_brain_id :
    (e : EventEnvelope) → revalidated e ≡ ok e → validate_id e.brain_id ≡ ok e.brain_id
unfolding revalidated validate_fields is_sequence provenance_ok is_event_type validate_id
valid_brain_id e h =
    let fields = first_ok (validate_fields e) (ok e) h in
    let (id, reads, _) = >>=-eq-ok (validate_id e.brain_id) _ (
      >>-eq-ok
        (guard (has_length 1 160 e.event_type && is_event_type (codes e.event_type)) value_error) _
        (>>-eq-ok (validate_id e.event_id) _
          (>>-eq-ok (guard (e.schema_version == event_schema_version) value_error) _ fields))) in
    let done : Result String = ok e.brain_id in
    let (canonical, _) = guard-eq-ok (is_canonical_uuid4 e.brain_id) value_error done reads in
    rw canonical refl
