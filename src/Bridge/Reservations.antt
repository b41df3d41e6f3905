-- ===== src/Bridge/Reservations.antt =====
-- A reservation that is accepted keeps the state of the bridge consistent, and may be repeated.
use mathlib.Core.Path.{subst}
use alice_brain_hermes.Prelude.{
  ℕ, ◌+◌, ◌-◌, ◌≤◌, ◌≡◌, refl, String, true, Option, none, some, ◌∷◌, [], arith, leb, ◌&&◌, ◌==◌,
  length, all, ok, Result, value_error, guard, ◌>>=◌, >>=-eq-ok, guard-eq-ok, ◌>>◌, leb→le,
}
use alice_brain_hermes.Json.{Json, Fields, end, field, num, non_negative}
use alice_brain_hermes.Bridge.{Causes, CopyStats, max_capture_sequence}
use alice_brain_hermes.Bridge.Gaps.{is_gap_cause, total}
use alice_brain_hermes.Bridge.Reserve.{
  Reservation, ValidReservation, Reserved, reserved_observation, reserved_gap, capture_number,
  read_causes, gap_of, observation_of, read_reserved, read_reservation, read_stats, read_interval,
  valid_reservation,
}
use alice_brain_hermes.Bridge.Held.{is_cause}

-- What is reserved fits the interval.
abbrev pub Fits : ℕ → ℕ → Reserved → Type 0
Fits first last (reserved_observation hook kwargs) = last ≡ first
Fits first last (reserved_gap causes) =
    (total causes + first ≡ last + 1) × (all is_cause causes ≡ true)

-- A reservation that was read is an interval of capture numbers.
pub record IsValid (v : ValidReservation) : Type 0 where
  pub forward : v.first ≤ v.last
  pub bound : v.last ≤ max_capture_sequence
  pub fitting : Fits v.first v.last v.reserved

capture_number-bound : (j : Json) {n : ℕ} → capture_number j ≡ ok n → n ≤ max_capture_sequence
unfolding capture_number
capture_number-bound (num (non_negative m)) h = ground arith
capture_number-bound _ h = cc

read_causes-all :
    (fields : Fields) {causes : Causes}
    → read_causes fields ≡ ok causes
    → all is_cause causes ≡ true
unfolding read_causes
read_causes-all end {causes = []} h = refl
read_causes-all end {causes = x ∷ xs} h = cc
read_causes-all (field cause (num (non_negative count)) rest) h =
    let more : Causes → Result Causes = λ causes. ok ((cause, count) ∷ causes) in
    let (known, read) =
      guard-eq-ok (is_gap_cause cause && leb 1 count) value_error (read_causes rest >>= more) h in
    let (causes, later, e) = >>=-eq-ok (read_causes rest) more read in
    ground (arith, read_causes-all rest later)
read_causes-all (field cause _ rest) h = cc

gap_of-Fits :
    (hook : Option String) (kwargs : Option Fields) (first last : ℕ) (causes : Causes)
    {r : Reserved}
    → gap_of hook kwargs (last + 1 - first) causes ≡ ok r
    → first ≤ last
    → all is_cause causes ≡ true
    → Fits first last r
unfolding gap_of
gap_of-Fits none none first last causes {r = r} h forward known =
    let done : Result Reserved = ok (reserved_gap causes) in
    let (few, rest) =
      guard-eq-ok (leb 1 (length causes) && leb (length causes) 16) value_error
        (guard (total causes == last + 1 - first) value_error >> done) h in
    let (counted, e) = guard-eq-ok (total causes == last + 1 - first) value_error done rest in
    let same : reserved_gap causes ≡ r = cc in subst (Fits first last) same (ground arith, known)
gap_of-Fits (some _) _ first last causes h forward known = cc
gap_of-Fits none (some _) first last causes h forward known = cc

observation_of-Fits :
    (hook : Option String) (kwargs : Option Fields) (first last : ℕ) {r : Reserved}
    → observation_of hook kwargs (last + 1 - first) ≡ ok r
    → first ≤ last
    → Fits first last r
unfolding observation_of
observation_of-Fits (some hook) (some kwargs) first last {r = r} h forward =
    let o = reserved_observation hook kwargs in
    let (one, e) = guard-eq-ok (last + 1 - first == 1) value_error (ok o) h in
    let same : o ≡ r = cc in subst (Fits first last) same (ground arith)
observation_of-Fits none _ first last h forward = cc
observation_of-Fits (some _) none first last h forward = cc

read_reserved-Fits :
    (given : Option Fields) (hook : Option String) (kwargs : Option Fields) (first last : ℕ)
    {r : Reserved}
    → read_reserved given hook kwargs (last + 1 - first) ≡ ok r
    → first ≤ last
    → Fits first last r
unfolding read_reserved
read_reserved-Fits none hook kwargs first last h forward =
    observation_of-Fits hook kwargs first last h forward
read_reserved-Fits (some fields) hook kwargs first last h forward =
    let (causes, read, e) =
      >>=-eq-ok (read_causes fields) (gap_of hook kwargs (last + 1 - first)) h in
    gap_of-Fits hook kwargs first last causes e forward (read_causes-all fields read)

read_interval-IsValid :
    (r : Reservation) (first last : ℕ) {v : ValidReservation}
    → read_interval r first last ≡ ok v
    → last ≤ max_capture_sequence
    → IsValid v
read_interval-IsValid r first last {v = v} h bound =
    let reading = read_reserved r.gap_cause_counts r.hook r.detached_kwargs (last + 1 - first) in
    let made : CopyStats → Reserved → Result ValidReservation =
      λ stats reserved. ok (valid_reservation first last stats reserved) in
    let after : CopyStats → Result ValidReservation = λ stats. reading >>= made stats in
    let (ordered, rest) =
      guard-eq-ok (leb first last) value_error (read_stats r.copy_stats >>= after) h in
    let (stats, _, rest') = >>=-eq-ok (read_stats r.copy_stats) after rest in
    let (reserved, read, e) = >>=-eq-ok reading (made stats) rest' in
    let same : valid_reservation first last stats reserved ≡ v = cc in
    let forward = leb→le first last ordered in
    let fitting =
      read_reserved-Fits r.gap_cause_counts r.hook r.detached_kwargs first last read forward in
    subst IsValid same (record { forward = forward; bound = bound; fitting = fitting })

pub read_reservation-IsValid :
    (r : Reservation) {v : ValidReservation} → read_reservation r ≡ ok v → IsValid v
unfolding read_reservation
read_reservation-IsValid r h =
    let (first, _, rest) = >>=-eq-ok (capture_number r.first_capture_seq) _ h in
    let (last, read, e) =
      >>=-eq-ok (capture_number r.last_capture_seq) (read_interval r first) rest in
    read_interval-IsValid r first last e (capture_number-bound r.last_capture_seq read)
