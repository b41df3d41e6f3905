-- ===== src/Bridge/Accepted.antt =====
-- A reservation that is accepted: what it takes, and that it may be repeated.
use mathlib.Core.Path.{subst}
use alice_brain_hermes.Prelude.{
  ◌+◌, ◌≡◌, refl, sym, ap, ◌∙◌, ◌⊎◌, Bool, true, false, inl, inr, Option, none, some, arith, ◌==◌,
  Bool-cases, ok, value_error, >>=-eq-ok, guard-eq-ok,
}
use alice_brain_hermes.Bridge.{Receipt, HookBridge, Disposition}
use alice_brain_hermes.Bridge.Capture.{Shape, Fault}
use alice_brain_hermes.Bridge.Reserve.{
  Reservation, ValidReservation, read_reservation, publish_reserved, reserved_by, receipt_of,
  is_repeat, repeat_reservation, accept_reservation, capture_reserved,
}
use alice_brain_hermes.Bridge.Held.{IsHookBridge}
use alice_brain_hermes.Bridge.Reservations.{IsValid, read_reservation-IsValid}
use alice_brain_hermes.Bridge.Acceptance.{
  published-Takes, Accepts, reserved_by-Accepts, is_repeat_refl, is_repeat-eq,
}

-- The last reservation again changes nothing, and has the same disposition.
repeat_reservation_noted :
    (b : HookBridge) (v : ValidReservation) (d : Disposition)
    → b.next_capture_seq ≡ v.last + 1
    → repeat_reservation b v (some (receipt_of v d)) ≡ ok (b, d)
unfolding repeat_reservation
repeat_reservation_noted b v d e =
    let again = is_repeat_refl v d (b.next_capture_seq) e in rw again refl

accept_reservation-Accepts :
    (shape : Shape) (fault : Fault) (b : HookBridge) (v : ValidReservation)
    → IsHookBridge b
    → IsValid v
    → v.first ≡ b.next_capture_seq
    → Accepts b
        (reserved_by b (publish_reserved shape fault b v v.reserved) v b.close_sealed).0
        v
        (reserved_by b (publish_reserved shape fault b v v.reserved) v b.close_sealed).1
accept_reservation-Accepts shape fault b v is valid e =
    reserved_by-Accepts b (publish_reserved shape fault b v v.reserved) v b.close_sealed is valid e
      (published-Takes shape fault b v v.reserved is e valid.forward valid.fitting) refl

-- The outcome of a reservation: what was read of it starts at the next number and is accepted, or it is the one that left
-- the last receipt, with the receipt's disposition, no number was taken since, and nothing changes.
pub data Reserves (b : HookBridge) (r : Reservation) : HookBridge → Disposition → Type 0 where
  taken :
      (v : ValidReservation) {b' : HookBridge} {d : Disposition}
      → read_reservation r ≡ ok v
      → v.first ≡ b.next_capture_seq
      → Accepts b b' v d
      → Reserves b r b' d
  repeated :
      (v : ValidReservation) {d : Disposition}
      → read_reservation r ≡ ok v
      → b.last_bootstrap_reservation ≡ some (receipt_of v d)
      → b.next_capture_seq ≡ v.last + 1
      → Reserves b r b d

-- The receipt that a reservation has left, and the number after it.
record Left (b : HookBridge) (v : ValidReservation) (d : Disposition) : Type 0 where
  receipt : b.last_bootstrap_reservation ≡ some (receipt_of v d)
  next : b.next_capture_seq ≡ v.last + 1

repeated_lem :
    (b : HookBridge) (v : ValidReservation) (last : Option Receipt) {b' : HookBridge}
    {d : Disposition}
    → b.last_bootstrap_reservation ≡ last
    → repeat_reservation b v last ≡ ok (b', d)
    → (b ≡ b') × Left b v d
unfolding repeat_reservation
repeated_lem b v none e h = cc
repeated_lem b v (some previous) {b' = b'} {d = d} e h =
    let (again, made) =
      guard-eq-ok (is_repeat b.next_capture_seq v previous) value_error
        (ok (b, previous.disposition)) h in
    let found : HookBridge × Disposition = (b, previous.disposition) in
    let given : HookBridge × Disposition = (b', d) in
    let same : found ≡ given = cc in
    let (left, next) = is_repeat-eq b.next_capture_seq v previous again in
    (
      ap (λ p. p.0) same,
      record { receipt = e ∙ ap some (left ∙ ap (λ p. receipt_of v p.1) same); next = next },
    )

accept_reservation_cases :
    (shape : Shape) (fault : Fault) (b : HookBridge) (v : ValidReservation)
    → ((v.first ≡ b.next_capture_seq)
        × (accept_reservation shape fault b v
            ≡ ok (reserved_by b (publish_reserved shape fault b v v.reserved) v b.close_sealed)))
      ⊎ ((v.first == b.next_capture_seq) ≡ false)
        × (accept_reservation shape fault b v ≡ repeat_reservation b v b.last_bootstrap_reservation)
unfolding accept_reservation
accept_reservation_cases shape fault b v = elim (Bool-cases (v.first == b.next_capture_seq)) [
  | inl e ↦ inl (ground arith, rw e refl)
  | inr e ↦ inr (e, rw e refl)
]

pub capture_reserved-Reserves :
    (shape : Shape) (fault : Fault) (b : HookBridge) (r : Reservation) {b' : HookBridge}
    {d : Disposition}
    → IsHookBridge b
    → capture_reserved shape fault b r ≡ ok (b', d)
    → Reserves b r b' d
unfolding capture_reserved
capture_reserved-Reserves shape fault b r {b' = b'} {d = d} is h =
    let (v, read, accept) = >>=-eq-ok (read_reservation r) (accept_reservation shape fault b) h in
    let valid = read_reservation-IsValid r read in
    elim (accept_reservation_cases shape fault b v) [
      | inl (e, made) ↦
          let done = reserved_by b (publish_reserved shape fault b v v.reserved) v b.close_sealed in
          let given : HookBridge × Disposition = (b', d) in
          let same : done ≡ given = cc in
          let accepts = accept_reservation-Accepts shape fault b v is valid e in
          subst (λ p. Reserves b r p.0 p.1) same (Reserves.taken v read e accepts)
      | inr (_, made) ↦
          let (same, left) =
            repeated_lem b v b.last_bootstrap_reservation refl (sym made ∙ accept) in
          subst (λ c. Reserves b r c d) same (Reserves.repeated v read left.receipt left.next)
    ]

reserved_by-Left :
    (b b' : HookBridge) (v : ValidReservation) (sealed : Bool)
    → Left (reserved_by b b' v sealed).0 v (reserved_by b b' v sealed).1
reserved_by-Left b b' v true = record { receipt = refl; next = refl }
reserved_by-Left b b' v false = record { receipt = refl; next = refl }

-- A reservation that succeeded has left its receipt.
accept_reservation-Left :
    (shape : Shape) (fault : Fault) (b : HookBridge) (v : ValidReservation) (b' : HookBridge)
    (d : Disposition)
    → accept_reservation shape fault b v ≡ ok (b', d)
    → Left b' v d
accept_reservation-Left shape fault b v b' d h = elim (accept_reservation_cases shape fault b v) [
  | inl (e, made) ↦
      let published = publish_reserved shape fault b v v.reserved in
      let done = reserved_by b published v b.close_sealed in
      let given : HookBridge × Disposition = (b', d) in
      let same : done ≡ given = cc in
      subst (λ p. Left p.0 v p.1) same (reserved_by-Left b published v b.close_sealed)
  | inr (_, made) ↦
      let (same, left) = repeated_lem b v b.last_bootstrap_reservation refl (sym made ∙ h) in
      subst (λ c. Left c v d) same left
]

-- A reservation that succeeded may be sent again in any state that has the next number and the last receipt that it left,
-- and under any circumstances of the shaping and the queue: it succeeds with the same disposition, and changes nothing.
pub capture_reserved_again :
    (shape shape' : Shape) (fault fault' : Fault) (b : HookBridge) (r : Reservation)
    (b' later : HookBridge) (d : Disposition)
    → capture_reserved shape fault b r ≡ ok (b', d)
    → later.next_capture_seq ≡ b'.next_capture_seq
    → later.last_bootstrap_reservation ≡ b'.last_bootstrap_reservation
    → capture_reserved shape' fault' later r ≡ ok (later, d)
unfolding capture_reserved
capture_reserved_again shape shape' fault fault' b r b' later d h same_next same_receipt =
    let (v, read, accept) = >>=-eq-ok (read_reservation r) (accept_reservation shape fault b) h in
    let valid = read_reservation-IsValid r read in
    let left = accept_reservation-Left shape fault b v b' d accept in
    let next = same_next ∙ left.next in
    rw read (elim (accept_reservation_cases shape' fault' later v) [
      | inl (e, _) ↦ absurd (omega (arith, next, valid.forward))
      | inr (_, made) ↦
          made
          ∙ ap (repeat_reservation later v) (same_receipt ∙ left.receipt)
          ∙ repeat_reservation_noted later v d next
    ])
