-- ===== src/Action/Handlers/Verdicts.antt =====
-- How a receipt meets an outcome that is already settled, and what an untrusted event cannot do.
use alice_brain_hermes.Prelude.{
  ◌+◌, String, ◌≡◌, ◌≢◌, refl, inl, Bool, false, some, List, [], arith, ok, >>=-eq-ok,
}
use alice_brain_hermes.Json.{get}
use alice_brain_hermes.Events.{EventEnvelope}
use alice_brain_hermes.Action.{
  ActionPhase, RdPhase, ActionOutcome, ActionReceiptStatus, ActionRecord, outcome_is, outcome_of,
}
use alice_brain_hermes.Action.Validate.{receipt_status}
use alice_brain_hermes.Action.Validate.Claims.{validate_action-eq}
use alice_brain_hermes.Action.Grounding.{receipt_grounded_ids}
use alice_brain_hermes.Action.Grounding.Sound.{receipt_grounded_ids-IsLinked, IsLinked}
use alice_brain_hermes.Action.Transition.{LifecycleEvent, moved, receipt_disposition}
use alice_brain_hermes.Action.Receive.{
  receive, receive_with, read_receipt, Receipt, counted, receive_updates,
}
use alice_brain_hermes.Action.Handlers.{handle}
use alice_brain_hermes.Action.Handlers.Steps.{transition_lem}
use alice_brain_hermes.Action.Handlers.Cases.{updates_of, received_again, handle-Handled}

-- What the branch has read comes from the event.
record Reads (e : EventEnvelope) (trusted : Bool) (r : Receipt) : Type 0 where
  status_read : receipt_status (get e.payload "status") ≡ some r.status
  grounded_read : receipt_grounded_ids e trusted ≡ ok r.grounded

read_receipt-Reads :
    (a : ActionRecord) (e : EventEnvelope) (trusted : Bool) (r : Receipt)
    → read_receipt a e trusted ≡ ok r
    → Reads e trusted r
unfolding read_receipt
read_receipt-Reads a e trusted r h = ground arith

verdict_with :
    (a : ActionRecord) (e : EventEnvelope) (r : Receipt) (b : ActionRecord) (grounded : List String)
    (settled incoming : ActionOutcome)
    → a.outcome ≡ some settled
    → outcome_of r.status ≡ some incoming
    → receive_with a e r ≡ ok (b, grounded)
    → (b.outcome ≡ some settled)
      × (b.receipt_corroboration_count
          ≡ a.receipt_corroboration_count + counted (outcome_is settled incoming))
      × (b.receipt_conflict_count + counted (outcome_is settled incoming)
          ≡ a.receipt_conflict_count + 1)
unfolding receive_with moved receive_updates receipt_disposition
verdict_with a e r b grounded settled incoming was_settled says h = ground (
  arith,
  validate_action-eq (received_again a e r) b,
  transition_lem a e a.phase ActionPhase.receipt RdPhase.prepare (updates_of a e r) b,
)

-- A receipt with a confirmed status for an action whose outcome is settled leaves the outcome, and counts as one
-- corroboration if the two agree and as one conflict if not.
pub receipt_verdict :
    (a : ActionRecord) (e : EventEnvelope) (trusted : Bool) (b : ActionRecord)
    (grounded : List String) (status : ActionReceiptStatus) (settled incoming : ActionOutcome)
    → a.outcome ≡ some settled
    → receipt_status (get e.payload "status") ≡ some status
    → outcome_of status ≡ some incoming
    → handle LifecycleEvent.receipt a e trusted ≡ ok (b, grounded)
    → (b.outcome ≡ some settled)
      × (b.receipt_corroboration_count
          ≡ a.receipt_corroboration_count + counted (outcome_is settled incoming))
      × (b.receipt_conflict_count + counted (outcome_is settled incoming)
          ≡ a.receipt_conflict_count + 1)
unfolding handle receive
receipt_verdict a e trusted b grounded status settled incoming was_settled reads says h =
    let (r, finds, makes) = >>=-eq-ok (read_receipt a e trusted) (receive_with a e) h in
    let from = read_receipt-Reads a e trusted r finds in
    verdict_with a e r b grounded settled incoming was_settled (ground (arith, from.status_read))
      makes

receive_with-grounded :
    (a : ActionRecord) (e : EventEnvelope) (r : Receipt) (b : ActionRecord) (grounded : List String)
    → receive_with a e r ≡ ok (b, grounded)
    → grounded ≡ r.grounded
unfolding receive_with
receive_with-grounded a e r b grounded h = ground arith

receipt-IsLinked :
    (a : ActionRecord) (e : EventEnvelope) (trusted : Bool) (b : ActionRecord)
    (grounded : List String)
    → receive a e trusted ≡ ok (b, grounded)
    → IsLinked e.payload grounded × (trusted ≡ false → grounded ≡ [])
unfolding receive
receipt-IsLinked a e trusted b grounded h =
    let (r, finds, makes) = >>=-eq-ok (read_receipt a e trusted) (receive_with a e) h in
    let from = read_receipt-Reads a e trusted r finds in
    rw (receive_with-grounded a e r b grounded makes)
      (receipt_grounded_ids-IsLinked e trusted r.grounded from.grounded_read)

nothing-IsLinked :
    (e : EventEnvelope) (trusted : Bool) (grounded : List String)
    → grounded ≡ []
    → IsLinked e.payload grounded × (trusted ≡ false → grounded ≡ [])
nothing-IsLinked e trusted grounded h =
    let none_linked : IsLinked e.payload [] = record {
      named = inl refl;
      distinct = refl;
      bounded = omega arith;
      supplied = refl;
    } in
    (rw h none_linked, λ u. h)

handle-IsLinked :
    (kind : LifecycleEvent) (a : ActionRecord) (e : EventEnvelope) (trusted : Bool)
    (b : ActionRecord) (grounded : List String)
    → handle kind a e trusted ≡ ok (b, grounded)
    → IsLinked e.payload grounded × (trusted ≡ false → grounded ≡ [])
unfolding handle
handle-IsLinked LifecycleEvent.receipt a e trusted b grounded h =
    receipt-IsLinked a e trusted b grounded h
handle-IsLinked _ a e trusted b grounded h = nothing-IsLinked e trusted grounded (ground arith)

-- What a handler grounds is nothing, or exactly the observations whose IDs the event's effect evidence lists, each of them
-- distinct and with its object among the event's observations; it newly confirms an effect only if it grounds some. An
-- untrusted event grounds none, and leaves the effect as it was.
pub effects_grounded :
    (kind : LifecycleEvent) (a : ActionRecord) (e : EventEnvelope) (trusted : Bool)
    (b : ActionRecord) (grounded : List String)
    → handle kind a e trusted ≡ ok (b, grounded)
    → IsLinked e.payload grounded
      × (b.effect_confirmed ≢ a.effect_confirmed → grounded ≢ [])
      × (trusted ≡ false → (grounded ≡ []) × (b.effect_confirmed ≡ a.effect_confirmed))
effects_grounded kind a e trusted b grounded h =
    let (linked, untrusted) = handle-IsLinked kind a e trusted b grounded h in
    let does = handle-Handled kind a e trusted b grounded h in
    (
      linked,
      (λ differs none_grounded. differs (does.effect_grounded none_grounded)),
      λ u. (untrusted u, does.effect_grounded (untrusted u)),
    )
