-- ===== src/Action/Reduce/Change.antt =====
-- The ways in which an accepted event changes the tuple of actions, from the code of reduce_actions.
use alice_brain_hermes.Prelude.{
  String, ◌≡◌, refl, ◌∙◌, ap, Bool, false, not, Option, none, some, List, [], ◌∷◌, ◌++◌, str_eq,
  str_mem, any, arith, ok, >>=-eq-ok, guard-eq-ok, rewrap, rewrap-eq-ok, ◌>>=◌, domain_invariant,
}
use alice_brain_hermes.Json.{Fields, get, as_obj}
use alice_brain_hermes.Events.{EventEnvelope}
use alice_brain_hermes.Action.{ActionRecord}
use alice_brain_hermes.Action.Validate.{validate_action}
use alice_brain_hermes.Action.Validate.Claims.{validate_action-eq}
use alice_brain_hermes.Action.Grounding.{require}
use alice_brain_hermes.Action.Transition.{LifecycleEvent, lifecycle_of}
use alice_brain_hermes.Action.Handlers.{handle}
use alice_brain_hermes.Action.Handlers.Steps.{Handled}
use alice_brain_hermes.Action.Handlers.Cases.{handle-Handled}
use alice_brain_hermes.Action.Reduce.{
  find, replace, propose, propose_with, handle_found, fresh, step, reduce_lifecycle, reduce_actions,
  action_id_from_event,
}
use alice_brain_hermes.Action.Reduce.Lookup.{ids, any-eq-mem}

-- What an event that the reducer accepts does to the actions.
pub data Change (e : EventEnvelope) (trusted : Bool) (before after : List ActionRecord)
    (grounded : List String) : Type 0 where
  ignored : after ≡ before → grounded ≡ [] → Change e trusted before after grounded
  added :
      (id : String) (intent : Fields)
      → action_id_from_event e ≡ ok id
      → str_mem id (ids before) ≡ false
      → validate_action (fresh id intent e) ≡ ok (fresh id intent e)
      → after ≡ before ++ fresh id intent e ∷ []
      → grounded ≡ []
      → Change e trusted before after grounded
  handled :
      (kind : LifecycleEvent) (id : String) (a b : ActionRecord)
      → lifecycle_of e.event_type ≡ some kind
      → action_id_from_event e ≡ ok id
      → find id before ≡ some a
      → after ≡ replace before b
      → handle kind a e trusted ≡ ok (b, grounded)
      → Handled kind a b grounded
      → Change e trusted before after grounded

require-eq-ok {ℓ} : {A : Type ℓ} (o : Option A) (a : A) → require o ≡ ok a → o ≡ some a
require-eq-ok none a h = cc
require-eq-ok (some b) a h = ground arith

propose_with_lem :
    (id : String) (before : List ActionRecord) (e : EventEnvelope) (intent : Fields)
    (after : List ActionRecord)
    → propose_with id before e intent ≡ ok after
    → (validate_action (fresh id intent e) ≡ ok (fresh id intent e))
      × (after ≡ before ++ fresh id intent e ∷ [])
unfolding propose_with
propose_with_lem id before e intent after h =
    let (a, valid, rest) =
      >>=-eq-ok (rewrap domain_invariant (validate_action (fresh id intent e)))
        (λ a. ok (before ++ a ∷ [])) h in
    let accepted = rewrap-eq-ok domain_invariant (validate_action (fresh id intent e)) valid in
    let same = validate_action-eq (fresh id intent e) a accepted in (accepted ∙ ap ok same, cc)

proposed_lem :
    (e : EventEnvelope) (trusted : Bool) (before after : List ActionRecord) (grounded : List String)
    (id : String)
    → action_id_from_event e ≡ ok id
    → step LifecycleEvent.proposed before e trusted id ≡ ok (after, grounded)
    → Change e trusted before after grounded
unfolding step propose
proposed_lem e trusted before after grounded id named h =
    let (proposals, proposes, rest) = >>=-eq-ok (propose id before e) (λ l. ok (l, [])) h in
    let (absent, asks) =
      guard-eq-ok (not (any (λ item. str_eq item.action_id id) before)) domain_invariant
        (require (as_obj (get e.payload "intent")) >>= propose_with id before e) proposes in
    let (intent, _, adds) =
      >>=-eq-ok (require (as_obj (get e.payload "intent"))) (propose_with id before e) asks in
    let (valid, longer) = propose_with_lem id before e intent proposals adds in
    Change.added id intent named (ground (arith, any-eq-mem id before)) valid (ground arith)
      (ground arith)

handled_lem :
    (kind : LifecycleEvent) (e : EventEnvelope) (trusted : Bool) (before after : List ActionRecord)
    (grounded : List String) (id : String)
    → lifecycle_of e.event_type ≡ some kind
    → action_id_from_event e ≡ ok id
    → require (find id before) >>= handle_found kind before e trusted ≡ ok (after, grounded)
    → Change e trusted before after grounded
unfolding handle_found
handled_lem kind e trusted before after grounded id typed named h =
    let (a, finds, applies) =
      >>=-eq-ok (require (find id before)) (handle_found kind before e trusted) h in
    let ((b, g), handles, rest) =
      >>=-eq-ok (handle kind a e trusted) (λ (u, g). ok (replace before u, g)) applies in
    Change.handled kind id a b typed named (require-eq-ok (find id before) a finds) (ground arith)
      (ground arith) (handle-Handled kind a e trusted b grounded (ground arith))

step-Change :
    (kind : LifecycleEvent) (e : EventEnvelope) (trusted : Bool) (before after : List ActionRecord)
    (grounded : List String) (id : String)
    → lifecycle_of e.event_type ≡ some kind
    → action_id_from_event e ≡ ok id
    → step kind before e trusted id ≡ ok (after, grounded)
    → Change e trusted before after grounded
unfolding step
step-Change LifecycleEvent.proposed e trusted before after grounded id typed named h =
    proposed_lem e trusted before after grounded id named h
step-Change LifecycleEvent.prepared e trusted before after grounded id typed named h =
    handled_lem LifecycleEvent.prepared e trusted before after grounded id typed named h
step-Change LifecycleEvent.blocked e trusted before after grounded id typed named h =
    handled_lem LifecycleEvent.blocked e trusted before after grounded id typed named h
step-Change LifecycleEvent.dispatched e trusted before after grounded id typed named h =
    handled_lem LifecycleEvent.dispatched e trusted before after grounded id typed named h
step-Change LifecycleEvent.receipt e trusted before after grounded id typed named h =
    handled_lem LifecycleEvent.receipt e trusted before after grounded id typed named h
step-Change LifecycleEvent.reconstructed e trusted before after grounded id typed named h =
    handled_lem LifecycleEvent.reconstructed e trusted before after grounded id typed named h
step-Change LifecycleEvent.energy_requested e trusted before after grounded id typed named h =
    handled_lem LifecycleEvent.energy_requested e trusted before after grounded id typed named h
step-Change LifecycleEvent.energy_assessed e trusted before after grounded id typed named h =
    handled_lem LifecycleEvent.energy_assessed e trusted before after grounded id typed named h
step-Change LifecycleEvent.energy_assessment_failed e trusted before after grounded id typed named
      h =
    handled_lem LifecycleEvent.energy_assessment_failed e trusted before after grounded id typed
      named h

lifecycle-Change :
    (o : Option LifecycleEvent) (e : EventEnvelope) (trusted : Bool)
    (before after : List ActionRecord) (grounded : List String)
    → lifecycle_of e.event_type ≡ o
    → reduce_lifecycle o before e trusted ≡ ok (after, grounded)
    → Change e trusted before after grounded
unfolding reduce_lifecycle
lifecycle-Change none e trusted before after grounded typed h =
    Change.ignored (ground arith) (ground arith)
lifecycle-Change (some kind) e trusted before after grounded typed h =
    let (id, named, steps) = >>=-eq-ok (action_id_from_event e) (step kind before e trusted) h in
    step-Change kind e trusted before after grounded id typed named steps

-- The reducer makes no other change.
pub reduce_actions-Change :
    (e : EventEnvelope) (trusted : Bool) (before after : List ActionRecord) (grounded : List String)
    → reduce_actions before e trusted ≡ ok (after, grounded)
    → Change e trusted before after grounded
unfolding reduce_actions
reduce_actions-Change e trusted before after grounded h =
    lifecycle-Change (lifecycle_of e.event_type) e trusted before after grounded refl h
