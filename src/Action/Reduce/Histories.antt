-- ===== src/Action/Reduce/Histories.antt =====
-- What an accepted event leaves of the actions that it does not name, and of the one that it names.
use mathlib.Core.Path.{subst}
use alice_brain_hermes.Prelude.{
  String, ◌≡◌, ◌≢◌, ◌⊎◌, refl, Bool, true, some, List, str_eq, eq_iff, arith, ok, Bool-cases, inl,
  inr,
}
use alice_brain_hermes.Events.{EventEnvelope}
use alice_brain_hermes.Action.{ActionRecord}
use alice_brain_hermes.Action.Transition.{LifecycleEvent, lifecycle_of}
use alice_brain_hermes.Action.Handlers.{handle}
use alice_brain_hermes.Action.Handlers.Steps.{Handled, PhaseStep, EnergyStep}
use alice_brain_hermes.Action.Reduce.{fresh, find, reduce_actions, action_id_from_event}
use alice_brain_hermes.Action.Reduce.Lookup.{find-id, find-replace, find-snoc}
use alice_brain_hermes.Action.Reduce.Change.{Change, reduce_actions-Change}

Change-frame :
    (e : EventEnvelope) {trusted : Bool} {before after : List ActionRecord} {grounded : List String}
    (other : String)
    → Change e trusted before after grounded
    → action_id_from_event e ≢ ok other
    → find other after ≡ find other before
Change-frame e other (Change.ignored same _) n = rw same
Change-frame e {before} other (Change.added id intent named _ _ longer _) n =
    rw longer (ground (arith, find-snoc other before (fresh id intent e), eq_iff id other))
Change-frame e {before} other (Change.handled kind id a b _ named found replaced _ h) n =
    rw replaced (
      ground (
        arith,
        h.same_id,
        find-replace other before b,
        find-id id before a,
        eq_iff b.action_id other,
      ))

-- An accepted event changes no action but the one that it names.
pub reduce_actions-frame :
    (e : EventEnvelope) (trusted : Bool) (before after : List ActionRecord) (grounded : List String)
    (other : String)
    → action_id_from_event e ≢ ok other
    → reduce_actions before e trusted ≡ ok (after, grounded)
    → find other after ≡ find other before
reduce_actions-frame e trusted before after grounded other n h =
    Change-frame e other (reduce_actions-Change e trusted before after grounded h) n

-- What an event makes of the action that an ID finds.
pub data Progress (e : EventEnvelope) (trusted : Bool) (grounded : List String) (a b : ActionRecord)
    : Type 0 where
  kept : b ≡ a → Progress e trusted grounded a b
  moved :
      (kind : LifecycleEvent)
      → lifecycle_of e.event_type ≡ some kind
      → handle kind a e trusted ≡ ok (b, grounded)
      → Handled kind a b grounded
      → Progress e trusted grounded a b

same_action :
    (before : List ActionRecord) (other id : String) (x a b : ActionRecord)
    → find other before ≡ some x
    → find id before ≡ some a
    → b.action_id ≡ x.action_id
    → str_eq b.action_id id ≡ true
    → x ≡ a
same_action before other id x a b fx fa e same =
    ground (arith, find-id other before x fx, eq_iff b.action_id id)

Change-Progress :
    (e : EventEnvelope) {trusted : Bool} {before after : List ActionRecord} {grounded : List String}
    (id : String) (a : ActionRecord)
    → Change e trusted before after grounded
    → find id before ≡ some a
    → (b : ActionRecord) × (find id after ≡ some b) × Progress e trusted grounded a b
Change-Progress e id a (Change.ignored same _) f = (a, rw same f, Progress.kept refl)
Change-Progress e {before = before} id a (Change.added new intent named _ _ longer _) f =
    (a, rw longer (ground (arith, find-snoc id before (fresh new intent e))), Progress.kept refl)
Change-Progress e {trusted} {before = before} {grounded = grounded} id a
      (Change.handled kind other x b typed named found replaced does h) f =
    elim (Bool-cases (str_eq b.action_id id)) [
      | inl same ↦ (
        b,
        rw replaced (ground (arith, find-replace id before b)),
        subst (λ z. Progress e trusted grounded z b)
            (same_action before other id x a b found f h.same_id same)
            (Progress.moved kind typed does h),
      )
      | inr differs ↦
          (a, rw replaced (ground (arith, find-replace id before b)), Progress.kept refl)
    ]

-- An action that is there stays there, and is as it was, or has gone through its event's branch.
pub reduce_actions-Progress :
    (e : EventEnvelope) (trusted : Bool) (before after : List ActionRecord) (grounded : List String)
    (id : String) (a : ActionRecord)
    → reduce_actions before e trusted ≡ ok (after, grounded)
    → find id before ≡ some a
    → (b : ActionRecord) × (find id after ≡ some b) × Progress e trusted grounded a b
reduce_actions-Progress e trusted before after grounded id a h found =
    Change-Progress e id a (reduce_actions-Change e trusted before after grounded h) found

-- What stays of an action under an event, and how its phase may move.
pub record Continues (e : EventEnvelope) (a b : ActionRecord) : Type 0 where
  pub phases :
      (b.phase ≡ a.phase)
      ⊎ ((kind : LifecycleEvent) × (lifecycle_of e.event_type ≡ some kind)
          × PhaseStep kind a.phase b.phase)
  pub energy :
      (b.energy_assessment_status ≡ a.energy_assessment_status)
      ⊎ ((kind : LifecycleEvent) × (lifecycle_of e.event_type ≡ some kind)
          × EnergyStep kind a.energy_assessment_status b.energy_assessment_status)
  pub same_id : b.action_id ≡ a.action_id
  pub same_intent : b.intent ≡ a.intent
  pub same_proposal : b.proposed_event_id ≡ a.proposed_event_id

Progress-Continues :
    (e : EventEnvelope) {trusted : Bool} {grounded : List String} {a b : ActionRecord}
    → Progress e trusted grounded a b
    → Continues e a b
Progress-Continues e (Progress.kept same) = rw same (record {
  phases = inl refl;
  energy = inl refl;
  same_id = refl;
  same_intent = refl;
  same_proposal = refl;
})
Progress-Continues e (Progress.moved kind typed _ h) = record {
  phases = inr (kind, typed, h.phase_step);
  energy = inr (kind, typed, h.energy_step);
  same_id = h.same_id;
  same_intent = h.same_intent;
  same_proposal = h.same_proposal;
}

-- Under an accepted event an action keeps its ID, its intent and its proposal, and its phase and the status of its
-- energy assessment stay or take the step that the type of the event allows.
pub reduce_actions-Continues :
    (e : EventEnvelope) (trusted : Bool) (before after : List ActionRecord) (grounded : List String)
    (id : String) (a : ActionRecord)
    → reduce_actions before e trusted ≡ ok (after, grounded)
    → find id before ≡ some a
    → (b : ActionRecord) × (find id after ≡ some b) × Continues e a b
reduce_actions-Continues e trusted before after grounded id a h found =
    let (b, there, moves) = reduce_actions-Progress e trusted before after grounded id a h found in
    (b, there, Progress-Continues e moves)
