-- ===== src/Action/Handlers/Steps.antt =====
-- What a handler may change of its action, and what it leaves alone; the transitions that most handlers make.
use alice_brain_hermes.Prelude.{
  ℕ, ◌≡◌, String, true, none, some, List, arith, ok, any, any-append, inl, inr, ◌∷◌, ◌++◌, ◌||◌,
  if◌then◌else◌, Bool-cases, length, ◌+◌, ◌≤◌, ◌≢◌, ◌⊎◌, [],
}
use alice_brain_hermes.Events.{EventEnvelope}
use alice_brain_hermes.Action.{
  ActionPhase, RdPhase, EnergyAssessmentStatus, ActionRecord, phase_is, max_action_receipt_history,
}
use alice_brain_hermes.Action.Validate.{validate_action, was}
use alice_brain_hermes.Action.Validate.Claims.{validate_action-eq}
use alice_brain_hermes.Action.Transition.{transition, moved, LifecycleEvent}

phase_is→eq : (p q : ActionPhase) → phase_is p q ≡ true → q ≡ p
phase_is→eq p q h = ground arith

pub transition_lem :
    (action : ActionRecord) (event : EventEnvelope) (required phase : ActionPhase) (rd : RdPhase)
    (updates : ActionRecord → ActionRecord) (b : ActionRecord)
    → transition action event required phase rd updates ≡ ok b
    → (action.phase ≡ required)
      × (b ≡ moved action event phase rd updates)
      × (validate_action b ≡ ok b)
unfolding transition
transition_lem action event required phase rd updates b h = ground (
  arith,
  phase_is→eq required action.phase,
  validate_action-eq (moved action event phase rd updates) b,
)

-- The step of its phase that each event makes.
abbrev pub PhaseStep : LifecycleEvent → ActionPhase → ActionPhase → Type 0
PhaseStep LifecycleEvent.proposed p q = ⊥
PhaseStep LifecycleEvent.prepared p q = (p ≡ ActionPhase.proposed) × (q ≡ ActionPhase.prepared)
PhaseStep LifecycleEvent.blocked p q = (p ≡ ActionPhase.prepared) × (q ≡ ActionPhase.blocked)
PhaseStep LifecycleEvent.dispatched p q = (p ≡ ActionPhase.prepared) × (q ≡ ActionPhase.dispatched)
PhaseStep LifecycleEvent.receipt p q =
    ((p ≡ ActionPhase.dispatched) ⊎ (p ≡ ActionPhase.receipt) ⊎ (p ≡ ActionPhase.reconstructed))
    × (q ≡ ActionPhase.receipt)
PhaseStep LifecycleEvent.reconstructed p q =
    ((p ≡ ActionPhase.blocked) ⊎ (p ≡ ActionPhase.receipt)) × (q ≡ ActionPhase.reconstructed)
PhaseStep LifecycleEvent.energy_requested p q = q ≡ p
PhaseStep LifecycleEvent.energy_assessed p q = q ≡ p
PhaseStep LifecycleEvent.energy_assessment_failed p q = q ≡ p

-- The step of the energy assessment that each event makes.
abbrev pub EnergyStep : LifecycleEvent → EnergyAssessmentStatus → EnergyAssessmentStatus → Type 0
EnergyStep LifecycleEvent.energy_requested p q =
    ((p ≡ EnergyAssessmentStatus.unrequested) ⊎ (p ≡ EnergyAssessmentStatus.assessed))
    × (q ≡ EnergyAssessmentStatus.pending)
EnergyStep LifecycleEvent.energy_assessed p q =
    ((p ≡ EnergyAssessmentStatus.unrequested) ⊎ (p ≡ EnergyAssessmentStatus.pending))
    × (q ≡ EnergyAssessmentStatus.assessed)
EnergyStep LifecycleEvent.energy_assessment_failed p q =
    (p ≡ EnergyAssessmentStatus.pending) × (q ≡ EnergyAssessmentStatus.failed)
EnergyStep _ p q = q ≡ p

abbrev pub receipts_of : LifecycleEvent → ℕ
receipts_of LifecycleEvent.receipt = 1
receipts_of _ = 0

abbrev pub all_receipts : ActionRecord → ℕ
all_receipts a = length a.receipt_history + a.receipt_history_evicted

-- What a handler leaves alone, and what it may change.
pub record Handled (kind : LifecycleEvent) (a b : ActionRecord) (grounded : List String)
    : Type 0 where
  pub valid : validate_action b ≡ ok b
  pub same_id : b.action_id ≡ a.action_id
  pub same_intent : b.intent ≡ a.intent
  pub same_proposal : b.proposed_event_id ≡ a.proposed_event_id
  pub phase_step : PhaseStep kind a.phase b.phase
  pub energy_step : EnergyStep kind a.energy_assessment_status b.energy_assessment_status
  pub outcome_kept : a.outcome ≢ none → b.outcome ≡ a.outcome
  pub dispatched_kept : was ActionPhase.dispatched a ≡ true → was ActionPhase.dispatched b ≡ true
  pub blocked_kept : was ActionPhase.blocked a ≡ true → was ActionPhase.blocked b ≡ true
  pub phase_recorded : was a.phase a ≡ true → was b.phase b ≡ true
  pub execution_kept :
      b.phase ≢ ActionPhase.blocked
      → a.execution_confirmed ≡ some true
      → b.execution_confirmed ≡ some true
  pub effect_kept : a.effect_confirmed ≡ some true → b.effect_confirmed ≡ some true
  pub effect_grounded : grounded ≡ [] → b.effect_confirmed ≡ a.effect_confirmed
  pub receipts_counted :
      length a.receipt_history ≤ max_action_receipt_history
      → all_receipts b ≡ all_receipts a + receipts_of kind

phase_is_refl : (p : ActionPhase) → phase_is p p ≡ true
phase_is_refl p = ground arith

any_is :
    (p q : ActionPhase) (l : List ActionPhase)
    → any (phase_is q) l ≡ true
    → phase_is p q ≡ true
    → any (phase_is p) l ≡ true
any_is p q [] h e = ground arith
any_is p q (x ∷ l) h e = ground (arith, any_is p q l)

pub any-moved :
    (p q : ActionPhase) (l : List ActionPhase)
    → any (phase_is p) (if any (phase_is q) l then l else l ++ q ∷ [])
      ≡ (any (phase_is p) l || phase_is p q)
any-moved p q l = elim (Bool-cases (any (phase_is q) l)) [
  | inl e ↦ rw e (ground (arith, any_is p q l))
  | inr e ↦ rw e (ground (arith, any-append (phase_is p) l (q ∷ [])))
]

-- The phases that a record has been in, after its history has been extended.
pub extended_phases :
    (q : ActionPhase) (a b : ActionRecord)
    → b.phase ≡ q
    → b.phase_history
      ≡ (if any (phase_is q) a.phase_history then a.phase_history else a.phase_history ++ q ∷ [])
    → (was ActionPhase.dispatched a ≡ true → was ActionPhase.dispatched b ≡ true)
      × (was ActionPhase.blocked a ≡ true → was ActionPhase.blocked b ≡ true)
      × (was b.phase b ≡ true)
extended_phases q a b e h =
    rw (h, e)
      (
        ground (arith, any-moved ActionPhase.dispatched q a.phase_history),
        ground (arith, any-moved ActionPhase.blocked q a.phase_history),
        ground (arith, any-moved q q a.phase_history, phase_is_refl q),
      )
