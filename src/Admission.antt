-- ===== src/Admission.antt =====
-- The bounded store of actions in reduce_state (src/alice_brain_hermes/core/reducer.py): what reduce_actions gives is
-- cut to the capacity by evicting the first terminal action, or refused, and counted.
pub mod Evaluation
pub mod Evictions
pub mod Bounds
use alice_brain_hermes.Prelude.{
  ℕ, ◌+◌, String, Bool, true, false, not, ◌&&◌, Option, none, some, List, [], ◌∷◌, leb, ◌==◌,
  str_mem, is_some, length, if◌then◌else◌, Result, ok, err, domain_capacity, ◌>>=◌,
}
use alice_brain_hermes.Events.{EventEnvelope}
use alice_brain_hermes.Action.{ActionRecord, ActionPhase, EnergyAssessmentStatus}
use alice_brain_hermes.Action.Transition.{energy_is}
use alice_brain_hermes.Action.Reduce.{reduce_actions}
use alice_brain_hermes.Action.Reduce.Lookup.{ids}
use alice_brain_hermes.Memory.{Collection, WorkingSetCounter, advance}

abbrev pub max_action_records : ℕ
max_action_records = 256

abbrev is_closed : ActionPhase → Bool
is_closed ActionPhase.blocked = true
is_closed ActionPhase.reconstructed = true
is_closed _ = false

-- The condition on the action that is evicted.
pub is_terminal : ActionRecord → Bool
is_terminal a =
    is_closed a.phase && not (energy_is a.energy_assessment_status EnergyAssessmentStatus.pending)

-- `sum(item.action_id not in previous_action_ids for item in actions)`
abbrev pub admitted_actions : List String → List ActionRecord → ℕ
admitted_actions previous [] = 0
admitted_actions previous (a ∷ rest) =
    (if str_mem a.action_id previous then 0 else 1) + admitted_actions previous rest

abbrev pub kept_with :
    ActionRecord
    → Option (ActionRecord × List ActionRecord)
    → Option (ActionRecord × List ActionRecord)
kept_with a none = none
kept_with a (some (gone, kept)) = some (gone, a ∷ kept)

-- The first terminal action, and the actions without it.
pub evict_terminal : List ActionRecord → Option (ActionRecord × List ActionRecord)
unfolding is_terminal
evict_terminal [] = none
evict_terminal (a ∷ rest) =
    let found = evict_terminal rest in if is_terminal a then some (a, rest) else kept_with a found

-- The actions that are retained, and the ID of the one that is not.
pub record Fitted : Type 0 where
  pub actions : List ActionRecord
  pub evicted_action_id : Option String

abbrev pub evicted_one : Option (ActionRecord × List ActionRecord) → Result Fitted
evicted_one none = err domain_capacity
evicted_one (some (gone, kept)) =
    ok (record { actions = kept; evicted_action_id = some gone.action_id })

pub fit : List ActionRecord → Result Fitted
unfolding evict_terminal
fit actions =
    if leb (length actions) max_action_records
    then ok (record { actions = actions; evicted_action_id = none })
    else evicted_one (evict_terminal actions)

pub count_admission : WorkingSetCounter → ℕ → Option String → Result WorkingSetCounter
count_admission counter admitted evicted =
    if admitted == 0
    then ok counter
    else advance counter admitted (if is_some evicted then 1 else 0)

-- What the step gives: the actions with their counter, the grounded observations, and the evicted ID.
pub record Admitted : Type 0 where
  pub records : Collection ActionRecord
  pub grounded : List String
  pub evicted_action_id : Option String

abbrev pub counted_as : List String → Fitted → WorkingSetCounter → Result Admitted
counted_as grounded f counter = ok (record {
  records = record { items = f.actions; counter = counter };
  grounded = grounded;
  evicted_action_id = f.evicted_action_id;
})

pub fitted_with :
    Collection ActionRecord → List ActionRecord → List String → Fitted → Result Admitted
unfolding count_admission
fitted_with c actions grounded f =
    count_admission c.counter (admitted_actions (ids c.items) actions) f.evicted_action_id
    >>= counted_as grounded f

abbrev pub reduced_with :
    Collection ActionRecord → List ActionRecord × List String → Result Admitted
reduced_with c (actions, grounded) = fit actions >>= fitted_with c actions grounded

pub admit_actions : Collection ActionRecord → EventEnvelope → Bool → Result Admitted
unfolding fit fitted_with
admit_actions c event trusted = reduce_actions c.items event trusted >>= reduced_with c
