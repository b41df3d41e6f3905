-- ===== src/Memory.antt =====
-- The memories and the thought space (src/alice_brain_hermes/core/workspace.py, MemoryRecord; core/action.py,
-- ThoughtBranch), and what core/reducer.py does with them: _reduce_memory, _simulation_branch, and in reduce_state the
-- counters of their working sets (core/state.py, WorkingSetCounter). Floats are bit patterns of doubles.
pub mod Evaluation
pub mod Counted
use alice_brain_hermes.Prelude.{
  ℕ, ◌+◌, ◌-◌, String, Bool, true, false, not, ◌&&◌, ◌||◌, Option, none, some, List, [], ◌∷◌, leb,
  str_eq, length, all, any, if◌then◌else◌, Error, Result, ok, err, value_error, key_error,
  type_error, domain_invariant, guard, rewrap, ◌>>=◌, ◌>>◌,
}
use alice_brain_hermes.Text.{is_blank, has_length}
use alice_brain_hermes.Json.{
  Json, Fields, null, double, num, str, arr, obj, bool, nil, cons, end, field, get, get_or,
  get_elem?, as_str, as_obj, as_arr, tuple_of, as_texts,
}
use alice_brain_hermes.Events.{EventEnvelope}
use alice_brain_hermes.Action.{RdPhase}
use alice_brain_hermes.Bounded.{upsert}
use alice_brain_hermes.Workspace.Reduce.{Conversions, unit_float, is_unit_score, require}

abbrev pub max_memory_records : ℕ
max_memory_records = 256

abbrev pub max_thought_branches : ℕ
max_thought_branches = 256

pub record MemoryRecord : Type 0 where
  pub memory_id : String
  pub content : Fields
  pub salience : ℕ
  pub source_ids : List String

pub record ThoughtBranch : Type 0 where
  pub branch_id : String
  pub stance : String
  pub content : Fields
  pub expected_consequences : List Fields
  pub uncertainty : ℕ
  pub source_ids : List String
  pub rd_phase : RdPhase
  pub cognition_mode : String
  pub algorithm_version : String
  pub config_version : String

pub record WorkingSetCounter : Type 0 where
  pub total : ℕ
  pub evicted : ℕ

-- The validation of `WorkingSetCounter`.
validate_counter : WorkingSetCounter → Result WorkingSetCounter
validate_counter c = do guard (leb c.evicted c.total) value_error; ok c

-- `_advance_working_set`, of one counter
pub advance : WorkingSetCounter → ℕ → ℕ → Result WorkingSetCounter
unfolding validate_counter
advance c admitted evicted =
    validate_counter (record { total = c.total + admitted; evicted = c.evicted + evicted })

-- A tuple of the state with the counter of its admissions and evictions.
pub record Collection (A : Type 0) : Type 0 where
  pub items : List A
  pub counter : WorkingSetCounter

-- `int(all(item.key != key for item in items))`
abbrev pub admitted_by : {A : Type 0} → (A → String) → String → List A → ℕ
admitted_by key id items = if all (λ item. not (str_eq (key item) id)) items then 1 else 0

abbrev counted_in : {A : Type 0} → List A → WorkingSetCounter → Result (Collection A)
counted_in items counter = ok (record { items = items; counter = counter })

-- The upsert of one item into a bounded tuple, and the advance of its counter.
pub admit : {A : Type 0} → (A → String) → ℕ → Collection A → A → Result (Collection A)
unfolding advance
admit key capacity c item =
    let items = upsert key capacity c.items item in
    let admitted = admitted_by key (key item) c.items in
    advance c.counter admitted (length c.items + admitted - length items) >>= counted_in items

memory_ok : MemoryRecord → Bool
memory_ok m = has_length 1 256 m.memory_id && is_unit_score m.salience

branch_ok : ThoughtBranch → Bool
branch_ok b =
    has_length 1 256 b.branch_id
    && has_length 1 64 b.stance
    && is_unit_score b.uncertainty
    && leb (length b.source_ids) 256
    && not (any is_blank b.source_ids)
    && has_length 1 64 b.cognition_mode
    && has_length 1 64 b.algorithm_version
    && has_length 1 64 b.config_version

-- The float 0.5.
abbrev half_bits : ℕ
half_bits = 4602678819172646912

-- `FrozenJsonDict(value)`: None and what is empty make an empty mapping
frozen : Json → Option Fields
frozen (obj fields) = some fields
frozen null = some end
frozen (str String.[]) = some end
frozen (arr nil) = some end
frozen _ = none

as_objects : List Json → Option (List Fields)
unfolding frozen
as_objects [] = some []
as_objects (x ∷ xs) = elim (frozen x) [
  | none ↦ none
  | some fields ↦ elim (as_objects xs) [ none ↦ none | some rest ↦ some (fields ∷ rest) ]
]

-- The consequences of a simulation that names none.
abbrev default_consequences : Json
default_consequences = arr (
    cons (obj (field "kind" (str "counterfactual") (field "requires_confirmation" (bool true) end)))
      nil)

-- `payload.get(key, default)` for a field that is a text.
text_or : Fields → String → String → Result String
text_or payload key default = require value_error (as_str (get_or payload key (str default)))

module _ (py : Conversions) where
  read_memory : Fields → Result MemoryRecord
  unfolding memory_ok
  read_memory payload = do
    id_value ← require key_error (get_elem? payload "memory_id")
    content_value ← require key_error (get_elem? payload "content")
    salience ←
        require value_error (unit_float py (get_or payload "salience" (num (double half_bits))))
    source_values ← require type_error (tuple_of (get_or payload "source_ids" (arr nil)))
    memory_id ← require value_error (as_str id_value)
    content ← require value_error (as_obj content_value)
    source_ids ← require value_error (as_texts source_values)
    let m : MemoryRecord = record {
      memory_id = memory_id;
      content = content;
      salience = salience;
      source_ids = source_ids;
    }
    guard (memory_ok m) value_error
    ok m

  read_branch : Fields → String → List Json → Result ThoughtBranch
  unfolding branch_ok text_or as_objects
  read_branch payload proposition_id consequences = do
    content_value ← require key_error (get_elem? payload "content")
    expected_consequences ← require type_error (as_objects consequences)
    uncertainty ←
        require value_error (unit_float py (get_or payload "uncertainty" (num (double half_bits))))
    source_values ← require type_error (tuple_of (get_or payload "source_ids" (arr nil)))
    branch_id ← text_or payload "branch_id" proposition_id
    stance ← text_or payload "stance" "simulate"
    content ← require value_error (as_obj content_value)
    source_ids ← require value_error (as_texts source_values)
    cognition_mode ← text_or payload "cognition_mode" "event"
    algorithm_version ← text_or payload "algorithm_version" "event-v1"
    config_version ← text_or payload "config_version" "event-v1"
    let b : ThoughtBranch = record {
      branch_id = branch_id;
      stance = stance;
      content = content;
      expected_consequences = expected_consequences;
      uncertainty = uncertainty;
      source_ids = source_ids;
      rd_phase = RdPhase.simulate;
      cognition_mode = cognition_mode;
      algorithm_version = algorithm_version;
      config_version = config_version;
    }
    guard (branch_ok b) value_error
    ok b

  -- `_simulation_branch`
  pub simulation_branch : Fields → Result ThoughtBranch
  unfolding read_branch
  simulation_branch payload = do
    proposition_id ← require domain_invariant (as_str (get payload "proposition_id"))
    guard (not (is_blank proposition_id)) domain_invariant
    consequences ←
        require domain_invariant
          (as_arr (get_or payload "expected_consequences" default_consequences))
    rewrap domain_invariant (read_branch payload proposition_id consequences)

  -- `_reduce_memory` and the counter that goes with it.
  pub reduce_memories : Collection MemoryRecord → EventEnvelope → Result (Collection MemoryRecord)
  unfolding admit read_memory
  reduce_memories c event =
      if str_eq event.event_type "memory.recorded"
      then (rewrap domain_invariant (read_memory event.payload)
          >>= admit (λ m. m.memory_id) max_memory_records c)
      else ok c

  -- The branch `simulation.created` of reduce_state; `cognition.reflected`, which changes the thoughts too, is not modelled.
  pub create_simulation :
      Collection ThoughtBranch → EventEnvelope → Result (Collection ThoughtBranch)
  unfolding admit simulation_branch
  create_simulation c event =
      simulation_branch event.payload >>= admit (λ b. b.branch_id) max_thought_branches c
