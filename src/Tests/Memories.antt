-- ===== src/Tests/Memories.antt =====
-- Runs of the memories and the thought space.
use alice_brain_hermes.Bounded.{keys}
use alice_brain_hermes.Prelude.{
  List, ◌++◌, is_unique, true, true, ◌≡◌, refl, arith, none, [], ◌∷◌, ok,
}
use alice_brain_hermes.Text.{is_blank, has_length}
use alice_brain_hermes.Json.{get, get_or, get_elem?, tuple_of, as_texts, end, field, str, obj, bool}
use alice_brain_hermes.Events.{EventEnvelope}
use alice_brain_hermes.Action.{RdPhase}
use alice_brain_hermes.Bounded.Evaluation.{bounded_evaluation}
use alice_brain_hermes.Workspace.Reduce.{Conversions}
use alice_brain_hermes.Memory.{
  Collection, MemoryRecord, ThoughtBranch, max_memory_records, max_thought_branches,
  simulation_branch, reduce_memories, create_simulation,
}
use alice_brain_hermes.Memory.Evaluation.{memory_evaluation}
use alice_brain_hermes.Memory.Counted.{
  IsCounted, memory_key, branch_key, reduce_memories-IsCounted, create_simulation-IsCounted,
  simulations_admitted,
}
use alice_brain_hermes.Tests.Events.{event}

program : Unit {0}
unfolding memory_evaluation bounded_evaluation is_blank has_length get get_or get_elem? tuple_of
    as_texts
program = tt

abbrev py : Conversions
py = record { float_text = λ s. none; int_text = λ s. none; truncated = λ bits. none }

abbrev no_memories : Collection MemoryRecord
no_memories = record { items = []; counter = record { total = 0; evicted = 0 } }

abbrev no_branches : Collection ThoughtBranch
no_branches = record { items = []; counter = record { total = 0; evicted = 0 } }

no_memories-IsCounted : IsCounted memory_key max_memory_records no_memories
no_memories-IsCounted = record { exact = refl; bounded = omega arith; distinct = refl }

no_branches-IsCounted : IsCounted branch_key max_thought_branches no_branches
no_branches-IsCounted = record { exact = refl; bounded = omega arith; distinct = refl }

abbrev remembers : EventEnvelope
remembers =
    event "e1" "memory.recorded" (field "content" (obj end) (field "memory_id" (str "m1") end))

abbrev one_memory : Collection MemoryRecord
one_memory = record {
  items =
      record { memory_id = "m1"; content = end; salience = 4602678819172646912; source_ids = [] }
      ∷ [];
  counter = record { total = 1; evicted = 0 };
}

remembered : reduce_memories py no_memories remembers ≡ ok one_memory
unfolding program
remembered = refl

-- Recording it again admits nothing.
remembered_again : reduce_memories py one_memory remembers ≡ ok one_memory
unfolding program
remembered_again = refl

reduce_memories-IsCounted_example : IsCounted memory_key max_memory_records one_memory
reduce_memories-IsCounted_example =
    reduce_memories-IsCounted py no_memories one_memory remembers no_memories-IsCounted remembered

abbrev simulates : EventEnvelope
simulates =
    event "e2" "simulation.created"
      (field "content" (obj end) (field "proposition_id" (str "p1") end))

branch : ThoughtBranch
branch = record {
  branch_id = "p1";
  stance = "simulate";
  content = end;
  expected_consequences =
      field "kind" (str "counterfactual") (field "requires_confirmation" (bool true) end) ∷ [];
  uncertainty = 4602678819172646912;
  source_ids = [];
  rd_phase = RdPhase.simulate;
  cognition_mode = "event";
  algorithm_version = "event-v1";
  config_version = "event-v1";
}

reads_branch : simulation_branch py simulates.payload ≡ ok branch
unfolding program branch
reads_branch = refl

abbrev one_branch : Collection ThoughtBranch
one_branch = record { items = branch ∷ []; counter = record { total = 1; evicted = 0 } }

simulated : create_simulation py no_branches simulates ≡ ok one_branch
unfolding program branch
simulated = refl

create_simulation-IsCounted_example : IsCounted branch_key max_thought_branches one_branch
create_simulation-IsCounted_example =
    create_simulation-IsCounted py no_branches one_branch simulates no_branches-IsCounted simulated

simulations_admitted_example :
    (d : Collection ThoughtBranch) × (create_simulation py no_branches simulates ≡ ok d)
    × ((older : List ThoughtBranch) × (d.items ≡ older ++ branch ∷ []))
    × (is_unique (keys branch_key d.items) ≡ true)
simulations_admitted_example =
    simulations_admitted py no_branches simulates branch no_branches-IsCounted reads_branch
