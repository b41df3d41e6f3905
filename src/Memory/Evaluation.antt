-- ===== src/Memory/Evaluation.antt =====
-- Opens the definitions of the module above for tests that evaluate them.
use alice_brain_hermes.Memory.{
  validate_counter, advance, admit, memory_ok, branch_ok, frozen, as_objects, text_or, read_memory,
  read_branch, simulation_branch, reduce_memories, create_simulation,
}
use alice_brain_hermes.Workspace.Reduce.Evaluation.{broadcast_evaluation}

unfoldable pub memory_evaluation : Unit {0}
unfolding validate_counter advance admit memory_ok branch_ok frozen as_objects text_or read_memory
    read_branch simulation_branch reduce_memories create_simulation broadcast_evaluation
memory_evaluation = tt
