-- ===== src/Action/Reduce/Evaluation.antt =====
-- Opens the definitions of the module above for tests that evaluate them.
use alice_brain_hermes.Action.Reduce.{
  action_id_from_event, without, replace, find, propose_with, propose, handle_found, step,
  reduce_lifecycle, reduce_actions,
}

unfoldable pub reduction_evaluation : Unit {0}
unfolding action_id_from_event without replace find propose_with propose handle_found step
    reduce_lifecycle reduce_actions
reduction_evaluation = tt
