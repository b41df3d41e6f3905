-- ===== src/Workspace/Evaluation.antt =====
-- Opens the definitions of the module above and of its reduction for tests that evaluate them.
use alice_brain_hermes.Workspace.{
  rank_order, rank_ltb, place, best_by_content, insert_ranked, sort_ranked, choose_broadcast,
}
use alice_brain_hermes.Workspace.Reduce.Evaluation.{broadcast_evaluation}

unfoldable pub workspace_evaluation : Unit {0}
unfolding rank_order rank_ltb place best_by_content insert_ranked sort_ranked choose_broadcast
    broadcast_evaluation
workspace_evaluation = tt
