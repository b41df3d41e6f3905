-- ===== src/Workspace/Reduce/Evaluation.antt =====
-- Opens the definitions of the module above for tests that evaluate them.
use alice_brain_hermes.Workspace.Reduce.{
  specialist_of, unit_float, natural, candidate_ok, read_candidate, workspace_candidate,
  workspace_candidates, candidate_eq, candidates_eq, validate_workspace, accept,
  broadcast_candidates, read_broadcast, reduce_workspace,
}

unfoldable pub broadcast_evaluation : Unit {0}
unfolding specialist_of unit_float natural candidate_ok read_candidate workspace_candidate
    workspace_candidates candidate_eq candidates_eq validate_workspace accept broadcast_candidates
    read_broadcast reduce_workspace
broadcast_evaluation = tt
