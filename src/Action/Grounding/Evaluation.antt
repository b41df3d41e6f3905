-- ===== src/Action/Grounding/Evaluation.antt =====
-- Opens the definitions of the module above for tests that evaluate them.
use alice_brain_hermes.Action.Grounding.{
  as_id, as_ids, find_observation, collect, link, link_to, link_supplied, link_ids, linked_ids,
  receipt_grounded_ids,
}

unfoldable pub grounding_evaluation : Unit {0}
unfolding as_id as_ids find_observation collect link link_to link_supplied link_ids linked_ids
    receipt_grounded_ids
grounding_evaluation = tt
