-- ===== src/World/Evaluation.antt =====
-- Opens the definitions of the module above for tests that evaluate them.
use alice_brain_hermes.World.{
  event_layer, proposition_ok, layer_ok, revalidated, read_proposition, proposition, is_grounded,
  observe, place, record_layer, refresh, ground_receipt, reduce_layer, reduce_world,
}

unfoldable pub world_evaluation : Unit {0}
unfolding event_layer proposition_ok layer_ok revalidated read_proposition proposition is_grounded
    observe place record_layer refresh ground_receipt reduce_layer reduce_world
world_evaluation = tt
