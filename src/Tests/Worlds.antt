-- ===== src/Tests/Worlds.antt =====
-- Runs of world events.
use alice_brain_hermes.Prelude.{
  String, ◌≡◌, refl, true, List, [], ◌∷◌, Result, ok, err, arith, eq_iff,
}
use alice_brain_hermes.Events.{EventEnvelope}
use alice_brain_hermes.Text.{is_blank, has_length}
use alice_brain_hermes.Json.{get, get_or, get_elem?, end, field, str, obj}
use alice_brain_hermes.Bounded.Evaluation.{bounded_evaluation}
use alice_brain_hermes.World.{WorldModel, WorldLayer, layer_of, reduce_world}
use alice_brain_hermes.World.Evaluation.{world_evaluation}
use alice_brain_hermes.World.Layers.{
  IsWorld, IsLayer, proposition_ids, reduce_world-IsWorld, reduce_world-frame,
}
use alice_brain_hermes.Tests.Events.{event, confirmed}

program : Unit {0}
unfolding world_evaluation bounded_evaluation is_blank has_length get get_or get_elem?
program = tt

abbrev void : WorldModel
void = record { observed = []; believed = []; simulated = []; ideal = [] }

abbrev state_of : Result WorldModel → WorldModel
state_of (ok w) = w
state_of (err _) = void

abbrev believes : EventEnvelope
believes =
    event "e1" "belief.updated" (field "proposition_id" (str "p1") (field "content" (obj end) end))

w1 : WorldModel
w1 = state_of (reduce_world void believes true [])

abbrev linked : List String
linked = "p1" ∷ []

w2 : WorldModel
w2 = state_of (reduce_world w1 confirmed true linked)

run : Unit {0}
unfolding program w1 w2
run = tt

both_layers : (proposition_ids w2.observed ≡ linked) × (proposition_ids w2.believed ≡ linked)
unfolding run
both_layers = (refl, refl)

empty-IsLayer : (layer : WorldLayer) → IsLayer layer []
empty-IsLayer layer = record { bounded = omega arith; distinct = refl; own = tt }

void-IsWorld : IsWorld void
void-IsWorld = record {
  observed = empty-IsLayer WorldLayer.observed;
  believed = empty-IsLayer WorldLayer.believed;
  simulated = empty-IsLayer WorldLayer.simulated;
  ideal = empty-IsLayer WorldLayer.ideal;
}

reduce_world-IsWorld_example : IsWorld w1
unfolding run
reduce_world-IsWorld_example = reduce_world-IsWorld believes true [] void w1 void-IsWorld refl

reduce_world-frame_example : layer_of w1 WorldLayer.observed ≡ layer_of void WorldLayer.observed
unfolding run
reduce_world-frame_example =
    reduce_world-frame believes true [] void w1 WorldLayer.observed (λ h. ground arith)
      (λ _ h. grind (arith, eq_iff "belief.updated" "action.receipt")) refl
