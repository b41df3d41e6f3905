-- ===== src/World/Layers.antt =====
-- The layers of the world model: bounded, without repeats, and never mixed.
use alice_brain_hermes.Prelude.{
  ◌≤◌, String, ◌≡◌, ◌≢◌, ◌∙◌, ap, Bool, true, some, List, length, is_unique, All, arith, ok,
}
use alice_brain_hermes.Events.{EventEnvelope}
use alice_brain_hermes.Action.{max_world_propositions_per_layer}
use alice_brain_hermes.Bounded.{keys, upsert-bounded, upsert-distinct, upsert-All}
use alice_brain_hermes.World.{
  WorldLayer, WorldModel, WorldProposition, layer_of, with_layer, put, event_layer, reduce_world,
}
use alice_brain_hermes.World.Change.{Change, Observes, reduce_world-Change}

abbrev pub proposition_ids : List WorldProposition → List String
proposition_ids = keys (λ p. p.proposition_id)

pub record IsLayer (layer : WorldLayer) (items : List WorldProposition) : Type 0 where
  pub bounded : length items ≤ max_world_propositions_per_layer
  pub distinct : is_unique (proposition_ids items) ≡ true
  pub own : All (λ p. p.layer ≡ layer) items

pub record IsWorld (w : WorldModel) : Type 0 where
  pub observed : IsLayer WorldLayer.observed w.observed
  pub believed : IsLayer WorldLayer.believed w.believed
  pub simulated : IsLayer WorldLayer.simulated w.simulated
  pub ideal : IsLayer WorldLayer.ideal w.ideal

put-IsLayer :
    (layer : WorldLayer) (items : List WorldProposition) (p : WorldProposition)
    → p.layer ≡ layer
    → IsLayer layer items
    → IsLayer layer (put items p)
put-IsLayer layer items p same l = record {
  bounded = upsert-bounded (λ p. p.proposition_id) max_world_propositions_per_layer items p;
  distinct =
      upsert-distinct (λ p. p.proposition_id) max_world_propositions_per_layer items p l.distinct;
  own =
      upsert-All (λ p. p.proposition_id) (λ p. p.layer ≡ layer) max_world_propositions_per_layer
        items p l.own same;
}

Observes-IsLayer :
    {grounded : List String} {before after : List WorldProposition}
    → Observes grounded before after
    → IsLayer WorldLayer.observed before
    → IsLayer WorldLayer.observed after
Observes-IsLayer (Observes.done items) l = l
Observes-IsLayer (Observes.more {items = items} p same _ rest) l =
    Observes-IsLayer rest (put-IsLayer WorldLayer.observed items p same l)

with_layer-IsWorld :
    (w : WorldModel) (layer : WorldLayer) (p : WorldProposition)
    → p.layer ≡ layer
    → IsWorld w
    → IsWorld (with_layer w layer (put (layer_of w layer) p))
with_layer-IsWorld w WorldLayer.observed p same i = record {
  observed = put-IsLayer WorldLayer.observed w.observed p same i.observed;
  believed = i.believed;
  simulated = i.simulated;
  ideal = i.ideal;
}
with_layer-IsWorld w WorldLayer.believed p same i = record {
  observed = i.observed;
  believed = put-IsLayer WorldLayer.believed w.believed p same i.believed;
  simulated = i.simulated;
  ideal = i.ideal;
}
with_layer-IsWorld w WorldLayer.simulated p same i = record {
  observed = i.observed;
  believed = i.believed;
  simulated = put-IsLayer WorldLayer.simulated w.simulated p same i.simulated;
  ideal = i.ideal;
}
with_layer-IsWorld w WorldLayer.ideal p same i = record {
  observed = i.observed;
  believed = i.believed;
  simulated = i.simulated;
  ideal = put-IsLayer WorldLayer.ideal w.ideal p same i.ideal;
}

Change-IsWorld :
    (e : EventEnvelope) {trusted : Bool} {grounded : List String} {w v : WorldModel}
    → Change e trusted grounded w v
    → IsWorld w
    → IsWorld v
Change-IsWorld e (Change.kept same) i = rw same i
Change-IsWorld e {w = w} (Change.placed layer p _ _ own same) i =
    rw same (with_layer-IsWorld w layer p own i)
Change-IsWorld e {w = w} (Change.observed items _ sees same) i = rw same (record {
  observed = Observes-IsLayer sees i.observed;
  believed = i.believed;
  simulated = i.simulated;
  ideal = i.ideal;
})

-- An event that the reducer accepts keeps each layer of the world within its capacity, without a repeated
-- proposition ID, and with propositions of that layer alone.
pub reduce_world-IsWorld :
    (e : EventEnvelope) (trusted : Bool) (grounded : List String) (w v : WorldModel)
    → IsWorld w
    → reduce_world w e trusted grounded ≡ ok v
    → IsWorld v
reduce_world-IsWorld e trusted grounded w v i h =
    Change-IsWorld e (reduce_world-Change e trusted grounded w v h) i

pub other_layer :
    (w : WorldModel) (layer other : WorldLayer) (items : List WorldProposition)
    → layer ≢ other
    → layer_of (with_layer w layer items) other ≡ layer_of w other
other_layer w WorldLayer.observed other items n = ground arith
other_layer w WorldLayer.believed other items n = ground arith
other_layer w WorldLayer.simulated other items n = ground arith
other_layer w WorldLayer.ideal other items n = ground arith

observed_alone :
    (w : WorldModel) (items : List WorldProposition) (other : WorldLayer)
    → other ≢ WorldLayer.observed
    → layer_of (record w { observed = items }) other ≡ layer_of w other
observed_alone w items other n = ground arith

Change-frame :
    (e : EventEnvelope) {trusted : Bool} {grounded : List String} {w v : WorldModel}
    (other : WorldLayer)
    → Change e trusted grounded w v
    → event_layer e.event_type ≢ some other
    → (other ≡ WorldLayer.observed → e.event_type ≢ "action.receipt")
    → layer_of v other ≡ layer_of w other
Change-frame e other (Change.kept same) n r = rw same
Change-frame e {w = w} other (Change.placed layer p typed _ _ same) n r =
    rw same (other_layer w layer other (put (layer_of w layer) p) (λ l. n (typed ∙ ap some l)))
Change-frame e {w = w} other (Change.observed items typed _ same) n r =
    rw same (observed_alone w items other (λ o. r o typed))

-- An accepted event changes no layer but the one that its type names, and the observed layer by a receipt.
pub reduce_world-frame :
    (e : EventEnvelope) (trusted : Bool) (grounded : List String) (w v : WorldModel)
    (other : WorldLayer)
    → event_layer e.event_type ≢ some other
    → (other ≡ WorldLayer.observed → e.event_type ≢ "action.receipt")
    → reduce_world w e trusted grounded ≡ ok v
    → layer_of v other ≡ layer_of w other
reduce_world-frame e trusted grounded w v other n r h =
    Change-frame e other (reduce_world-Change e trusted grounded w v h) n r
