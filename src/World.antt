-- ===== src/World.antt =====
-- The four-layer world model and its reduction (src/alice_brain_hermes/core/world.py). The children have the proofs.
pub mod Evaluation
pub mod Change
pub mod Layers
pub mod Trust
use alice_brain_hermes.Prelude.{
  ℕ, String, Bool, true, false, not, ◌&&◌, ◌||◌, Option, none, some, List, [], ◌∷◌, leb, str_eq,
  str_mem, is_empty, length, all, if◌then◌else◌, Result, ok, err, value_error, domain_invariant,
  guard, rewrap, ◌>>=◌, ◌>>◌,
}
use alice_brain_hermes.Text.{is_blank, has_length}
use alice_brain_hermes.Json.{
  Json, Number, Fields, Items, non_negative, double, num, arr, nil, null, obj, get, get_or,
  get_elem?, as_str, as_obj, as_arr, in_unit_interval,
}
use alice_brain_hermes.Events.{EventEnvelope}
use alice_brain_hermes.Action.{max_world_propositions_per_layer}
use alice_brain_hermes.Bounded.{upsert}

pub data WorldLayer : Type 0 where
  observed believed simulated ideal : WorldLayer

pub record WorldProposition : Type 0 where
  pub proposition_id : String
  pub content : Fields
  pub layer : WorldLayer
  pub source_event_id : String
  pub source_actor_id : String
  pub action_id : Option String
  pub confidence : Number

pub record WorldModel : Type 0 where
  pub observed : List WorldProposition
  pub believed : List WorldProposition
  pub simulated : List WorldProposition
  pub ideal : List WorldProposition

-- `getattr(world, layer.value)`
abbrev pub layer_of : WorldModel → WorldLayer → List WorldProposition
layer_of w WorldLayer.observed = w.observed
layer_of w WorldLayer.believed = w.believed
layer_of w WorldLayer.simulated = w.simulated
layer_of w WorldLayer.ideal = w.ideal

-- `world.model_copy(update={layer.value: items})`
abbrev pub with_layer : WorldModel → WorldLayer → List WorldProposition → WorldModel
with_layer w WorldLayer.observed items = record w { observed = items }
with_layer w WorldLayer.believed items = record w { believed = items }
with_layer w WorldLayer.simulated items = record w { simulated = items }
with_layer w WorldLayer.ideal items = record w { ideal = items }

-- `_EVENT_LAYERS.get(event_type)`
pub event_layer : String → Option WorldLayer
event_layer event_type =
    if str_eq event_type "observation.recorded"
    then some WorldLayer.observed
    else if str_eq event_type "belief.updated"
    then some WorldLayer.believed
    else if str_eq event_type "simulation.created"
    then some WorldLayer.simulated
    else if str_eq event_type "ideal.updated"
    then some WorldLayer.ideal
    else none

abbrev action_id_ok : Option String → Bool
action_id_ok none = true
action_id_ok (some s) = has_length 1 512 s

proposition_ok : WorldProposition → Bool
proposition_ok p =
    has_length 1 256 p.proposition_id
    && not (is_blank p.proposition_id)
    && action_id_ok p.action_id
    && in_unit_interval p.confidence

layer_ok : List WorldProposition → Bool
unfolding proposition_ok
layer_ok items = all proposition_ok items && leb (length items) max_world_propositions_per_layer

-- `WorldModel.revalidated`
revalidated : WorldModel → Result WorldModel
unfolding layer_ok
revalidated w = do
  guard (layer_ok w.observed) value_error
  guard (layer_ok w.believed) value_error
  guard (layer_ok w.simulated) value_error
  guard (layer_ok w.ideal) value_error
  ok w

abbrev require {ℓ} : {A : Type ℓ} → Option A → Result A
require none = err value_error
require (some a) = ok a

abbrev as_number : Json → Option Number
as_number (num n) = some n
as_number _ = none

-- The float 1.0.
abbrev one : Number
one = double 4607182418800017408

-- The body of the `try` of `_proposition`.
read_proposition : EventEnvelope → Fields → WorldLayer → Option String → Result WorldProposition
read_proposition event item layer action_id = do
  id_value ← require (get_elem? item "proposition_id")
  content_value ← require (get_elem? item "content")
  proposition_id ← require (as_str id_value)
  content ← require (as_obj content_value)
  confidence ← require (as_number (get_or item "confidence" (num one)))
  let p : WorldProposition = record {
    proposition_id = proposition_id;
    content = content;
    layer = layer;
    source_event_id = event.event_id;
    source_actor_id = event.actor_id;
    action_id = action_id;
    confidence = confidence;
  }
  guard (proposition_ok p) value_error
  ok p

pub proposition : EventEnvelope → Json → WorldLayer → Option String → Result WorldProposition
unfolding read_proposition
proposition event (obj item) layer action_id =
    rewrap domain_invariant (read_proposition event item layer action_id)
proposition event _ layer action_id = err domain_invariant

-- `_upsert`
abbrev pub put : List WorldProposition → WorldProposition → List WorldProposition
put = upsert (λ p. p.proposition_id) max_world_propositions_per_layer

-- `item.get("proposition_id") if hasattr(item, "get") else None`, if it is in the receipt
is_grounded : List String → Json → Bool
is_grounded grounded (obj item) = elim (as_str (get item "proposition_id")) [
  | none ↦ false
  | some id ↦ str_mem id grounded
]
is_grounded grounded _ = false

-- The loop over a receipt's observations.
observe :
    EventEnvelope
    → List String
    → Option String
    → List WorldProposition
    → List Json
    → Result (List WorldProposition)
unfolding is_grounded
observe event grounded action_id seen [] = ok seen
observe event grounded action_id seen (item ∷ items) = elim (is_grounded grounded item) [
  | false ↦ observe event grounded action_id seen items
  | true ↦ do
    p ← proposition event item WorldLayer.observed action_id
    observe event grounded action_id (put seen p) items
]

abbrev is_observed : WorldLayer → Bool
is_observed WorldLayer.observed = true
is_observed _ = false

place : WorldModel → WorldLayer → WorldProposition → Result WorldModel
place w layer p = revalidated (with_layer w layer (put (layer_of w layer) p))

record_layer : WorldModel → EventEnvelope → WorldLayer → Bool → Result WorldModel
record_layer w event layer trusted =
    if is_observed layer && not trusted
    then ok w
    else (proposition event (obj event.payload) layer none >>= place w layer)

refresh : WorldModel → List WorldProposition → Result WorldModel
refresh w seen = revalidated (record w { observed = seen })

ground_receipt : WorldModel → EventEnvelope → List String → Result WorldModel
unfolding observe
ground_receipt w event grounded = do
  items ← elim (as_arr (get_or event.payload "observations" (arr nil))) [
    | none ↦ err domain_invariant
    | some items ↦ ok items
  ]
  observe event grounded (as_str (get event.payload "action_id")) w.observed items >>= refresh w

reduce_layer :
    Option WorldLayer → WorldModel → EventEnvelope → Bool → List String → Result WorldModel
reduce_layer (some layer) w event trusted grounded = record_layer w event layer trusted
reduce_layer none w event trusted grounded =
    if str_eq event.event_type "action.receipt" && not (is_empty grounded)
    then ground_receipt w event grounded
    else ok w

pub reduce_world : WorldModel → EventEnvelope → Bool → List String → Result WorldModel
unfolding reduce_layer
reduce_world w event trusted grounded =
    reduce_layer (event_layer event.event_type) w event trusted grounded
