-- ===== src/World/Change.antt =====
-- The ways in which an accepted event changes the world model.
use alice_brain_hermes.Prelude.{
  String, ◌≡◌, refl, Bool, true, not, ◌&&◌, Option, none, some, List, [], ◌∷◌, is_empty, str_eq,
  eq_iff, str_mem, arith, ok, >>=-eq-ok, ◌>>=◌, Bool-cases, inl, inr, rewrap-eq-ok,
  domain_invariant, Option-cases,
}
use alice_brain_hermes.Json.{Json, obj, get, as_str, str, arr, Fields, get_or, nil, as_arr}
use alice_brain_hermes.Events.{EventEnvelope}
use alice_brain_hermes.World.{
  WorldLayer, WorldModel, WorldProposition, layer_of, with_layer, put, proposition,
  read_proposition, revalidated, observe, is_grounded, is_observed, place, record_layer, refresh,
  ground_receipt, reduce_layer, reduce_world, event_layer,
}

-- One observation after the other is put into the observed layer; each is named by the receipt.
pub data Observes (grounded : List String)
    : List WorldProposition → List WorldProposition → Type 0 where
  done : (items : List WorldProposition) → Observes grounded items items
  more :
      {items rest : List WorldProposition} (p : WorldProposition)
      → p.layer ≡ WorldLayer.observed
      → str_mem p.proposition_id grounded ≡ true
      → Observes grounded (put items p) rest
      → Observes grounded items rest

pub data Change (e : EventEnvelope) (trusted : Bool) (grounded : List String) (w v : WorldModel)
    : Type 0 where
  kept : v ≡ w → Change e trusted grounded w v
  placed :
      (layer : WorldLayer) (p : WorldProposition)
      → event_layer e.event_type ≡ some layer
      → (layer ≡ WorldLayer.observed → trusted ≡ true)
      → p.layer ≡ layer
      → v ≡ with_layer w layer (put (layer_of w layer) p)
      → Change e trusted grounded w v
  observed :
      (items : List WorldProposition)
      → e.event_type ≡ "action.receipt"
      → Observes grounded w.observed items
      → v ≡ record w { observed = items }
      → Change e trusted grounded w v

revalidated-eq : (w v : WorldModel) → revalidated w ≡ ok v → v ≡ w
unfolding revalidated
revalidated-eq w v h = ground arith

read_proposition-layer :
    (e : EventEnvelope) (item : Fields) (layer : WorldLayer) (action_id : Option String)
    (p : WorldProposition)
    → read_proposition e item layer action_id ≡ ok p
    → (p.layer ≡ layer) × (get item "proposition_id" ≡ str p.proposition_id)
unfolding read_proposition get
read_proposition-layer e item layer action_id p h = ground arith

proposition-layer :
    (e : EventEnvelope) (item : Json) (layer : WorldLayer) (action_id : Option String)
    (p : WorldProposition)
    → proposition e item layer action_id ≡ ok p
    → (p.layer ≡ layer)
      × ((grounded : List String)
          → is_grounded grounded item ≡ true
          → str_mem p.proposition_id grounded ≡ true)
unfolding proposition is_grounded
proposition-layer e (obj item) layer action_id p h =
    let (same, named) =
      read_proposition-layer e item layer action_id p
        (rewrap-eq-ok domain_invariant (read_proposition e item layer action_id) h) in
    (same, λ grounded g. ground arith)
proposition-layer e _ layer action_id p h = ground arith

observe-Observes :
    (e : EventEnvelope) (grounded : List String) (action_id : Option String)
    (seen : List WorldProposition) (items : List Json) (after : List WorldProposition)
    → observe e grounded action_id seen items ≡ ok after
    → Observes grounded seen after
unfolding observe
observe-Observes e grounded action_id seen [] after h =
    let same : after ≡ seen = ground arith in rw same (Observes.done seen)
observe-Observes e grounded action_id seen (item ∷ items) after h =
    elim (Bool-cases (is_grounded grounded item)) [
      | inr skipped ↦
          observe-Observes e grounded action_id seen items after (rw (skipped, observe) at h)
      | inl named ↦
          let reads : (proposition e item WorldLayer.observed action_id >>= λ p.
          observe e grounded action_id (put seen p) items)
              ≡ ok after =
            rw (named, observe) at h in
          let (p, makes, rest) =
            >>=-eq-ok (proposition e item WorldLayer.observed action_id)
              (λ p. observe e grounded action_id (put seen p) items) reads in
          let (layer, here) = proposition-layer e item WorldLayer.observed action_id p makes in
          Observes.more p layer (here grounded named)
            (observe-Observes e grounded action_id (put seen p) items after rest)
    ]

record_layer-Change :
    (e : EventEnvelope) (trusted : Bool) (grounded : List String) (w v : WorldModel)
    (layer : WorldLayer)
    → event_layer e.event_type ≡ some layer
    → record_layer w e layer trusted ≡ ok v
    → Change e trusted grounded w v
unfolding record_layer place
record_layer-Change e trusted grounded w v layer typed h =
    elim (Bool-cases (is_observed layer && not trusted)) [
      | inl refused ↦ Change.kept (ground arith)
      | inr allowed ↦
          let (p, makes, places) =
            >>=-eq-ok (proposition e (obj e.payload) layer none) (place w layer)
              (rw allowed at h) in
          let (same, _) = proposition-layer e (obj e.payload) layer none p makes in
          Change.placed layer p typed (λ o. ground arith) same
            (revalidated-eq (with_layer w layer (put (layer_of w layer) p)) v places)
    ]

ground_receipt-Change :
    (e : EventEnvelope) (trusted : Bool) (grounded : List String) (w v : WorldModel)
    → e.event_type ≡ "action.receipt"
    → ground_receipt w e grounded ≡ ok v
    → Change e trusted grounded w v
unfolding ground_receipt refresh
ground_receipt-Change e trusted grounded w v typed h =
    elim (Option-cases (as_arr (get_or e.payload "observations" (arr nil)))) [
      | inl absent ↦ ground arith
      | inr (items, there) ↦
          let observes : (observe e grounded (as_str (get e.payload "action_id")) w.observed items
                >>= refresh w)
              ≡ ok v =
            ground arith in
          let (seen, sees, refreshes) =
            >>=-eq-ok (observe e grounded (as_str (get e.payload "action_id")) w.observed items)
              (refresh w) observes in
          Change.observed seen typed
            (observe-Observes e grounded (as_str (get e.payload "action_id")) w.observed items seen
              sees)
            (revalidated-eq (record w { observed = seen }) v refreshes)
    ]

reduce_layer-Change :
    (o : Option WorldLayer) (e : EventEnvelope) (trusted : Bool) (grounded : List String)
    (w v : WorldModel)
    → event_layer e.event_type ≡ o
    → reduce_layer o w e trusted grounded ≡ ok v
    → Change e trusted grounded w v
unfolding reduce_layer
reduce_layer-Change (some layer) e trusted grounded w v typed h =
    record_layer-Change e trusted grounded w v layer typed h
reduce_layer-Change none e trusted grounded w v typed h =
    elim (Bool-cases (str_eq e.event_type "action.receipt" && not (is_empty grounded))) [
      | inl receipt ↦
          ground_receipt-Change e trusted grounded w v
            (ground (arith, eq_iff e.event_type "action.receipt")) (rw receipt at h)
      | inr other ↦ Change.kept (ground arith)
    ]

-- The reducer makes no other change.
pub reduce_world-Change :
    (e : EventEnvelope) (trusted : Bool) (grounded : List String) (w v : WorldModel)
    → reduce_world w e trusted grounded ≡ ok v
    → Change e trusted grounded w v
unfolding reduce_world
reduce_world-Change e trusted grounded w v h =
    reduce_layer-Change (event_layer e.event_type) e trusted grounded w v refl h
