-- ===== src/Action/Grounding/Sound.antt =====
-- Untrusted receipts ground nothing, and trusted ones only observations that they supply.
use alice_brain_hermes.Prelude.{
  String, ◌≡◌, ◌≤◌, refl, Bool, true, false, Option, ◌&&◌, ◌||◌, none, some, List, [], ◌∷◌, length,
  is_unique, is_some, all, any, arith, ok, eq_iff, Option-cases, inl, inr, >>=-eq-ok, ◌⊎◌, ap, sym,
  ◌∙◌, ◌>>=◌,
}
use alice_brain_hermes.Json.{Fields, Json, get, null, obj, str, is_str, as_obj, as_arr}
use alice_brain_hermes.Events.{EventEnvelope}
use alice_brain_hermes.Action.{max_world_propositions_per_layer}
use alice_brain_hermes.Action.Grounding.{
  receipt_grounded_ids, linked_ids, as_id, as_ids, collect, link_supplied, link_to, link_ids,
  find_observation, Observations, has_object_content,
}

pub grounded_untrusted :
    (event : EventEnvelope) (ids : List String)
    → receipt_grounded_ids event false ≡ ok ids
    → ids ≡ []
unfolding receipt_grounded_ids
grounded_untrusted event ids h = ground arith

-- An object with this proposition ID and an object for content.
abbrev observes : String → Json → Bool
observes id (obj fields) =
    is_str (get fields "proposition_id") id && is_some (as_obj (get fields "content"))
observes id _ = false

abbrev supplies : String → List Json → Bool
supplies id = any (observes id)

-- The observations of a payload, if it has an array of them.
abbrev observations_of : Fields → List Json
observations_of payload = elim (as_arr (get payload "observations")) [
  | none ↦ []
  | some items ↦ items
]

as_id-eq : (value : Json) (id : String) → as_id value ≡ some id → value ≡ str id
unfolding as_id
as_id-eq (str s) id h = ground arith
as_id-eq _ id h = ground arith

found_or_new :
    (id key : String) (fields : Fields) (seen : Observations)
    → as_id (get fields "proposition_id") ≡ some key
    → has_object_content ((key, fields) ∷ seen) id ≡ true
    → (has_object_content seen id || observes id (obj fields)) ≡ true
unfolding find_observation
found_or_new id key fields seen named content =
    ground (arith, as_id-eq (get fields "proposition_id") key named, eq_iff key id)

collect-supplies :
    (id : String) (seen : Observations) (items : List Json) (all_seen : Observations)
    → collect seen items ≡ ok all_seen
    → has_object_content all_seen id ≡ true
    → (has_object_content seen id || supplies id items) ≡ true
unfolding collect
collect-supplies id seen [] all_seen h content = ground arith
collect-supplies id seen (obj fields ∷ items) all_seen h content =
    elim (Option-cases (as_id (get fields "proposition_id"))) [
      | inl absent ↦ ground arith
      | inr (key, named) ↦
          let rest : collect ((key, fields) ∷ seen) items ≡ ok all_seen = ground (arith) in
          ground (
            arith,
            collect-supplies id ((key, fields) ∷ seen) items all_seen rest content,
            found_or_new id key fields seen named,
          )
    ]
collect-supplies id seen (_ ∷ items) all_seen h content = ground arith

content_supplies :
    (supplied : List Json) (observations : Observations) (ids : List String)
    → collect [] supplied ≡ ok observations
    → all (has_object_content observations) ids ≡ true
    → all (λ id. supplies id supplied) ids ≡ true
unfolding find_observation
content_supplies supplied observations [] c h = refl
content_supplies supplied observations (id ∷ ids) c h = ground (
  arith,
  content_supplies supplied observations ids c,
  collect-supplies id [] supplied observations c,
  nothing_yet id,
)
  where
    nothing_yet : (id : String) → has_object_content [] id ≡ false
    nothing_yet id = refl

-- The items of `effect_evidence.observation_ids`, if the evidence is an object with an array of them.
abbrev or_nil : Option (List Json) → List Json
or_nil none = []
or_nil (some items) = items

abbrev evidence_items : Json → List Json
evidence_items (obj evidence) = or_nil (as_arr (get evidence "observation_ids"))
evidence_items _ = []

abbrev pub texts : List String → List Json
texts [] = []
texts (id ∷ ids) = str id ∷ texts ids

abbrev pub evidence_of : Fields → List Json
evidence_of payload = evidence_items (get payload "effect_evidence")

-- What may be linked to a receipt: the IDs are those that its evidence names, in their order, or none at all; each is
-- there once, there are no more than the world holds, and each has its observation.
pub record IsLinked (payload : Fields) (ids : List String) : Type 0 where
  pub named : (ids ≡ []) ⊎ (texts ids ≡ evidence_of payload)
  pub distinct : is_unique ids ≡ true
  pub bounded : length ids ≤ max_world_propositions_per_layer
  pub supplied : all (λ id. supplies id (observations_of payload)) ids ≡ true

as_ids-texts : (items : List Json) (ids : List String) → as_ids items ≡ ok ids → texts ids ≡ items
unfolding as_ids
as_ids-texts [] [] h = refl
as_ids-texts [] (id ∷ ids) h = ground arith
as_ids-texts (value ∷ rest) ids h = elim (Option-cases (as_id value)) [
  | inl absent ↦ ground arith
  | inr (id, there) ↦
      let (more, reads, made) = >>=-eq-ok (as_ids rest) (λ l. ok (id ∷ l)) (rw there at h) in
      let same : id ∷ more ≡ ids = ground arith in
      let later = as_ids-texts rest more reads in
      let first = as_id-eq value id there in ap texts (sym same) ∙ rw (first, later) refl
]

link_to_lem :
    (supplied : List Json) (ids linked : List String) (observations : Observations)
    → collect [] supplied ≡ ok observations
    → link_to ids observations ≡ ok linked
    → (linked ≡ ids) × (all (λ id. supplies id supplied) linked ≡ true)
unfolding link_to
link_to_lem supplied ids linked observations c h =
    let content : (linked ≡ ids) × (all (has_object_content observations) linked ≡ true) =
      ground arith in
    (content.0, content_supplies supplied observations linked c content.1)

link_supplied_lem :
    (supplied : List Json) (ids linked : List String)
    → link_supplied ids supplied ≡ ok linked
    → (linked ≡ ids) × (all (λ id. supplies id supplied) linked ≡ true)
unfolding link_supplied
link_supplied_lem supplied ids linked h =
    let (observations, collects, links) = >>=-eq-ok (collect [] supplied) (link_to ids) h in
    link_to_lem supplied ids linked observations collects links

-- The IDs that are linked, with their observations.
record Supplied (payload : Fields) (ids : List String) : Type 0 where
  distinct : is_unique ids ≡ true
  bounded : length ids ≤ max_world_propositions_per_layer
  supplied : all (λ id. supplies id (observations_of payload)) ids ≡ true

link_ids_lem :
    (payload : Fields) (ids linked : List String)
    → link_ids payload ids ≡ ok linked
    → Supplied payload linked × (linked ≡ ids)
unfolding link_ids
link_ids_lem payload ids linked h = elim (Option-cases (as_arr (get payload "observations"))) [
  | inl absent ↦ ground arith
  | inr (supplied, there) ↦ ground (arith, link_supplied_lem supplied ids linked)
]

linked_ids_lem :
    (payload : Fields) (evidence : Json) (linked : List String)
    → linked_ids payload evidence ≡ ok linked
    → Supplied payload linked × (texts linked ≡ evidence_items evidence)
unfolding linked_ids
linked_ids_lem payload null linked h = ground arith
linked_ids_lem payload (obj evidence) linked h =
    elim (Option-cases (as_arr (get evidence "observation_ids"))) [
      | inl absent ↦ ground arith
      | inr (items, there) ↦
          let rest : as_ids items >>= link_ids payload ≡ ok linked = ground arith in
          let (ids, reads, links) = >>=-eq-ok (as_ids items) (link_ids payload) rest in
          let (has, same) = link_ids_lem payload ids linked links in
          let read : texts linked ≡ items = ap texts same ∙ as_ids-texts items ids reads in
          (has, read ∙ ap or_nil (sym there))
    ]
linked_ids_lem payload _ linked h = ground arith

-- The observation IDs that a receipt grounds are those that its evidence names: distinct, bounded, and each with an
-- observation with content in the receipt's payload; an untrusted receipt grounds none.
pub receipt_grounded_ids-IsLinked :
    (event : EventEnvelope) (trusted : Bool) (ids : List String)
    → receipt_grounded_ids event trusted ≡ ok ids
    → IsLinked event.payload ids × (trusted ≡ false → ids ≡ [])
unfolding receipt_grounded_ids
receipt_grounded_ids-IsLinked event false ids h =
    let nothing = grounded_untrusted event ids h in
    (
      rw nothing
          (record { named = inl refl; distinct = refl; bounded = omega arith; supplied = refl }),
      λ u. nothing,
    )
receipt_grounded_ids-IsLinked event true ids h =
    let (linked, links, kept) =
      >>=-eq-ok (linked_ids event.payload (get event.payload "effect_evidence")) (λ l. ok l) h in
    let same : linked ≡ ids = ground arith in
    let (has, named) =
      linked_ids_lem event.payload (get event.payload "effect_evidence") ids (links ∙ ap ok same) in
    (
      record {
        named = inr named;
        distinct = has.distinct;
        bounded = has.bounded;
        supplied = has.supplied;
      },
      λ u. ground arith,
    )
