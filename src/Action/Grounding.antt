-- ===== src/Action/Grounding.antt =====
-- Which observations a receipt grounds as effects (action.py, _receipt_grounded_ids). A frozenset of
-- observation IDs is the list of the evidence's IDs, which the code has found to be free of repeats.
pub mod Evaluation
pub mod Sound
use alice_brain_hermes.Prelude.{
  String, Bool, false, not, Option, none, some, List, [], ◌∷◌, leb, str_eq, is_some, is_empty,
  is_unique, all, length, if◌then◌else◌, Result, ok, err, domain_invariant, domain_capacity, guard,
  ◌>>=◌, ◌>>◌,
}
use alice_brain_hermes.Text.{is_blank}
use alice_brain_hermes.Json.{Json, Fields, null, obj, get, is_str, as_str, as_obj, as_arr}
use alice_brain_hermes.Events.{EventEnvelope}
use alice_brain_hermes.Action.{max_world_propositions_per_layer}

-- `value`, or a DomainInvariantError where it has another type
abbrev pub require {ℓ} : {A : Type ℓ} → Option A → Result A
require none = err domain_invariant
require (some a) = ok a

-- A non-blank text.
pub as_id : Json → Option String
as_id value = elim (as_str value) [ none ↦ none | some s ↦ if is_blank s then none else some s ]

-- `all(isinstance(item, str) and item.strip() for item in items)`, with the texts
pub as_ids : List Json → Result (List String)
as_ids [] = ok []
as_ids (value ∷ rest) = do id ← require (as_id value); ids ← as_ids rest; ok (id ∷ ids)

-- A dict from IDs to observations, as the list of its entries.
abbrev pub Observations : Type 0
Observations = List (String × Fields)

pub find_observation : String → Observations → Option Fields
find_observation id [] = none
find_observation id ((key, fields) ∷ rest) =
    if str_eq key id then some fields else find_observation id rest

pub collect : Observations → List Json → Result Observations
unfolding as_id find_observation
collect seen [] = ok seen
collect seen (value ∷ rest) = do
  fields ← require (as_obj value)
  id ← require (as_id (get fields "proposition_id"))
  guard (not (is_some (find_observation id seen))) domain_invariant
  collect ((id, fields) ∷ seen) rest

abbrev has_object_content : Observations → String → Bool
has_object_content observations id = elim (find_observation id observations) [
  | none ↦ false
  | some fields ↦ is_some (as_obj (get fields "content"))
]

pub link : Observations → List String → Result (Unit {0})
link observations ids = do
  guard (all (λ id. is_some (find_observation id observations)) ids) domain_invariant
  guard (all (has_object_content observations) ids) domain_invariant

link_to : List String → Observations → Result (List String)
unfolding link
link_to ids observations = do link observations ids; ok ids

link_supplied : List String → List Json → Result (List String)
unfolding collect
link_supplied ids supplied = collect [] supplied >>= link_to ids

-- The part of the code below `evidence_ids`.
link_ids : Fields → List String → Result (List String)
link_ids payload ids = do
  guard (is_unique ids) domain_invariant
  guard (leb (length ids) max_world_propositions_per_layer) domain_capacity
  require (as_arr (get payload "observations")) >>= link_supplied ids

linked_ids : Fields → Json → Result (List String)
unfolding as_ids
linked_ids payload null = ok []
linked_ids payload (obj evidence) = do
  guard (is_str (get evidence "kind") "linked_observation") domain_invariant
  items ← require (as_arr (get evidence "observation_ids"))
  guard (not (is_empty items)) domain_invariant
  as_ids items >>= link_ids payload
linked_ids payload _ = err domain_invariant

pub receipt_grounded_ids : EventEnvelope → Bool → Result (List String)
unfolding linked_ids
receipt_grounded_ids event trusted = do
  ids ← linked_ids event.payload (get event.payload "effect_evidence")
  ok (if trusted then ids else [])
