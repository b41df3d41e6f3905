-- ===== src/Identity.antt =====
-- Actors, trusted provenance and their reduction (src/alice_brain_hermes/core/identity.py). The children have
-- the proofs.
pub mod State
pub mod Evaluation
pub mod Change
pub mod Boundary
pub mod Authority
use alice_brain_hermes.Prelude.{
  ◌+◌, String, not, ◌&&◌, Option, none, some, [], ◌∷◌, ◌++◌, leb, str_eq, opt_str_eq, any, all,
  length, if◌then◌else◌, Result, ok, err, value_error, domain_invariant, domain_capacity, guard,
  rewrap, ◌>>=◌, ◌>>◌,
}
use alice_brain_hermes.Text.{is_blank}
use alice_brain_hermes.Json.{
  Json, Fields, end, obj, get, get_or, get_elem?, as_str, as_obj, opt_str,
}
use alice_brain_hermes.Events.{EventEnvelope}
use alice_brain_hermes.Identity.State.{
  ActorRecord, ProvenanceAuthorization, IdentityState, max_identity_actors,
  max_provenance_authorizations, kind_of, authorization_eq, validate_actor, validate_authorization,
  has_id, is_self, revalidated, replace_actor,
}

abbrev require {ℓ} : {A : Type ℓ} → Option A → Result A
require none = err value_error
require (some a) = ok a

-- `payload[key]`, for a field of type str
abbrev text_at : Fields → String → Result String
text_at payload key = do value ← require (get_elem? payload key); require (as_str value)

read_actor : Fields → Result ActorRecord
unfolding kind_of
read_actor payload = do
  actor_id ← text_at payload "actor_id"
  kind_text ← text_at payload "kind"
  kind ← require (kind_of kind_text)
  display_name ← require (opt_str (get payload "display_name"))
  parent_actor_id ← require (opt_str (get payload "parent_actor_id"))
  attributes ← require (as_obj (get_or payload "attributes" (obj end)))
  validate_actor (record {
    actor_id = actor_id;
    kind = kind;
    display_name = display_name;
    parent_actor_id = parent_actor_id;
    attributes = attributes;
  })

register : IdentityState → ActorRecord → Result IdentityState
unfolding replace_actor
register s actor = do
  guard (not (has_id s.self_actor_id actor && not (is_self actor))) domain_invariant
  guard (not (is_self actor && not (has_id s.self_actor_id actor))) domain_invariant
  guard (not (opt_str_eq actor.parent_actor_id (some actor.actor_id))) domain_invariant
  guard
      (not (
        all (λ item. not (str_eq item.actor_id actor.actor_id)) s.actors
        && leb max_identity_actors (length s.actors)))
      domain_capacity
  revalidated (record s { actors = replace_actor s.actors actor })

pub read_authorization : Fields → Result ProvenanceAuthorization
read_authorization payload = do
  actor_id ← text_at payload "actor_id"
  adapter_id ← require (opt_str (get payload "adapter_id"))
  validate_authorization (record { actor_id = actor_id; adapter_id = adapter_id })

authorize : IdentityState → ProvenanceAuthorization → Result IdentityState
authorize s authorization =
    if any (authorization_eq authorization) s.authorizations then ok s else (do
      guard (not (leb max_provenance_authorizations (length s.authorizations))) domain_capacity
      revalidated (record s { authorizations = s.authorizations ++ authorization ∷ [] }))

pub data IdentityEvent : Type 0 where
  named actor_registered provenance_authorized : IdentityEvent

pub identity_event_of : String → Option IdentityEvent
identity_event_of event_type =
    if str_eq event_type "identity.named"
    then some named
    else if str_eq event_type "identity.actor_registered"
    then some actor_registered
    else if str_eq event_type "identity.provenance_authorized"
    then some provenance_authorized
    else none

-- A non-blank text, or a DomainInvariantError.
read_name : Json → Result String
read_name value = elim (as_str value) [
  | none ↦ err domain_invariant
  | some s ↦ if is_blank s then err domain_invariant else ok s
]

rename : IdentityState → String → Result IdentityState
rename s name = revalidated (record s { name = some name })

handle : Option IdentityEvent → IdentityState → EventEnvelope → Result IdentityState
unfolding read_name
handle none s event = ok s
handle (some named) s event = read_name (get event.payload "name") >>= rename s
handle (some actor_registered) s event =
    rewrap domain_invariant (read_actor event.payload) >>= register s
handle (some provenance_authorized) s event = do
  guard (str_eq event.actor_id s.self_actor_id) domain_invariant
  rewrap domain_invariant (read_authorization event.payload) >>= authorize s

pub reduce_identity : IdentityState → EventEnvelope → Result IdentityState
unfolding handle
reduce_identity s event = handle (identity_event_of event.event_type) s event
