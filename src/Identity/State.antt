-- ===== src/Identity/State.antt =====
-- Actors, authorizations and the state of the identity, with their validation (core/identity.py).
use alice_brain_hermes.Prelude.{
  ℕ, String, Bool, true, false, not, ◌&&◌, Option, none, some, List, [], ◌∷◌, ◌++◌, str_eq,
  opt_str_eq, any, if◌then◌else◌, Result, ok, value_error, guard, ◌>>◌,
}
use alice_brain_hermes.Text.{is_blank, has_length}
use alice_brain_hermes.Ids.{validate_id}
use alice_brain_hermes.Json.{Fields, end, fields_eq}

pub data ActorKind : Type 0 where
  self human external_agent tool_adapter system : ActorKind

pub record ActorRecord : Type 0 where
  pub actor_id : String
  pub kind : ActorKind
  pub display_name : Option String
  pub parent_actor_id : Option String
  pub attributes : Fields

pub record ProvenanceAuthorization : Type 0 where
  pub actor_id : String
  pub adapter_id : Option String

pub record IdentityState : Type 0 where
  pub self_actor_id : String
  pub name : Option String
  pub actors : List ActorRecord
  pub authorizations : List ProvenanceAuthorization

-- core/limits.py
abbrev pub max_identity_actors : ℕ
max_identity_actors = 256

abbrev pub max_provenance_authorizations : ℕ
max_provenance_authorizations = 256

abbrev pub kind_is : ActorKind → ActorKind → Bool
kind_is self self = true
kind_is human human = true
kind_is external_agent external_agent = true
kind_is tool_adapter tool_adapter = true
kind_is system system = true
kind_is _ _ = false

-- `ActorKind(value)`
unfoldable pub kind_of : String → Option ActorKind
kind_of s =
    if str_eq s "self"
    then some self
    else if str_eq s "human"
    then some human
    else if str_eq s "external_agent"
    then some external_agent
    else if str_eq s "tool_adapter"
    then some tool_adapter
    else if str_eq s "system"
    then some system
    else none

-- Equality of pydantic models: field by field.
unfoldable pub actor_eq : ActorRecord → ActorRecord → Bool
actor_eq a b =
    str_eq a.actor_id b.actor_id
    && kind_is a.kind b.kind
    && opt_str_eq a.display_name b.display_name
    && opt_str_eq a.parent_actor_id b.parent_actor_id
    && fields_eq a.attributes b.attributes

unfoldable pub authorization_eq : ProvenanceAuthorization → ProvenanceAuthorization → Bool
authorization_eq a b = str_eq a.actor_id b.actor_id && opt_str_eq a.adapter_id b.adapter_id

-- A name that may be absent: non-blank and at most 160 characters.
abbrev pub name_ok : Option String → Bool
name_ok none = true
name_ok (some s) = has_length 0 160 s && not (is_blank s)

abbrev pub adapter_ok : Option String → Bool
adapter_ok none = true
adapter_ok (some s) = has_length 1 512 s

unfoldable pub validate_opt_id : Option String → Result (Unit {0})
validate_opt_id none = ok tt
validate_opt_id (some s) = do validate_id s; ok tt

unfoldable pub validate_actor : ActorRecord → Result ActorRecord
unfolding validate_opt_id
validate_actor a = do
  validate_id a.actor_id
  validate_opt_id a.parent_actor_id
  guard (name_ok a.display_name) value_error
  ok a

unfoldable pub validate_authorization : ProvenanceAuthorization → Result ProvenanceAuthorization
validate_authorization a = do
  validate_id a.actor_id
  guard (adapter_ok a.adapter_id) value_error
  ok a

unfoldable pub validate_actors : List ActorRecord → Result (Unit {0})
validate_actors [] = ok tt
validate_actors (a ∷ rest) = do validate_actor a; validate_actors rest

unfoldable pub validate_authorizations : List ProvenanceAuthorization → Result (Unit {0})
validate_authorizations [] = ok tt
validate_authorizations (a ∷ rest) = do validate_authorization a; validate_authorizations rest

-- `tuple(actor for actor in actors if test(actor))`
unfoldable pub keep : (ActorRecord → Bool) → List ActorRecord → List ActorRecord
keep test [] = []
keep test (a ∷ rest) = let kept = keep test rest in if test a then a ∷ kept else kept

abbrev pub has_id : String → ActorRecord → Bool
has_id id a = str_eq a.actor_id id

abbrev pub is_self : ActorRecord → Bool
is_self a = kind_is a.kind self

abbrev pub one_same : List ActorRecord → List ActorRecord → Bool
one_same (a ∷ []) (b ∷ []) = actor_eq a b
one_same _ _ = false

-- `_exact_self_actor_boundary`
unfoldable pub exact_self_boundary : IdentityState → Bool
unfolding actor_eq
exact_self_boundary s = one_same (keep (has_id s.self_actor_id) s.actors) (keep is_self s.actors)

-- `IdentityState.revalidated`
unfoldable pub revalidated : IdentityState → Result IdentityState
revalidated s = do
  validate_id s.self_actor_id
  guard (name_ok s.name) value_error
  validate_actors s.actors
  validate_authorizations s.authorizations
  guard (exact_self_boundary s) value_error
  ok s

-- `IdentityState.genesis`
unfoldable pub genesis : String → Result IdentityState
genesis brain_id = do
  validate_id brain_id
  revalidated (record {
    self_actor_id = brain_id;
    name = none;
    actors =
        record {
          actor_id = brain_id;
          kind = self;
          display_name = none;
          parent_actor_id = none;
          attributes = end;
        }
        ∷ [];
    authorizations = [];
  })

unfoldable pub is_authorized : IdentityState → String → Option String → Bool
is_authorized s actor_id adapter_id =
    if str_eq actor_id s.self_actor_id
    then true
    else any (λ item. str_eq item.actor_id actor_id && opt_str_eq item.adapter_id adapter_id)
        s.authorizations

unfoldable pub replace_actor : List ActorRecord → ActorRecord → List ActorRecord
replace_actor actors a = keep (λ item. not (str_eq item.actor_id a.actor_id)) actors ++ a ∷ []
