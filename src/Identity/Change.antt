-- ===== src/Identity/Change.antt =====
-- The ways in which an accepted event changes the identity state.
use alice_brain_hermes.Prelude.{
  ◌<◌, String, ◌≡◌, refl, true, false, not, ◌&&◌, Option, none, some, [], ◌∷◌, ◌++◌, leb, str_eq,
  eq_iff, any, all, length, arith, ok, domain_invariant, rewrap, rewrap-eq-ok, >>=-eq-ok,
  guard-eq-ok, ◌>>=◌, Bool-cases, inl, inr,
}
use alice_brain_hermes.Json.{get}
use alice_brain_hermes.Events.{EventEnvelope}
use alice_brain_hermes.Identity.State.{
  IdentityState, ActorRecord, ProvenanceAuthorization, revalidated, replace_actor,
  exact_self_boundary, has_id, is_self, authorization_eq, max_provenance_authorizations,
  max_identity_actors,
}
use alice_brain_hermes.Identity.{
  IdentityEvent, named, actor_registered, provenance_authorized, identity_event_of, handle,
  reduce_identity, rename, register, authorize, read_name, read_actor, read_authorization,
}

pub revalidated-eq :
    (s t : IdentityState) → revalidated s ≡ ok t → (t ≡ s) × (exact_self_boundary s ≡ true)
unfolding revalidated
revalidated-eq s t h = ground arith

abbrev pub with_actor : IdentityState → ActorRecord → IdentityState
with_actor s actor = record s { actors = replace_actor s.actors actor }

abbrev pub with_authorization : IdentityState → ProvenanceAuthorization → IdentityState
with_authorization s a = record s { authorizations = s.authorizations ++ a ∷ [] }

pub data Change (e : EventEnvelope) (s t : IdentityState) : Type 0 where
  kept : t ≡ s → Change e s t
  renamed :
      (name : String)
      → t ≡ record s { name = some name }
      → exact_self_boundary t ≡ true
      → Change e s t
  registered :
      (actor : ActorRecord)
      → is_self actor ≡ has_id s.self_actor_id actor
      → not (
          all (λ item. not (str_eq item.actor_id actor.actor_id)) s.actors
          && leb max_identity_actors (length s.actors))
        ≡ true
      → t ≡ with_actor s actor
      → exact_self_boundary t ≡ true
      → Change e s t
  authorized :
      (a : ProvenanceAuthorization)
      → e.actor_id ≡ s.self_actor_id
      → identity_event_of e.event_type ≡ some provenance_authorized
      → read_authorization e.payload ≡ ok a
      → any (authorization_eq a) s.authorizations ≡ false
      → length s.authorizations < max_provenance_authorizations
      → t ≡ with_authorization s a
      → exact_self_boundary t ≡ true
      → Change e s t

rename-Change :
    (e : EventEnvelope) (s t : IdentityState) (name : String) → rename s name ≡ ok t → Change e s t
unfolding rename
rename-Change e s t name h =
    let (same, exact) = revalidated-eq (record s { name = some name }) t h in
    Change.renamed name same (rw same exact)

register-Change :
    (e : EventEnvelope) (s t : IdentityState) (actor : ActorRecord)
    → register s actor ≡ ok t
    → Change e s t
unfolding register
register-Change e s t actor h =
    let checks : (is_self actor ≡ has_id s.self_actor_id actor)
        × (not (
              all (λ item. not (str_eq item.actor_id actor.actor_id)) s.actors
              && leb max_identity_actors (length s.actors))
            ≡ true)
        × (revalidated (with_actor s actor) ≡ ok t) =
      ground arith in
    let (same, exact) = revalidated-eq (with_actor s actor) t checks.2 in
    Change.registered actor checks.0 checks.1 same (rw same exact)

authorize-Change :
    (e : EventEnvelope) (s t : IdentityState) (a : ProvenanceAuthorization)
    → e.actor_id ≡ s.self_actor_id
    → identity_event_of e.event_type ≡ some provenance_authorized
    → read_authorization e.payload ≡ ok a
    → authorize s a ≡ ok t
    → Change e s t
unfolding authorize
authorize-Change e s t a by typed reads h =
    elim (Bool-cases (any (authorization_eq a) s.authorizations)) [
      | inl old ↦ Change.kept (ground arith)
      | inr new ↦
          let checks : (length s.authorizations < max_provenance_authorizations)
              × (revalidated (with_authorization s a) ≡ ok t) =
            ground arith in
          let (same, exact) = revalidated-eq (with_authorization s a) t checks.1 in
          Change.authorized a by typed reads new checks.0 same (rw same exact)
    ]

handle-Change :
    (o : Option IdentityEvent) (e : EventEnvelope) (s t : IdentityState)
    → identity_event_of e.event_type ≡ o
    → handle o s e ≡ ok t
    → Change e s t
unfolding handle
handle-Change none e s t typed h = Change.kept (ground arith)
handle-Change (some named) e s t typed h =
    let (name, _, renames) = >>=-eq-ok (read_name (get e.payload "name")) (rename s) h in
    rename-Change e s t name renames
handle-Change (some actor_registered) e s t typed h =
    let (actor, _, registers) =
      >>=-eq-ok (rewrap domain_invariant (read_actor e.payload)) (register s) h in
    register-Change e s t actor registers
handle-Change (some provenance_authorized) e s t typed h =
    let (by, rest) =
      guard-eq-ok (str_eq e.actor_id s.self_actor_id) domain_invariant
        (rewrap domain_invariant (read_authorization e.payload) >>= authorize s) h in
    let (a, reads, authorizes) =
      >>=-eq-ok (rewrap domain_invariant (read_authorization e.payload)) (authorize s) rest in
    authorize-Change e s t a ((eq_iff e.actor_id s.self_actor_id).0 by) typed
      (rewrap-eq-ok domain_invariant (read_authorization e.payload) reads) authorizes

-- The reducer makes no other change.
pub reduce_identity-Change :
    (e : EventEnvelope) (s t : IdentityState) → reduce_identity s e ≡ ok t → Change e s t
unfolding reduce_identity
reduce_identity-Change e s t h = handle-Change (identity_event_of e.event_type) e s t refl h
