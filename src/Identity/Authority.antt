-- ===== src/Identity/Authority.antt =====
-- Who may trust whom: only the brain itself grants trust, and no event takes it back.
use alice_brain_hermes.Prelude.{
  String, ◌≡◌, ◌⊎◌, inl, inr, Bool, true, ◌&&◌, ◌||◌, Option, some, [], ◌∷◌, str_eq, opt_str_eq,
  eq_iff, opt_str_eq→eq, any-append, Bool-cases, arith, ok,
}
use alice_brain_hermes.Events.{EventEnvelope}
use alice_brain_hermes.Identity.State.{IdentityState, ProvenanceAuthorization, is_authorized}
use alice_brain_hermes.Identity.{
  provenance_authorized, identity_event_of, read_authorization, reduce_identity,
}
use alice_brain_hermes.Identity.Change.{Change, reduce_identity-Change, with_authorization}

-- `event` is the brain's own, and it authorises exactly this pair.
pub record Grants (e : EventEnvelope) (self_id actor_id : String) (adapter_id : Option String)
    : Type 0 where
  pub by_self : e.actor_id ≡ self_id
  pub typed : identity_event_of e.event_type ≡ some provenance_authorized
  pub pair :
      read_authorization e.payload ≡ ok (record { actor_id = actor_id; adapter_id = adapter_id })

abbrev matches : String → Option String → ProvenanceAuthorization → Bool
matches actor_id adapter_id item =
    str_eq item.actor_id actor_id && opt_str_eq item.adapter_id adapter_id

is_authorized-with :
    (s : IdentityState) (a : ProvenanceAuthorization) (actor_id : String)
    (adapter_id : Option String)
    → is_authorized (with_authorization s a) actor_id adapter_id
      ≡ (is_authorized s actor_id adapter_id || matches actor_id adapter_id a)
unfolding is_authorized
is_authorized-with s a actor_id adapter_id =
    ground (arith, any-append (matches actor_id adapter_id) s.authorizations (a ∷ []))

Change-keeps :
    (e : EventEnvelope) {s t : IdentityState} (actor_id : String) (adapter_id : Option String)
    → Change e s t
    → is_authorized s actor_id adapter_id ≡ true
    → is_authorized t actor_id adapter_id ≡ true
Change-keeps e actor_id adapter_id (Change.kept same) h = rw same h
Change-keeps e {s} actor_id adapter_id (Change.renamed name same _) h =
    rw same (unfold is_authorized in h)
Change-keeps e actor_id adapter_id (Change.registered actor _ _ same _) h =
    rw same (unfold is_authorized in h)
Change-keeps e {s} actor_id adapter_id (Change.authorized a _ _ _ _ _ same _) h =
    rw same (ground (arith, is_authorized-with s a actor_id adapter_id))

granted :
    (e : EventEnvelope) (s : IdentityState) (a : ProvenanceAuthorization) (actor_id : String)
    (adapter_id : Option String)
    → e.actor_id ≡ s.self_actor_id
    → identity_event_of e.event_type ≡ some provenance_authorized
    → read_authorization e.payload ≡ ok a
    → matches actor_id adapter_id a ≡ true
    → Grants e s.self_actor_id actor_id adapter_id
granted e s a actor_id adapter_id by typed reads m =
    let fields : (a.actor_id ≡ actor_id) × (a.adapter_id ≡ adapter_id) =
      ground (arith, eq_iff a.actor_id actor_id, opt_str_eq→eq a.adapter_id adapter_id) in
    record { by_self = by; typed = typed; pair = ground arith }

Change-Grants :
    (e : EventEnvelope) {s t : IdentityState} (actor_id : String) (adapter_id : Option String)
    → Change e s t
    → is_authorized t actor_id adapter_id ≡ true
    → (is_authorized s actor_id adapter_id ≡ true) ⊎ Grants e s.self_actor_id actor_id adapter_id
Change-Grants e actor_id adapter_id (Change.kept same) h = inl (rw same at h)
Change-Grants e {s} actor_id adapter_id (Change.renamed name same _) h =
    inl (unfold is_authorized in (rw same at h))
Change-Grants e actor_id adapter_id (Change.registered actor _ _ same _) h =
    inl (unfold is_authorized in (rw same at h))
Change-Grants e {s} actor_id adapter_id (Change.authorized a by typed reads _ _ same _) h =
    elim (Bool-cases (matches actor_id adapter_id a)) [
      | inl new ↦ inr (granted e s a actor_id adapter_id by typed reads new)
      | inr old ↦ inl (ground (arith, is_authorized-with s a actor_id adapter_id, before))
    ]
  where
    before : is_authorized (with_authorization s a) actor_id adapter_id ≡ true
    before = rw same at h

-- An event that the reducer accepts takes no trust back, and it adds trust in an actor and an adapter only if it is
-- the brain's own event and authorises exactly that pair.
pub reduce_identity-authority :
    (e : EventEnvelope) (s t : IdentityState) (actor_id : String) (adapter_id : Option String)
    → reduce_identity s e ≡ ok t
    → (is_authorized s actor_id adapter_id ≡ true → is_authorized t actor_id adapter_id ≡ true)
      × (is_authorized t actor_id adapter_id ≡ true
          → (is_authorized s actor_id adapter_id ≡ true)
            ⊎ Grants e s.self_actor_id actor_id adapter_id)
reduce_identity-authority e s t actor_id adapter_id h =
    let changes = reduce_identity-Change e s t h in
    (Change-keeps e actor_id adapter_id changes, Change-Grants e actor_id adapter_id changes)
