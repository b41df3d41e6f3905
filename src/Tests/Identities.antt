-- ===== src/Tests/Identities.antt =====
-- Runs of identity events.
use alice_brain_hermes.Prelude.{
  String, ◌≡◌, ◌⊎◌, refl, true, false, none, some, [], Result, ok, err, arith,
}
use alice_brain_hermes.Events.{EventEnvelope}
use alice_brain_hermes.Text.{is_blank, has_length}
use alice_brain_hermes.Ids.{validate_id, is_canonical_uuid4}
use alice_brain_hermes.Json.{get, get_or, get_elem?, end, field, str, fields_eq}
use alice_brain_hermes.Identity.State.{IdentityState, genesis, is_authorized}
use alice_brain_hermes.Identity.{reduce_identity}
use alice_brain_hermes.Identity.Evaluation.{identity_evaluation}
use alice_brain_hermes.Identity.Boundary.{IsIdentity, reduce_identity-IsIdentity}
use alice_brain_hermes.Identity.Authority.{Grants, reduce_identity-authority}
use alice_brain_hermes.Tests.Events.{brain, event}

program : Unit {0}
unfolding identity_evaluation is_blank has_length validate_id is_canonical_uuid4 get get_or
    get_elem? fields_eq
program = tt

abbrev tool : String
tool = "6ecd8c99-4036-403d-bf84-cf8400f67836"

abbrev state_of : Result IdentityState → IdentityState
state_of (ok s) = s
state_of (err _) = record { self_actor_id = ""; name = none; actors = []; authorizations = [] }

born : IdentityState
born = state_of (genesis brain)

abbrev registers : EventEnvelope
registers =
    event "e1" "identity.actor_registered"
      (field "actor_id" (str tool) (field "kind" (str "tool_adapter") end))

known : IdentityState
known = state_of (reduce_identity born registers)

abbrev trusts : EventEnvelope
trusts =
    event "e2" "identity.provenance_authorized"
      (field "actor_id" (str tool) (field "adapter_id" (str "hermes") end))

trusting : IdentityState
trusting = state_of (reduce_identity known trusts)

run : Unit {0}
unfolding program born known trusting
run = tt

trusted_now :
    (is_authorized known tool (some "hermes") ≡ false)
    × (is_authorized trusting tool (some "hermes") ≡ true)
unfolding run
trusted_now = (refl, refl)

born-IsIdentity : IsIdentity born
unfolding run
born-IsIdentity = record {
  boundary = (refl, tt);
  one_self = refl;
  distinct = refl;
  actors_bounded = omega arith;
  authorizations_bounded = omega arith;
}

reduce_identity-IsIdentity_example : IsIdentity known
unfolding run
reduce_identity-IsIdentity_example =
    reduce_identity-IsIdentity registers born known born-IsIdentity refl

reduce_identity-authority_example :
    (is_authorized known tool (some "hermes") ≡ true
      → is_authorized trusting tool (some "hermes") ≡ true)
    × (is_authorized trusting tool (some "hermes") ≡ true
        → (is_authorized known tool (some "hermes") ≡ true)
          ⊎ Grants trusts known.self_actor_id tool (some "hermes"))
unfolding run
reduce_identity-authority_example =
    reduce_identity-authority trusts known trusting tool (some "hermes") refl
