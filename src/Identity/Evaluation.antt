-- ===== src/Identity/Evaluation.antt =====
-- Opens the definitions of the module above for tests that evaluate them.
use alice_brain_hermes.Identity.State.{
  kind_of, actor_eq, authorization_eq, validate_opt_id, validate_actor, validate_authorization,
  validate_actors, validate_authorizations, keep, exact_self_boundary, revalidated, genesis,
  is_authorized, replace_actor,
}
use alice_brain_hermes.Identity.{
  read_actor, register, read_authorization, authorize, identity_event_of, read_name, rename, handle,
  reduce_identity,
}

unfoldable pub identity_evaluation : Unit {0}
unfolding kind_of actor_eq authorization_eq validate_opt_id validate_actor validate_authorization
    validate_actors validate_authorizations keep exact_self_boundary revalidated genesis
    is_authorized replace_actor read_actor register read_authorization authorize identity_event_of
    read_name rename handle reduce_identity
identity_evaluation = tt
