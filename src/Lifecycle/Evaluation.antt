-- ===== src/Lifecycle/Evaluation.antt =====
-- Opens the definitions of the module above for tests that evaluate them.
use alice_brain_hermes.Lifecycle.{
  first_key, pop, bump, insert_count, sort_counts, make_room, count_type, count_event,
}
use alice_brain_hermes.Memory.Evaluation.{memory_evaluation}

unfoldable pub lifecycle_evaluation : Unit {0}
unfolding first_key pop bump insert_count sort_counts make_room count_type count_event
    memory_evaluation
lifecycle_evaluation = tt
