-- ===== src/Bounded/Evaluation.antt =====
-- Opens the definitions of the module above for tests that evaluate them.
use alice_brain_hermes.Bounded.{others, upsert}

unfoldable pub bounded_evaluation : Unit {0}
unfolding others upsert
bounded_evaluation = tt
