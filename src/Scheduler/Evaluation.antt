-- ===== src/Scheduler/Evaluation.antt =====
-- Opens the definitions of the module above for tests that evaluate them.
use alice_brain_hermes.Scheduler.{assert_creator_process, health, failed, woken, attempt, step, run}

unfoldable pub scheduler_evaluation : Unit {0}
unfolding assert_creator_process health failed woken attempt step run
scheduler_evaluation = tt
