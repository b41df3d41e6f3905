-- ===== src/Runtime/Evaluation.antt =====
-- Opens the definitions of the module above for tests that evaluate them.
use alice_brain_hermes.Runtime.{
  failure_ok, read_failure, runtime_failure, fail, recover, elapsed_of, tick_by, tick,
  reduce_runtime,
}

unfoldable pub runtime_evaluation : Unit {0}
unfolding failure_ok read_failure runtime_failure fail recover elapsed_of tick_by tick
    reduce_runtime
runtime_evaluation = tt
