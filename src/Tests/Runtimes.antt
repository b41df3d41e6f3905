-- ===== src/Tests/Runtimes.antt =====
-- Runs of the runtime's health and of the scheduler.
use alice_brain_hermes.Prelude.{
  ℕ, suc, ◌+◌, ◌-◌, ◌≡◌, refl, Bool, true, false, Option, none, some, List, [], ◌∷◌, leb, arith,
  if◌then◌else◌, ok,
}
use alice_brain_hermes.Text.{has_length}
use alice_brain_hermes.Json.{get, get_elem?, end, field, str}
use alice_brain_hermes.Events.{EventEnvelope}
use alice_brain_hermes.Runtime.{
  RuntimeState, Clocked, Floats, Health, genesis, fail, recover, reduce_runtime,
}
use alice_brain_hermes.Runtime.Evaluation.{runtime_evaluation}
use alice_brain_hermes.Runtime.Counters.{IsRuntime, genesis-IsRuntime, reduce_runtime-IsRuntime}
use alice_brain_hermes.Scheduler.{Engine, Scheduler, at, Wake, attempt, run}
use alice_brain_hermes.Scheduler.Evaluation.{scheduler_evaluation}
use alice_brain_hermes.Scheduler.Recovery.{IsHonest, ReportsOf, attempt-Reports}
use alice_brain_hermes.Scheduler.Loop.{
  LastReports, run-ticks, run-Reports, attempts, wakes_before_stop,
}
use alice_brain_hermes.Tests.Events.{event}

program : Unit {0}
unfolding runtime_evaluation scheduler_evaluation has_length get get_elem?
program = tt

abbrev py : Floats
py = record { of_int = λ n. some n; plus = λ a b. some (a + b) }

abbrev born : Clocked
born = record { logical_clock = 0; runtime = genesis }

abbrev failure : EventEnvelope
failure = event "e1" "runtime.failure" (
    field "error_type" (str "OSError")
      (field "message" (str "disk") (field "phase" (str "c0.pulse") end)))

abbrev ill : Clocked
ill = record {
  logical_clock = 0;
  runtime = record {
    health = Health.degraded;
    tick_count = 0;
    failure_count = 1;
    consecutive_failures = 1;
    last_elapsed_seconds = 0;
    last_failure = some (record { error_type = "OSError"; message = "disk"; phase = "c0.pulse" });
  };
}

falls_ill : reduce_runtime py born failure ≡ ok ill
unfolding program
falls_ill = refl

reduce_runtime-IsRuntime_example : IsRuntime ill.runtime
reduce_runtime-IsRuntime_example =
    reduce_runtime-IsRuntime py born ill failure falls_ill genesis-IsRuntime

abbrev is_degraded : Health → Bool
is_degraded Health.healthy = false
is_degraded Health.degraded = true

-- An engine that is its runtime's health, and cannot pulse after ten seconds.
engine : Engine RuntimeState ℕ
engine = record {
  is_degraded = λ r. is_degraded r.health;
  pulse = λ r elapsed.
      if leb 10 elapsed
      then (r, some "ValueError")
      else (record r { tick_count = suc r.tick_count }, none);
  record_recovered = λ r. (recover r, none);
  record_failure = λ r error.
      (fail r (record { error_type = error; message = error; phase = "c0.pulse" }), none);
}

engine-IsHonest : IsHonest engine
unfolding engine program
engine-IsHonest = record {
  failure_degrades = λ s t error h. ground arith;
  recovery_heals = λ s t h. ground arith;
  pulse_keeps = λ s t elapsed h. ground arith;
}

abbrev started : Scheduler ℕ
started = record {
  last_wake = 0;
  volatile_degraded = false;
  failure_event_persisted = true;
  last_error_type = none;
  creator_pid = 1;
  thread_is_alive = true;
}

since : ℕ → ℕ → Option ℕ
since now last = if leb last now then some (now - last) else none

attempt-Reports_example : ReportsOf engine (attempt engine since started genesis (at 20))
attempt-Reports_example = attempt-Reports engine engine-IsHonest since started genesis (at 20)

abbrev wake : ℕ → Wake ℕ
wake now = record { stopped_before = false; stopped_in_sleep = false; sample = at now }

abbrev wakes : List (Wake ℕ)
wakes = wake 1 ∷ wake 20 ∷ wake 21 ∷ []

run-ticks_example :
    ((run engine since (some 2) started genesis 0 wakes).2 ≡ 0 + 2)
    × ((
      (run engine since (some 2) started genesis 0 wakes).0,
      (run engine since (some 2) started genesis 0 wakes).1,
    )
        ≡ attempts engine since started genesis (at 1 ∷ at 20 ∷ []))
unfolding wakes_before_stop
run-ticks_example = run-ticks engine since (some 2) started genesis 0 wakes

run-Reports_example :
    LastReports engine since started genesis 0 wakes
      (run engine since (some 2) started genesis 0 wakes)
run-Reports_example = run-Reports engine since engine-IsHonest (some 2) started genesis 0 wakes

-- The second tick fails, and the third, which the limit leaves out, would heal.
two_ticks : (run engine since (some 2) started genesis 0 wakes).2 ≡ 2
unfolding program engine since
two_ticks = refl
