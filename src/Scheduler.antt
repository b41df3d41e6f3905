-- ===== src/Scheduler.antt =====
-- The continuous scheduler (src/alice_brain_hermes/runtime/scheduler.py): health, step and run of ContinuousScheduler.
-- The engine is an interface: each call gives the engine's next state, and the type of the exception if it raised.
-- Clock samples are compared and subtracted by a parameter, since they are floats. The background thread only calls
-- `run`; what it finds at its stop event and on the clock is a sequence of wakes.
pub mod Evaluation
pub mod Recovery
pub mod Loop
use alice_brain_hermes.Prelude.{
  ℕ, suc, ◌+◌, String, Bool, true, false, ◌||◌, Option, none, some, List, [], ◌∷◌, ◌==◌, leb,
  if◌then◌else◌, Result, ok, err, permission_error, guard, ◌>>◌,
}

-- What the scheduler calls of ConsciousEngine.
pub record Engine {ℓ} (S : Type ℓ) (T : Type 0) : Type ℓ where
  pub is_degraded : S → Bool
  pub pulse : S → T → S × Option String
  pub record_recovered : S → S × Option String
  pub record_failure : S → String → S × Option String

-- What the monotonic clock gives: an exception of a type, something that is no number, or a number.
pub data Sample (T : Type 0) : Type 0 where
  raised : String → Sample T
  not_a_number : Sample T
  at : T → Sample T

pub record Scheduler (T : Type 0) : Type 0 where
  pub last_wake : T
  pub volatile_degraded : Bool
  pub failure_event_persisted : Bool
  pub last_error_type : Option String
  pub creator_pid : ℕ
  pub thread_is_alive : Bool

pub data Status : Type 0 where
  healthy degraded : Status

pub record SchedulerHealth : Type 0 where
  pub status : Status
  pub failure_event_persisted : Bool
  pub last_error_type : Option String
  pub running : Bool

-- One turn of the loop of `run`: the stop event before it and after the sleep, and the clock's sample.
pub record Wake (T : Type 0) : Type 0 where
  pub stopped_before : Bool
  pub stopped_in_sleep : Bool
  pub sample : Sample T

module _ {ℓ} {S : Type ℓ} {T : Type 0} (engine : Engine S T) where
  abbrev pub is_degraded_now : Scheduler T → S → Bool
  is_degraded_now s state = s.volatile_degraded || engine.is_degraded state

  -- `_assert_creator_process`
  assert_creator_process : Scheduler T → ℕ → Result (Unit {0})
  assert_creator_process s pid = guard (pid == s.creator_pid) permission_error

  -- The property `health`.
  pub health : Scheduler T → S → ℕ → Result SchedulerHealth
  unfolding assert_creator_process
  health s state pid = do
    assert_creator_process s pid
    ok (record {
      status = if is_degraded_now s state then degraded else healthy;
      failure_event_persisted = s.failure_event_persisted;
      last_error_type = s.last_error_type;
      running = s.thread_is_alive;
    })

  abbrev pub after_failure_event : Scheduler T → S × Option String → Scheduler T × S × Bool
  after_failure_event s (state, none) =
      (record s { failure_event_persisted = true; volatile_degraded = false }, state, false)
  after_failure_event s (state, some persistence_error) = (
    record s { last_error_type = some persistence_error; failure_event_persisted = false },
    state,
    false,
  )

  -- The `except` clause of `step`.
  pub failed : Scheduler T → S → String → Scheduler T × S × Bool
  failed s state error =
      after_failure_event (record s { last_error_type = some error; volatile_degraded = true })
        (engine.record_failure state error)

  abbrev recovered : Scheduler T → S × Option String → Scheduler T × S × Bool
  recovered s (state, none) =
      (record s { volatile_degraded = false; failure_event_persisted = true }, state, true)
  recovered s (state, some error) = failed s state error

  abbrev pulsed : Scheduler T → Bool → S × Option String → Scheduler T × S × Bool
  pulsed s was_degraded (state, some error) = failed s state error
  pulsed s was_degraded (state, none) =
      recovered s (if was_degraded then engine.record_recovered state else (state, none))

  -- The `try` body from the assignment of `_last_wake` on.
  pub woken : Scheduler T → S → T → T → Scheduler T × S × Bool
  unfolding failed
  woken s state now elapsed =
      pulsed (record s { last_wake = now }) (is_degraded_now s state) (engine.pulse state elapsed)

  module _ (elapsed_since : T → T → Option T) where
    abbrev sampled : Scheduler T → S → T → Option T → Scheduler T × S × Bool
    sampled s state now none = failed s state "RuntimeError"
    sampled s state now (some elapsed) = woken s state now elapsed

    -- `step`, in the scheduler's own process; `elapsed_since now last` is none where the check of the clock fails
    pub attempt : Scheduler T → S → Sample T → Scheduler T × S × Bool
    unfolding failed woken
    attempt s state (raised error) = failed s state error
    attempt s state not_a_number = failed s state "RuntimeError"
    attempt s state (at now) = sampled s state now (elapsed_since now s.last_wake)

    pub step : Scheduler T → S → ℕ → Sample T → Result (Scheduler T × S × Bool)
    unfolding assert_creator_process attempt
    step s state pid sample = do assert_creator_process s pid; ok (attempt s state sample)

    abbrev is_reached : Option ℕ → ℕ → Bool
    is_reached none completed = false
    is_reached (some max_ticks) completed = leb max_ticks completed

    -- The loop of `run`, over what it finds at its wakes, with the ticks completed.
    pub run : Option ℕ → Scheduler T → S → ℕ → List (Wake T) → Scheduler T × S × ℕ
    unfolding attempt
    run max_ticks s state completed [] = (s, state, completed)
    run max_ticks s state completed (wake ∷ wakes) =
        let (after, next, _) = attempt s state wake.sample in
        let rest = run max_ticks after next (completed + 1) wakes in
        if wake.stopped_before || is_reached max_ticks completed || wake.stopped_in_sleep
        then (s, state, completed)
        else rest
