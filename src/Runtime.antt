-- ===== src/Runtime.antt =====
-- The health of the continuous runtime (src/alice_brain_hermes/core/state.py, RuntimeFailure and RuntimeState) and
-- the branches of reduce_state (core/reducer.py) that change it. Floats are bit patterns of doubles; Python's
-- conversion of an integer to a float and its addition of floats are parameters.
pub mod Evaluation
pub mod Counters
use alice_brain_hermes.Prelude.{
  ℕ, ◌+◌, String, Bool, true, false, ◌&&◌, ◌||◌, Option, none, some, leb, ◌==◌, str_eq,
  if◌then◌else◌, Error, overflow_error, Result, ok, err, value_error, key_error, domain_invariant,
  guard, rewrap, ◌>>=◌, ◌>>◌,
}
use alice_brain_hermes.Text.{has_length}
use alice_brain_hermes.Json.{
  Json, Fields, Number, non_negative, negative, double, num, get, get_elem?, as_str,
}
use alice_brain_hermes.Events.{EventEnvelope}

pub data Health : Type 0 where
  healthy degraded : Health

pub record RuntimeFailure : Type 0 where
  pub error_type : String
  pub message : String
  pub phase : String

pub record RuntimeState : Type 0 where
  pub health : Health
  pub tick_count : ℕ
  pub failure_count : ℕ
  pub consecutive_failures : ℕ
  pub last_elapsed_seconds : ℕ
  pub last_failure : Option RuntimeFailure

-- The defaults of the fields.
abbrev pub genesis : RuntimeState
genesis = record {
  health = healthy;
  tick_count = 0;
  failure_count = 0;
  consecutive_failures = 0;
  last_elapsed_seconds = 0;
  last_failure = none;
}

abbrev pub require {ℓ} : {A : Type ℓ} → Error → Option A → Result A
require e none = err e
require e (some a) = ok a

failure_ok : RuntimeFailure → Bool
failure_ok f =
    has_length 1 160 f.error_type && has_length 1 512 f.message && has_length 1 160 f.phase

read_failure : Fields → Result RuntimeFailure
unfolding failure_ok
read_failure payload = do
  error_type_value ← require key_error (get_elem? payload "error_type")
  message_value ← require key_error (get_elem? payload "message")
  phase_value ← require key_error (get_elem? payload "phase")
  error_type ← require value_error (as_str error_type_value)
  message ← require value_error (as_str message_value)
  phase ← require value_error (as_str phase_value)
  let f : RuntimeFailure = record { error_type = error_type; message = message; phase = phase }
  guard (failure_ok f) value_error
  ok f

-- `_runtime_failure`
pub runtime_failure : Fields → Result RuntimeFailure
unfolding read_failure
runtime_failure payload = rewrap domain_invariant (read_failure payload)

-- The branch `runtime.failure`, with the failure that was read.
pub fail : RuntimeState → RuntimeFailure → RuntimeState
fail r failure = record {
  health = degraded;
  tick_count = r.tick_count;
  failure_count = r.failure_count + 1;
  consecutive_failures = r.consecutive_failures + 1;
  last_elapsed_seconds = r.last_elapsed_seconds;
  last_failure = some failure;
}

-- The branch `runtime.recovered`.
pub recover : RuntimeState → RuntimeState
recover r = record {
  health = healthy;
  tick_count = r.tick_count;
  failure_count = r.failure_count;
  consecutive_failures = 0;
  last_elapsed_seconds = r.last_elapsed_seconds;
  last_failure = r.last_failure;
}

-- Python's float arithmetic, none for an overflow.
pub record Floats : Type 0 where
  pub of_int : ℕ → Option ℕ
  pub plus : ℕ → ℕ → Option ℕ

-- The part of the state that a tick moves.
pub record Clocked : Type 0 where
  pub logical_clock : ℕ
  pub runtime : RuntimeState

abbrev pub failed_with : Clocked → RuntimeFailure → Result Clocked
failed_with s failure = ok (record s { runtime = fail s.runtime failure })

module _ (py : Floats) where
  -- `float(elapsed)` of a finite number that is not negative; 2 ^ 63 is -0.0, and larger patterns are negative.
  elapsed_of : Json → Result ℕ
  elapsed_of (num (non_negative n)) = require overflow_error (py.of_int n)
  elapsed_of (num (double bits)) =
      if leb bits 9223372036854775808 then ok bits else err domain_invariant
  elapsed_of _ = err domain_invariant

  tick_by : Clocked → ℕ → Result Clocked
  tick_by s elapsed = do
    logical_clock ← require domain_invariant (py.plus s.logical_clock elapsed)
    ok (record {
      logical_clock = logical_clock;
      runtime = record s.runtime {
        tick_count = s.runtime.tick_count + 1;
        last_elapsed_seconds = elapsed;
      };
    })

  -- The branch `clock.tick`, less the personality's own clock.
  pub tick : Clocked → Fields → Result Clocked
  unfolding elapsed_of
  tick s payload = elapsed_of (get payload "elapsed_seconds") >>= tick_by s

  -- What an event makes of the clock and of the runtime's health.
  pub reduce_runtime : Clocked → EventEnvelope → Result Clocked
  unfolding tick
  reduce_runtime s event =
      if str_eq event.event_type "clock.tick"
      then tick s event.payload
      else if str_eq event.event_type "runtime.failure"
      then (runtime_failure event.payload >>= failed_with s)
      else if str_eq event.event_type "runtime.recovered"
      then ok (record s { runtime = recover s.runtime })
      else ok s
