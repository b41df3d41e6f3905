-- ===== src/Runtime/Counters.antt =====
-- The health and the counters of the runtime agree.
use alice_brain_hermes.Prelude.{
  ◌+◌, ◌≤◌, ◌<◌, ℕ, String, true, false, ◌≡◌, ◌>>=◌, ◌≢◌, refl, inl, inr, Bool-cases, str_eq,
  eq_iff, arith, ok, >>=-eq-ok,
}
use alice_brain_hermes.Events.{EventEnvelope}
use alice_brain_hermes.Json.{get}
use alice_brain_hermes.Runtime.{
  healthy, degraded, RuntimeState, RuntimeFailure, Clocked, Floats, genesis, runtime_failure, fail,
  failed_with, recover, elapsed_of, tick_by, tick, reduce_runtime,
}

pub record IsRuntime (r : RuntimeState) : Type 0 where
  pub failing : r.health ≡ degraded → 0 < r.consecutive_failures
  pub well : r.health ≡ healthy → r.consecutive_failures ≡ 0
  pub counted : r.consecutive_failures ≤ r.failure_count

-- What an event may do to the runtime.
pub data RuntimeChange (e : EventEnvelope) (r : RuntimeState) : RuntimeState → Type 0 where
  ignored :
      e.event_type ≢ "clock.tick"
      → e.event_type ≢ "runtime.failure"
      → e.event_type ≢ "runtime.recovered"
      → RuntimeChange e r r
  ticked :
      (elapsed : ℕ)
      → e.event_type ≡ "clock.tick"
      → RuntimeChange e r
          (record r { tick_count = r.tick_count + 1; last_elapsed_seconds = elapsed })
  failed :
      (failure : RuntimeFailure)
      → e.event_type ≡ "runtime.failure"
      → runtime_failure e.payload ≡ ok failure
      → RuntimeChange e r (fail r failure)
  recovered : e.event_type ≡ "runtime.recovered" → RuntimeChange e r (recover r)

pub genesis-IsRuntime : IsRuntime genesis
genesis-IsRuntime = record { failing = λ h. ground arith; well = λ h. refl; counted = omega arith }

RuntimeChange-IsRuntime :
    (e : EventEnvelope) {r s : RuntimeState} → RuntimeChange e r s → IsRuntime r → IsRuntime s
unfolding fail recover
RuntimeChange-IsRuntime e (RuntimeChange.ignored _ _ _) h = h
RuntimeChange-IsRuntime e (RuntimeChange.ticked _ _) h = record {
  failing = h.failing;
  well = h.well;
  counted = h.counted;
}
RuntimeChange-IsRuntime e {r} (RuntimeChange.failed f _ _) h = record {
  failing = λ x. omega arith;
  well = λ x. ground arith;
  counted = omega (arith, h.counted);
}
RuntimeChange-IsRuntime e (RuntimeChange.recovered _) h = record {
  failing = λ x. ground arith;
  well = λ x. refl;
  counted = omega arith;
}

named : (e : EventEnvelope) (name : String) → str_eq e.event_type name ≡ true → e.event_type ≡ name
named e name h = ground (arith, eq_iff e.event_type name)

not_named :
    (e : EventEnvelope) (name : String) → str_eq e.event_type name ≡ false → e.event_type ≢ name
not_named e name h = ground (arith, eq_iff e.event_type name)

module _ (py : Floats) where
  tick-Change :
      (s t : Clocked) (e : EventEnvelope)
      → e.event_type ≡ "clock.tick"
      → tick py s e.payload ≡ ok t
      → RuntimeChange e s.runtime t.runtime
  unfolding tick tick_by
  tick-Change s t e typed h =
      let (elapsed, _, p) =
        >>=-eq-ok (elapsed_of py (get e.payload "elapsed_seconds")) (tick_by py s) h in
      let now : t.runtime ≡ record s.runtime {
        tick_count = s.runtime.tick_count + 1;
        last_elapsed_seconds = elapsed;
      } =
        ground arith in
      rw now (RuntimeChange.ticked elapsed typed)

  failure-Change :
      (s t : Clocked) (e : EventEnvelope)
      → e.event_type ≡ "runtime.failure"
      → (runtime_failure e.payload >>= failed_with s) ≡ ok t
      → RuntimeChange e s.runtime t.runtime
  failure-Change s t e typed h =
      let (f, reads, p) = >>=-eq-ok (runtime_failure e.payload) (failed_with s) h in
      let now : t.runtime ≡ fail s.runtime f = ground arith in
      rw now (RuntimeChange.failed f typed reads)

  -- An accepted event leaves the runtime alone, counts a tick, records a failure, or recovers, as its type says.
  reduce_runtime-Change :
      (s t : Clocked) (e : EventEnvelope)
      → reduce_runtime py s e ≡ ok t
      → RuntimeChange e s.runtime t.runtime
  unfolding reduce_runtime
  reduce_runtime-Change s t e h = elim (Bool-cases (str_eq e.event_type "clock.tick")) [
    | inl ticks ↦ tick-Change s t e (named e "clock.tick" ticks) (rw ticks at h)
    | inr no_tick ↦ elim (Bool-cases (str_eq e.event_type "runtime.failure")) [
      | inl fails ↦
          failure-Change s t e (named e "runtime.failure" fails) (rw (no_tick, fails) at h)
      | inr no_failure ↦ elim (Bool-cases (str_eq e.event_type "runtime.recovered")) [
        | inl heals ↦
            let now : t.runtime ≡ recover s.runtime = ground arith in
            rw now (RuntimeChange.recovered (named e "runtime.recovered" heals))
        | inr no_recovery ↦
            let now : t.runtime ≡ s.runtime = ground arith in
            rw now (
              RuntimeChange.ignored (not_named e "clock.tick" no_tick)
                (not_named e "runtime.failure" no_failure)
                (not_named e "runtime.recovered" no_recovery))
      ]
    ]
  ]

  -- An accepted event keeps the runtime consistent: it is degraded exactly while there are consecutive failures,
  -- and these are no more than all failures.
  pub reduce_runtime-IsRuntime :
      (s t : Clocked) (e : EventEnvelope)
      → reduce_runtime py s e ≡ ok t
      → IsRuntime s.runtime
      → IsRuntime t.runtime
  reduce_runtime-IsRuntime s t e h r = RuntimeChange-IsRuntime e (reduce_runtime-Change s t e h) r
