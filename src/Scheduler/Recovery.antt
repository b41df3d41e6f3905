-- ===== src/Scheduler/Recovery.antt =====
-- A failure is visible until a later tick succeeds.
use alice_brain_hermes.Prelude.{
  String, ◌≡◌, refl, Bool, true, false, not, ◌⊎◌, Option, none, some, arith, Bool-cases, inl, inr,
  if◌then◌else◌,
}
use alice_brain_hermes.Scheduler.{
  Engine, Scheduler, Sample, raised, not_a_number, at, is_degraded_now, failed, after_failure_event,
  pulsed, recovered, woken, sampled, attempt,
}

-- What the scheduler relies on: a recorded failure degrades the engine's state, a recorded recovery heals it, and a
-- pulse that succeeds does neither.
pub record IsHonest {ℓ} {S : Type ℓ} {T : Type 0} (engine : Engine S T) : Type ℓ where
  pub failure_degrades :
      (s t : S) (error : String)
      → engine.record_failure s error ≡ (t, none)
      → engine.is_degraded t ≡ true
  pub recovery_heals :
      (s t : S) → engine.record_recovered s ≡ (t, none) → engine.is_degraded t ≡ false
  pub pulse_keeps :
      (s t : S) (elapsed : T)
      → engine.pulse s elapsed ≡ (t, none)
      → engine.is_degraded t ≡ engine.is_degraded s

-- What a step that reports `ticked` leaves behind.
pub record Reports {ℓ} {S : Type ℓ} {T : Type 0} (engine : Engine S T) (s : Scheduler T) (state : S)
    (ticked : Bool) : Type ℓ where
  pub visible : is_degraded_now engine s state ≡ not ticked
  pub unpersisted : s.failure_event_persisted ≡ false → s.volatile_degraded ≡ true
  pub explained : ticked ≡ false → (error : String) × (s.last_error_type ≡ some error)

module _ {ℓ} {S : Type ℓ} {T : Type 0} (engine : Engine S T) where
  abbrev pub ReportsOf : Scheduler T × S × Bool → Type ℓ
  ReportsOf r = Reports engine r.0 r.1 r.2

  after_failure_event-Reports :
      (s : Scheduler T) (error : String) (m : S × Option String)
      → s.volatile_degraded ≡ true
      → s.last_error_type ≡ some error
      → (m.1 ≡ none → engine.is_degraded m.0 ≡ true)
      → ReportsOf (after_failure_event engine s m)
  after_failure_event-Reports s error (state, none) v e d = record {
    visible = ground arith;
    unpersisted = λ u. cc;
    explained = λ t. (error, e);
  }
  after_failure_event-Reports s error (state, some next_error) v e d = record {
    visible = ground arith;
    unpersisted = λ u. v;
    explained = λ t. (next_error, refl);
  }

module _ {ℓ} {S : Type ℓ} {T : Type 0} (engine : Engine S T) (honest : IsHonest engine) where
  failed-Reports :
      (s : Scheduler T) (state : S) (error : String)
      → ReportsOf engine (failed engine s state error)
  unfolding failed
  failed-Reports s state error =
      let result = engine.record_failure state error in
      after_failure_event-Reports engine
        (record s { last_error_type = some error; volatile_degraded = true }) error result refl refl
        (λ h. honest.failure_degrades state result.0 error (ground arith))

  recovered-Reports :
      (s : Scheduler T) (m : S × Option String)
      → (m.1 ≡ none → engine.is_degraded m.0 ≡ false)
      → ReportsOf engine (recovered engine s m)
  recovered-Reports s (state, none) d = record {
    visible = ground arith;
    unpersisted = λ u. cc;
    explained = λ t. cc;
  }
  recovered-Reports s (state, some error) d = failed-Reports s state error

  abbrev healing : S → Bool → S × Option String
  healing state was_degraded = if was_degraded then engine.record_recovered state else (state, none)

  healed :
      (state : S) (was_degraded : Bool)
      → (engine.is_degraded state ≡ false) ⊎ (was_degraded ≡ true)
      → (healing state was_degraded).1 ≡ none
      → engine.is_degraded (healing state was_degraded).0 ≡ false
  healed state true h n =
      honest.recovery_heals state (engine.record_recovered state).0 (ground arith)
  healed state false (inl h) n = h
  healed state false (inr h) n = cc

  pulsed-Reports :
      (s : Scheduler T) (before : S) (was_degraded : Bool) (m : S × Option String)
      → (engine.is_degraded before ≡ false) ⊎ (was_degraded ≡ true)
      → (m.1 ≡ none → engine.is_degraded m.0 ≡ engine.is_degraded before)
      → ReportsOf engine (pulsed engine s was_degraded m)
  pulsed-Reports s before was_degraded (state, some error) w k = failed-Reports s state error
  pulsed-Reports s before was_degraded (state, none) w k =
      recovered-Reports s (healing state was_degraded) (healed state was_degraded (ground arith))

  woken-Reports :
      (s : Scheduler T) (state : S) (now elapsed : T)
      → ReportsOf engine (woken engine s state now elapsed)
  unfolding woken
  woken-Reports s state now elapsed =
      let result = engine.pulse state elapsed in
      pulsed-Reports (record s { last_wake = now }) state (is_degraded_now engine s state) result
        (elim (Bool-cases (engine.is_degraded state)) [
          | inl h ↦ inr (ground arith)
          | inr h ↦ inl h
        ])
        (λ h. honest.pulse_keeps state result.0 elapsed (ground arith))

  -- With an honest engine, after a step the health is degraded if the step failed and healthy if it ticked; a failure that the ledger does
  -- not hold is held by the scheduler, and a failed step names an error.
  pub attempt-Reports :
      (elapsed_since : T → T → Option T) (s : Scheduler T) (state : S) (sample : Sample T)
      → ReportsOf engine (attempt engine elapsed_since s state sample)
  unfolding attempt
  attempt-Reports elapsed_since s state (raised error) = failed-Reports s state error
  attempt-Reports elapsed_since s state not_a_number = failed-Reports s state "RuntimeError"
  attempt-Reports elapsed_since s state (at now) =
      elim (elapsed_since now s.last_wake)
        as (λ o. ReportsOf engine (sampled engine elapsed_since s state now o)) [
          | none ↦ failed-Reports s state "RuntimeError"
          | some elapsed ↦ woken-Reports s state now elapsed
        ]
