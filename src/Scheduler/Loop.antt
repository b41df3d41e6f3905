-- ===== src/Scheduler/Loop.antt =====
-- The loop of the scheduler: how many ticks it makes, and the health it leaves.
use Prim.Native.Nat.{min}
use alice_brain_hermes.Prelude.{
  ℕ, zero, suc, true, false, ◌∙◌, ◌+◌, ◌-◌, ◌≡◌, refl, Bool, ◌||◌, ◌⊎◌, inl, inr, Option, none,
  some, List, [], ◌∷◌, arith, Bool-cases, if◌then◌else◌,
}
use alice_brain_hermes.Scheduler.{Engine, Sample, Scheduler, Wake, attempt, is_reached, run}
use alice_brain_hermes.Scheduler.Recovery.{IsHonest, Reports, ReportsOf, attempt-Reports}

-- How many wakes come before one that finds the stop event set.
unfoldable pub wakes_before_stop : {T : Type 0} → List (Wake T) → ℕ
wakes_before_stop [] = 0
wakes_before_stop (wake ∷ wakes) =
    let rest = wakes_before_stop wakes in
    if wake.stopped_before || wake.stopped_in_sleep then 0 else suc rest

-- How many of `count` ticks the limit leaves to a loop that has `completed` some.
abbrev pub within : Option ℕ → ℕ → ℕ → ℕ
within none completed count = count
within (some max_ticks) completed count = min (max_ticks - completed) count

module _ {ℓ} {S : Type ℓ} {T : Type 0} (engine : Engine S T)
    (elapsed_since : T → T → Option T) where
  -- One attempt after the other, each from where the one before has left the scheduler and the engine.
  abbrev pub attempts : Scheduler T → S → List (Sample T) → Scheduler T × S
  attempts s state [] = (s, state)
  attempts s state (sample ∷ samples) =
      let r = attempt engine elapsed_since s state sample in attempts r.0 r.1 samples

  abbrev pub first_samples : ℕ → List (Wake T) → List (Sample T)
  first_samples zero wakes = []
  first_samples (suc n) [] = []
  first_samples (suc n) (wake ∷ wakes) = wake.sample ∷ first_samples n wakes

  abbrev pub sample_at : ℕ → List (Wake T) → Option (Sample T)
  sample_at n [] = none
  sample_at zero (wake ∷ wakes) = some wake.sample
  sample_at (suc n) (wake ∷ wakes) = sample_at n wakes

  -- What the attempt on the sample of the wake after `n` others leaves, after the attempts on these, and what its health is.
  pub record IsLast (s : Scheduler T) (state : S) (wakes : List (Wake T)) (n : ℕ)
      (after : Scheduler T) (next : S) : Type ℓ where
    pub sample : Sample T
    pub ticked : Bool
    pub woken : sample_at n wakes ≡ some sample
    pub attempted :
        attempt engine elapsed_since
          (attempts s state (first_samples n wakes)).0
          (attempts s state (first_samples n wakes)).1
          sample
        ≡ (after, next, ticked)
    pub reports : Reports engine after next ticked

  -- Either no tick was made, or the state is what the last of the attempts has left.
  abbrev pub LastReports : Scheduler T → S → ℕ → List (Wake T) → Scheduler T × S × ℕ → Type ℓ
  LastReports s state completed wakes r =
      ((r.2 ≡ completed) × (r.0 ≡ s) × (r.1 ≡ state))
      ⊎ ((n : ℕ) × (r.2 ≡ completed + n + 1) × IsLast s state wakes n r.0 r.1)

  abbrev is_over : Option ℕ → ℕ → Wake T → Bool
  is_over max_ticks completed wake =
      wake.stopped_before
      || is_reached engine elapsed_since max_ticks completed
      || wake.stopped_in_sleep

  over_within :
      (max_ticks : Option ℕ) (completed : ℕ) (wake : Wake T) (wakes : List (Wake T))
      → is_over max_ticks completed wake ≡ true
      → within max_ticks completed (wakes_before_stop (wake ∷ wakes)) ≡ 0
  unfolding wakes_before_stop
  over_within none completed wake wakes h = ground arith
  over_within (some n) completed wake wakes h = ground arith

  goes_on_within :
      (max_ticks : Option ℕ) (completed : ℕ) (wake : Wake T) (wakes : List (Wake T))
      → is_over max_ticks completed wake ≡ false
      → within max_ticks completed (wakes_before_stop (wake ∷ wakes))
        ≡ suc (within max_ticks (completed + 1) (wakes_before_stop wakes))
  unfolding wakes_before_stop
  goes_on_within none completed wake wakes h = ground arith
  goes_on_within (some n) completed wake wakes h = ground arith

  -- The loop makes one tick for each wake before a stop, as far as its limit allows, and no other: what it leaves is what
  -- the attempts on the samples of these wakes leave, one after the other.
  pub run-ticks :
      (max_ticks : Option ℕ) (s : Scheduler T) (state : S) (completed : ℕ) (wakes : List (Wake T))
      → let n = within max_ticks completed (wakes_before_stop wakes) in
        let r = run engine elapsed_since max_ticks s state completed wakes in
        (r.2 ≡ completed + n) × ((r.0, r.1) ≡ attempts s state (first_samples n wakes))
  unfolding run wakes_before_stop
  run-ticks none s state completed [] = (omega arith, refl)
  run-ticks (some n) s state completed [] =
      let none_left : min (n - completed) 0 ≡ 0 = omega arith in rw none_left (omega arith, refl)
  run-ticks max_ticks s state completed (wake ∷ wakes) =
      let r = attempt engine elapsed_since s state wake.sample in
      let count = within max_ticks completed (wakes_before_stop (wake ∷ wakes)) in
      elim (Bool-cases (is_over max_ticks completed wake)) [
        | inl over ↦
            let ends : count ≡ 0 = over_within max_ticks completed wake wakes over in
            rw (over, ends) (omega arith, refl)
        | inr goes_on ↦
            let more : count ≡ suc (within max_ticks (completed + 1) (wakes_before_stop wakes)) =
              goes_on_within max_ticks completed wake wakes goes_on in
            let (ticks, leaves) = run-ticks max_ticks r.0 r.1 (completed + 1) wakes in
            rw (goes_on, more) (ticks ∙ omega arith, leaves)
      ]

  carried :
      (s : Scheduler T) (state : S) (completed : ℕ) (wake : Wake T) (wakes : List (Wake T))
      (final : Scheduler T × S × ℕ)
      → let step = attempt engine elapsed_since s state wake.sample in
        ReportsOf engine step
        → LastReports step.0 step.1 (completed + 1) wakes final
        → LastReports s state completed (wake ∷ wakes) final
  carried s state completed wake wakes (a, n, ticks) reports (inl (count, p, q)) =
      let step = attempt engine elapsed_since s state wake.sample in
      inr (
        0,
        count ∙ omega arith,
        record {
          sample = wake.sample;
          ticked = step.2;
          woken = refl;
          attempted = rw (p, q) refl;
          reports = rw (p, q) reports;
        },
      )
  carried s state completed wake wakes final reports (inr (n, count, last)) = inr (
    suc n,
    count ∙ omega arith,
    record {
      sample = last.sample;
      ticked = last.ticked;
      woken = last.woken;
      attempted = last.attempted;
      reports = last.reports;
    },
  )

  -- With an honest engine, after a run either no tick was made and nothing changed, or the scheduler and the engine are as
  -- the last attempt left them, on the sample of the last wake for which a tick was made and after the attempts on those
  -- before it, and the health is degraded if that attempt failed and healthy if it ticked.
  pub run-Reports :
      IsHonest engine
      → (max_ticks : Option ℕ) (s : Scheduler T) (state : S) (completed : ℕ) (wakes : List (Wake T))
      → LastReports s state completed wakes
          (run engine elapsed_since max_ticks s state completed wakes)
  unfolding run
  run-Reports honest max_ticks s state completed [] = inl (refl, refl, refl)
  run-Reports honest max_ticks s state completed (wake ∷ wakes) =
      let r = attempt engine elapsed_since s state wake.sample in
      elim (Bool-cases (is_over max_ticks completed wake)) [
        | inl over ↦ rw over (inl (refl, refl, refl))
        | inr goes_on ↦ rw goes_on (
            carried s state completed wake wakes
              (run engine elapsed_since max_ticks r.0 r.1 (completed + 1) wakes)
              (attempt-Reports engine honest elapsed_since s state wake.sample)
              (run-Reports honest max_ticks r.0 r.1 (completed + 1) wakes))
      ]
