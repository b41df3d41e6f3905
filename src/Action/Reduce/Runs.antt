-- ===== src/Action/Reduce/Runs.antt =====
-- Runs of accepted events: what an action has once been told is never taken back.
use alice_brain_hermes.Prelude.{
  ◌≤◌, String, ◌≡◌, ◌≢◌, refl, Bool, true, none, some, List, arith, ok,
}
use alice_brain_hermes.Events.{EventEnvelope}
use alice_brain_hermes.Action.{ActionRecord, ActionPhase}
use alice_brain_hermes.Action.Validate.{was}
use alice_brain_hermes.Action.Validate.Claims.{validate_action-IsLifecycle}
use alice_brain_hermes.Action.Transition.{LifecycleEvent}
use alice_brain_hermes.Action.Handlers.Steps.{Handled, all_receipts}
use alice_brain_hermes.Action.Reduce.{find, reduce_actions}
use alice_brain_hermes.Action.Reduce.Lookup.{find-All}
use alice_brain_hermes.Action.Reduce.Ledger.{IsLedger, IsSound, reduce_actions-IsLedger}
use alice_brain_hermes.Action.Reduce.Histories.{Progress, reduce_actions-Progress}

-- What an action keeps.
pub record Settles (a b : ActionRecord) : Type 0 where
  pub outcome_kept : a.outcome ≢ none → b.outcome ≡ a.outcome
  pub execution_kept : a.execution_confirmed ≡ some true → b.execution_confirmed ≡ some true
  pub effect_kept : a.effect_confirmed ≡ some true → b.effect_confirmed ≡ some true
  pub dispatched_kept : was ActionPhase.dispatched a ≡ true → was ActionPhase.dispatched b ≡ true
  pub blocked_kept : was ActionPhase.blocked a ≡ true → was ActionPhase.blocked b ≡ true
  pub receipts_kept : all_receipts a ≤ all_receipts b

not_blocked :
    (kind : LifecycleEvent) (a b : ActionRecord) (grounded : List String)
    → IsSound a
    → Handled kind a b grounded
    → a.execution_confirmed ≡ some true
    → b.phase ≢ ActionPhase.blocked
not_blocked kind a b grounded s h run now =
    let claims = validate_action-IsLifecycle b b h.valid in
    let dispatched =
      h.dispatched_kept (s.claims.outcome_dispatched (s.claims.run_has_outcome run)) in
    let recorded = h.phase_recorded s.recorded in
    let blocked : was ActionPhase.blocked b ≡ true = rw now at recorded in
    cc (claims.never_both blocked, dispatched)

Progress-Settles :
    (e : EventEnvelope) {trusted : Bool} {grounded : List String} {a b : ActionRecord}
    → IsSound a
    → Progress e trusted grounded a b
    → Settles a b
Progress-Settles e s (Progress.kept same) = rw same (record {
  outcome_kept = λ _. refl;
  execution_kept = λ p. p;
  effect_kept = λ p. p;
  dispatched_kept = λ p. p;
  blocked_kept = λ p. p;
  receipts_kept = omega arith;
})
Progress-Settles e {grounded = grounded} {a = a} {b = b} s (Progress.moved kind _ _ h) = record {
  outcome_kept = h.outcome_kept;
  execution_kept = λ run. h.execution_kept (not_blocked kind a b grounded s h run) run;
  effect_kept = h.effect_kept;
  dispatched_kept = h.dispatched_kept;
  blocked_kept = h.blocked_kept;
  receipts_kept = omega (arith, h.receipts_counted s.claims.receipts_bounded);
}

-- From one tuple of actions to another by accepted events.
pub data Run (start : List ActionRecord) : List ActionRecord → Type 0 where
  here : Run start start
  next :
      {before after : List ActionRecord} (e : EventEnvelope) (trusted : Bool)
      (grounded : List String)
      → Run start before
      → reduce_actions before e trusted ≡ ok (after, grounded)
      → Run start after

-- Every run keeps a ledger; the empty tuple is one.
pub Run-IsLedger :
    {start after : List ActionRecord} → IsLedger start → Run start after → IsLedger after
Run-IsLedger l here = l
Run-IsLedger l (next {before = before} {after = after} e trusted grounded r h) =
    reduce_actions-IsLedger e trusted before after grounded (Run-IsLedger l r) h

Settles-refl : (a : ActionRecord) → Settles a a
Settles-refl a = record {
  outcome_kept = λ _. refl;
  execution_kept = λ p. p;
  effect_kept = λ p. p;
  dispatched_kept = λ p. p;
  blocked_kept = λ p. p;
  receipts_kept = omega arith;
}

Settles-trans : {a b c : ActionRecord} → Settles a b → Settles b c → Settles a c
Settles-trans p q = record {
  outcome_kept = λ told. ground (arith, p.outcome_kept told, q.outcome_kept);
  execution_kept = λ h. q.execution_kept (p.execution_kept h);
  effect_kept = λ h. q.effect_kept (p.effect_kept h);
  dispatched_kept = λ h. q.dispatched_kept (p.dispatched_kept h);
  blocked_kept = λ h. q.blocked_kept (p.blocked_kept h);
  receipts_kept = omega (arith, p.receipts_kept, q.receipts_kept);
}

-- In any run from a ledger an action that is there stays there, its outcome, its confirmed execution and its confirmed
-- effect are never taken back, and neither are its dispatch, its block and the number of its receipts.
pub Run-Settles :
    {start after : List ActionRecord} (id : String) (a : ActionRecord)
    → IsLedger start
    → Run start after
    → find id start ≡ some a
    → (b : ActionRecord) × (find id after ≡ some b) × Settles a b
Run-Settles id a l here found = (a, found, Settles-refl a)
Run-Settles id a l (next {before = before} {after = after} e trusted grounded r h) found =
    let (b, there, settles) = Run-Settles id a l r found in
    let (c, now, moves) = reduce_actions-Progress e trusted before after grounded id b h there in
    let sound = find-All IsSound id before b (Run-IsLedger l r).sound there in
    (c, now, Settles-trans settles (Progress-Settles e sound moves))
