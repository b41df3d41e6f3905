-- ===== src/Tests/Actions.antt =====
-- Runs of action events.
use mathlib.Core.Option
use alice_brain_hermes.Prelude.{
  String, ◌≡◌, ◌≢◌, refl, true, false, none, some, List, [], ◌∷◌, Result, ok, err, ◌+◌, ◌↔◌, arith,
  eq_iff,
}
use alice_brain_hermes.Text.{is_blank, has_length, str_sorted}
use alice_brain_hermes.Json.{get, get_or, get_elem?, end, null, str, non_negative}
use alice_brain_hermes.Action.{ActionRecord, ActionOutcome, ActionReceiptStatus}
use alice_brain_hermes.Action.Reduce.{reduce_actions, find, fresh, action_id_from_event}
use alice_brain_hermes.Action.Source.{validate_receipt_source_semantics}
use alice_brain_hermes.Action.Source.Table.{Means, receipt_source_table}
use alice_brain_hermes.Action.Grounding.Sound.{IsLinked}
use alice_brain_hermes.Action.Transition.{LifecycleEvent}
use alice_brain_hermes.Action.Handlers.Verdicts.{receipt_verdict, effects_grounded}
use alice_brain_hermes.Action.Reduce.Ledger.{IsLedger, reduce_actions-IsLedger}
use alice_brain_hermes.Action.Reduce.Histories.{
  Continues, reduce_actions-Continues, reduce_actions-frame,
}
use alice_brain_hermes.Action.Reduce.Runs.{Run, Settles, Run-IsLedger, Run-Settles}
use alice_brain_hermes.Action.Source.Evaluation.{source_evaluation}
use alice_brain_hermes.Action.Validate.Evaluation.{validation_evaluation}
use alice_brain_hermes.Action.Grounding.Evaluation.{grounding_evaluation}
use alice_brain_hermes.Action.Handlers.Evaluation.{handlers_evaluation}
use alice_brain_hermes.Action.Reduce.Evaluation.{reduction_evaluation}
use alice_brain_hermes.World.{WorldModel, WorldLayer}
use alice_brain_hermes.World.Evaluation.{world_evaluation}
use alice_brain_hermes.World.Trust.{reduce_world-untrusted}
use alice_brain_hermes.Tests.Events.{proposed, prepared, dispatched, confirmed, contradicted}

program : Unit {0}
unfolding source_evaluation validation_evaluation grounding_evaluation handlers_evaluation
    reduction_evaluation is_blank has_length str_sorted get get_or get_elem?
program = tt

-- The actions after an event, or none of them where it is refused.
abbrev actions_of : Result (List ActionRecord × List String) → List ActionRecord
actions_of (ok (actions, _)) = actions
actions_of (err _) = []

s1 : List ActionRecord
s1 = actions_of (reduce_actions [] proposed true)

s2 : List ActionRecord
s2 = actions_of (reduce_actions s1 prepared true)

s3 : List ActionRecord
s3 = actions_of (reduce_actions s2 dispatched true)

s4 : List ActionRecord
s4 = actions_of (reduce_actions s3 confirmed true)

s5 : List ActionRecord
s5 = actions_of (reduce_actions s4 contradicted true)

whole_run : Unit {0}
unfolding program s1 s2 s3 s4 s5
whole_run = tt

s4-settled : Option.map (λ a. a.outcome) (find "a1" s4) ≡ some (some ActionOutcome.success)
unfolding whole_run
s4-settled = refl

Run-s4 : Run [] s4
unfolding whole_run
Run-s4 =
    Run.next {before = s3} confirmed true ("p1" ∷ [])
      (Run.next {before = s2} dispatched true []
        (Run.next {before = s1} prepared true []
          (Run.next {before = []} proposed true [] Run.here refl) refl)
        refl)
      refl

Run-s5 : Run s4 s5
unfolding whole_run
Run-s5 = Run.next {before = s4} contradicted true [] Run.here refl

s4-IsLedger : IsLedger s4
s4-IsLedger = Run-IsLedger (record { distinct = refl; sound = tt }) Run-s4

abbrev a3 : ActionRecord
a3 = elim (find "a1" s3) [ some a ↦ a | none ↦ fresh "" end proposed ]

abbrev a4 : ActionRecord
a4 = elim (find "a1" s4) [ some a ↦ a | none ↦ fresh "" end proposed ]

abbrev a5 : ActionRecord
a5 = elim (find "a1" s5) [ some a ↦ a | none ↦ fresh "" end proposed ]

found_a4 : find "a1" s4 ≡ some a4
unfolding whole_run
found_a4 = refl

reduce_actions-IsLedger_example : IsLedger s5
unfolding whole_run
reduce_actions-IsLedger_example =
    reduce_actions-IsLedger contradicted true s4 s5 [] s4-IsLedger refl

Run-Settles_example : (b : ActionRecord) × (find "a1" s5 ≡ some b) × Settles a4 b
Run-Settles_example = Run-Settles "a1" a4 s4-IsLedger Run-s5 found_a4

reduce_actions-Continues_example :
    (b : ActionRecord) × (find "a1" s5 ≡ some b) × Continues contradicted a4 b
unfolding whole_run
reduce_actions-Continues_example =
    reduce_actions-Continues contradicted true s4 s5 [] "a1" a4 refl found_a4

names_a1 : action_id_from_event contradicted ≡ ok "a1"
unfolding program
names_a1 = refl

reduce_actions-frame_example : find "a2" s5 ≡ find "a2" s4
unfolding whole_run
reduce_actions-frame_example =
    reduce_actions-frame contradicted true s4 s5 [] "a2"
      (λ h. grind (arith, names_a1, eq_iff "a1" "a2")) refl

receipt_verdict_example :
    (a5.outcome ≡ some ActionOutcome.success)
    × (a5.receipt_corroboration_count ≡ a4.receipt_corroboration_count + 0)
    × (a5.receipt_conflict_count + 0 ≡ a4.receipt_conflict_count + 1)
unfolding whole_run
receipt_verdict_example =
    receipt_verdict a4 contradicted true a5 [] ActionReceiptStatus.failure ActionOutcome.success
      ActionOutcome.failure refl refl refl refl

abbrev linked : List String
linked = "p1" ∷ []

effects_grounded_example :
    IsLinked confirmed.payload linked
    × (a4.effect_confirmed ≢ a3.effect_confirmed → linked ≢ [])
    × (true ≡ false → (linked ≡ []) × (a4.effect_confirmed ≡ a3.effect_confirmed))
unfolding whole_run
effects_grounded_example = effects_grounded LifecycleEvent.receipt a3 confirmed true a4 linked refl

-- What is observed before the event, with another content than the event's observation.
abbrev observed_before : WorldModel
observed_before = record {
  observed =
      record {
        proposition_id = "p1";
        content = end;
        layer = WorldLayer.observed;
        source_event_id = "e0";
        source_actor_id = "self";
        action_id = none;
        confidence = non_negative 1;
      }
      ∷ [];
  believed = [];
  simulated = [];
  ideal = [];
}

s4_untrusted : List ActionRecord
s4_untrusted = actions_of (reduce_actions s3 confirmed false)

reduce_world-untrusted_example : observed_before.observed ≡ observed_before.observed
unfolding whole_run world_evaluation s4_untrusted
reduce_world-untrusted_example =
    reduce_world-untrusted s3 s4_untrusted confirmed [] observed_before observed_before refl refl

receipt_source_table_example :
    (validate_receipt_source_semantics ActionReceiptStatus.unknown (str "timeout") null ≡ ok tt)
    ↔ Means ActionReceiptStatus.unknown (str "timeout") null
receipt_source_table_example = receipt_source_table ActionReceiptStatus.unknown (str "timeout") null
