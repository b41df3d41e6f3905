-- ===== src/Tests/Admissions.antt =====
-- Runs of the bounded store of actions.
use alice_brain_hermes.Prelude.{◌≡◌, refl, true, none, [], length, Result, ok, err, arith}
use alice_brain_hermes.Text.{is_blank, has_length, str_sorted}
use alice_brain_hermes.Json.{get, get_or, get_elem?}
use alice_brain_hermes.Action.{ActionRecord}
use alice_brain_hermes.Action.Source.Evaluation.{source_evaluation}
use alice_brain_hermes.Action.Validate.Evaluation.{validation_evaluation}
use alice_brain_hermes.Action.Grounding.Evaluation.{grounding_evaluation}
use alice_brain_hermes.Action.Handlers.Evaluation.{handlers_evaluation}
use alice_brain_hermes.Action.Reduce.Evaluation.{reduction_evaluation}
use alice_brain_hermes.Memory.{Collection}
use alice_brain_hermes.Admission.{Admitted, admit_actions}
use alice_brain_hermes.Admission.Evaluation.{admission_evaluation}
use alice_brain_hermes.Admission.Bounds.{IsStore, Admits, admit_actions-Admits}
use alice_brain_hermes.Tests.Events.{proposed}

program : Unit {0}
unfolding source_evaluation validation_evaluation grounding_evaluation handlers_evaluation
    reduction_evaluation admission_evaluation is_blank has_length str_sorted get get_or get_elem?
program = tt

abbrev no_actions : Collection ActionRecord
no_actions = record { items = []; counter = record { total = 0; evicted = 0 } }

no_actions-IsStore : IsStore no_actions
no_actions-IsStore = record {
  ledger = record { distinct = refl; sound = tt };
  bounded = omega arith;
  exact = omega arith;
}

abbrev admitted_of : Result Admitted → Admitted
admitted_of (ok d) = d
admitted_of (err _) = record { records = no_actions; grounded = []; evicted_action_id = none }

one_action : Admitted
one_action = admitted_of (admit_actions no_actions proposed true)

admits_one : length one_action.records.items ≡ 1
unfolding program one_action
admits_one = refl

accepts : admit_actions no_actions proposed true ≡ ok one_action
unfolding program one_action
accepts = refl

admit_actions-Admits_example : Admits no_actions proposed true one_action
admit_actions-Admits_example =
    admit_actions-Admits no_actions proposed true one_action no_actions-IsStore accepts
