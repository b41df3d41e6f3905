-- ===== src/Admission/Evaluation.antt =====
-- Opens the definitions of the module above for tests that evaluate them.
use alice_brain_hermes.Admission.{
  is_terminal, evict_terminal, fit, count_admission, fitted_with, admit_actions,
}
use alice_brain_hermes.Memory.Evaluation.{memory_evaluation}

unfoldable pub admission_evaluation : Unit {0}
unfolding is_terminal evict_terminal fit count_admission fitted_with admit_actions memory_evaluation
admission_evaluation = tt
