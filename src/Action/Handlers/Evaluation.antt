-- ===== src/Action/Handlers/Evaluation.antt =====
-- Opens the definitions of the module above for tests that evaluate them.
use alice_brain_hermes.Action.Transition.{lifecycle_of, moved, transition, receipt_disposition}
use alice_brain_hermes.Action.Receive.{
  lateness, receive_updates, receipt_record_of, settle_receipt, read_receipt, receive_with, receive,
}
use alice_brain_hermes.Action.Handlers.{
  legacy_reassessment, request_energy, assess_energy, fail_with, fail_energy, prepare_with, prepare,
  block, dispatch, last_event_of, reconstruct_updates, read_reconstruction, reconstruct_with,
  reconstruct, handle,
}

unfoldable pub handlers_evaluation : Unit {0}
unfolding lifecycle_of moved transition receipt_disposition legacy_reassessment request_energy
    assess_energy fail_with fail_energy prepare_with prepare block dispatch lateness receive_updates
    receipt_record_of settle_receipt read_receipt receive_with receive last_event_of
    reconstruct_updates read_reconstruction reconstruct_with reconstruct handle
handlers_evaluation = tt
