-- ===== src/Tests/Workspaces.antt =====
-- Runs of the workspace.
use alice_brain_hermes.Prelude.{ℕ, String, ◌≡◌, ◌≢◌, refl, none, List, [], ◌∷◌, ◌⊎◌, ok}
use alice_brain_hermes.Text.{is_blank, has_length}
use alice_brain_hermes.Order.{order_texts}
use alice_brain_hermes.Json.{
  end, field, Json, str, num, arr, obj, nil, cons, non_negative, double, get, get_or, get_elem?,
  tuple_of, as_texts, json_eq,
}
use alice_brain_hermes.Events.{EventEnvelope}
use alice_brain_hermes.Workspace.{WorkspaceCandidate, WorkspaceState, memory, choose_broadcast}
use alice_brain_hermes.Workspace.Evaluation.{workspace_evaluation}
use alice_brain_hermes.Workspace.Choice.{IsChoice, choose_broadcast-IsChoice, choose_broadcast_idem}
use alice_brain_hermes.Workspace.Reduce.{Conversions, broadcast_candidates, reduce_workspace}
use alice_brain_hermes.Workspace.Reduce.Accepts.{
  Advances, proposals_accepted, reduce_workspace-Advances,
}
use alice_brain_hermes.Tests.Events.{event}

program : Unit {0}
unfolding workspace_evaluation is_blank has_length get get_or get_elem? tuple_of as_texts json_eq
    order_texts
program = tt

abbrev bid : String → ℕ → String → WorkspaceCandidate
bid id score key = record {
  candidate_id = id;
  specialist = memory;
  score = score;
  content = field key (str "x") end;
  source_ids = [];
  cycle = 1;
}

-- The scores are 0.5 and 0.75.
abbrev bids : List WorkspaceCandidate
bids =
    bid "ws-1" 4602678819172646912 "a"
    ∷ bid "ws-2" 4604930618986332160 "a"
    ∷ bid "ws-3" 4604930618986332160 "b"
    ∷ bid "ws-4" 4602678819172646912 "c"
    ∷ []

abbrev two_best : List WorkspaceCandidate
two_best = bid "ws-2" 4604930618986332160 "a" ∷ bid "ws-3" 4604930618986332160 "b" ∷ []

chooses_two : choose_broadcast bids 2 ≡ ok two_best
unfolding program
chooses_two = refl

choose_broadcast-IsChoice_example : IsChoice bids 2 two_best
choose_broadcast-IsChoice_example = choose_broadcast-IsChoice bids 2 two_best chooses_two

choose_broadcast_idem_example : choose_broadcast two_best 2 ≡ ok two_best
choose_broadcast_idem_example = choose_broadcast_idem bids 2 two_best chooses_two

abbrev idle : WorkspaceState
idle = record { capacity = 2; cycle = 0; broadcast = [] }

proposals_accepted_example :
    broadcast_candidates idle 1 two_best ≡ ok (record idle { cycle = 1; broadcast = two_best })
proposals_accepted_example = proposals_accepted idle 1 bids two_best chooses_two refl

abbrev py : Conversions
py = record { float_text = λ s. none; int_text = λ s. none; truncated = λ bits. none }

abbrev candidate_json : Json
candidate_json = obj (
    field "candidate_id" (str "ws-1") (
      field "content" (obj (field "a" (str "x") end)) (
        field "cycle" (num (non_negative 1)) (
          field "score" (num (double 4602678819172646912))
            (field "specialist" (str "memory") end)))))

abbrev broadcasts : EventEnvelope
broadcasts =
    event "e9" "workspace.broadcast" (
      field "candidates" (arr (cons candidate_json nil)) (field "cycle" (num (non_negative 1)) end))

abbrev shown : WorkspaceState
shown = record { capacity = 2; cycle = 1; broadcast = bid "ws-1" 4602678819172646912 "a" ∷ [] }

is_shown : reduce_workspace py idle broadcasts ≡ ok shown
unfolding program
is_shown = refl

reduce_workspace-Advances_example :
    ((broadcasts.event_type ≢ "workspace.broadcast") × (shown ≡ idle))
    ⊎ ((broadcasts.event_type ≡ "workspace.broadcast") × Advances idle shown)
reduce_workspace-Advances_example = reduce_workspace-Advances py idle shown broadcasts is_shown
