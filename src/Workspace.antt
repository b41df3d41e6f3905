-- ===== src/Workspace.antt =====
-- The bounded workspace and the choice of its broadcast (src/alice_brain_hermes/core/workspace.py), and
-- its reduction (src/alice_brain_hermes/core/reducer.py, _workspace_candidate and _reduce_workspace).
-- A score is the bit pattern of a double in [0.0, 1.0].
pub mod Rank
pub mod Evaluation
pub mod Best
pub mod Ranking
pub mod Cut
pub mod Reduce
pub mod Choice
use Prim.Native.Nat.{Ordering, compare}
use alice_brain_hermes.Prelude.{
  ℕ, zero, suc, ◌+◌, String, Bool, true, false, not, ◌&&◌, ◌||◌, Option, none, some, List, [], ◌∷◌,
  leb, ◌==◌, str_eq, length, all, any, if◌then◌else◌, Result, ok, err, value_error,
  domain_invariant, guard, rewrap, ◌>>=◌, ◌>>◌,
}
use alice_brain_hermes.Text.{is_blank, has_length}
use alice_brain_hermes.Order.{then_by, is_lt, order_texts}
use alice_brain_hermes.Json.{Fields, fields_eq}

pub data SpecialistName : Type 0 where
  prediction_error drives incomplete_action memory self_world_conflict : SpecialistName

abbrev pub specialist_text : SpecialistName → String
specialist_text prediction_error = "prediction_error"
specialist_text drives = "drives"
specialist_text incomplete_action = "incomplete_action"
specialist_text memory = "memory"
specialist_text self_world_conflict = "self_world_conflict"

abbrev pub max_workspace_broadcast : ℕ
max_workspace_broadcast = 64

abbrev pub default_workspace_capacity : ℕ
default_workspace_capacity = 4

pub record WorkspaceCandidate : Type 0 where
  pub candidate_id : String
  pub specialist : SpecialistName
  pub score : ℕ
  pub content : Fields
  pub source_ids : List String
  pub cycle : ℕ

pub record WorkspaceState : Type 0 where
  pub capacity : ℕ
  pub cycle : ℕ
  pub broadcast : List WorkspaceCandidate

-- The bit pattern of `score`, where -0.0 counts as 0.0.
abbrev pub magnitude : ℕ → ℕ
magnitude bits = if bits == 9223372036854775808 then 0 else bits

-- The comparison of `(-score, specialist, candidate_id)`.
pub rank_order : WorkspaceCandidate → WorkspaceCandidate → Ordering
rank_order a b = then_by (compare (magnitude b.score) (magnitude a.score)) (
    then_by (order_texts (specialist_text a.specialist) (specialist_text b.specialist))
      (order_texts a.candidate_id b.candidate_id))

-- `rank < previous_rank`
pub rank_ltb : WorkspaceCandidate → WorkspaceCandidate → Bool
unfolding rank_order
rank_ltb a b = is_lt (rank_order a b)

-- Whether two candidates have the fingerprint of their contents in common.
abbrev pub same_content : WorkspaceCandidate → WorkspaceCandidate → Bool
same_content a b = fields_eq a.content b.content

-- One turn of the loop over the candidates. The list is `best_by_content.values()`: a dict keeps a key at its place.
pub place : List WorkspaceCandidate → WorkspaceCandidate → List WorkspaceCandidate
unfolding rank_ltb
place [] candidate = candidate ∷ []
place (best ∷ rest) candidate =
    let after = place rest candidate in
    if same_content best candidate
    then (if rank_ltb candidate best then candidate ∷ rest else best ∷ rest)
    else best ∷ after

pub best_by_content : List WorkspaceCandidate → List WorkspaceCandidate → List WorkspaceCandidate
unfolding place
best_by_content seen [] = seen
best_by_content seen (candidate ∷ rest) = best_by_content (place seen candidate) rest

pub insert_ranked : WorkspaceCandidate → List WorkspaceCandidate → List WorkspaceCandidate
unfolding rank_ltb
insert_ranked c [] = c ∷ []
insert_ranked c (d ∷ rest) =
    let after = insert_ranked c rest in if rank_ltb d c then d ∷ after else c ∷ d ∷ rest

-- `sorted(candidates, key=rank)`, which is stable
pub sort_ranked : List WorkspaceCandidate → List WorkspaceCandidate
unfolding insert_ranked
sort_ranked [] = []
sort_ranked (c ∷ rest) = insert_ranked c (sort_ranked rest)

abbrev pub take {ℓ} : {A : Type ℓ} → ℕ → List A → List A
take zero xs = []
take (suc n) [] = []
take (suc n) (x ∷ xs) = x ∷ take n xs

abbrev pub chosen : ℕ → List WorkspaceCandidate → List WorkspaceCandidate
chosen capacity candidates = take capacity (sort_ranked (best_by_content [] candidates))

-- `choose_broadcast`
pub choose_broadcast : List WorkspaceCandidate → ℕ → Result (List WorkspaceCandidate)
unfolding best_by_content sort_ranked
choose_broadcast candidates capacity = do
  guard (leb 1 capacity && leb capacity max_workspace_broadcast) value_error
  ok (chosen capacity candidates)
