-- ===== src/Workspace/Choice.antt =====
-- What choose_broadcast promises.
use mathlib.Core.Path.{subst}
use alice_brain_hermes.Prelude.{
  ℕ, ◌≤◌, ◌≡◌, refl, true, ◌&&◌, ◌⊎◌, List, [], ◌∷◌, All, length, arith, leb, inl, inr, ok,
  value_error, guard-eq-ok,
}
use alice_brain_hermes.Workspace.{
  WorkspaceCandidate, choose_broadcast, chosen, best_by_content, sort_ranked, same_content,
  max_workspace_broadcast,
}
use alice_brain_hermes.Workspace.Rank.{rank_leb}
use alice_brain_hermes.Workspace.Best.{
  are_distinct, covers, best_by_content-All, best_by_content-distinct, best_by_content-covers,
  best_by_content-id,
}
use alice_brain_hermes.Workspace.Ranking.{
  is_ranked, sort_ranked-All, sort_ranked-any, sort_ranked-distinct, sort_ranked-is_ranked,
  sort_ranked-id,
}
use alice_brain_hermes.Workspace.Cut.{
  LeftOut, length-take, take-id, take-All, take-distinct, take-is_ranked, take-covers,
}

abbrev pub In : WorkspaceCandidate → List WorkspaceCandidate → Type 0
In c [] = ⊥
In c (d ∷ rest) = (c ≡ d) ⊎ In c rest

pub record IsChoice (candidates : List WorkspaceCandidate) (capacity : ℕ)
    (selected : List WorkspaceCandidate) : Type 0 where
  pub bounded : length selected ≤ capacity
  pub distinct : are_distinct selected ≡ true
  pub ranked : is_ranked selected ≡ true
  pub drawn : All (λ c. In c candidates) selected
  pub best : All (λ e. (covers e selected ≡ true) ⊎ LeftOut capacity selected e) candidates

All-map :
    {P Q : WorkspaceCandidate → Type 0} (xs : List WorkspaceCandidate)
    → ((c : WorkspaceCandidate) → P c → Q c)
    → All P xs
    → All Q xs
All-map [] f h = tt
All-map (x ∷ xs) f h = (f x h.0, All-map xs f h.1)

All-In : (xs : List WorkspaceCandidate) → All (λ c. In c xs) xs
All-In [] = tt
All-In (x ∷ xs) = (inl refl, All-map xs (λ c h. inr h) (All-In xs))

pub chosen-IsChoice :
    (capacity : ℕ) (candidates : List WorkspaceCandidate)
    → IsChoice candidates capacity (chosen capacity candidates)
chosen-IsChoice capacity candidates =
    let found = best_by_content [] candidates in
    let is_distinct = best_by_content-distinct [] candidates refl in
    let is_sorted = sort_ranked-is_ranked found in
    record {
      bounded = length-take capacity (sort_ranked found);
      distinct =
          take-distinct capacity (sort_ranked found) (sort_ranked-distinct found is_distinct);
      ranked = take-is_ranked capacity (sort_ranked found) is_sorted;
      drawn =
          take-All (λ c. In c candidates) capacity (sort_ranked found)
            (sort_ranked-All (λ c. In c candidates) found
              (best_by_content-All (λ c. In c candidates) [] candidates tt (All-In candidates)));
      best =
          All-map candidates
            (λ e h.
              take-covers capacity (sort_ranked found) e is_sorted
                (rw (sort_ranked-any (λ d. same_content d e && rank_leb d e) found) h))
            (best_by_content-covers [] candidates);
    }

pub choose_broadcast-eq :
    (candidates : List WorkspaceCandidate) (capacity : ℕ) (selected : List WorkspaceCandidate)
    → choose_broadcast candidates capacity ≡ ok selected
    → (1 ≤ capacity)
      × (capacity ≤ max_workspace_broadcast)
      × (chosen capacity candidates ≡ selected)
unfolding choose_broadcast
choose_broadcast-eq candidates capacity selected h =
    let (c, d) =
      guard-eq-ok (leb 1 capacity && leb capacity max_workspace_broadcast) value_error
        (ok (chosen capacity candidates)) h in
    ground arith

-- What is chosen fits the capacity, has each content once, is in rank order and drawn from the candidates; a
-- candidate either has one of its content there that ranks no later, or the broadcast is full and all of it ranks
-- no later.
pub choose_broadcast-IsChoice :
    (candidates : List WorkspaceCandidate) (capacity : ℕ) (selected : List WorkspaceCandidate)
    → choose_broadcast candidates capacity ≡ ok selected
    → IsChoice candidates capacity selected
choose_broadcast-IsChoice candidates capacity selected h =
    let (_, _, e) = choose_broadcast-eq candidates capacity selected h in
    subst (IsChoice candidates capacity) e (chosen-IsChoice capacity candidates)

-- A list that fits the capacity, has each content once and is in rank order is chosen as it is.
pub chosen-id :
    (capacity : ℕ) (xs : List WorkspaceCandidate)
    → length xs ≤ capacity
    → are_distinct xs ≡ true
    → is_ranked xs ≡ true
    → chosen capacity xs ≡ xs
chosen-id capacity xs b d r =
    rw (best_by_content-id [] xs d, sort_ranked-id xs r) (take-id capacity xs b)

-- Choosing again from what was chosen, at the same capacity, changes nothing.
pub choose_broadcast_idem :
    (candidates : List WorkspaceCandidate) (capacity : ℕ) (selected : List WorkspaceCandidate)
    → choose_broadcast candidates capacity ≡ ok selected
    → choose_broadcast selected capacity ≡ ok selected
unfolding choose_broadcast
choose_broadcast_idem candidates capacity selected h =
    let choice = choose_broadcast-IsChoice candidates capacity selected h in
    let same = chosen-id capacity selected choice.bounded choice.distinct choice.ranked in
    let (lo, hi, _) = choose_broadcast-eq candidates capacity selected h in ground arith
