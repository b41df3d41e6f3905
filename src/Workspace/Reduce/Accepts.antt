-- ===== src/Workspace/Reduce/Accepts.antt =====
-- What _reduce_workspace accepts.
use mathlib.Core.Path.{subst}
use alice_brain_hermes.Prelude.{
  ℕ, ◌+◌, ◌≤◌, String, ◌≡◌, ◌≢◌, refl, sym, true, ◌&&◌, ◌⊎◌, inl, inr, List, [], ◌∷◌, all, length,
  arith, leb, ◌==◌, str_eq, eq_iff, Bool-cases, ok, value_error, domain_invariant, guard-eq-ok,
  >>=-eq-ok,
}
use alice_brain_hermes.Json.{Fields}
use alice_brain_hermes.Json.Equality.{fields_eq_refl}
use alice_brain_hermes.Events.{EventEnvelope}
use alice_brain_hermes.Workspace.{
  WorkspaceCandidate, WorkspaceState, choose_broadcast, max_workspace_broadcast, specialist_text,
}
use alice_brain_hermes.Workspace.Best.{are_distinct}
use alice_brain_hermes.Workspace.Ranking.{is_ranked}
use alice_brain_hermes.Workspace.Choice.{
  IsChoice, choose_broadcast-IsChoice, choose_broadcast-eq, choose_broadcast_idem,
}
use alice_brain_hermes.Workspace.Reduce.{
  Conversions, read_broadcast, broadcast_read, broadcast_candidates, reduce_workspace, accept,
  candidates_eq, candidate_eq, texts_eq, validate_workspace,
}

-- The fields that the validator of WorkspaceState ties together.
pub record IsWorkspace (w : WorkspaceState) : Type 0 where
  pub at_least : 1 ≤ w.capacity
  pub at_most : w.capacity ≤ max_workspace_broadcast
  pub fits : length w.broadcast ≤ w.capacity

-- What an accepted broadcast makes of the workspace.
pub record Advances (w v : WorkspaceState) : Type 0 where
  pub same_capacity : v.capacity ≡ w.capacity
  pub next_cycle : v.cycle ≡ w.cycle + 1
  pub valid : IsWorkspace v
  pub distinct : are_distinct v.broadcast ≡ true
  pub ranked : is_ranked v.broadcast ≡ true

texts_eq_refl : (xs : List String) → texts_eq xs xs ≡ true
texts_eq_refl [] = refl
texts_eq_refl (s ∷ xs) = ground (arith, eq_iff s s, texts_eq_refl xs)

candidates_eq_refl : (cs : List WorkspaceCandidate) → candidates_eq cs cs ≡ true
unfolding candidates_eq candidate_eq
candidates_eq_refl [] = refl
candidates_eq_refl (c ∷ cs) = ground (
  arith,
  eq_iff c.candidate_id c.candidate_id,
  eq_iff (specialist_text c.specialist) (specialist_text c.specialist),
  fields_eq_refl c.content,
  texts_eq_refl c.source_ids,
  candidates_eq_refl cs,
)

accept-Advances :
    (w v : WorkspaceState) (cycle : ℕ) (candidates selected : List WorkspaceCandidate)
    → cycle ≡ w.cycle + 1
    → IsChoice candidates w.capacity selected
    → accept w cycle candidates selected ≡ ok v
    → Advances w v
unfolding accept validate_workspace
accept-Advances w v cycle candidates selected next choice h =
    let (_, p) =
      guard-eq-ok (length selected == length candidates && candidates_eq selected candidates)
        domain_invariant _ h in
    let (q, r) =
      guard-eq-ok (leb 1 w.capacity && leb w.capacity max_workspace_broadcast) value_error _ p in
    let (t, same) = guard-eq-ok (leb (length selected) w.capacity) value_error _ r in
    let e : v ≡ record w { cycle = cycle; broadcast = selected } = ground arith in
    subst (Advances w) (sym e) (record {
      same_capacity = refl;
      next_cycle = next;
      valid = record { at_least = ground arith; at_most = ground arith; fits = choice.bounded };
      distinct = choice.distinct;
      ranked = choice.ranked;
    })

broadcast_candidates-Advances :
    (w v : WorkspaceState) (cycle : ℕ) (candidates : List WorkspaceCandidate)
    → cycle ≡ w.cycle + 1
    → broadcast_candidates w cycle candidates ≡ ok v
    → Advances w v
unfolding broadcast_candidates
broadcast_candidates-Advances w v cycle candidates next h =
    let (_, p) = guard-eq-ok (all (λ c. c.cycle == cycle) candidates) domain_invariant _ h in
    let (selected, chose, q) =
      >>=-eq-ok (choose_broadcast candidates w.capacity) (accept w cycle candidates) p in
    accept-Advances w v cycle candidates selected next
      (choose_broadcast-IsChoice candidates w.capacity selected chose) q

-- The state that a proposal leads to: what choose_broadcast selects, for the next cycle, is accepted as it is.
pub proposals_accepted :
    (w : WorkspaceState) (cycle : ℕ) (candidates selected : List WorkspaceCandidate)
    → choose_broadcast candidates w.capacity ≡ ok selected
    → all (λ c. c.cycle == cycle) selected ≡ true
    → broadcast_candidates w cycle selected ≡ ok (record w { cycle = cycle; broadcast = selected })
unfolding broadcast_candidates accept validate_workspace
proposals_accepted w cycle candidates selected chose cycles =
    let again = choose_broadcast_idem candidates w.capacity selected chose in
    let (lo, hi, _) = choose_broadcast-eq candidates w.capacity selected chose in
    let choice = choose_broadcast-IsChoice candidates w.capacity selected chose in
    rw (cycles, again) (ground (arith, candidates_eq_refl selected, choice.bounded))

module _ (py : Conversions) where
  read_broadcast-next :
      (w : WorkspaceState) (payload : Fields) (cycle : ℕ) (candidates : List WorkspaceCandidate)
      → read_broadcast py w payload ≡ ok (cycle, candidates)
      → cycle ≡ w.cycle + 1
  unfolding read_broadcast
  read_broadcast-next w payload cycle candidates h = ground arith

  -- An accepted event leaves the workspace alone, or is a broadcast that advances the cycle by one to a broadcast
  -- within the unchanged capacity, with each content once and in rank order.
  pub reduce_workspace-Advances :
      (w v : WorkspaceState) (e : EventEnvelope)
      → reduce_workspace py w e ≡ ok v
      → ((e.event_type ≢ "workspace.broadcast") × (v ≡ w))
        ⊎ ((e.event_type ≡ "workspace.broadcast") × Advances w v)
  unfolding reduce_workspace
  reduce_workspace-Advances w v e h =
      elim (Bool-cases (str_eq e.event_type "workspace.broadcast")) [
        | inl is ↦
            let ((cycle, candidates), reads, p) =
              >>=-eq-ok (read_broadcast py w e.payload) (broadcast_read py w) (rw is at h) in
            inr (
              ground (arith, eq_iff e.event_type "workspace.broadcast"),
              broadcast_candidates-Advances w v cycle candidates
                  (read_broadcast-next w e.payload cycle candidates reads) p,
            )
        | inr differs ↦ inl (ground (arith, eq_iff e.event_type "workspace.broadcast"))
      ]
