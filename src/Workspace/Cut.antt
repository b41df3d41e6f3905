-- ===== src/Workspace/Cut.antt =====
-- The cut of a ranked list at the capacity.
use alice_brain_hermes.Prelude.{
  ℕ, zero, suc, ◌≤◌, ◌≡◌, refl, Bool, true, ◌&&◌, ◌⊎◌, inl, inr, List, [], ◌∷◌, all, All, length,
  arith, Bool-cases,
}
use alice_brain_hermes.Workspace.{WorkspaceCandidate, same_content, take}
use alice_brain_hermes.Workspace.Rank.{rank_leb, rank_leb_trans}
use alice_brain_hermes.Workspace.Best.{apart, are_distinct, covers}
use alice_brain_hermes.Workspace.Ranking.{is_ranked}

module _ {ℓ} {A : Type ℓ} where
  pub length-take : (n : ℕ) (xs : List A) → length (take n xs) ≤ n
  length-take zero xs = omega arith
  length-take (suc n) [] = omega arith
  length-take (suc n) (x ∷ xs) = omega (arith, length-take n xs)

  pub take-id : (n : ℕ) (xs : List A) → length xs ≤ n → take n xs ≡ xs
  take-id zero [] h = refl
  take-id zero (x ∷ xs) h = ground arith
  take-id (suc n) [] h = refl
  take-id (suc n) (x ∷ xs) h = ground (arith, take-id n xs)

  pub take-All {κ} : (P : A → Type κ) (n : ℕ) (xs : List A) → All P xs → All P (take n xs)
  take-All P zero xs h = tt
  take-All P (suc n) [] h = tt
  take-All P (suc n) (x ∷ xs) h = (h.0, take-All P n xs h.1)

  take-all :
      (test : A → Bool) (n : ℕ) (xs : List A) → all test xs ≡ true → all test (take n xs) ≡ true
  take-all test zero xs h = refl
  take-all test (suc n) [] h = refl
  take-all test (suc n) (x ∷ xs) h = ground (arith, take-all test n xs)

pub take-distinct :
    (n : ℕ) (xs : List WorkspaceCandidate)
    → are_distinct xs ≡ true
    → are_distinct (take n xs) ≡ true
take-distinct zero xs h = refl
take-distinct (suc n) [] h = refl
take-distinct (suc n) (x ∷ xs) h = ground (arith, take-distinct n xs, take-all (apart x) n xs)

pub take-is_ranked :
    (n : ℕ) (xs : List WorkspaceCandidate) → is_ranked xs ≡ true → is_ranked (take n xs) ≡ true
take-is_ranked zero xs h = refl
take-is_ranked (suc n) [] h = refl
take-is_ranked (suc n) (x ∷ xs) h = ground (arith, take-is_ranked n xs, take-all (rank_leb x) n xs)

covers-ranks :
    (x e : WorkspaceCandidate) (xs : List WorkspaceCandidate)
    → all (rank_leb x) xs ≡ true
    → covers e xs ≡ true
    → rank_leb x e ≡ true
covers-ranks x e [] h k = ground arith
covers-ranks x e (d ∷ xs) h k = ground (arith, covers-ranks x e xs, rank_leb_trans x d e)

-- What the cut leaves out ranks no earlier than anything that it keeps, and the room is used up.
abbrev pub LeftOut : ℕ → List WorkspaceCandidate → WorkspaceCandidate → Type 0
LeftOut n kept e = (length kept ≡ n) × (all (λ y. rank_leb y e) kept ≡ true)

pub take-covers :
    (n : ℕ) (xs : List WorkspaceCandidate) (e : WorkspaceCandidate)
    → is_ranked xs ≡ true
    → covers e xs ≡ true
    → (covers e (take n xs) ≡ true) ⊎ LeftOut n (take n xs) e
take-covers zero xs e r h = inr (refl, refl)
take-covers (suc n) [] e r h = ground arith
take-covers (suc n) (x ∷ xs) e r h = elim (Bool-cases (same_content x e && rank_leb x e)) [
  | inl here ↦ inl (ground arith)
  | inr not_here ↦ ground (arith, take-covers n xs e, covers-ranks x e xs)
]
