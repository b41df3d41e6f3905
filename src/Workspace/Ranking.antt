-- ===== src/Workspace/Ranking.antt =====
-- The sort and the cut of choose_broadcast.
use alice_brain_hermes.Prelude.{
  ◌≡◌, refl, Bool, true, false, ◌&&◌, ◌||◌, List, [], ◌∷◌, any, all, All, arith, if◌then◌else◌,
}
use alice_brain_hermes.Workspace.{WorkspaceCandidate, rank_ltb, insert_ranked, sort_ranked}
use alice_brain_hermes.Workspace.Rank.{rank_leb, rank_ltb-leb, rank_leb_trans}
use alice_brain_hermes.Workspace.Best.{apart, are_distinct, same_content_sym}

-- Every candidate of the list ranks no later than those behind it.
abbrev pub is_ranked : List WorkspaceCandidate → Bool
is_ranked [] = true
is_ranked (c ∷ rest) = all (rank_leb c) rest && is_ranked rest

insert_ranked-All {ℓ} :
    (P : WorkspaceCandidate → Type ℓ) (c : WorkspaceCandidate) (xs : List WorkspaceCandidate)
    → P c
    → All P xs
    → All P (insert_ranked c xs)
unfolding insert_ranked
insert_ranked-All P c [] p h = (p, tt)
insert_ranked-All P c (d ∷ rest) p h =
    elim (rank_ltb d c) as (λ b. All P (if b then d ∷ insert_ranked c rest else c ∷ d ∷ rest)) [
      | true ↦ (h.0, insert_ranked-All P c rest p h.1)
      | false ↦ (p, h)
    ]

pub sort_ranked-All {ℓ} :
    (P : WorkspaceCandidate → Type ℓ) (xs : List WorkspaceCandidate)
    → All P xs
    → All P (sort_ranked xs)
unfolding sort_ranked
sort_ranked-All P [] h = tt
sort_ranked-All P (c ∷ rest) h =
    insert_ranked-All P c (sort_ranked rest) h.0 (sort_ranked-All P rest h.1)

insert_ranked-all :
    (test : WorkspaceCandidate → Bool) (c : WorkspaceCandidate) (xs : List WorkspaceCandidate)
    → all test (insert_ranked c xs) ≡ (test c && all test xs)
unfolding insert_ranked
insert_ranked-all test c [] = refl
insert_ranked-all test c (d ∷ rest) = ground (arith, insert_ranked-all test c rest)

insert_ranked-any :
    (test : WorkspaceCandidate → Bool) (c : WorkspaceCandidate) (xs : List WorkspaceCandidate)
    → any test (insert_ranked c xs) ≡ (test c || any test xs)
unfolding insert_ranked
insert_ranked-any test c [] = refl
insert_ranked-any test c (d ∷ rest) = ground (arith, insert_ranked-any test c rest)

sort_ranked-all :
    (test : WorkspaceCandidate → Bool) (xs : List WorkspaceCandidate)
    → all test (sort_ranked xs) ≡ all test xs
unfolding sort_ranked
sort_ranked-all test [] = refl
sort_ranked-all test (c ∷ rest) =
    ground (arith, insert_ranked-all test c (sort_ranked rest), sort_ranked-all test rest)

pub sort_ranked-any :
    (test : WorkspaceCandidate → Bool) (xs : List WorkspaceCandidate)
    → any test (sort_ranked xs) ≡ any test xs
unfolding sort_ranked
sort_ranked-any test [] = refl
sort_ranked-any test (c ∷ rest) =
    ground (arith, insert_ranked-any test c (sort_ranked rest), sort_ranked-any test rest)

insert_ranked-distinct :
    (c : WorkspaceCandidate) (xs : List WorkspaceCandidate)
    → all (apart c) xs ≡ true
    → are_distinct xs ≡ true
    → are_distinct (insert_ranked c xs) ≡ true
unfolding insert_ranked
insert_ranked-distinct c [] n h = refl
insert_ranked-distinct c (d ∷ rest) n h =
    ground (
      arith,
      insert_ranked-distinct c rest,
      insert_ranked-all (apart d) c rest,
      same_content_sym c d,
    )

pub sort_ranked-distinct :
    (xs : List WorkspaceCandidate) → are_distinct xs ≡ true → are_distinct (sort_ranked xs) ≡ true
unfolding sort_ranked
sort_ranked-distinct [] h = refl
sort_ranked-distinct (c ∷ rest) h = ground (
  arith,
  insert_ranked-distinct c (sort_ranked rest),
  sort_ranked-all (apart c) rest,
  sort_ranked-distinct rest,
)

all_later :
    (c d : WorkspaceCandidate) (rest : List WorkspaceCandidate)
    → rank_leb c d ≡ true
    → all (rank_leb d) rest ≡ true
    → all (rank_leb c) rest ≡ true
all_later c d [] r h = refl
all_later c d (x ∷ rest) r h = ground (arith, all_later c d rest, rank_leb_trans c d x)

insert_ranked-is_ranked :
    (c : WorkspaceCandidate) (xs : List WorkspaceCandidate)
    → is_ranked xs ≡ true
    → is_ranked (insert_ranked c xs) ≡ true
unfolding insert_ranked
insert_ranked-is_ranked c [] h = refl
insert_ranked-is_ranked c (d ∷ rest) h = ground (
  arith,
  insert_ranked-is_ranked c rest,
  insert_ranked-all (rank_leb d) c rest,
  all_later c d rest,
  rank_ltb-leb d c,
)

pub sort_ranked-is_ranked : (xs : List WorkspaceCandidate) → is_ranked (sort_ranked xs) ≡ true
unfolding sort_ranked
sort_ranked-is_ranked [] = refl
sort_ranked-is_ranked (c ∷ rest) =
    insert_ranked-is_ranked c (sort_ranked rest) (sort_ranked-is_ranked rest)

insert_ranked-first :
    (c : WorkspaceCandidate) (xs : List WorkspaceCandidate)
    → all (rank_leb c) xs ≡ true
    → insert_ranked c xs ≡ c ∷ xs
unfolding insert_ranked
insert_ranked-first c [] h = refl
insert_ranked-first c (d ∷ rest) h = ground arith

-- The sort leaves a ranked list as it is.
pub sort_ranked-id : (xs : List WorkspaceCandidate) → is_ranked xs ≡ true → sort_ranked xs ≡ xs
unfolding sort_ranked
sort_ranked-id [] h = refl
sort_ranked-id (c ∷ rest) h = ground (arith, sort_ranked-id rest, insert_ranked-first c rest)
