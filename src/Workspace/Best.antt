-- ===== src/Workspace/Best.antt =====
-- The loop of choose_broadcast: one best candidate for each content.
use mathlib.Core.List.{append-nil, append_assoc}
use alice_brain_hermes.Prelude.{
  ◌≡◌, refl, Bool, true, false, not, ◌&&◌, ◌∙◌, List, [], ◌∷◌, ◌++◌, any, all, All, arith,
  if◌then◌else◌,
}
use alice_brain_hermes.Workspace.{
  WorkspaceCandidate, rank_ltb, same_content, place, best_by_content,
}
use alice_brain_hermes.Workspace.Rank.{
  rank_leb, rank_ltb-leb, rank_leb_trans, rank_leb_refl, same_content_refl, same_content-left,
}

-- `a` has another content than `b`.
abbrev pub apart : WorkspaceCandidate → WorkspaceCandidate → Bool
apart a b = not (same_content a b)

-- No two of the candidates have a content in common.
abbrev pub are_distinct : List WorkspaceCandidate → Bool
are_distinct [] = true
are_distinct (c ∷ rest) = all (apart c) rest && are_distinct rest

-- Some candidate of the list has the content of `e`, and ranks no later.
abbrev pub covers : WorkspaceCandidate → List WorkspaceCandidate → Bool
covers e = any (λ d. same_content d e && rank_leb d e)

pub same_content_sym : (a b : WorkspaceCandidate) → same_content a b ≡ same_content b a
same_content_sym a b = ground (
  arith,
  same_content-left a b a,
  same_content-left b a b,
  same_content_refl a,
  same_content_refl b,
)

place-All {ℓ} :
    (P : WorkspaceCandidate → Type ℓ) (seen : List WorkspaceCandidate) (c : WorkspaceCandidate)
    → All P seen
    → P c
    → All P (place seen c)
unfolding place
place-All P [] c h p = (p, tt)
place-All P (best ∷ rest) c h p =
    elim (same_content best c)
      as (λ b.
        All P (
          if b then (if rank_ltb c best then c ∷ rest else best ∷ rest) else best ∷ place rest c)) [
            | true ↦ elim (rank_ltb c best) as (λ b. All P (if b then c ∷ rest else best ∷ rest)) [
              | true ↦ (p, h.1)
              | false ↦ h
            ]
            | false ↦ (h.0, place-All P rest c h.1 p)
          ]

place-apart :
    (x : WorkspaceCandidate) (seen : List WorkspaceCandidate) (c : WorkspaceCandidate)
    → all (apart x) seen ≡ true
    → apart x c ≡ true
    → all (apart x) (place seen c) ≡ true
unfolding place
place-apart x [] c h n = ground arith
place-apart x (best ∷ rest) c h n = ground (arith, place-apart x rest c)

apart-same :
    (a b : WorkspaceCandidate) (rest : List WorkspaceCandidate)
    → same_content a b ≡ true
    → all (apart a) rest ≡ true
    → all (apart b) rest ≡ true
apart-same a b [] s h = refl
apart-same a b (x ∷ rest) s h = ground (arith, apart-same a b rest, same_content-left a b x)

place-distinct :
    (seen : List WorkspaceCandidate) (c : WorkspaceCandidate)
    → are_distinct seen ≡ true
    → are_distinct (place seen c) ≡ true
unfolding place
place-distinct [] c h = refl
place-distinct (best ∷ rest) c h =
    ground (arith, place-distinct rest c, place-apart best rest c, apart-same best c rest)

covers-better :
    (e best c : WorkspaceCandidate)
    → (same_content best e && rank_leb best e) ≡ true
    → same_content best c ≡ true
    → rank_ltb c best ≡ true
    → (same_content c e && rank_leb c e) ≡ true
covers-better e best c h s r =
    ground (arith, same_content-left best c e, rank_ltb-leb c best, rank_leb_trans c best e)

place-covers :
    (e : WorkspaceCandidate) (seen : List WorkspaceCandidate) (c : WorkspaceCandidate)
    → covers e seen ≡ true
    → covers e (place seen c) ≡ true
unfolding place
place-covers e [] c h = ground arith
place-covers e (best ∷ rest) c h = ground (arith, place-covers e rest c, covers-better e best c)

place-covers-new :
    (seen : List WorkspaceCandidate) (c : WorkspaceCandidate) → covers c (place seen c) ≡ true
unfolding place
place-covers-new [] c = ground (arith, same_content_refl c, rank_leb_refl c)
place-covers-new (best ∷ rest) c =
    ground (arith, place-covers-new rest c, same_content_refl c, rank_leb_refl c)

pub best_by_content-All {ℓ} :
    (P : WorkspaceCandidate → Type ℓ) (seen xs : List WorkspaceCandidate)
    → All P seen
    → All P xs
    → All P (best_by_content seen xs)
unfolding best_by_content
best_by_content-All P seen [] h k = h
best_by_content-All P seen (c ∷ rest) h k =
    best_by_content-All P (place seen c) rest (place-All P seen c h k.0) k.1

pub best_by_content-distinct :
    (seen xs : List WorkspaceCandidate)
    → are_distinct seen ≡ true
    → are_distinct (best_by_content seen xs) ≡ true
unfolding best_by_content
best_by_content-distinct seen [] h = h
best_by_content-distinct seen (c ∷ rest) h =
    best_by_content-distinct (place seen c) rest (place-distinct seen c h)

best_by_content-keeps :
    (e : WorkspaceCandidate) (seen xs : List WorkspaceCandidate)
    → covers e seen ≡ true
    → covers e (best_by_content seen xs) ≡ true
unfolding best_by_content
best_by_content-keeps e seen [] h = h
best_by_content-keeps e seen (c ∷ rest) h =
    best_by_content-keeps e (place seen c) rest (place-covers e seen c h)

-- Every candidate is matched by the best of its content.
pub best_by_content-covers :
    (seen xs : List WorkspaceCandidate) → All (λ e. covers e (best_by_content seen xs) ≡ true) xs
unfolding best_by_content
best_by_content-covers seen [] = tt
best_by_content-covers seen (c ∷ rest) = (
  best_by_content-keeps c (place seen c) rest (place-covers-new seen c),
  best_by_content-covers (place seen c) rest,
)

place-new :
    (seen : List WorkspaceCandidate) (c : WorkspaceCandidate)
    → all (λ d. apart d c) seen ≡ true
    → place seen c ≡ seen ++ c ∷ []
unfolding place
place-new [] c h = refl
place-new (d ∷ rest) c h = ground (arith, place-new rest c)

apart-middle :
    (d : WorkspaceCandidate) (seen : List WorkspaceCandidate) (c : WorkspaceCandidate)
    (rest : List WorkspaceCandidate)
    → all (apart d) (seen ++ c ∷ rest) ≡ true
    → apart d c ≡ true
apart-middle d [] c rest h = ground arith
apart-middle d (e ∷ seen) c rest h = ground (arith, apart-middle d seen c rest)

distinct-middle :
    (seen : List WorkspaceCandidate) (c : WorkspaceCandidate) (rest : List WorkspaceCandidate)
    → are_distinct (seen ++ c ∷ rest) ≡ true
    → all (λ d. apart d c) seen ≡ true
distinct-middle [] c rest h = refl
distinct-middle (d ∷ seen) c rest h =
    ground (arith, distinct-middle seen c rest, apart-middle d seen c rest)

-- The loop changes nothing about distinct contents.
pub best_by_content-id :
    (seen xs : List WorkspaceCandidate)
    → are_distinct (seen ++ xs) ≡ true
    → best_by_content seen xs ≡ seen ++ xs
unfolding best_by_content
best_by_content-id seen [] h = ground (arith, append-nil seen)
best_by_content-id seen (c ∷ rest) h =
    let first = place-new seen c (distinct-middle seen c rest h) in
    let moved = append_assoc seen (c ∷ []) rest in
    rw first (best_by_content-id (seen ++ c ∷ []) rest (rw moved h) ∙ moved)
