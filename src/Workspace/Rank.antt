-- ===== src/Workspace/Rank.antt =====
-- The ranking of candidates is a total preorder, and equal contents are an equivalence.
use Prim.Native.Nat.{lt, eq}
use alice_brain_hermes.Prelude.{◌≡◌, Bool, String, true, not, arith}
use alice_brain_hermes.Order.{flip, order_texts, order_texts-flip, order_texts-eq, order_texts-lt}
use alice_brain_hermes.Json.Equality.{fields_eq_refl, fields_eq_sound}
use alice_brain_hermes.Workspace.{
  WorkspaceCandidate, rank_order, rank_ltb, same_content, specialist_text,
}

-- `a` ranks no later than `b`.
abbrev pub rank_leb : WorkspaceCandidate → WorkspaceCandidate → Bool
rank_leb a b = not (rank_ltb b a)

rank_order-flip : (a b : WorkspaceCandidate) → rank_order b a ≡ flip (rank_order a b)
unfolding rank_order
rank_order-flip a b = ground (
  arith,
  order_texts-flip (specialist_text a.specialist) (specialist_text b.specialist),
  order_texts-flip a.candidate_id b.candidate_id,
)

rank_order-eq : (a b c : WorkspaceCandidate) → rank_order a b ≡ eq → rank_order a c ≡ rank_order b c
unfolding rank_order
rank_order-eq a b c h = ground (
  arith,
  order_texts-eq (specialist_text a.specialist) (specialist_text b.specialist)
      (specialist_text c.specialist),
  order_texts-eq a.candidate_id b.candidate_id c.candidate_id,
)

rank_order-right :
    (x y z : WorkspaceCandidate) → rank_order y z ≡ eq → rank_order x y ≡ rank_order x z
rank_order-right x y z h =
    ground (arith, rank_order-eq y z x, rank_order-flip y x, rank_order-flip z x)

order_texts-right : (a b c : String) → order_texts b c ≡ eq → order_texts a c ≡ order_texts a b
order_texts-right a b c h =
    ground (arith, order_texts-eq b c a, order_texts-flip a b, order_texts-flip a c)

rank_order-lt :
    (a b c : WorkspaceCandidate) → rank_order a b ≡ lt → rank_order b c ≡ lt → rank_order a c ≡ lt
unfolding rank_order
rank_order-lt a b c h k = ground (
  arith,
  order_texts-lt (specialist_text a.specialist) (specialist_text b.specialist)
      (specialist_text c.specialist),
  order_texts-lt a.candidate_id b.candidate_id c.candidate_id,
  order_texts-eq (specialist_text a.specialist) (specialist_text b.specialist)
      (specialist_text c.specialist),
  order_texts-right (specialist_text a.specialist) (specialist_text b.specialist)
      (specialist_text c.specialist),
)

pub rank_ltb-leb : (a b : WorkspaceCandidate) → rank_ltb a b ≡ true → rank_leb a b ≡ true
unfolding rank_ltb
rank_ltb-leb a b h = ground (arith, rank_order-flip a b)

pub rank_leb_trans :
    (a b c : WorkspaceCandidate) → rank_leb a b ≡ true → rank_leb b c ≡ true → rank_leb a c ≡ true
unfolding rank_ltb
rank_leb_trans a b c h k = ground (
  arith,
  rank_order-flip a b,
  rank_order-flip b c,
  rank_order-flip a c,
  rank_order-eq a b c,
  rank_order-right a b c,
  rank_order-lt a b c,
)

pub rank_leb_refl : (a : WorkspaceCandidate) → rank_leb a a ≡ true
unfolding rank_ltb
rank_leb_refl a = ground (arith, rank_order-flip a a)

pub same_content_refl : (a : WorkspaceCandidate) → same_content a a ≡ true
same_content_refl a = fields_eq_refl a.content

-- Candidates of one content are of the same content with a third.
pub same_content-left :
    (a b c : WorkspaceCandidate) → same_content a b ≡ true → same_content a c ≡ same_content b c
same_content-left a b c h = ground (arith, fields_eq_sound a.content b.content)
