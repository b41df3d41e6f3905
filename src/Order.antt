-- ===== src/Order.antt =====
-- Python's order of texts and of tuples: the first position that differs decides.
use Prim.Native.Nat.{Ordering, lt, eq, gt, compare}
use alice_brain_hermes.Prelude.{ℕ, String, ◌≡◌, refl, Bool, true, false, List, [], ◌∷◌, arith}
use alice_brain_hermes.Text.{codes}

-- The comparison of a tuple, where the first decides unless its sides are equal.
abbrev pub then_by : Ordering → Ordering → Ordering
then_by eq rest = rest
then_by lt rest = lt
then_by gt rest = gt

abbrev pub is_lt : Ordering → Bool
is_lt lt = true
is_lt eq = false
is_lt gt = false

abbrev pub flip : Ordering → Ordering
flip lt = gt
flip eq = eq
flip gt = lt

order_codes : List ℕ → List ℕ → Ordering
order_codes [] [] = eq
order_codes [] (y ∷ ys) = lt
order_codes (x ∷ xs) [] = gt
order_codes (x ∷ xs) (y ∷ ys) = then_by (compare x y) (order_codes xs ys)

order_codes-flip : (xs ys : List ℕ) → order_codes ys xs ≡ flip (order_codes xs ys)
unfolding order_codes
order_codes-flip [] [] = refl
order_codes-flip [] (y ∷ ys) = refl
order_codes-flip (x ∷ xs) [] = refl
order_codes-flip (x ∷ xs) (y ∷ ys) = ground (arith, order_codes-flip xs ys)

order_codes-eq :
    (xs ys zs : List ℕ) → order_codes xs ys ≡ eq → order_codes xs zs ≡ order_codes ys zs
unfolding order_codes
order_codes-eq [] [] zs h = refl
order_codes-eq [] (y ∷ ys) zs h = cc
order_codes-eq (x ∷ xs) [] zs h = cc
order_codes-eq (x ∷ xs) (y ∷ ys) [] h = refl
order_codes-eq (x ∷ xs) (y ∷ ys) (z ∷ zs) h = ground (arith, order_codes-eq xs ys zs)

order_codes-lt :
    (xs ys zs : List ℕ) → order_codes xs ys ≡ lt → order_codes ys zs ≡ lt → order_codes xs zs ≡ lt
unfolding order_codes
order_codes-lt [] [] zs h k = cc
order_codes-lt [] (y ∷ ys) [] h k = cc
order_codes-lt [] (y ∷ ys) (z ∷ zs) h k = refl
order_codes-lt (x ∷ xs) [] zs h k = cc
order_codes-lt (x ∷ xs) (y ∷ ys) [] h k = cc
order_codes-lt (x ∷ xs) (y ∷ ys) (z ∷ zs) h k = ground (
  arith,
  order_codes-lt xs ys zs,
  order_codes-eq xs ys zs,
  order_codes-eq ys zs xs,
  order_codes-flip xs zs,
  order_codes-flip xs ys,
)

-- The comparison of two texts, by code points.
unfoldable pub order_texts : String → String → Ordering
unfolding order_codes
order_texts a b = order_codes (codes a) (codes b)

pub order_texts-flip : (a b : String) → order_texts b a ≡ flip (order_texts a b)
unfolding order_texts
order_texts-flip a b = order_codes-flip (codes a) (codes b)

pub order_texts-eq : (a b c : String) → order_texts a b ≡ eq → order_texts a c ≡ order_texts b c
unfolding order_texts
order_texts-eq a b c h = order_codes-eq (codes a) (codes b) (codes c) h

pub order_texts-lt :
    (a b c : String) → order_texts a b ≡ lt → order_texts b c ≡ lt → order_texts a c ≡ lt
unfolding order_texts
order_texts-lt a b c h k = order_codes-lt (codes a) (codes b) (codes c) h k
