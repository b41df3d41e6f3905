-- ===== src/Bounded.antt =====
-- A tuple of records with distinct keys, and the capacity-bounded upsert that the core uses for world propositions,
-- memories and thought branches: drop the record with the new one's key, append the new one, keep the newest.
pub mod Evaluation
use Prim.Native.Nat.{min}
use mathlib.Core.List.{map-append}
use alice_brain_hermes.Prelude.{
  ℕ, zero, suc, ◌+◌, ◌-◌, ◌≤◌, String, ◌≡◌, refl, Bool, true, false, not, ◌&&◌, ◌||◌, List, [], ◌∷◌,
  ◌++◌, map, str_eq, eq_iff, str_mem, is_unique, is_unique-snoc, length, length-append,
  length-take_last, drop, take_last, All, All-drop, All-append, arith, if◌then◌else◌,
}

module _ {ℓ} {A : Type ℓ} (key : A → String) where
  abbrev pub keys : List A → List String
  keys = map key

  -- `tuple(item for item in items if item.key != key)`
  pub others : String → List A → List A
  others k [] = []
  others k (x ∷ xs) = let rest = others k xs in if str_eq (key x) k then rest else x ∷ rest

module _ {ℓ} {A : Type ℓ} (key : A → String) where
  -- `(*retained, item)[-capacity:]`
  unfoldable pub upsert : ℕ → List A → A → List A
  upsert capacity xs x = take_last capacity (others key (key x) xs ++ x ∷ [])

  mem-others :
      (s k : String) (xs : List A)
      → str_mem s (keys key (others key k xs)) ≡ (str_mem s (keys key xs) && not (str_eq k s))
  unfolding others
  mem-others s k [] = refl
  mem-others s k (x ∷ xs) =
      ground (arith, mem-others s k xs, eq_iff (key x) k, eq_iff (key x) s, eq_iff k s)

  unique-others :
      (k : String) (xs : List A)
      → is_unique (keys key xs) ≡ true
      → is_unique (keys key (others key k xs)) ≡ true
  unfolding others
  unique-others k [] h = refl
  unique-others k (x ∷ xs) h = ground (arith, unique-others k xs, mem-others (key x) k xs)

  unique-drop :
      (n : ℕ) (xs : List A)
      → is_unique (keys key xs) ≡ true
      → is_unique (keys key (drop n xs)) ≡ true
  unique-drop zero xs h = h
  unique-drop (suc n) [] h = h
  unique-drop (suc n) (x ∷ xs) h = unique-drop n xs (ground arith)

  pub upsert-bounded :
      (capacity : ℕ) (xs : List A) (x : A) → length (upsert capacity xs x) ≤ capacity
  unfolding upsert
  upsert-bounded capacity xs x =
      omega (arith, length-take_last capacity (others key (key x) xs ++ x ∷ []))

  drop-snoc :
      (k : ℕ) (xs : List A) (x : A) → k ≤ length xs → drop k (xs ++ x ∷ []) ≡ drop k xs ++ x ∷ []
  drop-snoc zero xs x h = refl
  drop-snoc (suc k) [] x h = absurd (omega arith)
  drop-snoc (suc k) (y ∷ ys) x h = drop-snoc k ys x (omega arith)

  -- The new record is the newest one.
  pub upsert-last :
      (capacity : ℕ) (xs : List A) (x : A)
      → 1 ≤ capacity
      → (older : List A) × (upsert capacity xs x ≡ older ++ x ∷ [])
  unfolding upsert
  upsert-last capacity xs x room =
      let kept = others key (key x) xs in
      let gone = length (kept ++ x ∷ []) - capacity in
      (drop gone kept, drop-snoc gone kept x (omega (arith, length-append kept (x ∷ []))))

  pub upsert-distinct :
      (capacity : ℕ) (xs : List A) (x : A)
      → is_unique (keys key xs) ≡ true
      → is_unique (keys key (upsert capacity xs x)) ≡ true
  unfolding upsert
  upsert-distinct capacity xs x u =
      unique-drop (length (others key (key x) xs ++ x ∷ []) - capacity)
        (others key (key x) xs ++ x ∷ [])
        (rw map-append (
          is_unique-snoc (keys key (others key (key x) xs)) (key x)
            (ground (arith, mem-others (key x) (key x) xs, eq_iff (key x) (key x)))
            (unique-others (key x) xs u)))

  All-others {κ} : (P : A → Type κ) (k : String) (xs : List A) → All P xs → All P (others key k xs)
  unfolding others
  All-others P k [] h = h
  All-others P k (x ∷ xs) h =
      elim (str_eq (key x) k) as (λ b. All P (if b then others key k xs else x ∷ others key k xs)) [
        | true ↦ All-others P k xs h.1
        | false ↦ (h.0, All-others P k xs h.1)
      ]

  pub upsert-All {κ} :
      (P : A → Type κ) (capacity : ℕ) (xs : List A) (x : A)
      → All P xs
      → P x
      → All P (upsert capacity xs x)
  unfolding upsert
  upsert-All P capacity xs x h p =
      All-drop P (length (others key (key x) xs ++ x ∷ []) - capacity)
        (others key (key x) xs ++ x ∷ [])
        (All-append P (others key (key x) xs) (x ∷ []) (All-others P (key x) xs h) (p, tt))

  length-others :
      (k : String) (xs : List A)
      → is_unique (keys key xs) ≡ true
      → length (others key k xs) + (if str_mem k (keys key xs) then 1 else 0) ≡ length xs
  unfolding others
  length-others k [] h = refl
  length-others k (x ∷ xs) h =
      ground (arith, length-others k xs, eq_iff (key x) k, mem-others k k xs)

  -- How many records are there afterwards: one more if the key is new, and never more than the capacity.
  pub length-upsert :
      (capacity : ℕ) (xs : List A) (x : A)
      → is_unique (keys key xs) ≡ true
      → length (upsert capacity xs x)
        ≡ min capacity (length xs + (if str_mem (key x) (keys key xs) then 0 else 1))
  unfolding upsert
  length-upsert capacity xs x u = ground (
    arith,
    length-take_last capacity (others key (key x) xs ++ x ∷ []),
    length-append (others key (key x) xs) (x ∷ []),
    length-others (key x) xs,
  )

  mem-drop :
      (s : String) (n : ℕ) (xs : List A)
      → str_mem s (keys key (drop n xs)) ≡ true
      → str_mem s (keys key xs) ≡ true
  mem-drop s zero xs h = h
  mem-drop s (suc n) [] h = h
  mem-drop s (suc n) (x ∷ xs) h = ground (arith, mem-drop s n xs)

  mem-append :
      (s : String) (xs ys : List A)
      → str_mem s (keys key (xs ++ ys)) ≡ (str_mem s (keys key xs) || str_mem s (keys key ys))
  mem-append s [] ys = refl
  mem-append s (x ∷ xs) ys = ground (arith, mem-append s xs ys)

  -- Every key that is there was there, or is the new one.
  pub mem-upsert :
      (capacity : ℕ) (s : String) (xs : List A) (x : A)
      → str_mem s (keys key (upsert capacity xs x)) ≡ true
      → (str_mem s (keys key xs) || str_eq (key x) s) ≡ true
  unfolding upsert
  mem-upsert capacity s xs x h =
      let before =
        mem-drop s (length (others key (key x) xs ++ x ∷ []) - capacity)
          (others key (key x) xs ++ x ∷ []) h in
      ground (arith, mem-append s (others key (key x) xs) (x ∷ []), mem-others s (key x) xs)
