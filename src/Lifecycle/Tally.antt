-- ===== src/Lifecycle/Tally.antt =====
-- The counts add up.
use alice_brain_hermes.Prelude.{
  ℕ, ◌+◌, String, ◌≡◌, refl, true, false, ◌||◌, some, List, [], ◌∷◌, length, str_eq, str_mem,
  is_unique, eq_iff, arith, Bool-cases, Option-cases, inl, inr, if◌then◌else◌,
}
use alice_brain_hermes.Text.{str_ltb}
use alice_brain_hermes.Lifecycle.{Count, types_of, first_key, pop, bump, insert_count, sort_counts}

-- `sum(raw_lifecycle_counts.values())`
abbrev pub total_of : List Count → ℕ
total_of [] = 0
total_of (c ∷ rest) = c.count + total_of rest

pub bump-total : (key : String) (xs : List Count) → total_of (bump key xs) ≡ total_of xs + 1
unfolding bump
bump-total key [] = omega arith
bump-total key (c ∷ rest) = ground (arith, bump-total key rest)

pub bump-length :
    (key : String) (xs : List Count)
    → length (bump key xs) ≡ length xs + (if str_mem key (types_of xs) then 0 else 1)
unfolding bump
bump-length key [] = omega arith
bump-length key (c ∷ rest) = ground (arith, bump-length key rest)

bump-mem :
    (s key : String) (xs : List Count)
    → str_mem s (types_of (bump key xs)) ≡ (str_mem s (types_of xs) || str_eq key s)
unfolding bump
bump-mem s key [] = ground arith
bump-mem s key (c ∷ rest) = ground (arith, bump-mem s key rest, eq_iff c.event_type key)

pub bump_unique :
    (key : String) (xs : List Count)
    → is_unique (types_of xs) ≡ true
    → is_unique (types_of (bump key xs)) ≡ true
unfolding bump
bump_unique key [] h = refl
bump_unique key (c ∷ rest) h = ground (
  arith,
  bump_unique key rest,
  bump-mem c.event_type key rest,
  eq_iff c.event_type key,
  eq_iff key c.event_type,
)

insert_count-total :
    (c : Count) (xs : List Count) → total_of (insert_count c xs) ≡ c.count + total_of xs
unfolding insert_count
insert_count-total c [] = omega arith
insert_count-total c (d ∷ rest) = ground (arith, insert_count-total c rest)

insert_count-length : (c : Count) (xs : List Count) → length (insert_count c xs) ≡ length xs + 1
unfolding insert_count
insert_count-length c [] = omega arith
insert_count-length c (d ∷ rest) = ground (arith, insert_count-length c rest)

insert_count-mem :
    (s : String) (c : Count) (xs : List Count)
    → str_mem s (types_of (insert_count c xs)) ≡ (str_eq c.event_type s || str_mem s (types_of xs))
unfolding insert_count
insert_count-mem s c [] = ground arith
insert_count-mem s c (d ∷ rest) = ground (arith, insert_count-mem s c rest)

insert_count_unique :
    (c : Count) (xs : List Count)
    → str_mem c.event_type (types_of xs) ≡ false
    → is_unique (types_of xs) ≡ true
    → is_unique (types_of (insert_count c xs)) ≡ true
unfolding insert_count
insert_count_unique c [] n h = refl
insert_count_unique c (d ∷ rest) n h = ground (
  arith,
  insert_count_unique c rest,
  insert_count-mem d.event_type c rest,
  eq_iff c.event_type d.event_type,
  eq_iff d.event_type c.event_type,
)

pub sort_counts-total : (xs : List Count) → total_of (sort_counts xs) ≡ total_of xs
unfolding sort_counts
sort_counts-total [] = refl
sort_counts-total (c ∷ rest) =
    omega (arith, insert_count-total c (sort_counts rest), sort_counts-total rest)

pub sort_counts-length : (xs : List Count) → length (sort_counts xs) ≡ length xs
unfolding sort_counts
sort_counts-length [] = refl
sort_counts-length (c ∷ rest) =
    omega (arith, insert_count-length c (sort_counts rest), sort_counts-length rest)

sort_counts-mem :
    (s : String) (xs : List Count) → str_mem s (types_of (sort_counts xs)) ≡ str_mem s (types_of xs)
unfolding sort_counts
sort_counts-mem s [] = refl
sort_counts-mem s (c ∷ rest) =
    ground (arith, insert_count-mem s c (sort_counts rest), sort_counts-mem s rest)

pub sort_counts_unique :
    (xs : List Count)
    → is_unique (types_of xs) ≡ true
    → is_unique (types_of (sort_counts xs)) ≡ true
unfolding sort_counts
sort_counts_unique [] h = refl
sort_counts_unique (c ∷ rest) h = ground (
  arith,
  insert_count_unique c (sort_counts rest),
  sort_counts-mem c.event_type rest,
  sort_counts_unique rest,
)

pub first_key-mem :
    (xs : List Count) (key : String) → first_key xs ≡ some key → str_mem key (types_of xs) ≡ true
unfolding first_key
first_key-mem [] key h = ground arith
first_key-mem (c ∷ rest) key h = elim (Option-cases (first_key rest)) [
  | inl none_there ↦ ground (arith, eq_iff c.event_type key)
  | inr (k, there) ↦ ground (arith, first_key-mem rest k there, eq_iff c.event_type key)
]

pub first_key-some :
    (c : Count) (rest : List Count) → (key : String) × (first_key (c ∷ rest) ≡ some key)
unfolding first_key
first_key-some c rest = elim (Option-cases (first_key rest)) [
  | inl none_there ↦ (c.event_type, rw none_there refl)
  | inr (k, there) ↦ elim (Bool-cases (str_ltb k c.event_type)) [
    | inl earlier ↦ (k, rw (there, earlier) refl)
    | inr later ↦ (c.event_type, rw (there, later) refl)
  ]
]

pub pop-total :
    (key : String) (xs : List Count) → (pop key xs).0 + total_of (pop key xs).1 ≡ total_of xs
unfolding pop
pop-total key [] = refl
pop-total key (c ∷ rest) = ground (arith, pop-total key rest)

pub pop-length :
    (key : String) (xs : List Count)
    → str_mem key (types_of xs) ≡ true
    → length (pop key xs).1 + 1 ≡ length xs
unfolding pop
pop-length key [] h = ground arith
pop-length key (c ∷ rest) h = ground (arith, pop-length key rest)

pub pop-mem :
    (s key : String) (xs : List Count)
    → str_mem s (types_of (pop key xs).1) ≡ true
    → str_mem s (types_of xs) ≡ true
unfolding pop
pop-mem s key [] h = h
pop-mem s key (c ∷ rest) h = ground (arith, pop-mem s key rest)

pub pop_unique :
    (key : String) (xs : List Count)
    → is_unique (types_of xs) ≡ true
    → is_unique (types_of (pop key xs).1) ≡ true
unfolding pop
pop_unique key [] h = h
pop_unique key (c ∷ rest) h = ground (arith, pop_unique key rest, pop-mem c.event_type key rest)
