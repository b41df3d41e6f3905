-- ===== src/Action/Reduce/Lookup.antt =====
-- Looking up an action by its ID, before and after the ledger's tuple of actions is changed.
use mathlib.Core.List.{map-append}
use alice_brain_hermes.Prelude.{
  String, ◌≡◌, refl, true, false, not, ◌&&◌, ◌||◌, Option, none, some, List, [], ◌∷◌, ◌++◌, map,
  str_eq, eq_iff, str_mem, is_unique, is_unique-snoc, any, All, arith, Bool-cases, inl, inr,
  if◌then◌else◌, All-append, length, length-append, ◌+◌,
}
use alice_brain_hermes.Action.{ActionRecord}
use alice_brain_hermes.Action.Reduce.{find, without, replace}

abbrev pub ids : List ActionRecord → List String
ids = map (λ a. a.action_id)

abbrev or_else : Option ActionRecord → Option ActionRecord → Option ActionRecord
or_else none o = o
or_else (some a) o = some a

find-append :
    (id : String) (xs ys : List ActionRecord)
    → find id (xs ++ ys) ≡ or_else (find id xs) (find id ys)
unfolding find
find-append id [] ys = refl
find-append id (x ∷ xs) ys = ground (arith, find-append id xs ys)

find-without :
    (id other : String) (xs : List ActionRecord)
    → find other (without id xs) ≡ (if str_eq id other then none else find other xs)
unfolding find without
find-without id other [] = ground arith
find-without id other (x ∷ xs) = ground (
  arith,
  find-without id other xs,
  eq_iff x.action_id id,
  eq_iff x.action_id other,
  eq_iff id other,
)

-- Replacing an action changes the lookup of its own ID alone.
pub find-replace :
    (other : String) (xs : List ActionRecord) (a : ActionRecord)
    → find other (replace xs a) ≡ (if str_eq a.action_id other then some a else find other xs)
unfolding replace find
find-replace other xs a =
    ground (
      arith,
      find-append other (without a.action_id xs) (a ∷ []),
      find-without a.action_id other xs,
    )

pub find-snoc :
    (other : String) (xs : List ActionRecord) (a : ActionRecord)
    → find other (xs ++ a ∷ [])
      ≡ or_else (find other xs) (if str_eq a.action_id other then some a else none)
unfolding find
find-snoc other xs a = ground (arith, find-append other xs (a ∷ []))

pub find-id :
    (id : String) (xs : List ActionRecord) (a : ActionRecord)
    → find id xs ≡ some a
    → a.action_id ≡ id
unfolding find
find-id id [] a h = cc
find-id id (x ∷ xs) a h = ground (arith, find-id id xs a, eq_iff x.action_id id)

find-cons :
    (id : String) (x : ActionRecord) (xs : List ActionRecord) (a : ActionRecord)
    → str_eq x.action_id id ≡ true
    → find id (x ∷ xs) ≡ some a
    → x ≡ a
unfolding find
find-cons id x xs a same e = ground arith

pub find-All {ℓ} :
    (P : ActionRecord → Type ℓ) (id : String) (xs : List ActionRecord) (a : ActionRecord)
    → All P xs
    → find id xs ≡ some a
    → P a
unfolding find
find-All P id [] a h e = absurd (cc)
find-All P id (x ∷ xs) a h e = elim (Bool-cases (str_eq x.action_id id)) [
  | inl same ↦ rw (find-cons id x xs a same e) at h.0
  | inr other ↦ find-All P id xs a h.1 (rw other at e)
]

mem-append :
    (s : String) (xs ys : List ActionRecord)
    → str_mem s (ids (xs ++ ys)) ≡ (str_mem s (ids xs) || str_mem s (ids ys))
mem-append s [] ys = refl
mem-append s (x ∷ xs) ys = ground (arith, mem-append s xs ys)

mem-without :
    (s id : String) (xs : List ActionRecord)
    → str_mem s (ids (without id xs)) ≡ (str_mem s (ids xs) && not (str_eq id s))
unfolding without
mem-without s id [] = refl
mem-without s id (x ∷ xs) =
    ground (arith, mem-without s id xs, eq_iff x.action_id id, eq_iff x.action_id s, eq_iff id s)

unique-without :
    (id : String) (xs : List ActionRecord)
    → is_unique (ids xs) ≡ true
    → is_unique (ids (without id xs)) ≡ true
unfolding without
unique-without id [] h = refl
unique-without id (x ∷ xs) h = ground (arith, unique-without id xs, mem-without x.action_id id xs)

pub unique-snoc :
    (xs : List ActionRecord) (a : ActionRecord)
    → str_mem a.action_id (ids xs) ≡ false
    → is_unique (ids xs) ≡ true
    → is_unique (ids (xs ++ a ∷ [])) ≡ true
unique-snoc xs a h u = rw map-append (is_unique-snoc (ids xs) a.action_id h u)

pub unique-replace :
    (xs : List ActionRecord) (a : ActionRecord)
    → is_unique (ids xs) ≡ true
    → is_unique (ids (replace xs a)) ≡ true
unfolding replace
unique-replace xs a u =
    unique-snoc (without a.action_id xs) a
      (ground (arith, mem-without a.action_id a.action_id xs, eq_iff a.action_id a.action_id))
      (unique-without a.action_id xs u)

pub any-eq-mem :
    (id : String) (xs : List ActionRecord)
    → any (λ item. str_eq item.action_id id) xs ≡ str_mem id (ids xs)
any-eq-mem id [] = refl
any-eq-mem id (x ∷ xs) = ground (arith, any-eq-mem id xs)

All-without {ℓ} :
    (P : ActionRecord → Type ℓ) (id : String) (xs : List ActionRecord)
    → All P xs
    → All P (without id xs)
unfolding without
All-without P id [] h = h
All-without P id (x ∷ xs) h = elim (Bool-cases (str_eq x.action_id id)) [
  | inl same ↦ rw same (All-without P id xs h.1)
  | inr other ↦ rw other (h.0, All-without P id xs h.1)
]

pub All-replace {ℓ} :
    (P : ActionRecord → Type ℓ) (xs : List ActionRecord) (a : ActionRecord)
    → All P xs
    → P a
    → All P (replace xs a)
unfolding replace
All-replace P xs a h p =
    All-append P (without a.action_id xs) (a ∷ []) (All-without P a.action_id xs h) (p, tt)

length-without :
    (id : String) (xs : List ActionRecord)
    → is_unique (ids xs) ≡ true
    → length (without id xs) + (if str_mem id (ids xs) then 1 else 0) ≡ length xs
unfolding without
length-without id [] h = refl
length-without id (x ∷ xs) h =
    ground (arith, length-without id xs, eq_iff x.action_id id, mem-without id id xs)

find-mem :
    (id : String) (xs : List ActionRecord) (a : ActionRecord)
    → find id xs ≡ some a
    → str_mem a.action_id (ids xs) ≡ true
unfolding find
find-mem id [] a h = cc
find-mem id (x ∷ xs) a h = ground (arith, find-mem id xs a, eq_iff x.action_id a.action_id)

-- Replacing an action that is there leaves the number of actions and the IDs.
pub length-replace :
    (id : String) (xs : List ActionRecord) (a b : ActionRecord)
    → is_unique (ids xs) ≡ true
    → find id xs ≡ some a
    → b.action_id ≡ a.action_id
    → length (replace xs b) ≡ length xs
unfolding replace
length-replace id xs a b u f same = ground (
  arith,
  length-append (without b.action_id xs) (b ∷ []),
  length-without b.action_id xs u,
  find-mem id xs a f,
)

pub mem-replace :
    (s id : String) (xs : List ActionRecord) (a b : ActionRecord)
    → find id xs ≡ some a
    → b.action_id ≡ a.action_id
    → str_mem s (ids (replace xs b)) ≡ true
    → str_mem s (ids xs) ≡ true
unfolding replace
mem-replace s id xs a b f same h = ground (
  arith,
  mem-append s (without b.action_id xs) (b ∷ []),
  mem-without s b.action_id xs,
  find-mem id xs a f,
  eq_iff b.action_id s,
)
