-- ===== src/Store/Names.antt =====
-- How an append changes the registry of identity names (runtime/store.py).
use mathlib.Core.Path.{subst}
use alice_brain_hermes.Prelude.{
  ℕ, String, ◌≡◌, refl, inl, inr, Bool, true, false, not, ◌&&◌, ◌||◌, Option, none, some, List, [],
  ◌∷◌, map, arith, str_eq, eq_iff, str_mem, is_unique, Bool-cases, Result, ok, guard-eq-ok,
  integrity_error,
}
use alice_brain_hermes.Json.{Json, null, str, get}
use alice_brain_hermes.Events.{EventEnvelope}
use alice_brain_hermes.Store.{NameRow, EventStore, Encoding}
use alice_brain_hermes.Store.Registry.{
  clashes, put_name, insert_name, name_row, named_as, record_identity_name, is_naming,
  register_name,
}
use alice_brain_hermes.Store.Append.{Appended, append_event}
use alice_brain_hermes.Store.Appends.{Appends, append_event-Appends}

-- Brains, normalized names and source events are each there once.
pub record IsRegistry (names : List NameRow) : Type 0 where
  pub brains : is_unique (map (λ r. r.brain_id) names) ≡ true
  pub normalized : is_unique (map (λ r. r.normalized_name) names) ≡ true
  pub sources : is_unique (map (λ r. r.source_event_id) names) ≡ true

module _ (key : NameRow → String) where
  -- No row of another brain has the key.
  abbrev avoids : NameRow → List NameRow → Bool
  avoids row [] = true
  avoids row (r ∷ rest) =
      (str_eq r.brain_id row.brain_id || not (str_eq (key r) (key row))) && avoids row rest

  avoids-absent :
      (row : NameRow) (rest : List NameRow)
      → str_mem row.brain_id (map (λ r. r.brain_id) rest) ≡ false
      → avoids row rest ≡ true
      → str_mem (key row) (map key rest) ≡ false
  avoids-absent row [] h a = refl
  avoids-absent row (r ∷ rest) h a =
      ground
        (arith, avoids-absent row rest, eq_iff r.brain_id row.brain_id, eq_iff (key r) (key row))

  put_mem :
      (k : String) (row : NameRow) (rows : List NameRow)
      → str_mem k (map key rows) ≡ false
      → str_eq (key row) k ≡ false
      → str_mem k (map key (put_name row rows)) ≡ false
  put_mem k row [] h n = ground arith
  put_mem k row (r ∷ rest) h n = ground (arith, put_mem k row rest)

  put_unique :
      (row : NameRow) (rows : List NameRow)
      → is_unique (map (λ r. r.brain_id) rows) ≡ true
      → is_unique (map key rows) ≡ true
      → avoids row rows ≡ true
      → is_unique (map key (put_name row rows)) ≡ true
  put_unique row [] b u a = refl
  put_unique row (r ∷ rest) b u a = elim (Bool-cases (str_eq r.brain_id row.brain_id)) [
    | inl same ↦
        let absent : str_mem row.brain_id (map (λ r. r.brain_id) rest) ≡ false =
          ground (arith, eq_iff r.brain_id row.brain_id) in
        rw same (ground (arith, avoids-absent row rest absent))
    | inr other ↦ rw other (
        ground (
          arith,
          put_unique row rest,
          put_mem (key r) row rest,
          eq_iff (key row) (key r),
          eq_iff (key r) (key row),
        ))
  ]

clashes-avoids :
    (row : NameRow) (rows : List NameRow)
    → clashes row rows ≡ false
    → (avoids (λ r. r.normalized_name) row rows ≡ true)
      × (avoids (λ r. r.source_event_id) row rows ≡ true)
clashes-avoids row [] h = (refl, refl)
clashes-avoids row (r ∷ rest) h = ground (arith, clashes-avoids row rest)

brain-avoids : (row : NameRow) (rows : List NameRow) → avoids (λ r. r.brain_id) row rows ≡ true
brain-avoids row [] = refl
brain-avoids row (r ∷ rest) = ground (arith, brain-avoids row rest)

insert_name-IsRegistry :
    (names : List NameRow) (row : NameRow) {names' : List NameRow}
    → IsRegistry names
    → insert_name names row ≡ ok names'
    → IsRegistry names'
insert_name-IsRegistry names row {names' = names'} i h =
    let done : Result (List NameRow) = ok (put_name row names) in
    let (free, made) = guard-eq-ok (not (clashes row names)) integrity_error done h in
    let same : put_name row names ≡ names' = cc in
    let (named, sourced) = clashes-avoids row names (ground arith) in
    subst IsRegistry same (record {
      brains = put_unique (λ r. r.brain_id) row names i.brains i.brains (brain-avoids row names);
      normalized = put_unique (λ r. r.normalized_name) row names i.brains i.normalized named;
      sources = put_unique (λ r. r.source_event_id) row names i.brains i.sources sourced;
    })

kept-IsRegistry :
    (names : List NameRow) {names' : List NameRow}
    → IsRegistry names
    → Path (Result (List NameRow)) (ok names) (ok names')
    → IsRegistry names'
kept-IsRegistry names {names' = names'} i h =
    let same : names ≡ names' = cc in subst IsRegistry same i

record_identity_name-IsRegistry :
    (c : Encoding) (names : List NameRow) (e : EventEnvelope) (name : Json) {names' : List NameRow}
    → IsRegistry names
    → record_identity_name c names e name ≡ ok names'
    → IsRegistry names'
record_identity_name-IsRegistry c names e null i h = kept-IsRegistry names i h
record_identity_name-IsRegistry c names e (str name) i h = keyed (c.name_key name) h
  where
    keyed :
        (key : Option String) {names' : List NameRow}
        → named_as names e name key ≡ ok names'
        → IsRegistry names'
    keyed none h = cc
    keyed (some key) h = insert_name-IsRegistry names (name_row e name key) i h
record_identity_name-IsRegistry c names e _ i h = cc

register_name-IsRegistry :
    (c : Encoding) (names : List NameRow) (e : EventEnvelope) {names' : List NameRow}
    → IsRegistry names
    → register_name c names e ≡ ok names'
    → IsRegistry names'
unfolding register_name
register_name-IsRegistry c names e i h = elim (Bool-cases (is_naming e)) [
  | inl naming ↦ record_identity_name-IsRegistry c names e (get e.payload "name") i (rw naming at h)
  | inr other ↦ kept-IsRegistry names i (rw other at h)
]

-- An append that succeeds keeps the registry of identity names: no two brains have the same normalized name, no brain has
-- two, and no event is the source of two.
pub append_event-IsRegistry :
    (c : Encoding) (s : EventStore) (e : EventEnvelope) (expected : Option ℕ) {a : Appended}
    → IsRegistry s.names
    → append_event c s e expected ≡ ok a
    → IsRegistry a.store.names
append_event-IsRegistry c s e expected i h = appended (append_event-Appends c s e expected h).1
  where
    appended : {a : Appended} → Appends c s e expected a → IsRegistry a.store.names
    appended (Appends.found r one same) = i
    appended (Appends.added new expects fresh valid names rows named counted) =
        register_name-IsRegistry c s.names _ i named
