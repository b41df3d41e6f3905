-- ===== src/Store/Ledger.antt =====
-- What an append does to the tables: the sequences of each brain stay the numbers from 1 on, each row decodes, and an
-- event that is there is found again.
use alice_brain_hermes.Prelude.{
  ℕ, ◌+◌, ◌≤◌, String, ◌≡◌, refl, ap, ◌∙◌, inl, inr, false, some, List, [], ◌∷◌, ◌++◌, arith,
  str_eq, eq_iff, length, All, Bool-cases, ok, if◌then◌else◌,
}
use alice_brain_hermes.Store.{
  Row, Brain, EventStore, Encoding, decode_event, of_brain, max_sequence, next_sequence_of,
  ensure_brain, set_next_sequence,
}
use alice_brain_hermes.Store.Append.{or_one}

-- Rows that are numbered from a number on.
abbrev pub Numbered : ℕ → List Row → Type 0
Numbered n [] = n ≡ n
Numbered n (r ∷ rest) = (r.sequence ≡ n) × Numbered (n + 1) rest

abbrev pub IsRow : Encoding → Row → Type 0
IsRow c r = decode_event c r ≡ ok r.envelope

-- Each brain's events are numbered from 1 on, the next number is the one after them, and each row decodes.
pub record IsStore (c : Encoding) (s : EventStore) : Type 0 where
  pub numbered : (id : String) → Numbered 1 (of_brain id s.events)
  pub next :
      (id : String) → or_one (next_sequence_of id s.brains) ≡ length (of_brain id s.events) + 1
  pub decodes : All (IsRow c) s.events

pub of_brain-append :
    (id : String) (rows : List Row) (r : Row)
    → of_brain id (rows ++ r ∷ [])
      ≡ (if str_eq r.brain_id id then of_brain id rows ++ r ∷ [] else of_brain id rows)
of_brain-append id [] r = refl
of_brain-append id (x ∷ rest) r =
    let more = of_brain-append id rest r in
    elim (Bool-cases (str_eq x.brain_id id)) [
      | inl here ↦ elim (Bool-cases (str_eq r.brain_id id)) [
        | inl new ↦ rw (here, new) (ap (λ l. x ∷ l) (more ∙ rw new refl))
        | inr old ↦ rw (here, old) (ap (λ l. x ∷ l) (more ∙ rw old refl))
      ]
      | inr other ↦ rw other more
    ]

pub Numbered-append :
    (n : ℕ) (rows : List Row) (r : Row)
    → Numbered n rows
    → r.sequence ≡ n + length rows
    → Numbered n (rows ++ r ∷ [])
Numbered-append n [] r h e = (omega arith, refl)
Numbered-append n (x ∷ rest) r (h, more) e = (h, Numbered-append (n + 1) rest r more (omega arith))

pub max_sequence_eq :
    (n : ℕ) (rows : List Row)
    → Numbered n rows
    → 1 ≤ n
    → 1 ≤ length rows
    → max_sequence rows + 1 ≡ n + length rows
max_sequence_eq n [] h low some_row = absurd (omega arith)
max_sequence_eq n (r ∷ []) (h, more) low some_row = ground arith
max_sequence_eq n (r ∷ t ∷ rest) (h, more) low some_row =
    let later = max_sequence_eq (n + 1) (t ∷ rest) more (omega arith) (omega arith) in ground arith

pub ensure_brain_same :
    (id : String) (brains : List Brain)
    → next_sequence_of id (ensure_brain id brains) ≡ some (or_one (next_sequence_of id brains))
ensure_brain_same id [] = ground (arith, eq_iff id id)
ensure_brain_same id (b ∷ rest) = ground (arith, ensure_brain_same id rest)

pub ensure_brain_other :
    (id other : String) (brains : List Brain)
    → str_eq id other ≡ false
    → next_sequence_of other (ensure_brain id brains) ≡ next_sequence_of other brains
ensure_brain_other id other [] h = ground arith
ensure_brain_other id other (b ∷ rest) h = ground (arith, ensure_brain_other id other rest)

pub set_next_sequence_same :
    (id : String) (n : ℕ) (brains : List Brain) (m : ℕ)
    → next_sequence_of id brains ≡ some m
    → next_sequence_of id (set_next_sequence id n brains) ≡ some n
set_next_sequence_same id n [] m h = cc
set_next_sequence_same id n (b ∷ rest) m h = ground (arith, set_next_sequence_same id n rest m)

pub set_next_sequence_other :
    (id other : String) (n : ℕ) (brains : List Brain)
    → str_eq id other ≡ false
    → next_sequence_of other (set_next_sequence id n brains) ≡ next_sequence_of other brains
set_next_sequence_other id other n [] h = refl
set_next_sequence_other id other n (b ∷ rest) h =
    ground (arith, set_next_sequence_other id other n rest, eq_iff b.brain_id id)
