-- ===== src/Admission/Evictions.antt =====
-- The eviction of the first terminal action.
use alice_brain_hermes.Prelude.{
  ◌+◌, ◌≤◌, String, ◌≡◌, sym, true, false, inl, inr, none, some, List, [], ◌∷◌, length, leb,
  str_mem, is_unique, All, arith, leb→le, ◌<◌, Bool-cases, Option-cases, ok,
}
use alice_brain_hermes.Action.{ActionRecord}
use alice_brain_hermes.Action.Reduce.Lookup.{ids}
use alice_brain_hermes.Admission.{is_terminal, evict_terminal, Fitted, fit, max_action_records}

-- `kept` is the list without its first terminal action `gone`.
pub data Evicts : List ActionRecord → ActionRecord → List ActionRecord → Type 0 where
  here :
      (gone : ActionRecord) (rest : List ActionRecord)
      → is_terminal gone ≡ true
      → Evicts (gone ∷ rest) gone rest
  there :
      (a : ActionRecord) {rest kept : List ActionRecord} {gone : ActionRecord}
      → is_terminal a ≡ false
      → Evicts rest gone kept
      → Evicts (a ∷ rest) gone (a ∷ kept)

evict_terminal-Evicts :
    (xs : List ActionRecord) (gone : ActionRecord) (kept : List ActionRecord)
    → evict_terminal xs ≡ some (gone, kept)
    → Evicts xs gone kept
unfolding evict_terminal
evict_terminal-Evicts [] gone kept h = cc
evict_terminal-Evicts (a ∷ rest) gone kept h = elim (Bool-cases (is_terminal a)) [
  | inl terminal ↦
      let (e, k) : (a ≡ gone) × (rest ≡ kept) = ground arith in
      rw (sym e, sym k) (Evicts.here a rest terminal)
  | inr active ↦ elim (Option-cases (evict_terminal rest)) [
    | inl none_there ↦ absurd (ground arith)
    | inr ((g, k), found) ↦
        let (e, same) : (g ≡ gone) × (a ∷ k ≡ kept) = ground arith in
        rw (sym e, sym same) (Evicts.there a active (evict_terminal-Evicts rest g k found))
  ]
]

pub Evicts-length :
    {xs kept : List ActionRecord} {gone : ActionRecord}
    → Evicts xs gone kept
    → length kept + 1 ≡ length xs
Evicts-length (Evicts.here gone rest _) = omega arith
Evicts-length (Evicts.there a _ e) = omega (arith, Evicts-length e)

Evicts-mem :
    (s : String) {xs kept : List ActionRecord} {gone : ActionRecord}
    → Evicts xs gone kept
    → str_mem s (ids kept) ≡ true
    → str_mem s (ids xs) ≡ true
Evicts-mem s (Evicts.here gone rest _) h = ground arith
Evicts-mem s (Evicts.there a _ e) h = ground (arith, Evicts-mem s e)

pub Evicts-unique :
    {xs kept : List ActionRecord} {gone : ActionRecord}
    → Evicts xs gone kept
    → is_unique (ids xs) ≡ true
    → is_unique (ids kept) ≡ true
Evicts-unique (Evicts.here gone rest _) h = ground arith
Evicts-unique (Evicts.there a _ e) h = ground (arith, Evicts-unique e, Evicts-mem a.action_id e)

pub Evicts-All {ℓ} :
    (P : ActionRecord → Type ℓ) {xs kept : List ActionRecord} {gone : ActionRecord}
    → Evicts xs gone kept
    → All P xs
    → All P kept
Evicts-All P (Evicts.here gone rest _) h = h.1
Evicts-All P (Evicts.there a _ e) h = (h.0, Evicts-All P e h.1)

-- What `fit` makes of the actions.
pub data Fits (xs : List ActionRecord) : Fitted → Type 0 where
  all_fit :
      length xs ≤ max_action_records → Fits xs (record { actions = xs; evicted_action_id = none })
  evicts :
      (gone : ActionRecord) (kept : List ActionRecord)
      → max_action_records < length xs
      → Evicts xs gone kept
      → Fits xs (record { actions = kept; evicted_action_id = some gone.action_id })

pub fit-Fits : (xs : List ActionRecord) (f : Fitted) → fit xs ≡ ok f → Fits xs f
unfolding fit
fit-Fits xs f h = elim (Bool-cases (leb (length xs) max_action_records)) [
  | inl room ↦
      let same : f ≡ record { actions = xs; evicted_action_id = none } = ground arith in
      rw same (Fits.all_fit (leb→le (length xs) max_action_records room))
  | inr full ↦ elim (Option-cases (evict_terminal xs)) [
    | inl none_there ↦ absurd (ground arith)
    | inr ((gone, kept), found) ↦
        let same : f ≡ record { actions = kept; evicted_action_id = some gone.action_id } =
          ground arith in
        rw same (Fits.evicts gone kept (ground arith) (evict_terminal-Evicts xs gone kept found))
  ]
]
