-- ===== src/Admission/Bounds.antt =====
-- The store of actions stays within its capacity, and its counter exact.
use mathlib.Core.Path.{subst}
use alice_brain_hermes.Prelude.{
  ℕ, ◌+◌, ◌≤◌, ◌<◌, String, ◌≡◌, refl, Bool, true, ◌==◌, ◌⊎◌, inl, inr, Option, List, [], ◌∷◌, ◌++◌,
  length, length-append, str_mem, is_some, eq_iff, arith, Bool-cases, if◌then◌else◌, ok, >>=-eq-ok,
}
use alice_brain_hermes.Events.{EventEnvelope}
use alice_brain_hermes.Action.{ActionRecord}
use alice_brain_hermes.Action.Reduce.{fresh, replace, reduce_actions}
use alice_brain_hermes.Action.Reduce.Lookup.{ids, length-replace, mem-replace}
use alice_brain_hermes.Action.Reduce.Change.{Change, reduce_actions-Change}
use alice_brain_hermes.Action.Reduce.Ledger.{IsLedger, IsSound, reduce_actions-IsLedger}
use alice_brain_hermes.Memory.{Collection, WorkingSetCounter}
use alice_brain_hermes.Memory.Counted.{advance-eq}
use alice_brain_hermes.Admission.{
  Admitted, Fitted, admitted_actions, max_action_records, fit, count_admission, fitted_with,
  counted_as, reduced_with, admit_actions,
}
use alice_brain_hermes.Admission.Evictions.{
  Evicts-length, Evicts-unique, Evicts-All, Fits, fit-Fits,
}

admitted_actions-append :
    (previous : List String) (xs ys : List ActionRecord)
    → admitted_actions previous (xs ++ ys)
      ≡ admitted_actions previous xs + admitted_actions previous ys
admitted_actions-append previous [] ys = omega arith
admitted_actions-append previous (x ∷ xs) ys =
    ground (arith, admitted_actions-append previous xs ys)

admitted_none :
    (previous : List String) (xs : List ActionRecord)
    → ((s : String) → str_mem s (ids xs) ≡ true → str_mem s previous ≡ true)
    → admitted_actions previous xs ≡ 0
admitted_none previous [] h = refl
admitted_none previous (x ∷ xs) h =
    let known = h x.action_id (ground (arith, eq_iff x.action_id x.action_id)) in
    let rest = admitted_none previous xs (λ s m. h s (ground arith)) in rw (known, rest) refl

-- How many actions the reducer adds: none, or one.
record Grows (before after : List ActionRecord) : Type 0 where
  by_admissions : length after ≡ length before + admitted_actions (ids before) after
  by_one : admitted_actions (ids before) after ≤ 1

Change-Grows :
    (e : EventEnvelope) {trusted : Bool} {before after : List ActionRecord} {grounded : List String}
    → IsLedger before
    → Change e trusted before after grounded
    → Grows before after
Change-Grows e {before = before} l (Change.ignored same _) =
    let none_new = admitted_none (ids before) before (λ s m. m) in
    rw same (record { by_admissions = omega (arith, none_new); by_one = omega (arith, none_new) })
Change-Grows e {before = before} l (Change.added id intent _ absent _ longer _) =
    let one_new : admitted_actions (ids before) (before ++ fresh id intent e ∷ []) ≡ 1 = ground (
      arith,
      admitted_actions-append (ids before) before (fresh id intent e ∷ []),
      admitted_none (ids before) before (λ s m. m),
    ) in
    rw longer (record {
      by_admissions = omega (arith, one_new, length-append before (fresh id intent e ∷ []));
      by_one = omega (arith, one_new);
    })
Change-Grows e {before = before} l (Change.handled kind id a b _ _ found replaced _ h) =
    let none_new =
      admitted_none (ids before) (replace before b)
        (λ s. mem-replace s id before a b found h.same_id) in
    rw replaced (record {
      by_admissions =
          omega (arith, none_new, length-replace id before a b l.distinct found h.same_id);
      by_one = omega (arith, none_new);
    })

abbrev one_if : Option String → ℕ
one_if evicted = if is_some evicted then 1 else 0

count_admission-eq :
    (counter : WorkingSetCounter) (n : ℕ) (evicted : Option String)
    → counter.evicted + one_if evicted ≤ counter.total + n
    → one_if evicted ≤ n
    → count_admission counter n evicted
      ≡ ok (record { total = counter.total + n; evicted = counter.evicted + one_if evicted })
unfolding count_admission
count_admission-eq counter n evicted h k = elim (Bool-cases (n == 0)) [
  | inl idle ↦
      let none_new : n ≡ 0 = ground arith in
      let none_gone : one_if evicted ≡ 0 = omega (arith, k, none_new) in
      rw (idle, none_new, none_gone) (ground arith)
  | inr admits ↦ rw admits (advance-eq counter n (one_if evicted) h)
]

-- The actions of the brain's state: a ledger within its capacity, whose counter is exact.
pub record IsStore (c : Collection ActionRecord) : Type 0 where
  pub ledger : IsLedger c.items
  pub bounded : length c.items ≤ max_action_records
  pub exact : c.counter.total ≡ c.counter.evicted + length c.items

-- What is retained of the reduced actions.
record Retains (actions : List ActionRecord) (f : Fitted) : Type 0 where
  ledger : IsLedger f.actions
  bounded : length actions ≤ max_action_records + 1 → length f.actions ≤ max_action_records
  lost : length f.actions + one_if f.evicted_action_id ≡ length actions
  full : one_if f.evicted_action_id ≡ 0 ⊎ max_action_records < length actions

Fits-Retains :
    {actions : List ActionRecord} {f : Fitted}
    → IsLedger actions
    → Fits actions f
    → Retains actions f
Fits-Retains l (Fits.all_fit room) = record {
  ledger = l;
  bounded = λ b. room;
  lost = omega arith;
  full = inl refl;
}
Fits-Retains l (Fits.evicts gone kept over e) = record {
  ledger = record { distinct = Evicts-unique e l.distinct; sound = Evicts-All IsSound e l.sound };
  bounded = λ b. omega (arith, Evicts-length e);
  lost = Evicts-length e;
  full = inr over;
}

fitted_with-IsStore :
    (c : Collection ActionRecord) (actions : List ActionRecord) (grounded : List String)
    (f : Fitted) (d : Admitted)
    → IsStore c
    → Grows c.items actions
    → Retains actions f
    → fitted_with c actions grounded f ≡ ok d
    → IsStore d.records
unfolding fitted_with
fitted_with-IsStore c actions grounded f d s g r h =
    let n = admitted_actions (ids c.items) actions in
    let gone = one_if f.evicted_action_id in
    let gone_new : gone ≤ n = ground (arith, r.full, g.by_admissions, s.bounded) in
    let within : c.counter.evicted + gone ≤ c.counter.total + n =
      omega (arith, s.exact, gone_new) in
    let counted = count_admission-eq c.counter n f.evicted_action_id within gone_new in
    let now : d ≡ record {
      records = record {
        items = f.actions;
        counter = record { total = c.counter.total + n; evicted = c.counter.evicted + gone };
      };
      grounded = grounded;
      evicted_action_id = f.evicted_action_id;
    } =
      ground arith in
    rw now (record {
      ledger = r.ledger;
      bounded = r.bounded (omega (arith, g.by_admissions, g.by_one, s.bounded));
      exact = omega (arith, s.exact, g.by_admissions, r.lost);
    })

fitted_with-eq :
    (c : Collection ActionRecord) (actions : List ActionRecord) (grounded : List String)
    (f : Fitted) (d : Admitted)
    → fitted_with c actions grounded f ≡ ok d
    → (f ≡ record { actions = d.records.items; evicted_action_id = d.evicted_action_id })
      × (grounded ≡ d.grounded)
unfolding fitted_with
fitted_with-eq c actions grounded f d h =
    let (counter, _, p) =
      >>=-eq-ok
        (count_admission c.counter (admitted_actions (ids c.items) actions) f.evicted_action_id)
        (counted_as grounded f) h in
    ground arith

-- What an accepted event leaves of a store: a store again, that has what reduce_actions gives, less its first terminal
-- action if that is more than the capacity.
pub record Admits (c : Collection ActionRecord) (e : EventEnvelope) (trusted : Bool) (d : Admitted)
    : Type 0 where
  pub store : IsStore d.records
  pub actions : List ActionRecord
  pub reduced : reduce_actions c.items e trusted ≡ ok (actions, d.grounded)
  pub fitted :
      Fits actions (record { actions = d.records.items; evicted_action_id = d.evicted_action_id })

-- An accepted event keeps the actions a ledger within their capacity, with an exact counter; they are what
-- reduce_actions gives, less its first terminal action if there is one too many.
pub admit_actions-Admits :
    (c : Collection ActionRecord) (e : EventEnvelope) (trusted : Bool) (d : Admitted)
    → IsStore c
    → admit_actions c e trusted ≡ ok d
    → Admits c e trusted d
unfolding admit_actions
admit_actions-Admits c e trusted d s h =
    let ((actions, grounded), reduces, p) =
      >>=-eq-ok (reduce_actions c.items e trusted) (reduced_with c) h in
    let (f, fits, q) = >>=-eq-ok (fit actions) (fitted_with c actions grounded) p in
    let change = reduce_actions-Change e trusted c.items actions grounded reduces in
    let ledger = reduce_actions-IsLedger e trusted c.items actions grounded s.ledger reduces in
    let found = fit-Fits actions f fits in
    let (same_fit, same_grounded) = fitted_with-eq c actions grounded f d q in
    record {
      store =
          fitted_with-IsStore c actions grounded f d s (Change-Grows e s.ledger change)
            (Fits-Retains ledger found) q;
      actions = actions;
      reduced =
          subst (λ g. reduce_actions c.items e trusted ≡ ok (actions, g)) same_grounded reduces;
      fitted = subst (Fits actions) same_fit found;
    }
