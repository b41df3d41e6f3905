-- ===== src/Bridge/Acceptance.antt =====
-- What an accepted reservation takes and leaves, and that it is the same as itself.
use alice_brain_hermes.Prelude.{
  ℕ, ◌+◌, ◌-◌, ◌≤◌, ◌≡◌, refl, String, Bool, true, false, Option, none, some, ◌∷◌, [], arith, ◌==◌,
  eq_iff, opt_str_eq, opt_str_eq→eq, ap,
}
use alice_brain_hermes.Json.{Fields}
use alice_brain_hermes.Json.Equality.{fields_eq_refl, fields_eq_sound}
use alice_brain_hermes.Bridge.{
  Causes, CopyStats, Receipt, HookBridge, Disposition, accepted, late_after_close,
}
use alice_brain_hermes.Bridge.Capture.{Shape, Fault, late_health}
use alice_brain_hermes.Bridge.Reserve.{
  ValidReservation, Reserved, reserved_observation, reserved_gap, publish_reserved, reserved_by,
  receipt_of, is_same, is_repeat, hook_of, kwargs_of, causes_of, causes_eq, opt_causes_eq,
  opt_fields_eq,
}
use alice_brain_hermes.Bridge.Held.{IsHookBridge}
use alice_brain_hermes.Bridge.Drops.{Takes, drop_captures-Takes}
use alice_brain_hermes.Bridge.Taken.{publish_shaped-Takes}
use alice_brain_hermes.Bridge.Edges.{Extends, Same, Same-IsHookBridge, taken-IsHookBridge}
use alice_brain_hermes.Bridge.Invariant.{
  Extends-Same, taken-Extends, late-Extends, late-IsHookBridge,
}
use alice_brain_hermes.Bridge.Reservations.{IsValid, Fits}

pub published-Takes :
    (shape : Shape) (fault : Fault) (b : HookBridge) (v : ValidReservation) (r : Reserved)
    → IsHookBridge b
    → v.first ≡ b.next_capture_seq
    → v.first ≤ v.last
    → Fits v.first v.last r
    → Takes b (publish_reserved shape fault b v r) v.last
unfolding publish_reserved
published-Takes shape fault b v (reserved_gap causes) is e forward (counts, caused) =
    drop_captures-Takes b v.first v.last causes is
      (record { next = e; forward = forward; counts = counts; caused = caused })
published-Takes shape fault b v (reserved_observation hook kwargs) is e forward one =
    publish_shaped-Takes b fault hook v.first v.last (shape hook v.first kwargs v.stats) is e
      forward (λ _. one)

-- The fields that an acceptance sets beside the next number.
abbrev pub noted : HookBridge → Bool → Receipt → HookBridge
noted b ever receipt = record b {
  ever_had_capture = ever;
  last_bootstrap_reservation = some receipt;
}

pub note-Same : (b : HookBridge) (ever : Bool) (receipt : Receipt) → Same b (noted b ever receipt)
note-Same b ever receipt = record {
  same_queue = refl;
  same_head = refl;
  same_spans = refl;
  same_retained = refl;
  same_sealed = refl;
  same_final = refl;
  same_next = refl;
  same_capacity = refl;
  same_pending = refl;
  same_dropped = refl;
  not_mended = λ h. h;
}

-- What an accepted reservation does, by its disposition.
pub record Accepts (b b' : HookBridge) (v : ValidReservation) (d : Disposition) : Type 0 where
  pub consistent : IsHookBridge b'
  pub extends : Extends b b'
  pub same_retained : b'.retained ≡ b.retained
  pub next : b'.next_capture_seq ≡ v.last + 1

pub reserved_by-Accepts :
    (b b' : HookBridge) (v : ValidReservation) (sealed : Bool)
    → IsHookBridge b
    → IsValid v
    → v.first ≡ b.next_capture_seq
    → Takes b b' v.last
    → b.close_sealed ≡ sealed
    → Accepts b (reserved_by b b' v sealed).0 v (reserved_by b b' v sealed).1
reserved_by-Accepts b b' v true is valid e t open_ =
    let start = valid.forward in
    let bound = valid.bound in
    let count = v.last + 1 - v.first in
    let receipt = receipt_of v late_after_close in
    let late : HookBridge = record b {
      health = late_health b.health count;
      next_capture_seq = v.last + 1;
    } in
    let same : Same late (record late { last_bootstrap_reservation = some receipt }) =
      note-Same late b.ever_had_capture receipt in
    record {
      consistent =
          Same-IsHookBridge late _ same
            (late-IsHookBridge b count (v.last + 1) is (omega arith) (omega arith));
      extends = Extends-Same b late _ (late-Extends b count (v.last + 1) is open_) same;
      same_retained = refl;
      next = refl;
    }
reserved_by-Accepts b b' v false is valid e t open_ =
    let start = valid.forward in
    let same =
      note-Same (record b' { next_capture_seq = v.last + 1 }) true (receipt_of v accepted) in
    record {
      consistent =
          Same-IsHookBridge _ _ same
            (taken-IsHookBridge b b' v.last is t (omega arith) valid.bound);
      extends = Extends-Same b _ _ (taken-Extends b b' v.last t open_ (omega arith)) same;
      same_retained = t.same_retained;
      next = refl;
    }

pub bool_refl : (n : ℕ) → (n == n) ≡ true
bool_refl n = ground arith

pub opt_str_eq_refl : (o : Option String) → opt_str_eq o o ≡ true
opt_str_eq_refl none = refl
opt_str_eq_refl (some s) = ground (arith, eq_iff s s)

pub opt_fields_eq_refl : (o : Option Fields) → opt_fields_eq o o ≡ true
opt_fields_eq_refl none = refl
opt_fields_eq_refl (some fields) = fields_eq_refl fields

pub causes_eq_refl : (causes : Causes) → causes_eq causes causes ≡ true
causes_eq_refl [] = refl
causes_eq_refl ((c, n) ∷ rest) = ground (arith, eq_iff c c, causes_eq_refl rest)

pub opt_causes_eq_refl : (o : Option Causes) → opt_causes_eq o o ≡ true
opt_causes_eq_refl none = refl
opt_causes_eq_refl (some causes) = causes_eq_refl causes

pub is_same_refl :
    (v : ValidReservation) (d : Disposition)
    → is_same (receipt_of v d) (receipt_of v accepted) ≡ true
unfolding is_same
is_same_refl v d =
    rw
      (
        bool_refl v.first,
        bool_refl v.last,
        opt_str_eq_refl (hook_of v.reserved),
        opt_fields_eq_refl (kwargs_of v.reserved),
        opt_causes_eq_refl (causes_of v.reserved),
        bool_refl v.stats.redacted_paths,
        bool_refl v.stats.truncated_paths,
        bool_refl v.stats.unsupported_paths,
        bool_refl v.stats.omitted_nodes,
      )
      refl

pub is_repeat_refl :
    (v : ValidReservation) (d : Disposition) (next : ℕ)
    → next ≡ v.last + 1
    → is_repeat next v (receipt_of v d) ≡ true
unfolding is_repeat
is_repeat_refl v d next e =
    let same : (next == v.last + 1) ≡ true = ground arith in
    let known = is_same_refl v d in rw (bool_refl v.first, bool_refl v.last, same) known

opt_fields_eq-eq : (a b : Option Fields) → opt_fields_eq a b ≡ true → a ≡ b
opt_fields_eq-eq none none h = refl
opt_fields_eq-eq (some a) (some b) h = ap some (fields_eq_sound a b h)
opt_fields_eq-eq none (some b) h = ground arith
opt_fields_eq-eq (some a) none h = ground arith

causes_eq-eq : (a b : Causes) → causes_eq a b ≡ true → a ≡ b
causes_eq-eq [] [] h = refl
causes_eq-eq [] (x ∷ b) h = ground arith
causes_eq-eq (x ∷ a) [] h = ground arith
causes_eq-eq ((c, m) ∷ a) ((d, n) ∷ b) h = ground (arith, causes_eq-eq a b, eq_iff c d)

opt_causes_eq-eq : (a b : Option Causes) → opt_causes_eq a b ≡ true → a ≡ b
opt_causes_eq-eq none none h = refl
opt_causes_eq-eq (some a) (some b) h = ap some (causes_eq-eq a b h)
opt_causes_eq-eq none (some b) h = ground arith
opt_causes_eq-eq (some a) none h = ground arith

abbrev copy_stats : ℕ → ℕ → ℕ → ℕ → CopyStats
copy_stats a b c d = record {
  redacted_paths = a;
  truncated_paths = b;
  unsupported_paths = c;
  omitted_nodes = d;
}

abbrev receipt :
    ℕ → ℕ → Option String → Option Fields → Option Causes → CopyStats → Disposition → Receipt
receipt f l h k g s d = record {
  first_capture_seq = f;
  last_capture_seq = l;
  hook = h;
  detached_kwargs = k;
  gap_cause_counts = g;
  copy_stats = s;
  disposition = d;
}

stats_cong :
    {a b c d a' b' c' d' : ℕ}
    → a ≡ a'
    → b ≡ b'
    → c ≡ c'
    → d ≡ d'
    → copy_stats a b c d ≡ copy_stats a' b' c' d'
stats_cong p q r s = cc

receipt_cong :
    {f f' l l' : ℕ} {h h' : Option String} {k k' : Option Fields} {g g' : Option Causes}
    {s s' : CopyStats} (d : Disposition)
    → f ≡ f'
    → l ≡ l'
    → h ≡ h'
    → k ≡ k'
    → g ≡ g'
    → s ≡ s'
    → receipt f l h k g s d ≡ receipt f' l' h' k' g' s' d
receipt_cong d p q r s t u = cc

-- A reservation that repeats a receipt is the one that left it, with nothing taken since.
pub is_repeat-eq :
    (next : ℕ) (v : ValidReservation) (previous : Receipt)
    → is_repeat next v previous ≡ true
    → (previous ≡ receipt_of v previous.disposition) × (next ≡ v.last + 1)
unfolding is_repeat is_same
is_repeat-eq next v previous h = (
  receipt_cong previous.disposition (ground arith) (ground arith)
      (opt_str_eq→eq previous.hook (hook_of v.reserved) (ground arith))
      (opt_fields_eq-eq previous.detached_kwargs (kwargs_of v.reserved) (ground arith))
      (opt_causes_eq-eq previous.gap_cause_counts (causes_of v.reserved) (ground arith))
      (stats_cong (ground arith) (ground arith) (ground arith) (ground arith)),
  ground arith,
)
