-- ===== src/Bridge/Edges.antt =====
-- What a capture changes in a consistent state, and what only looks changed.
use alice_brain_hermes.Prelude.{
  ℕ, ◌+◌, ◌≤◌, ◌≡◌, refl, Bool, true, false, ◌&&◌, Option, none, some, ltb, leb, arith,
  if◌then◌else◌,
}
use alice_brain_hermes.Bridge.{HookBridge, max_capture_sequence}
use alice_brain_hermes.Bridge.Held.{IsHookBridge, EndsBelow, held}
use alice_brain_hermes.Bridge.Drops.{Takes}

-- Whether a number is at least `low` and below `high`, as a count.
abbrev pub between : ℕ → ℕ → ℕ → ℕ
between n low high = if leb low n && ltb n high then 1 else 0

-- What `close_sealed` and `close_final_capture_seq` say: the number after the last one that the stream may hold.
abbrev pub edge_from : Bool → Option ℕ → ℕ → ℕ
edge_from false final next = next
edge_from true none next = next
edge_from true (some final) next = final + 1

abbrev pub edge : HookBridge → ℕ
edge b = edge_from b.close_sealed b.close_final_capture_seq b.next_capture_seq

-- The numbers up to a later edge are held once more than before, the others as often as before.
pub record Extends (b b' : HookBridge) : Type 0 where
  pub later : edge b ≤ edge b'
  pub holds : (n : ℕ) → held b' n ≡ held b n + between n (edge b) (edge b')

pub below-weaken : (r : Option _) {low high : ℕ} → EndsBelow low r → low ≤ high → EndsBelow high r
below-weaken none h e = omega arith
below-weaken (some r) (h, forward, below) e = (h, forward, omega arith)

-- The state after a capture that took the numbers up to `last`.
pub taken-IsHookBridge :
    (b b' : HookBridge) (last : ℕ)
    → IsHookBridge b
    → Takes b b' last
    → b.next_capture_seq ≤ last
    → last ≤ max_capture_sequence
    → IsHookBridge (record b' { next_capture_seq = last + 1 })
taken-IsHookBridge b b' last v t forward bound = record {
  observed = t.observed;
  dropped = t.dropped;
  retained_below = rw t.same_retained (below-weaken b.retained v.retained_below (omega arith));
  within_capacity = t.within_capacity;
  sized = rw t.same_capacity v.sized;
  within_sequence = omega arith;
  counted = t.counted;
  finished = rw (t.same_sealed, t.same_final) v.finished;
  honest = t.honest;
}

-- What the invariant reads of a state is in other fields than those that a capture sets last.
pub record Same (b b' : HookBridge) : Type 0 where
  pub same_queue : b'.queue ≡ b.queue
  pub same_head : b'.queue_head ≡ b.queue_head
  pub same_spans : b'.gap_spans ≡ b.gap_spans
  pub same_retained : b'.retained ≡ b.retained
  pub same_sealed : b'.close_sealed ≡ b.close_sealed
  pub same_final : b'.close_final_capture_seq ≡ b.close_final_capture_seq
  pub same_next : b'.next_capture_seq ≡ b.next_capture_seq
  pub same_capacity : b'.queue_capacity ≡ b.queue_capacity
  pub same_pending : b'.health.pending_gap_ranges ≡ b.health.pending_gap_ranges
  pub same_dropped : b'.health.dropped_events ≡ b.health.dropped_events
  pub not_mended : b'.health.trace_complete ≡ true → b.health.trace_complete ≡ true

pub Same-IsHookBridge : (b b' : HookBridge) → Same b b' → IsHookBridge b → IsHookBridge b'
Same-IsHookBridge b b' s v = record {
  observed = rw (s.same_queue, s.same_head, s.same_next) v.observed;
  dropped = rw (s.same_spans, s.same_next) v.dropped;
  retained_below = rw (s.same_retained, s.same_next) v.retained_below;
  within_capacity = rw (s.same_queue, s.same_capacity) v.within_capacity;
  sized = rw s.same_capacity v.sized;
  within_sequence = rw s.same_next v.within_sequence;
  counted = rw (s.same_pending, s.same_spans, s.same_retained) v.counted;
  finished = rw (s.same_sealed, s.same_final) v.finished;
  honest = λ h. rw s.same_dropped (v.honest (s.not_mended h));
}

pub Same-held : (b b' : HookBridge) → Same b b' → (n : ℕ) → held b' n ≡ held b n
Same-held b b' s n = rw (s.same_queue, s.same_head, s.same_spans, s.same_retained) refl

pub Same-edge : (b b' : HookBridge) → Same b b' → edge b' ≡ edge b
Same-edge b b' s = rw (s.same_sealed, s.same_final, s.same_next) refl

pub Same-Extends : (b b' : HookBridge) → Same b b' → Extends b b'
Same-Extends b b' s =
    let e = Same-edge b b' s in
    record { later = omega arith; holds = λ n. ground (arith, Same-held b b' s n) }

-- A record of the fields that a caller sets after the capture.
pub set-Same : (b : HookBridge) (ever : Bool) → Same b (record b { ever_had_capture = ever })
set-Same b ever = record {
  same_queue = refl;
  same_head = refl;
  same_spans = refl;
  same_retained = refl;
  same_sealed = refl;
  same_final = refl;
  same_next = refl;
  same_capacity = refl;
  same_pending = refl;
  same_dropped = refl;
  not_mended = λ h. h;
}
