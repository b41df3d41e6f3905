-- ===== src/Bridge/Invariant.antt =====
-- Captures and reservations keep the state of the bridge consistent, and hold each number that they take once.
use alice_brain_hermes.Prelude.{
  ℕ, ◌+◌, ◌≤◌, String, ◌≡◌, refl, Bool, true, false, ◌&&◌, not, is_some, Option, none, some, ltb,
  leb, arith, if◌then◌else◌,
}
use alice_brain_hermes.Json.{Fields}
use alice_brain_hermes.Bridge.{HookBridge, max_capture_sequence}
use alice_brain_hermes.Bridge.Capture.{
  Shape, Fault, late_health, captured, capture_numbered, capture_atomic,
}
use alice_brain_hermes.Bridge.Held.{IsHookBridge, waiting}
use alice_brain_hermes.Bridge.Growth.{IsQueue-weaken, IsSpans-weaken}
use alice_brain_hermes.Bridge.Drops.{Takes}
use alice_brain_hermes.Bridge.Taken.{capture_numbered-Takes}
use alice_brain_hermes.Bridge.Edges.{
  edge_from, edge, Extends, below-weaken, taken-IsHookBridge, Same, Same-IsHookBridge, Same-held,
  Same-edge, set-Same,
}

-- A field of the health that the invariant does not read, a count of drops, or a trace that is no longer complete.
pub late-IsHookBridge :
    (b : HookBridge) (count next : ℕ)
    → IsHookBridge b
    → b.next_capture_seq ≤ next
    → next ≤ max_capture_sequence + 1
    → IsHookBridge (record b { health = late_health b.health count; next_capture_seq = next })
late-IsHookBridge b count next v later bound = record {
  observed = IsQueue-weaken 1 (waiting b.queue_head b.queue) v.observed later;
  dropped = IsSpans-weaken 1 b.gap_spans v.dropped later;
  retained_below = below-weaken b.retained v.retained_below later;
  within_capacity = v.within_capacity;
  sized = v.sized;
  within_sequence = bound;
  counted = v.counted;
  finished = v.finished;
  honest = λ h. cc;
}

captured-IsHookBridge :
    (b b' : HookBridge) (sealed exhausted : Bool)
    → IsHookBridge b
    → Takes b b' b.next_capture_seq
    → ltb max_capture_sequence b.next_capture_seq ≡ exhausted
    → IsHookBridge (captured b b' sealed exhausted).0
captured-IsHookBridge b b' true exhausted v t e =
    late-IsHookBridge b 1 b.next_capture_seq v (omega arith) v.within_sequence
captured-IsHookBridge b b' false true v t e = record {
  observed = v.observed;
  dropped = v.dropped;
  retained_below = v.retained_below;
  within_capacity = v.within_capacity;
  sized = v.sized;
  within_sequence = v.within_sequence;
  counted = v.counted;
  finished = v.finished;
  honest = λ h. cc;
}
captured-IsHookBridge b b' false false v t e =
    let seq = b.next_capture_seq in
    Same-IsHookBridge (record b' { next_capture_seq = seq + 1 }) _ (set-Same _ true)
      (taken-IsHookBridge b b' seq v t (omega arith) (ground arith))

pub capture_atomic-IsHookBridge :
    (shape : Shape) (b : HookBridge) (fault : Fault) (hook : String) (kwargs : Fields)
    → IsHookBridge b
    → IsHookBridge (capture_atomic shape b fault hook kwargs).0
unfolding capture_atomic
capture_atomic-IsHookBridge shape b fault hook kwargs v =
    captured-IsHookBridge b (capture_numbered shape b fault hook kwargs) b.close_sealed _ v
      (capture_numbered-Takes shape b fault hook kwargs v) refl

-- An open stream takes the numbers up to `last`.
pub taken-Extends :
    (b b' : HookBridge) (last : ℕ)
    → Takes b b' last
    → b.close_sealed ≡ false
    → b.next_capture_seq ≤ last
    → Extends b (record b' { next_capture_seq = last + 1 })
taken-Extends b b' last t open_ forward =
    let now : edge b ≡ b.next_capture_seq = rw open_ refl in
    let after : edge (record b' { next_capture_seq = last + 1 }) ≡ last + 1 =
      rw (t.same_sealed, open_) refl in
    record { later = omega arith; holds = λ n. rw (now, after) (ground (arith, t.holds n)) }

pub Extends-Same : (b b' c : HookBridge) → Extends b b' → Same b' c → Extends b c
Extends-Same b b' c e s =
    let same = Same-edge b' c s in
    let later = e.later in
    record { later = omega arith; holds = λ n. rw (same, Same-held b' c s n) (e.holds n) }

edge_from_sealed :
    (final : Option ℕ) (m n : ℕ)
    → is_some final ≡ true
    → edge_from true final m ≡ edge_from true final n
edge_from_sealed none m n h = cc
edge_from_sealed (some final) m n h = refl

-- A sealed stream takes no number any more.
pub late-Extends :
    (b : HookBridge) (count next : ℕ)
    → IsHookBridge b
    → b.close_sealed ≡ true
    → Extends b (record b { health = late_health b.health count; next_capture_seq = next })
late-Extends b count next v sealed =
    let known : is_some b.close_final_capture_seq ≡ true = cc in
    let same : edge (record b { next_capture_seq = next }) ≡ edge b =
      rw sealed (edge_from_sealed b.close_final_capture_seq next b.next_capture_seq known) in
    record { later = omega arith; holds = λ n. ground (arith, same) }

captured-Extends :
    (b b' : HookBridge) (sealed exhausted : Bool)
    → IsHookBridge b
    → Takes b b' b.next_capture_seq
    → b.close_sealed ≡ sealed
    → Extends b (captured b b' sealed exhausted).0
captured-Extends b b' true exhausted v t e = late-Extends b 1 b.next_capture_seq v e
captured-Extends b b' false true v t e = record { later = omega arith; holds = λ n. ground arith }
captured-Extends b b' false false v t e =
    Extends-Same b _ _ (taken-Extends b b' b.next_capture_seq t e (omega arith)) (set-Same _ true)

-- What a callback does: it is captured exactly if the stream is open and the next number within its bound; then that
-- number is taken and held once more, and else none is.
pub record Captures (b b' : HookBridge) (produced : Bool) : Type 0 where
  pub when : produced ≡ (not b.close_sealed && leb b.next_capture_seq max_capture_sequence)
  pub next : b'.next_capture_seq ≡ b.next_capture_seq + (if produced then 1 else 0)
  pub extends : Extends b b'

captured-Captures :
    (b b' : HookBridge) (sealed exhausted : Bool)
    → IsHookBridge b
    → Takes b b' b.next_capture_seq
    → b.close_sealed ≡ sealed
    → ltb max_capture_sequence b.next_capture_seq ≡ exhausted
    → Captures b (captured b b' sealed exhausted).0 (captured b b' sealed exhausted).1
captured-Captures b b' true exhausted v t e f = record {
  when = rw e refl;
  next = omega arith;
  extends = captured-Extends b b' true exhausted v t e;
}
captured-Captures b b' false true v t e f = record {
  when = rw e (ground arith);
  next = omega arith;
  extends = captured-Extends b b' false true v t e;
}
captured-Captures b b' false false v t e f = record {
  when = rw e (ground arith);
  next = refl;
  extends = captured-Extends b b' false false v t e;
}

captured_retained :
    (b b' : HookBridge) (sealed exhausted : Bool)
    → Takes b b' b.next_capture_seq
    → (captured b b' sealed exhausted).0.retained ≡ b.retained
captured_retained b b' true exhausted t = refl
captured_retained b b' false true t = refl
captured_retained b b' false false t = t.same_retained

pub capture_atomic_retained :
    (shape : Shape) (b : HookBridge) (fault : Fault) (hook : String) (kwargs : Fields)
    → IsHookBridge b
    → (capture_atomic shape b fault hook kwargs).0.retained ≡ b.retained
unfolding capture_atomic
capture_atomic_retained shape b fault hook kwargs v =
    captured_retained b (capture_numbered shape b fault hook kwargs) b.close_sealed _
      (capture_numbered-Takes shape b fault hook kwargs v)

-- From a consistent state a callback is captured exactly if the stream is open and the next number within its bound.
-- Then that number is taken, and it is held exactly once more, in the queue or in a gap; else no number is. No other
-- number is held more or less often.
pub capture_atomic-Captures :
    (shape : Shape) (b : HookBridge) (fault : Fault) (hook : String) (kwargs : Fields)
    → IsHookBridge b
    → Captures b
        (capture_atomic shape b fault hook kwargs).0
        (capture_atomic shape b fault hook kwargs).1
unfolding capture_atomic
capture_atomic-Captures shape b fault hook kwargs v =
    captured-Captures b (capture_numbered shape b fault hook kwargs) b.close_sealed _ v
      (capture_numbered-Takes shape b fault hook kwargs v) refl refl
