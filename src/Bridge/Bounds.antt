-- ===== src/Bridge/Bounds.antt =====
-- What the invariant says of the numbers of queues and gaps, and when a gap is valid.
use alice_brain_hermes.Prelude.{
  ℕ, ◌+◌, ◌≤◌, ◌≡◌, refl, true, List, [], ◌∷◌, arith, leb, length, all,
}
use alice_brain_hermes.Bridge.{Causes, GapSpan, Observation, HookBridge, max_capture_sequence}
use alice_brain_hermes.Bridge.Gaps.{total, is_cause_count, causes_ok, gap_ok, gap_of_span}
use alice_brain_hermes.Bridge.Held.{IsQueue, IsSpan, IsSpans, is_cause}

pub counts_bounded :
    (causes : Causes)
    → all is_cause causes ≡ true
    → total causes ≤ max_capture_sequence
    → all is_cause_count causes ≡ true
counts_bounded [] h e = refl
counts_bounded ((c, n) ∷ rest) h e = ground (arith, counts_bounded rest)

pub counts_some : (causes : Causes) → 1 ≤ total causes → 1 ≤ length causes
counts_some [] h = absurd (omega arith)
counts_some ((c, n) ∷ rest) h = omega arith

-- A gap of a consistent state is a valid record if and only if it has at most sixteen causes.
pub gap_ok-eq :
    (b : HookBridge) (s : GapSpan)
    → IsSpan s
    → 1 ≤ s.first_capture_seq
    → s.last_capture_seq ≤ max_capture_sequence
    → gap_ok (gap_of_span b s) ≡ leb (length s.cause_counts) 16
unfolding gap_ok causes_ok
gap_ok-eq b s is low high =
    let bounded = counts_bounded s.cause_counts is.caused (omega (arith, is.counted, low, high)) in
    let forward = is.forward in
    let counted = is.counted in
    let some_cause = counts_some s.cause_counts (omega arith) in rw bounded (ground arith)

pub IsQueue-bounds : (low : ℕ) (q : List Observation) (high : ℕ) → IsQueue low q high → low ≤ high
IsQueue-bounds low [] high h = h
IsQueue-bounds low (o ∷ rest) high (h, later) =
    omega (arith, IsQueue-bounds (o.capture_seq + 1) rest high later)

pub IsSpans-bounds :
    (low : ℕ) (spans : List GapSpan) (high : ℕ) → IsSpans low spans high → low ≤ high
IsSpans-bounds low [] high h = h
IsSpans-bounds low (s ∷ rest) high (h, is, later) =
    let forward = is.forward in
    omega (arith, IsSpans-bounds (s.last_capture_seq + 1) rest high later)

pub IsQueue-lower :
    (low lower : ℕ) (q : List Observation) (high : ℕ)
    → IsQueue low q high
    → lower ≤ low
    → IsQueue lower q high
IsQueue-lower low lower [] high h e = omega arith
IsQueue-lower low lower (o ∷ rest) high (h, later) e = (omega arith, later)

pub IsSpans-lower :
    (low lower : ℕ) (spans : List GapSpan) (high : ℕ)
    → IsSpans low spans high
    → lower ≤ low
    → IsSpans lower spans high
IsSpans-lower low lower [] high h e = omega arith
IsSpans-lower low lower (s ∷ rest) high (h, is, later) e = (omega arith, is, later)
