-- ===== src/Bridge/Blocked.antt =====
-- When the worker cannot select: the only failure of _select_next_record is a gap that has too many causes to be a
-- record.
use alice_brain_hermes.Prelude.{
  ◌+◌, ◌≡◌, refl, Bool, true, false, not, ◌&&◌, inl, inr, Option, none, some, List, [], ◌∷◌, arith,
  leb, ltb, length, is_none, Bool-cases, Result, ok, err,
}
use mathlib.Core.Path.{subst}
use alice_brain_hermes.Bridge.{GapSpan, BridgeRecord, HookBridge}
use alice_brain_hermes.Bridge.Gaps.{gap_from_span}
use alice_brain_hermes.Bridge.Worker.{
  poll_queue, claim_first_gap, gap_is_first, choose_if, choose_record, select_next_record,
}
use alice_brain_hermes.Bridge.Held.{IsHookBridge, IsSpans}
use alice_brain_hermes.Bridge.Bounds.{gap_ok-eq, IsSpans-bounds}
use alice_brain_hermes.Bridge.Keeping.{poll_queue-Keeps}

abbrev pub is_ok {ℓ} : {A : Type ℓ} → Result A → Bool
is_ok (ok a) = true
is_ok (err e) = false

abbrev pub too_many : List GapSpan → Bool
too_many [] = false
too_many (s ∷ rest) = ltb 16 (length s.cause_counts)

-- Nothing is retained, and the record that is next is a gap with more than sixteen causes.
abbrev pub is_blocked : HookBridge → Bool
is_blocked b = is_none b.retained && (gap_is_first b.gap_spans b.queue_head && too_many b.gap_spans)

claim_first_gap_ok :
    (b : HookBridge) (spans : List GapSpan)
    → IsHookBridge b
    → b.gap_spans ≡ spans
    → is_ok (claim_first_gap b spans) ≡ not (too_many spans)
unfolding claim_first_gap gap_from_span
claim_first_gap_ok b [] v e = refl
claim_first_gap_ok b (s ∷ rest) v e =
    let (low, is, later) = subst (λ spans. IsSpans 1 spans b.next_capture_seq) e v.dropped in
    let below = IsSpans-bounds (s.last_capture_seq + 1) rest b.next_capture_seq later in
    let bound = v.within_sequence in
    let known = gap_ok-eq b s is low (omega arith) in
    elim (Bool-cases (leb (length s.cause_counts) 16)) [
      | inl few ↦ rw (known, few) (ground arith)
      | inr many ↦ rw (known, many) (ground arith)
    ]

choose_if_ok :
    (b : HookBridge) (r : Option BridgeRecord)
    → IsHookBridge b
    → is_ok (choose_if b r)
      ≡ not (is_none r && (gap_is_first b.gap_spans b.queue_head && too_many b.gap_spans))
choose_if_ok b (some r) v = refl
choose_if_ok b none v = elim (Bool-cases (gap_is_first b.gap_spans b.queue_head)) [
  | inl first ↦ rw first (claim_first_gap_ok b b.gap_spans v refl)
  | inr later ↦ rw later refl
]

-- From a consistent state the worker selects without an error if and only if it is not blocked by a gap with more
-- than sixteen causes.
pub select_next_record_ok :
    (b : HookBridge)
    → IsHookBridge b
    → is_ok (select_next_record b) ≡ not (is_blocked (poll_queue b))
unfolding select_next_record choose_record
select_next_record_ok b v =
    choose_if_ok (poll_queue b) (poll_queue b).retained (poll_queue-Keeps b v).consistent
