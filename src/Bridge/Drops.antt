-- ===== src/Bridge/Drops.antt =====
-- Numbers that go to a gap.
use alice_brain_hermes.Prelude.{
  ℕ, ◌+◌, ◌≤◌, ◌≡◌, refl, sym, true, false, inl, inr, none, some, ◌==◌, length, all, arith,
  Bool-cases, Option-cases, if◌then◌else◌,
}
use alice_brain_hermes.Bridge.{Causes, GapSpan, HookBridge}
use alice_brain_hermes.Bridge.Gaps.{total, last_span, is_gap, joins, joined, drop_captures}
use alice_brain_hermes.Bridge.Held.{
  IsHookBridge, IsQueue, IsSpan, IsSpans, is_cause, held, waiting, within,
}
use alice_brain_hermes.Bridge.Growth.{
  IsQueue-weaken, IsSpans-append, IsSpans-last, IsSpans-set_last, total-merge_causes,
  all-merge_causes, held-append_span, held-set_last, length-append_span, length-set_last,
}

-- The numbers from the next one to `last` are taken; the cursor itself is moved by the caller.
pub record Takes (b b' : HookBridge) (last : ℕ) : Type 0 where
  pub observed : IsQueue 1 (waiting b'.queue_head b'.queue) (last + 1)
  pub dropped : IsSpans 1 b'.gap_spans (last + 1)
  pub same_retained : b'.retained ≡ b.retained
  pub same_capacity : b'.queue_capacity ≡ b.queue_capacity
  pub same_sealed : b'.close_sealed ≡ b.close_sealed
  pub same_final : b'.close_final_capture_seq ≡ b.close_final_capture_seq
  pub within_capacity : length b'.queue ≤ b'.queue_capacity
  pub counted :
      b'.health.pending_gap_ranges ≡ length b'.gap_spans + (if is_gap b'.retained then 1 else 0)
  pub honest : b'.health.trace_complete ≡ true → b'.health.dropped_events ≡ 0
  pub holds : (n : ℕ) → held b' n ≡ held b n + within n b.next_capture_seq last

-- An interval of numbers with its causes, which starts at the next number.
pub record IsInterval (b : HookBridge) (first last : ℕ) (causes : Causes) : Type 0 where
  pub next : first ≡ b.next_capture_seq
  pub forward : first ≤ last
  pub counts : total causes + first ≡ last + 1
  pub caused : all is_cause causes ≡ true

-- The last gap grows when the new one follows it.
pub drop_captures_joined :
    (b : HookBridge) (first last : ℕ) (causes : Causes) (p : GapSpan)
    → IsHookBridge b
    → IsInterval b first last causes
    → last_span b.gap_spans ≡ some p
    → p.last_capture_seq + 1 ≡ first
    → Takes b (drop_captures b first last causes) last
unfolding drop_captures
drop_captures_joined b first last causes p v i e follows =
    let start = i.next in
    let forward = i.forward in
    let counts = i.counts in
    let (low, ip, high) = IsSpans-last 1 b.gap_spans v.dropped e in
    let ahead = ip.forward in
    let s : GapSpan = joined (some p) first last causes in
    let is : IsSpan s = record {
      forward = omega arith;
      counted = omega (arith, total-merge_causes p.cause_counts causes, ip.counted);
      caused = all-merge_causes p.cause_counts causes ip.caused i.caused;
    } in
    let j : joins (some p) first ≡ true = ground arith in
    rw (e, j)
      (record {
        observed = IsQueue-weaken 1 (waiting b.queue_head b.queue) v.observed (omega arith);
        dropped =
            IsSpans-set_last 1 b.gap_spans s p b.next_capture_seq v.dropped e refl is (omega arith);
        same_retained = refl;
        same_capacity = refl;
        same_sealed = refl;
        same_final = refl;
        within_capacity = v.within_capacity;
        counted = omega (arith, length-set_last b.gap_spans s, v.counted);
        honest = λ h. cc;
        holds = λ n. ground (arith, held-set_last n b.gap_spans s p e);
      })

-- Else a new one is appended.
pub drop_captures_appended :
    (b : HookBridge) (first last : ℕ) (causes : Causes)
    → IsHookBridge b
    → IsInterval b first last causes
    → joins (last_span b.gap_spans) first ≡ false
    → Takes b (drop_captures b first last causes) last
unfolding drop_captures
drop_captures_appended b first last causes v i j =
    let start = i.next in
    let forward = i.forward in
    let below : IsSpans 1 b.gap_spans first = rw start v.dropped in
    let s : GapSpan = joined none first last causes in
    let is : IsSpan s = record { forward = forward; counted = i.counts; caused = i.caused } in
    rw j (record {
      observed = IsQueue-weaken 1 (waiting b.queue_head b.queue) v.observed (omega arith);
      dropped = IsSpans-append 1 b.gap_spans s below is (omega arith);
      same_retained = refl;
      same_capacity = refl;
      same_sealed = refl;
      same_final = refl;
      within_capacity = v.within_capacity;
      counted = omega (arith, length-append_span b.gap_spans s, v.counted);
      honest = λ h. cc;
      holds = λ n. rw (sym start) (omega (arith, held-append_span n b.gap_spans s));
    })

pub drop_captures-Takes :
    (b : HookBridge) (first last : ℕ) (causes : Causes)
    → IsHookBridge b
    → IsInterval b first last causes
    → Takes b (drop_captures b first last causes) last
drop_captures-Takes b first last causes v i = elim (Option-cases (last_span b.gap_spans)) [
  | inl e ↦ drop_captures_appended b first last causes v i (rw e refl)
  | inr (p, e) ↦ elim (Bool-cases (p.last_capture_seq + 1 == first)) [
    | inl j ↦ drop_captures_joined b first last causes p v i e (ground arith)
    | inr j ↦ drop_captures_appended b first last causes v i (rw e j)
  ]
]
