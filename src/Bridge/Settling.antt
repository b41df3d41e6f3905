-- ===== src/Bridge/Settling.antt =====
-- What a stream holds when a record is settled, and when another stream starts.
use mathlib.Core.Path.{subst}
use alice_brain_hermes.Prelude.{ℕ, ◌+◌, ◌≤◌, String, ◌≡◌, refl, some, arith, length}
use alice_brain_hermes.Bridge.{BridgeRecord, HookBridge}
use alice_brain_hermes.Bridge.Close.{first_of, last_of, rotate_abandoned_stream}
use alice_brain_hermes.Bridge.Commit.{settled}
use alice_brain_hermes.Bridge.Held.{
  EndsBelow, held_by_record, held_by_queue, held_by_spans, waiting, claimed, within,
}
use alice_brain_hermes.Bridge.Edges.{between, edge}
use alice_brain_hermes.Bridge.Stream.{IsStream, StartsAt}

-- The record that was sent is no longer held, and what is left starts after it.
pub settled-IsStream :
    (fingerprint : BridgeRecord → String) (c : ℕ) (b : HookBridge) (r : BridgeRecord)
    → IsStream c b
    → b.retained ≡ some r
    → IsStream (last_of r + 1) (settled fingerprint b r)
settled-IsStream fingerprint c b r i e =
    let v = i.consistent in
    let first : first_of r ≡ c = subst (StartsAt c) e i.in_turn in
    let (low, forward, high) = subst (EndsBelow b.next_capture_seq) e v.retained_below in
    let rest : ℕ → ℕ =
      λ n. held_by_queue n (waiting b.queue_head b.queue) + held_by_spans n b.gap_spans in
    let holds : (n : ℕ) → within n (first_of r) (last_of r) + rest n ≡ between n c (edge b) = λ n.
      subst (λ o. held_by_record n o + rest n ≡ between n c (edge b)) e
        (omega (arith, i.holds n)) in
    let here = holds (last_of r) in
    let counted =
      subst (λ o. b.health.pending_gap_ranges ≡ length b.gap_spans + claimed o) e v.counted in
    record {
      consistent = record {
        observed = v.observed;
        dropped = v.dropped;
        retained_below = omega arith;
        within_capacity = v.within_capacity;
        sized = v.sized;
        within_sequence = v.within_sequence;
        counted = ground arith;
        finished = v.finished;
        honest = v.honest;
      };
      started = omega arith;
      reaches = ground arith;
      holds = λ n. let before = holds n in ground arith;
      in_turn = refl;
    }

-- Another stream begins with nothing.
pub rotate-IsStream :
    (b : HookBridge) (id : String)
    → 1 ≤ b.queue_capacity
    → IsStream 1 (rotate_abandoned_stream b id)
unfolding rotate_abandoned_stream
rotate-IsStream b id room = record {
  consistent = record {
    observed = omega arith;
    dropped = omega arith;
    retained_below = omega arith;
    within_capacity = omega arith;
    sized = room;
    within_sequence = omega arith;
    counted = omega arith;
    finished = refl;
    honest = λ h. cc;
  };
  started = omega arith;
  reaches = omega arith;
  holds = λ n. ground arith;
  in_turn = refl;
}
