-- ===== src/Bridge/Keeping.antt =====
-- The steps of the worker keep what is held.
use mathlib.Core.Path.{subst}
use alice_brain_hermes.Prelude.{
  ℕ, ◌+◌, ◌≡◌, refl, ◌∙◌, Option, none, some, List, [], ◌∷◌, arith, length,
}
use alice_brain_hermes.Bridge.{GapSpan, Observation, BridgeRecord, HookBridge}
use alice_brain_hermes.Bridge.Gaps.{gap_of_span}
use alice_brain_hermes.Bridge.Worker.{take_head, poll_if, poll_queue, retain_gap, retain_head}
use alice_brain_hermes.Bridge.Held.{IsHookBridge, claimed, IsQueue, IsSpans, held, waiting}
use alice_brain_hermes.Bridge.Bounds.{IsQueue-bounds, IsSpans-bounds, IsQueue-lower, IsSpans-lower}

-- A step of the worker moves what is held, and holds the same numbers.
pub record Keeps (b b' : HookBridge) : Type 0 where
  pub consistent : IsHookBridge b'
  pub same_held : (n : ℕ) → held b' n ≡ held b n
  pub same_next : b'.next_capture_seq ≡ b.next_capture_seq
  pub same_sealed : b'.close_sealed ≡ b.close_sealed
  pub same_final : b'.close_final_capture_seq ≡ b.close_final_capture_seq

pub Keeps-refl : (b : HookBridge) → IsHookBridge b → Keeps b b
Keeps-refl b v = record {
  consistent = v;
  same_held = λ n. refl;
  same_next = refl;
  same_sealed = refl;
  same_final = refl;
}

pub Keeps-trans : (a b c : HookBridge) → Keeps a b → Keeps b c → Keeps a c
Keeps-trans a b c k l = record {
  consistent = l.consistent;
  same_held = λ n. l.same_held n ∙ k.same_held n;
  same_next = l.same_next ∙ k.same_next;
  same_sealed = l.same_sealed ∙ k.same_sealed;
  same_final = l.same_final ∙ k.same_final;
}

pub take_head-Keeps :
    (b : HookBridge) (q : List Observation)
    → IsHookBridge b
    → b.queue_head ≡ none
    → b.queue ≡ q
    → Keeps b (take_head b q)
take_head-Keeps b [] v e f = Keeps-refl b v
take_head-Keeps b (o ∷ rest) v e f =
    let same : waiting b.queue_head b.queue ≡ o ∷ rest = rw (e, f) refl in
    let room = v.within_capacity in
    let shorter : length rest + 1 ≡ length b.queue = rw f (omega arith) in
    record {
      consistent = record {
        observed = subst (λ q. IsQueue 1 q b.next_capture_seq) same v.observed;
        dropped = v.dropped;
        retained_below = v.retained_below;
        within_capacity = omega arith;
        sized = v.sized;
        within_sequence = v.within_sequence;
        counted = v.counted;
        finished = v.finished;
        honest = v.honest;
      };
      same_held = λ n. rw same refl;
      same_next = refl;
      same_sealed = refl;
      same_final = refl;
    }

pub poll_if-Keeps :
    (b : HookBridge) (r : Option BridgeRecord) (head : Option Observation)
    → IsHookBridge b
    → b.queue_head ≡ head
    → Keeps b (poll_if b r head)
poll_if-Keeps b (some r) head v e = Keeps-refl b v
poll_if-Keeps b none (some o) v e = Keeps-refl b v
poll_if-Keeps b none none v e = take_head-Keeps b b.queue v e refl

pub poll_queue-Keeps : (b : HookBridge) → IsHookBridge b → Keeps b (poll_queue b)
unfolding poll_queue
poll_queue-Keeps b v = poll_if-Keeps b b.retained b.queue_head v refl

pub take_head_empty :
    (b : HookBridge) (q : List Observation)
    → b.queue ≡ q
    → (take_head b q).queue_head ≡ none
    → (take_head b q).queue ≡ []
take_head_empty b [] e h = e
take_head_empty b (o ∷ rest) e h = cc

pub poll_if_empty :
    (b : HookBridge) (r : Option BridgeRecord) (head : Option Observation)
    → r ≡ none
    → b.queue_head ≡ head
    → (poll_if b r head).queue_head ≡ none
    → (poll_if b r head).queue ≡ []
poll_if_empty b (some r) head e f h = cc
poll_if_empty b none (some o) e f h = cc
poll_if_empty b none none e f h = take_head_empty b b.queue refl h

-- After the poll nothing waits in the queue without a head, unless a record is retained.
pub poll_queue_head :
    (b : HookBridge)
    → b.retained ≡ none
    → (poll_queue b).queue_head ≡ none
    → (poll_queue b).queue ≡ []
unfolding poll_queue
poll_queue_head b e h = poll_if_empty b b.retained b.queue_head e refl h

pub take_head_retained :
    (b : HookBridge) (q : List Observation) → (take_head b q).retained ≡ b.retained
take_head_retained b [] = refl
take_head_retained b (o ∷ rest) = refl

pub poll_if_retained :
    (b : HookBridge) (r : Option BridgeRecord) (head : Option Observation)
    → (poll_if b r head).retained ≡ b.retained
poll_if_retained b (some r) head = refl
poll_if_retained b none (some o) = refl
poll_if_retained b none none = take_head_retained b b.queue

pub poll_queue_retained : (b : HookBridge) → (poll_queue b).retained ≡ b.retained
unfolding poll_queue
poll_queue_retained b = poll_if_retained b b.retained b.queue_head

pub claim-Keeps :
    (b : HookBridge) (s : GapSpan) (rest : List GapSpan)
    → IsHookBridge b
    → b.retained ≡ none
    → b.gap_spans ≡ s ∷ rest
    → Keeps b (retain_gap b rest (gap_of_span b s))
claim-Keeps b s rest v e f =
    let (low, is, later) = subst (λ spans. IsSpans 1 spans b.next_capture_seq) f v.dropped in
    let forward = is.forward in
    let below = IsSpans-bounds (s.last_capture_seq + 1) rest b.next_capture_seq later in
    let unclaimed : claimed b.retained ≡ 0 = rw e refl in
    let shorter : length b.gap_spans ≡ length rest + 1 = rw f (omega arith) in
    record {
      consistent = record {
        observed = v.observed;
        dropped =
            IsSpans-lower (s.last_capture_seq + 1) 1 rest b.next_capture_seq later (omega arith);
        retained_below = (low, forward, omega arith);
        within_capacity = v.within_capacity;
        sized = v.sized;
        within_sequence = v.within_sequence;
        counted = omega (arith, v.counted, unclaimed);
        finished = v.finished;
        honest = v.honest;
      };
      same_held = λ n. rw (e, f) (omega arith);
      same_next = refl;
      same_sealed = refl;
      same_final = refl;
    }

pub retain_head-Keeps :
    (b : HookBridge) (o : Observation)
    → IsHookBridge b
    → b.retained ≡ none
    → b.queue_head ≡ some o
    → Keeps b (retain_head b (some o))
retain_head-Keeps b o v e f =
    let (low, later) =
      subst (λ head. IsQueue 1 (waiting head b.queue) b.next_capture_seq) f v.observed in
    let unclaimed : claimed b.retained ≡ 0 = rw e refl in
    let below = IsQueue-bounds (o.capture_seq + 1) b.queue b.next_capture_seq later in
    record {
      consistent = record {
        observed =
            IsQueue-lower (o.capture_seq + 1) 1 b.queue b.next_capture_seq later (omega arith);
        dropped = v.dropped;
        retained_below = (low, omega arith, omega arith);
        within_capacity = v.within_capacity;
        sized = v.sized;
        within_sequence = v.within_sequence;
        counted = omega (arith, v.counted, unclaimed);
        finished = v.finished;
        honest = v.honest;
      };
      same_held = λ n. rw (e, f) (omega arith);
      same_next = refl;
      same_sealed = refl;
      same_final = refl;
    }
