-- ===== src/Bridge/Taken.antt =====
-- What a capture does with the numbers that it takes: they go to the queue or to a gap, and nowhere else.
use alice_brain_hermes.Prelude.{
  ℕ, ◌+◌, ◌-◌, ◌≤◌, ◌<◌, String, ◌≡◌, refl, sym, ap, true, inl, inr, Option, none, some, List, [],
  ◌∷◌, ltb, length, is_some, arith, Bool-cases,
}
use alice_brain_hermes.Json.{Fields, get}
use alice_brain_hermes.Bridge.{Causes, Observation, HookBridge}
use alice_brain_hermes.Bridge.Gaps.{is_gap_cause, drop_captures}
use alice_brain_hermes.Bridge.Capture.{
  Shape, Fault, no_stats, is_source_schema, put_with_room, capture_numbered, no_fault,
  raised_before, raised_after, append_observation, enqueue, publish_observation_or_gap,
  publish_shaped,
}
use alice_brain_hermes.Bridge.Held.{IsHookBridge, IsQueue, waiting}
use alice_brain_hermes.Bridge.Growth.{
  IsQueue-append, IsSpans-weaken, held-append_observation, length-append_observation,
}
use alice_brain_hermes.Bridge.Drops.{Takes, IsInterval, drop_captures-Takes}

waiting-append :
    (head : Option Observation) (queue : List Observation) (o : Observation)
    → waiting head (append_observation queue o) ≡ append_observation (waiting head queue) o
waiting-append none queue o = refl
waiting-append (some h) queue o = refl

-- An observation that is put waits after all others.
enqueue-Takes :
    (b : HookBridge) (o : Observation)
    → IsHookBridge b
    → o.capture_seq ≡ b.next_capture_seq
    → length b.queue < b.queue_capacity
    → Takes b (enqueue b o o.capture_seq) o.capture_seq
enqueue-Takes b o v e room =
    let append = waiting-append b.queue_head b.queue o in
    let below : IsQueue 1 (waiting b.queue_head b.queue) o.capture_seq = rw e v.observed in
    record {
      observed = rw append (IsQueue-append 1 (waiting b.queue_head b.queue) o below);
      dropped = IsSpans-weaken 1 b.gap_spans v.dropped (omega arith);
      same_retained = refl;
      same_capacity = refl;
      same_sealed = refl;
      same_final = refl;
      within_capacity = omega (arith, length-append_observation b.queue o);
      counted = v.counted;
      honest = v.honest;
      holds = λ n.
          rw (append, sym e)
            (omega (arith, held-append_observation n (waiting b.queue_head b.queue) o));
    }

single-IsInterval :
    (b : HookBridge) (cause : String) (first last : ℕ)
    → is_gap_cause cause ≡ true
    → first ≡ b.next_capture_seq
    → first ≤ last
    → IsInterval b first last ((cause, last + 1 - first) ∷ [])
single-IsInterval b cause first last known e forward = record {
  next = e;
  forward = forward;
  counts = omega arith;
  caused = ground (arith, known);
}

abbrev single : String → ℕ → Causes
single cause count = (cause, count) ∷ []

one_cause : (cause : String) (n : ℕ) → single cause 1 ≡ single cause (n + 1 - n)
one_cause cause n = let e : 1 ≡ n + 1 - n = omega arith in ap (single cause) e

dropped_one :
    (b : HookBridge) (cause : String) (seq : ℕ)
    → IsHookBridge b
    → is_gap_cause cause ≡ true
    → seq ≡ b.next_capture_seq
    → Takes b (drop_captures b seq seq ((cause, 1) ∷ [])) seq
dropped_one b cause seq v known e = rw (one_cause cause seq) (
    drop_captures-Takes b seq seq ((cause, seq + 1 - seq) ∷ []) v
      (single-IsInterval b cause seq seq known e (omega arith)))

put_with_room-Takes :
    (b : HookBridge) (fault : Fault) (o : Observation)
    → IsHookBridge b
    → o.capture_seq ≡ b.next_capture_seq
    → Takes b (enqueue b o o.capture_seq) o.capture_seq
    → Takes b (put_with_room b fault o o.capture_seq) o.capture_seq
unfolding is_gap_cause
put_with_room-Takes b no_fault o v e put = put
put_with_room-Takes b raised_before o v e put =
    dropped_one b "callback_internal" o.capture_seq v refl e
put_with_room-Takes b raised_after o v e put = record {
  observed = put.observed;
  dropped = put.dropped;
  same_retained = put.same_retained;
  same_capacity = put.same_capacity;
  same_sealed = put.same_sealed;
  same_final = put.same_final;
  within_capacity = put.within_capacity;
  counted = put.counted;
  honest = put.honest;
  holds = put.holds;
}

publish_observation_or_gap-Takes :
    (b : HookBridge) (fault : Fault) (o : Observation)
    → IsHookBridge b
    → o.capture_seq ≡ b.next_capture_seq
    → Takes b (publish_observation_or_gap b fault o o.capture_seq) o.capture_seq
unfolding publish_observation_or_gap is_gap_cause
publish_observation_or_gap-Takes b fault o v e =
    elim (Bool-cases (ltb (length b.queue) b.queue_capacity)) [
      | inr full ↦ rw full (dropped_one b "queue_full" o.capture_seq v refl e)
      | inl room ↦
          rw room (put_with_room-Takes b fault o v e (enqueue-Takes b o v e (ground arith)))
    ]

pub publish_shaped-Takes :
    (b : HookBridge) (fault : Fault) (hook : String) (first last : ℕ) (content : Option Fields)
    → IsHookBridge b
    → first ≡ b.next_capture_seq
    → first ≤ last
    → (is_some content ≡ true → last ≡ first)
    → Takes b (publish_shaped b fault hook first last content) last
unfolding is_gap_cause
publish_shaped-Takes b fault hook first last none v e forward one =
    drop_captures-Takes b first last (("callback_internal", last + 1 - first) ∷ []) v
      (single-IsInterval b "callback_internal" first last refl e forward)
publish_shaped-Takes b fault hook first last (some content) v e forward one =
    let o : Observation = record { capture_seq = first; hook = hook; content = content } in
    rw (one refl) (publish_observation_or_gap-Takes b fault o v e)

pub capture_numbered-Takes :
    (shape : Shape) (b : HookBridge) (fault : Fault) (hook : String) (kwargs : Fields)
    → IsHookBridge b
    → Takes b (capture_numbered shape b fault hook kwargs) b.next_capture_seq
unfolding capture_numbered is_gap_cause
capture_numbered-Takes shape b fault hook kwargs v =
    let seq = b.next_capture_seq in
    elim (Bool-cases (is_source_schema (get kwargs "telemetry_schema_version"))) [
      | inr invalid ↦ rw invalid (dropped_one b "invalid_source_schema" seq v refl refl)
      | inl valid ↦ rw valid (
          publish_shaped-Takes b fault hook seq seq (shape hook seq kwargs no_stats) v refl
            (omega arith) (λ _. refl))
    ]
