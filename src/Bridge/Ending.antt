-- ===== src/Bridge/Ending.antt =====
-- The end of a stream: what is committed when it is sealed, and what is lost when it was abandoned.
use Prim.Native.Nat.{min}
use mathlib.Core.Path.{subst}
use alice_brain_hermes.Prelude.{
  ℕ, zero, suc, ◌+◌, ◌-◌, ◌≤◌, String, ◌≡◌, refl, sym, Bool, true, false, Option, none, some, List,
  [], ◌∷◌, arith, none_eq, is_empty,
}
use alice_brain_hermes.Bridge.{GapSpan, Observation, BridgeRecord, HookBridge, Abandonment}
use alice_brain_hermes.Bridge.Close.{
  is_drained, seal_if, seal_close_if_ready, first_of, last_of, opt_size, spans_size, records_size,
  abandoned_count, ambiguous_count, as_record, as_records, with_retained, rotate_abandoned_stream,
}
use alice_brain_hermes.Bridge.Held.{
  IsHookBridge, IsQueue, IsSpans, held, held_by_queue, held_by_spans, held_by_record, waiting,
  within, EndsBelow,
}
use alice_brain_hermes.Bridge.Edges.{between, edge}
use alice_brain_hermes.Bridge.Bounds.{IsQueue-bounds, IsSpans-bounds}
use alice_brain_hermes.Bridge.Stream.{IsStream}

empty_eq {ℓ} : {A : Type ℓ} (xs : List A) → is_empty xs ≡ true → xs ≡ []
empty_eq [] h = refl
empty_eq (x ∷ xs) h = cc

drained_none : (b : HookBridge) (n : ℕ) → is_drained b ≡ true → held b n ≡ 0
drained_none b n h =
    let spans = empty_eq b.gap_spans (ground arith) in
    let retained = none_eq b.retained (ground arith) in
    let head = none_eq b.queue_head (ground arith) in
    let queue = empty_eq b.queue (ground arith) in rw (spans, retained, head, queue) refl

-- What sealing an open stream means: nothing is left to send.
pub record Seals (c : ℕ) (b b' : HookBridge) : Type 0 where
  pub drained : c ≡ b.next_capture_seq
  pub final : b'.close_final_capture_seq ≡ some (c - 1)
  pub sealed : b'.close_sealed ≡ true

seal_if-Seals :
    (c : ℕ) (b : HookBridge) (drained : Bool)
    → IsStream c b
    → b.close_sealed ≡ false
    → is_drained b ≡ drained
    → (seal_if b false drained).1 ≡ true
    → Seals c b (seal_if b false drained).0
seal_if-Seals c b false i open_ e h = cc
seal_if-Seals c b true i open_ e h =
    let now : edge b ≡ b.next_capture_seq = rw open_ refl in
    let reach = i.reaches in
    let here = i.holds c in
    let none_held = drained_none b c e in
    let same : c ≡ b.next_capture_seq = ground arith in
    record { drained = same; final = rw same refl; sealed = refl }

-- An open stream is sealed only when every number that was captured has been committed, and its final number is the
-- last of them.
pub seal_close_if_ready-Seals :
    (c : ℕ) (b : HookBridge)
    → IsStream c b
    → b.close_sealed ≡ false
    → (seal_close_if_ready b).1 ≡ true
    → Seals c b (seal_close_if_ready b).0
unfolding seal_close_if_ready
seal_close_if_ready-Seals c b i open_ h =
    let opened : seal_close_if_ready b ≡ seal_if b false (is_drained b) = rw open_ refl in
    subst (λ p. Seals c b p.0) (sym opened)
      (seal_if-Seals c b (is_drained b) i open_ refl (subst (λ p. p.1 ≡ true) opened h))

-- `sum(count(n) for n in range(bound))`
abbrev sum_below : (ℕ → ℕ) → ℕ → ℕ
sum_below count zero = 0
sum_below count (suc n) = count n + sum_below count n

sum_within :
    (first last bound : ℕ)
    → sum_below (λ n. within n first last) bound ≡ min bound (last + 1) - first
sum_within first last zero = omega arith
sum_within first last (suc n) = ground (arith, sum_within first last n)

sum_between :
    (low high bound : ℕ) → sum_below (λ n. between n low high) bound ≡ min bound high - low
sum_between low high zero = omega arith
sum_between low high (suc n) = ground (arith, sum_between low high n)

sum_plus :
    (f g h : ℕ → ℕ) (bound : ℕ)
    → ((n : ℕ) → h n ≡ f n + g n)
    → sum_below h bound ≡ sum_below f bound + sum_below g bound
sum_plus f g h zero e = refl
sum_plus f g h (suc n) e = omega (arith, e n, sum_plus f g h n e)

sum_zero : (bound : ℕ) → sum_below (λ n. 0) bound ≡ 0
sum_zero zero = refl
sum_zero (suc n) = omega (arith, sum_zero n)

sum_queue :
    (low : ℕ) (q : List Observation) (bound : ℕ)
    → IsQueue low q bound
    → sum_below (λ n. held_by_queue n q) bound ≡ records_size (as_records q)
sum_queue low [] bound h = sum_zero bound
sum_queue low (o ∷ rest) bound (h, later) =
    let one = sum_within o.capture_seq o.capture_seq bound in
    let more = sum_queue (o.capture_seq + 1) rest bound later in
    let both =
      sum_plus (λ n. within n o.capture_seq o.capture_seq) (λ n. held_by_queue n rest)
        (λ n. held_by_queue n (o ∷ rest)) bound (λ n. refl) in
    let below = IsQueue-bounds (o.capture_seq + 1) rest bound later in omega arith

sum_spans :
    (low : ℕ) (spans : List GapSpan) (bound : ℕ)
    → IsSpans low spans bound
    → sum_below (λ n. held_by_spans n spans) bound ≡ spans_size spans
sum_spans low [] bound h = sum_zero bound
sum_spans low (s ∷ rest) bound (h, is, later) =
    let one = sum_within s.first_capture_seq s.last_capture_seq bound in
    let more = sum_spans (s.last_capture_seq + 1) rest bound later in
    let both =
      sum_plus (λ n. within n s.first_capture_seq s.last_capture_seq) (λ n. held_by_spans n rest)
        (λ n. held_by_spans n (s ∷ rest)) bound (λ n. refl) in
    let below = IsSpans-bounds (s.last_capture_seq + 1) rest bound later in omega arith

sum_record :
    (r : Option BridgeRecord) (bound : ℕ)
    → EndsBelow bound r
    → sum_below (λ n. held_by_record n r) bound ≡ opt_size r
sum_record none bound h = sum_zero bound
sum_record (some r) bound (low, forward, high) =
    let one = sum_within (first_of r) (last_of r) bound in omega arith

records_size_eq :
    (retained : Option BridgeRecord) (head : Option Observation) (queue : List Observation)
    → records_size (with_retained retained (as_record head (as_records queue)))
      ≡ opt_size retained + records_size (as_records (waiting head queue))
records_size_eq none none queue = omega arith
records_size_eq none (some o) queue = omega arith
records_size_eq (some r) none queue = omega arith
records_size_eq (some r) (some o) queue = omega arith

-- What the bridge holds are as many numbers as the sizes of its records and gaps say.
sum_held :
    (b : HookBridge) → IsHookBridge b → sum_below (held b) b.next_capture_seq ≡ abandoned_count b
sum_held b v =
    let bound = b.next_capture_seq in
    let records = sum_record b.retained bound v.retained_below in
    let queued = sum_queue 1 (waiting b.queue_head b.queue) bound v.observed in
    let spanned = sum_spans 1 b.gap_spans bound v.dropped in
    let first : ℕ → ℕ =
      λ n. held_by_record n b.retained + held_by_queue n (waiting b.queue_head b.queue) in
    let two =
      sum_plus (λ n. held_by_record n b.retained)
        (λ n. held_by_queue n (waiting b.queue_head b.queue)) first bound (λ n. refl) in
    let all_three = sum_plus first (λ n. held_by_spans n b.gap_spans) (held b) bound (λ n. refl) in
    omega (arith, records_size_eq b.retained b.queue_head b.queue)

sum_same : (f g : ℕ → ℕ) (bound : ℕ) → ((n : ℕ) → f n ≡ g n) → sum_below f bound ≡ sum_below g bound
sum_same f g zero e = refl
sum_same f g (suc n) e = omega (arith, e n, sum_same f g n e)

-- What the audit of an abandoned stream says.
pub record Accounts (c : ℕ) (b : HookBridge) (a : Abandonment) : Type 0 where
  pub same_instance : a.bridge_instance_id ≡ b.bridge_instance_id
  pub abandoned : a.abandoned_capture_count + c ≡ b.next_capture_seq
  pub split : a.unsent_capture_count + a.ambiguous_capture_count ≡ a.abandoned_capture_count
  pub attempted : b.retained_attempted ≡ false → a.ambiguous_capture_count ≡ 0

abbrev pub audit_of : HookBridge → Abandonment
audit_of b = record {
  bridge_instance_id = b.bridge_instance_id;
  abandoned_capture_count = abandoned_count b;
  unsent_capture_count = abandoned_count b - ambiguous_count b;
  ambiguous_capture_count = ambiguous_count b;
}

-- When an open stream is abandoned, the audit counts every number that was captured and not committed, each as unsent
-- or as ambiguous, and none as ambiguous unless the record at the cursor was attempted.
pub rotate_abandoned_stream-Accounts :
    (c : ℕ) (b : HookBridge) (id : String)
    → IsStream c b
    → b.close_sealed ≡ false
    → (rotate_abandoned_stream b id).health.last_abandonment ≡ some (audit_of b)
      × Accounts c b (audit_of b)
unfolding rotate_abandoned_stream
rotate_abandoned_stream-Accounts c b id i open_ =
    let now : edge b ≡ b.next_capture_seq = rw open_ refl in
    let reach = i.reaches in
    let bound = b.next_capture_seq in
    let total = sum_held b i.consistent in
    let same = sum_same (held b) (λ n. between n c (edge b)) bound i.holds in
    let count = sum_between c (edge b) bound in
    let few : ambiguous_count b ≤ abandoned_count b =
      ground (arith, records_size_eq b.retained b.queue_head b.queue) in
    (
      refl,
      record {
        same_instance = refl;
        abandoned = omega arith;
        split = omega arith;
        attempted = λ h. rw h refl;
      },
    )
