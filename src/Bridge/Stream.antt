-- ===== src/Bridge/Stream.antt =====
-- The stream of a bridge whose worker selects without a callback between its steps: what it holds are the numbers from
-- a cursor on, and what it sends is the next of them.
use mathlib.Core.Path.{subst}
use alice_brain_hermes.Prelude.{
  ℕ, ◌≤◌, ◌<◌, ◌≡◌, refl, sym, ◌∙◌, inl, inr, true, false, Option, none, some, List, [], ◌∷◌, arith,
  ltb, Bool-cases, ok,
}
use alice_brain_hermes.Bridge.{GapSpan, Observation, BridgeRecord, HookBridge, observation, gap}
use alice_brain_hermes.Bridge.Gaps.{gap_of_span}
use alice_brain_hermes.Bridge.Worker.{gap_is_first, poll_queue, choose_record, select_next_record}
use alice_brain_hermes.Bridge.Close.{first_of}
use alice_brain_hermes.Bridge.Held.{
  IsHookBridge, IsQueue, IsSpans, held, held_by_queue, held_by_spans, waiting,
}
use alice_brain_hermes.Bridge.Growth.{held_by_queue_below, held_by_spans_below}
use alice_brain_hermes.Bridge.Edges.{between, edge}
use alice_brain_hermes.Bridge.Keeping.{
  Keeps, poll_queue-Keeps, poll_queue_head, poll_queue_retained,
}
use alice_brain_hermes.Bridge.Selection.{Chooses, choose_record-Chooses, Chooses-Keeps}

abbrev pub StartsAt : ℕ → Option BridgeRecord → Type 0
StartsAt c none = c ≡ c
StartsAt c (some r) = first_of r ≡ c

-- Each number from the cursor to the edge is held once, and no other is; a record that is retained starts at the
-- cursor.
pub record IsStream (c : ℕ) (b : HookBridge) : Type 0 where
  pub consistent : IsHookBridge b
  pub started : 1 ≤ c
  pub reaches : c ≤ edge b
  pub holds : (n : ℕ) → held b n ≡ between n c (edge b)
  pub in_turn : StartsAt c b.retained

-- A number that is held is the cursor, if no lesser number is held.
least_held :
    (c : ℕ) (b : HookBridge) (n : ℕ) → IsStream c b → 1 ≤ held b n → (c < n → held b c ≡ 0) → n ≡ c
least_held c b n s some_held none_below =
    let here = s.holds n in
    let there = s.holds c in
    elim (Bool-cases (ltb c n)) [
      | inl less ↦ let none_held = none_below (ground arith) in absurd (ground arith)
      | inr more ↦ ground arith
    ]

spans_after :
    (n : ℕ) (spans : List GapSpan) (o : Observation) (high : ℕ)
    → IsSpans 1 spans high
    → gap_is_first spans (some o) ≡ false
    → n < o.capture_seq
    → held_by_spans n spans ≡ 0
spans_after n [] o high h later below = refl
spans_after n (s ∷ rest) o high (low, is, more) later below =
    held_by_spans_below n s.first_capture_seq (s ∷ rest) high (omega arith, is, more) (ground arith)

-- What waits in the queue is later than a gap that is first.
queue_after :
    (n : ℕ) (head : Option Observation) (queue : List Observation) (s : GapSpan)
    (rest : List GapSpan) (high : ℕ)
    → IsQueue 1 (waiting head queue) high
    → (head ≡ none → queue ≡ [])
    → gap_is_first (s ∷ rest) head ≡ true
    → n < s.first_capture_seq
    → held_by_queue n (waiting head queue) ≡ 0
queue_after n none queue s rest high h empty first below = rw (empty refl) refl
queue_after n (some o) queue s rest high (low, more) empty first below =
    held_by_queue_below n o.capture_seq (o ∷ queue) high (omega arith, more) (ground arith)

-- What the worker retains when it has chosen.
pub data Selects (c : ℕ) (b : HookBridge) : Type 0 where
  sends : (r : BridgeRecord) → b.retained ≡ some r → first_of r ≡ c → Selects c b
  waits : b.retained ≡ none → c ≡ edge b → Selects c b

claims-first :
    (c : ℕ) (b : HookBridge) (s : GapSpan) (rest : List GapSpan)
    → IsStream c b
    → (b.queue_head ≡ none → b.queue ≡ [])
    → b.retained ≡ none
    → b.gap_spans ≡ s ∷ rest
    → gap_is_first b.gap_spans b.queue_head ≡ true
    → s.first_capture_seq ≡ c
claims-first c b s rest i empty e f first =
    let v = i.consistent in
    let (low, is, later) = subst (λ spans. IsSpans 1 spans b.next_capture_seq) f v.dropped in
    let forward = is.forward in
    least_held c b s.first_capture_seq i (rw f (ground arith)) λ below.
      let queued =
        queue_after c b.queue_head b.queue s rest b.next_capture_seq v.observed empty
          (subst (λ spans. gap_is_first spans b.queue_head ≡ true) f first) below in
      let spanned =
        held_by_spans_below c s.first_capture_seq (s ∷ rest) b.next_capture_seq
          (omega arith, is, later) below in
      rw (e, f) (omega arith)

observes-first :
    (c : ℕ) (b : HookBridge) (o : Observation)
    → IsStream c b
    → b.retained ≡ none
    → b.queue_head ≡ some o
    → gap_is_first b.gap_spans b.queue_head ≡ false
    → o.capture_seq ≡ c
observes-first c b o i e f later =
    let v = i.consistent in
    let (low, more) =
      subst (λ head. IsQueue 1 (waiting head b.queue) b.next_capture_seq) f v.observed in
    least_held c b o.capture_seq i (rw f (ground arith)) λ below.
      let spanned =
        spans_after c b.gap_spans o b.next_capture_seq v.dropped
          (subst (λ head. gap_is_first b.gap_spans head ≡ false) f later) below in
      let queued =
        held_by_queue_below c o.capture_seq (o ∷ b.queue) b.next_capture_seq (omega arith, more)
          below in
      rw (e, f) (omega arith)

Chooses-Selects :
    (c : ℕ) (b : HookBridge) {b' : HookBridge}
    → IsStream c b
    → (b.retained ≡ none → b.queue_head ≡ none → b.queue ≡ [])
    → Chooses b b'
    → Selects c b'
Chooses-Selects c b i empty (Chooses.retains r e) =
    Selects.sends r e (subst (StartsAt c) e i.in_turn)
Chooses-Selects c b i empty (Chooses.claims s rest e f first) =
    Selects.sends (gap (gap_of_span b s)) refl (claims-first c b s rest i (empty e) e f first)
Chooses-Selects c b i empty (Chooses.observes o e f later) =
    Selects.sends (observation o) refl (observes-first c b o i e f later)
Chooses-Selects c b i empty (Chooses.idles e f g) =
    let reach = i.reaches in
    let none_held : held b c ≡ 0 = rw (e, f, empty e f, g) refl in
    let here = i.holds c in Selects.waits e (ground arith)

Keeps-edge : (b b' : HookBridge) → Keeps b b' → edge b' ≡ edge b
Keeps-edge b b' k = rw (k.same_sealed, k.same_final, k.same_next) refl

pub Keeps-IsStream :
    (c : ℕ) (b b' : HookBridge) → IsStream c b → Keeps b b' → StartsAt c b'.retained → IsStream c b'
Keeps-IsStream c b b' i k turn =
    let e = Keeps-edge b b' k in
    record {
      consistent = k.consistent;
      started = i.started;
      reaches = rw e i.reaches;
      holds = λ n. rw e (k.same_held n ∙ i.holds n);
      in_turn = turn;
    }

Selects-starts : (c : ℕ) (b : HookBridge) → Selects c b → StartsAt c b.retained
Selects-starts c b (Selects.sends r e first) = rw e first
Selects-starts c b (Selects.waits e done) = rw e refl

-- The choice under the lock, when every number from the cursor to the edge is held once, and no observation waits in the
-- queue without a head at hand unless a record is retained: what it retains is the record that starts at the cursor, or
-- nothing if the cursor is at the edge; and the numbers are held as before.
pub choose_record-Selects :
    (c : ℕ) (b : HookBridge) {b' : HookBridge}
    → IsStream c b
    → (b.retained ≡ none → b.queue_head ≡ none → b.queue ≡ [])
    → choose_record b ≡ ok b'
    → IsStream c b' × Selects c b'
choose_record-Selects c b {b' = b'} i polled h =
    let chosen = choose_record-Chooses b h in
    let selected = Chooses-Selects c b i polled chosen in
    (
      Keeps-IsStream c b b' i (Chooses-Keeps b i.consistent chosen) (Selects-starts c b' selected),
      selected,
    )

-- The whole selection, without a callback between its two steps.
pub select_next_record-Selects :
    (c : ℕ) (b : HookBridge) {b' : HookBridge}
    → IsStream c b
    → select_next_record b ≡ ok b'
    → IsStream c b' × Selects c b'
unfolding select_next_record
select_next_record-Selects c b {b' = b'} i h =
    let polled = poll_queue b in
    let k = poll_queue-Keeps b i.consistent in
    let same = poll_queue_retained b in
    let i' = Keeps-IsStream c b polled i k (rw same i.in_turn) in
    choose_record-Selects c polled i' (λ e f. poll_queue_head b (sym same ∙ e) f) h
