-- ===== src/Bridge/Worker.antt =====
-- The worker's choice of the next record (hermes/bridge.py, _select_next_record, _claim_first_gap and pending_gaps). The
-- worker takes the head of the queue before it takes the lock, so callbacks may run between the two steps.
use alice_brain_hermes.Prelude.{
  Bool, true, false, Option, none, some, List, [], ◌∷◌, ltb, if◌then◌else◌, Result, ok, ◌>>=◌,
}
use alice_brain_hermes.Bridge.{
  GapSpan, Observation, BridgeGap, BridgeRecord, HookBridge, observation, gap,
}
use alice_brain_hermes.Bridge.Gaps.{gap_from_span}

abbrev pub take_head : HookBridge → List Observation → HookBridge
take_head b [] = b
take_head b (o ∷ rest) = record b { queue_head = some o; queue = rest }

abbrev pub poll_if : HookBridge → Option BridgeRecord → Option Observation → HookBridge
poll_if b (some r) head = b
poll_if b none (some o) = b
poll_if b none none = take_head b b.queue

-- `self._queue_head = self.queue.get_nowait()`, if there is no head and nothing is retained
unfoldable pub poll_queue : HookBridge → HookBridge
poll_queue b = poll_if b b.retained b.queue_head

abbrev pub retain_gap : HookBridge → List GapSpan → BridgeGap → HookBridge
retain_gap b rest g = record b { retained = some (gap g); gap_spans = rest }

-- `self._retained = self._claim_first_gap()`, with the spans at hand
unfoldable pub claim_first_gap : HookBridge → List GapSpan → Result HookBridge
claim_first_gap b [] = ok b
claim_first_gap b (s ∷ rest) = do g ← gap_from_span b s; ok (retain_gap b rest g)

-- `gap_first < self._queue_head.capture_seq`, if there are both
abbrev pub gap_is_first : List GapSpan → Option Observation → Bool
gap_is_first [] head = false
gap_is_first (s ∷ rest) none = true
gap_is_first (s ∷ rest) (some o) = ltb s.first_capture_seq o.capture_seq

abbrev pub retain_head : HookBridge → Option Observation → HookBridge
retain_head b none = b
retain_head b (some o) = record b { retained = some (observation o); queue_head = none }

abbrev pub choose_if : HookBridge → Option BridgeRecord → Result HookBridge
choose_if b (some r) = ok b
choose_if b none =
    let claimed = claim_first_gap b b.gap_spans in
    if gap_is_first b.gap_spans b.queue_head then claimed else ok (retain_head b b.queue_head)

-- The rest of `_select_next_record`.
unfoldable pub choose_record : HookBridge → Result HookBridge
choose_record b = choose_if b b.retained

-- `_select_next_record`, without a callback between its steps; the record is what is retained after it.
unfoldable pub select_next_record : HookBridge → Result HookBridge
select_next_record b = choose_record (poll_queue b)

abbrev pub map_gaps : HookBridge → List GapSpan → Result (List BridgeGap)
unfolding gap_from_span
map_gaps b [] = ok []
map_gaps b (s ∷ rest) = do g ← gap_from_span b s; gs ← map_gaps b rest; ok (g ∷ gs)

abbrev pub claimed_gap : Option BridgeRecord → List BridgeGap → List BridgeGap
claimed_gap (some (gap g)) gaps = g ∷ gaps
claimed_gap (some (observation o)) gaps = gaps
claimed_gap none gaps = gaps

-- `pending_gaps`
unfoldable pub pending_gaps : HookBridge → Result (List BridgeGap)
pending_gaps b = do gaps ← map_gaps b b.gap_spans; ok (claimed_gap b.retained gaps)
