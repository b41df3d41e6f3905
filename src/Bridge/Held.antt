-- ===== src/Bridge/Held.antt =====
-- The numbers of the capture sequence that the bridge holds, and when its state is consistent.
use alice_brain_hermes.Prelude.{
  ℕ, ◌+◌, ◌≤◌, ◌<◌, String, ◌≡◌, Bool, true, ◌&&◌, Option, none, some, List, [], ◌∷◌, leb, length,
  all, is_some, if◌then◌else◌,
}
use alice_brain_hermes.Bridge.{GapSpan, Observation, BridgeRecord, HookBridge, max_capture_sequence}
use alice_brain_hermes.Bridge.Gaps.{is_gap_cause, total, is_gap}
use alice_brain_hermes.Bridge.Close.{first_of, last_of}

-- Whether a number is in an interval, as a count.
abbrev pub within : ℕ → ℕ → ℕ → ℕ
within n first last = if leb first n && leb n last then 1 else 0

abbrev pub held_by_queue : ℕ → List Observation → ℕ
held_by_queue n [] = 0
held_by_queue n (o ∷ rest) = within n o.capture_seq o.capture_seq + held_by_queue n rest

abbrev pub held_by_spans : ℕ → List GapSpan → ℕ
held_by_spans n [] = 0
held_by_spans n (s ∷ rest) = within n s.first_capture_seq s.last_capture_seq + held_by_spans n rest

abbrev pub held_by_record : ℕ → Option BridgeRecord → ℕ
held_by_record n none = 0
held_by_record n (some r) = within n (first_of r) (last_of r)

-- The observations that wait, the head first.
abbrev pub waiting : Option Observation → List Observation → List Observation
waiting none queue = queue
waiting (some o) queue = o ∷ queue

-- How often the bridge holds a number: in the record that is retained, in an observation, or in a gap.
abbrev pub held : HookBridge → ℕ → ℕ
held b n =
    held_by_record n b.retained
    + held_by_queue n (waiting b.queue_head b.queue)
    + held_by_spans n b.gap_spans

-- Ascending numbers from `low` on and below `high`.
abbrev pub IsQueue : ℕ → List Observation → ℕ → Type 0
IsQueue low [] high = low ≤ high
IsQueue low (o ∷ rest) high = (low ≤ o.capture_seq) × IsQueue (o.capture_seq + 1) rest high

abbrev pub is_cause : String × ℕ → Bool
is_cause (cause, count) = is_gap_cause cause && leb 1 count

-- The causes of a gap count its numbers.
pub record IsSpan (s : GapSpan) : Type 0 where
  pub forward : s.first_capture_seq ≤ s.last_capture_seq
  pub counted : total s.cause_counts + s.first_capture_seq ≡ s.last_capture_seq + 1
  pub caused : all is_cause s.cause_counts ≡ true

abbrev pub IsSpans : ℕ → List GapSpan → ℕ → Type 0
IsSpans low [] high = low ≤ high
IsSpans low (s ∷ rest) high =
    (low ≤ s.first_capture_seq) × IsSpan s × IsSpans (s.last_capture_seq + 1) rest high

abbrev pub EndsBelow : ℕ → Option BridgeRecord → Type 0
EndsBelow high none = 0 ≤ high
EndsBelow high (some r) = (1 ≤ first_of r) × (first_of r ≤ last_of r) × (last_of r < high)

-- How many of the gaps that wait the worker has claimed.
abbrev pub claimed : Option BridgeRecord → ℕ
claimed r = if is_gap r then 1 else 0

-- A consistent state: the observations and the gaps ascend below the next number, the queue is within its capacity,
-- and the health counts the gaps that wait and claims a complete trace only if nothing was dropped.
pub record IsHookBridge (b : HookBridge) : Type 0 where
  pub observed : IsQueue 1 (waiting b.queue_head b.queue) b.next_capture_seq
  pub dropped : IsSpans 1 b.gap_spans b.next_capture_seq
  pub retained_below : EndsBelow b.next_capture_seq b.retained
  pub within_capacity : length b.queue ≤ b.queue_capacity
  pub sized : 1 ≤ b.queue_capacity
  pub within_sequence : b.next_capture_seq ≤ max_capture_sequence + 1
  pub counted : b.health.pending_gap_ranges ≡ length b.gap_spans + claimed b.retained
  pub finished : b.close_sealed ≡ is_some b.close_final_capture_seq
  pub honest : b.health.trace_complete ≡ true → b.health.dropped_events ≡ 0
