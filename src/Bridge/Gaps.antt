-- ===== src/Bridge/Gaps.antt =====
-- Gaps of the capture sequence (hermes/bridge.py): _prepare_gap_publication_locked, _publish_gap_locked and
-- _gap_from_span, with the validators of BridgeGapV1 (protocol/models.py). Its size check is not modelled: a gap
-- that passes the others has at most sixteen short causes, far below the limit of 262,144 bytes.
use alice_brain_hermes.Prelude.{
  ℕ, ◌+◌, ◌-◌, String, Bool, true, false, ◌&&◌, Option, none, some, List, [], ◌∷◌, leb, ◌==◌,
  str_eq, str_mem, length, all, if◌then◌else◌, Result, ok, value_error, guard, ◌>>◌,
}
use alice_brain_hermes.Bridge.{
  Causes, GapSpan, BridgeGap, BridgeRecord, BridgeHealth, HookBridge, observation, gap, gap_causes,
  max_capture_sequence,
}

-- `cause in GAP_CAUSES`
unfoldable pub is_gap_cause : String → Bool
is_gap_cause cause = str_mem cause gap_causes

-- `sum(cause_counts.values())`
abbrev pub total : Causes → ℕ
total [] = 0
total ((_, count) ∷ rest) = count + total rest

-- `merged[cause] = merged.get(cause, 0) + count`
abbrev pub add_cause : Causes → String → ℕ → Causes
add_cause [] cause count = (cause, count) ∷ []
add_cause ((c, n) ∷ rest) cause count =
    let others = add_cause rest cause count in
    if str_eq c cause then (c, n + count) ∷ rest else (c, n) ∷ others

abbrev pub merge_causes : Causes → Causes → Causes
merge_causes merged [] = merged
merge_causes merged ((cause, count) ∷ rest) = merge_causes (add_cause merged cause count) rest

-- `spans[-1]`
abbrev pub last_span : List GapSpan → Option GapSpan
last_span [] = none
last_span (s ∷ []) = some s
last_span (s ∷ t ∷ rest) = last_span (t ∷ rest)

-- `spans[-1] = span`, of spans that are not empty
abbrev pub set_last : List GapSpan → GapSpan → List GapSpan
set_last [] span = []
set_last (s ∷ []) span = span ∷ []
set_last (s ∷ t ∷ rest) span = s ∷ set_last (t ∷ rest) span

abbrev pub append_span : List GapSpan → GapSpan → List GapSpan
append_span [] span = span ∷ []
append_span (s ∷ rest) span = s ∷ append_span rest span

abbrev pub is_gap : Option BridgeRecord → Bool
is_gap (some (gap _)) = true
is_gap (some (observation _)) = false
is_gap none = false

-- What `_prepare_gap_publication_locked` gives.
pub record GapPublication : Type 0 where
  pub span : GapSpan
  pub replace_last : Bool
  pub updated_health : BridgeHealth

abbrev pub joins : Option GapSpan → ℕ → Bool
joins none first = false
joins (some previous) first = previous.last_capture_seq + 1 == first

abbrev pub joined : Option GapSpan → ℕ → ℕ → Causes → GapSpan
joined none first last causes = record {
  first_capture_seq = first;
  last_capture_seq = last;
  cause_counts = causes;
}
joined (some previous) first last causes = record {
  first_capture_seq = previous.first_capture_seq;
  last_capture_seq = last;
  cause_counts = merge_causes previous.cause_counts causes;
}

-- `_prepare_gap_publication_locked`
unfoldable pub prepare_gap_publication : HookBridge → ℕ → ℕ → Causes → ℕ → GapPublication
prepare_gap_publication b first last causes health_last =
    let replace_last = joins (last_span b.gap_spans) first in
    record {
      span =
          if replace_last
          then joined (last_span b.gap_spans) first last causes
          else joined none first last causes;
      replace_last = replace_last;
      updated_health = record b.health {
        trace_complete = false;
        dropped_events = b.health.dropped_events + (last + 1 - first);
        pending_gap_ranges =
            length b.gap_spans
            + (if is_gap b.retained then 1 else 0)
            + (if replace_last then 0 else 1);
        last_capture_seq = health_last;
      };
    }

-- `_publish_gap_locked`
unfoldable pub publish_gap : HookBridge → GapPublication → HookBridge
publish_gap b p = record b {
  gap_spans =
      if p.replace_last then set_last b.gap_spans p.span else append_span b.gap_spans p.span;
  health = p.updated_health;
}

-- The two in a row, as every caller has them.
unfoldable pub drop_captures : HookBridge → ℕ → ℕ → Causes → HookBridge
unfolding prepare_gap_publication publish_gap
drop_captures b first last causes = publish_gap b (prepare_gap_publication b first last causes last)

abbrev pub is_cause_count : String × ℕ → Bool
is_cause_count (cause, count) = is_gap_cause cause && leb 1 count && leb count max_capture_sequence

-- `BridgeGapV1._causes`
unfoldable pub causes_ok : Causes → Bool
causes_ok causes = leb 1 (length causes) && leb (length causes) 16 && all is_cause_count causes

-- `BridgeGapV1`: its fields and `_interval`
unfoldable pub gap_ok : BridgeGap → Bool
unfolding causes_ok
gap_ok g =
    leb 1 g.first_capture_seq
    && leb g.first_capture_seq max_capture_sequence
    && leb 1 g.last_capture_seq
    && leb g.last_capture_seq max_capture_sequence
    && leb 1 g.dropped_count
    && leb g.dropped_count max_capture_sequence
    && causes_ok g.cause_counts
    && leb g.first_capture_seq g.last_capture_seq
    && g.dropped_count == g.last_capture_seq + 1 - g.first_capture_seq
    && total g.cause_counts == g.dropped_count

abbrev pub gap_of_span : HookBridge → GapSpan → BridgeGap
gap_of_span b s = record {
  bridge_instance_id = b.bridge_instance_id;
  first_capture_seq = s.first_capture_seq;
  last_capture_seq = s.last_capture_seq;
  dropped_count = s.last_capture_seq + 1 - s.first_capture_seq;
  cause_counts = s.cause_counts;
}

-- `_gap_from_span`
unfoldable pub gap_from_span : HookBridge → GapSpan → Result BridgeGap
gap_from_span b s = guard (gap_ok (gap_of_span b s)) value_error >> ok (gap_of_span b s)
