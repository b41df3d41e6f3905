-- ===== src/Bridge/Reserve.antt =====
-- Bootstrap reservations (hermes/bridge.py, HookBridge.capture_reserved): an interval of capture numbers that was
-- taken before the bridge was there, with an observation or the causes of a gap, is accepted once and may be repeated.
use alice_brain_hermes.Prelude.{
  ℕ, ◌+◌, ◌-◌, String, Bool, true, false, ◌&&◌, Option, none, some, [], ◌∷◌, leb, ◌==◌, str_eq,
  opt_str_eq, length, if◌then◌else◌, Result, ok, err, value_error, guard, ◌>>=◌, ◌>>◌,
}
use alice_brain_hermes.Order.{order_texts, is_lt}
use alice_brain_hermes.Json.{Json, Fields, num, non_negative, get_elem?, end, field, fields_eq}
use alice_brain_hermes.Bridge.{
  Causes, CopyStats, Receipt, Disposition, HookBridge, accepted, late_after_close,
  max_capture_sequence, max_bridge_integer,
}
use alice_brain_hermes.Bridge.Gaps.{is_gap_cause, total, drop_captures}
use alice_brain_hermes.Bridge.Capture.{
  Shape, Fault, late_health, publish_shaped, publish_observation_or_gap,
}

-- The arguments of `capture_reserved`.
pub record Reservation : Type 0 where
  pub hook : Option String
  pub detached_kwargs : Option Fields
  pub first_capture_seq : Json
  pub last_capture_seq : Json
  pub gap_cause_counts : Option Fields
  pub copy_stats : Fields

unfoldable pub capture_number : Json → Result ℕ
capture_number (num (non_negative n)) =
    guard (leb 1 n && leb n max_capture_sequence) value_error >> ok n
capture_number _ = err value_error

unfoldable pub as_stat : Option Json → Result ℕ
as_stat none = ok 0
as_stat (some (num (non_negative n))) = guard (leb n max_bridge_integer) value_error >> ok n
as_stat (some _) = err value_error

unfoldable pub read_stats : Fields → Result CopyStats
unfolding as_stat
read_stats stats = do
  redacted ← as_stat (get_elem? stats "redacted_paths")
  truncated ← as_stat (get_elem? stats "truncated_paths")
  unsupported ← as_stat (get_elem? stats "unsupported_paths")
  omitted ← as_stat (get_elem? stats "omitted_nodes")
  ok (record {
    redacted_paths = redacted;
    truncated_paths = truncated;
    unsupported_paths = unsupported;
    omitted_nodes = omitted;
  })

unfoldable pub read_causes : Fields → Result Causes
unfolding is_gap_cause
read_causes end = ok []
read_causes (field cause (num (non_negative count)) rest) = do
  guard (is_gap_cause cause && leb 1 count) value_error
  causes ← read_causes rest
  ok ((cause, count) ∷ causes)
read_causes (field _ _ _) = err value_error

abbrev insert_cause : String × ℕ → Causes → Causes
insert_cause item [] = item ∷ []
insert_cause item (other ∷ rest) =
    let later = insert_cause item rest in
    if is_lt (order_texts item.0 other.0) then item ∷ other ∷ rest else other ∷ later

-- `tuple(sorted(gap_cause_counts.items()))`, whose keys are distinct
abbrev sorted_causes : Causes → Causes
sorted_causes [] = []
sorted_causes (item ∷ rest) = insert_cause item (sorted_causes rest)

-- What a reservation holds: an observation at one number, or the causes of a gap, in the order given.
pub data Reserved : Type 0 where
  reserved_observation : String → Fields → Reserved
  reserved_gap : Causes → Reserved

unfoldable pub gap_of : Option String → Option Fields → ℕ → Causes → Result Reserved
gap_of none none count causes = do
  guard (leb 1 (length causes) && leb (length causes) 16) value_error
  guard (total causes == count) value_error
  ok (reserved_gap causes)
gap_of _ _ count causes = err value_error

unfoldable pub observation_of : Option String → Option Fields → ℕ → Result Reserved
observation_of (some hook) (some kwargs) count =
    guard (count == 1) value_error >> ok (reserved_observation hook kwargs)
observation_of _ _ count = err value_error

unfoldable pub read_reserved : Option Fields → Option String → Option Fields → ℕ → Result Reserved
read_reserved none hook kwargs count = observation_of hook kwargs count
read_reserved (some fields) hook kwargs count = read_causes fields >>= gap_of hook kwargs count

-- A reservation that was validated.
pub record ValidReservation : Type 0 where
  pub first : ℕ
  pub last : ℕ
  pub stats : CopyStats
  pub reserved : Reserved

abbrev pub valid_reservation : ℕ → ℕ → CopyStats → Reserved → ValidReservation
valid_reservation first last stats reserved = record {
  first = first;
  last = last;
  stats = stats;
  reserved = reserved;
}

abbrev pub read_interval : Reservation → ℕ → ℕ → Result ValidReservation
read_interval r first last = do
  guard (leb first last) value_error
  stats ← read_stats r.copy_stats
  reserved ← read_reserved r.gap_cause_counts r.hook r.detached_kwargs (last + 1 - first)
  ok (valid_reservation first last stats reserved)

-- The validation, before the lock is taken. The interval has `last + 1 - first` numbers.
unfoldable pub read_reservation : Reservation → Result ValidReservation
read_reservation r = do
  first ← capture_number r.first_capture_seq
  last ← capture_number r.last_capture_seq
  read_interval r first last

abbrev pub hook_of : Reserved → Option String
hook_of (reserved_observation hook kwargs) = some hook
hook_of (reserved_gap causes) = none

abbrev pub kwargs_of : Reserved → Option Fields
kwargs_of (reserved_observation hook kwargs) = some kwargs
kwargs_of (reserved_gap causes) = none

abbrev pub causes_of : Reserved → Option Causes
causes_of (reserved_observation hook kwargs) = none
causes_of (reserved_gap causes) = some (sorted_causes causes)

abbrev pub receipt_of : ValidReservation → Disposition → Receipt
receipt_of v disposition = record {
  first_capture_seq = v.first;
  last_capture_seq = v.last;
  hook = hook_of v.reserved;
  detached_kwargs = kwargs_of v.reserved;
  gap_cause_counts = causes_of v.reserved;
  copy_stats = v.stats;
  disposition = disposition;
}

abbrev pub opt_fields_eq : Option Fields → Option Fields → Bool
opt_fields_eq none none = true
opt_fields_eq (some a) (some b) = fields_eq a b
opt_fields_eq none (some _) = false
opt_fields_eq (some _) none = false

abbrev pub causes_eq : Causes → Causes → Bool
causes_eq [] [] = true
causes_eq ((c, m) ∷ a) ((d, n) ∷ b) = str_eq c d && m == n && causes_eq a b
causes_eq [] (_ ∷ _) = false
causes_eq (_ ∷ _) [] = false

abbrev pub opt_causes_eq : Option Causes → Option Causes → Bool
opt_causes_eq none none = true
opt_causes_eq (some a) (some b) = causes_eq a b
opt_causes_eq none (some _) = false
opt_causes_eq (some _) none = false

-- `matches`
unfoldable pub is_same : Receipt → Receipt → Bool
is_same r other =
    r.first_capture_seq == other.first_capture_seq
    && r.last_capture_seq == other.last_capture_seq
    && opt_str_eq r.hook other.hook
    && opt_fields_eq r.detached_kwargs other.detached_kwargs
    && opt_causes_eq r.gap_cause_counts other.gap_cause_counts
    && r.copy_stats.redacted_paths == other.copy_stats.redacted_paths
    && r.copy_stats.truncated_paths == other.copy_stats.truncated_paths
    && r.copy_stats.unsupported_paths == other.copy_stats.unsupported_paths
    && r.copy_stats.omitted_nodes == other.copy_stats.omitted_nodes

-- Whether the reservation is the last one that was taken, with nothing after it.
unfoldable pub is_repeat : ℕ → ValidReservation → Receipt → Bool
is_repeat next v previous =
    v.first == previous.first_capture_seq
    && v.last == previous.last_capture_seq
    && next == previous.last_capture_seq + 1
    && is_same previous (receipt_of v accepted)

-- A reservation that does not start at the next number: the last one again, or an error.
unfoldable pub repeat_reservation :
    HookBridge → ValidReservation → Option Receipt → Result (HookBridge × Disposition)
repeat_reservation b v none = err value_error
repeat_reservation b v (some previous) = do
  guard (is_repeat b.next_capture_seq v previous) value_error
  ok (b, previous.disposition)

unfoldable pub publish_reserved :
    Shape → Fault → HookBridge → ValidReservation → Reserved → HookBridge
unfolding drop_captures publish_observation_or_gap
publish_reserved shape fault b v (reserved_gap causes) = drop_captures b v.first v.last causes
publish_reserved shape fault b v (reserved_observation hook kwargs) =
    publish_shaped b fault hook v.first v.last (shape hook v.first kwargs v.stats)

abbrev pub advanced : HookBridge → ValidReservation → Disposition → HookBridge
advanced b v disposition = record b {
  next_capture_seq = v.last + 1;
  last_bootstrap_reservation = some (receipt_of v disposition);
}

-- The result for a reservation that starts at the next number, by whether the stream is sealed.
abbrev pub reserved_by :
    HookBridge → HookBridge → ValidReservation → Bool → HookBridge × Disposition
reserved_by b published v true = (
  advanced (record b { health = late_health b.health (v.last + 1 - v.first) }) v late_after_close,
  late_after_close,
)
reserved_by b published v false =
    (record (advanced published v accepted) { ever_had_capture = true }, accepted)

-- What happens under the lock.
unfoldable pub accept_reservation :
    Shape → Fault → HookBridge → ValidReservation → Result (HookBridge × Disposition)
accept_reservation shape fault b v =
    let repeated = repeat_reservation b v b.last_bootstrap_reservation in
    if v.first == b.next_capture_seq
    then ok (reserved_by b (publish_reserved shape fault b v v.reserved) v b.close_sealed)
    else repeated

-- `capture_reserved`
unfoldable pub capture_reserved :
    Shape → Fault → HookBridge → Reservation → Result (HookBridge × Disposition)
capture_reserved shape fault b r = read_reservation r >>= accept_reservation shape fault b
