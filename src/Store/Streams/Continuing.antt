-- ===== src/Store/Streams/Continuing.antt =====
-- What may become of a stream, and the operations that set its status or its connection.
use mathlib.Core.Path.{subst}
use alice_brain_hermes.Prelude.{
  ℕ, ◌+◌, String, ◌≡◌, true, Option, none, some, arith, ◌==◌, is_none, none_eq, Result, ok, guard,
  ledger_integrity, bridge_binding, capture_sequence_error, ◌>>◌, >>-eq-ok, guard-eq-ok,
}
use alice_brain_hermes.Store.Streams.{
  StreamRow, StreamStatus, open_, clean_closed, abandoned, Reason, stream_ok, stream_from_row,
  timestamp, connected, is_free, attach_by, is_at, recover_by, closed, close_by, is_before,
  abandoned_at, abandon_by,
}
use alice_brain_hermes.Store.Streams.Commits.{moved}

-- What an operation does to a stream that is there.
pub data Lives (r : StreamRow) : StreamRow → Type 0 where
  stays : Lives r r
  -- only the connection
  reconnects :
      (nonce : Option String) (reason : Option Reason) (at : Option ℕ) (seen : ℕ)
      → r.status ≡ open_
      → Lives r (record r {
        connected_nonce = nonce;
        disconnected_reason = reason;
        disconnected_at = at;
        last_seen = seen;
      })
  commits :
      (first last now : ℕ)
      → r.status ≡ open_
      → first ≡ r.next_capture_seq
      → Lives r (moved r last now)
  closes :
      (final now : ℕ)
      → r.status ≡ open_
      → final + 1 ≡ r.next_capture_seq
      → Lives r (closed r final now)
  abandons : (now : ℕ) → r.status ≡ open_ → r.connected_nonce ≡ none → Lives r (abandoned_at r now)

-- The row can be read, and it is the stream that was there, a step further.
pub record Continues (r r' : StreamRow) : Type 0 where
  pub readable : stream_ok r' ≡ true
  pub lives : Lives r r'

pub stream_from_row-eq : (r : StreamRow) {r' : StreamRow} → stream_from_row r ≡ ok r' → r ≡ r'
unfolding stream_from_row
stream_from_row-eq r {r' = r'} h =
    let done : Result StreamRow = ok r in
    let last : done ≡ ok r' = >>-eq-ok (guard (stream_ok r) ledger_integrity) done h in cc

pub read-Continues :
    (r x : StreamRow) {r' : StreamRow} → stream_from_row x ≡ ok r' → Lives r x → Continues r r'
unfolding stream_from_row
read-Continues r x h lives =
    let done : Result StreamRow = ok x in
    let (readable, _) = guard-eq-ok (stream_ok x) ledger_integrity done h in
    subst (Continues r) (stream_from_row-eq x h) (record { readable = readable; lives = lives })

pub same-Continues : (r : StreamRow) {r' : StreamRow} → stream_ok r ≡ true → r ≡ r' → Continues r r'
same-Continues r v e = subst (Continues r) e (record { readable = v; lives = Lives.stays })

pub attach_by-Continues :
    (r : StreamRow) (status : StreamStatus) (nonce : String) (now : ℕ) {r' : StreamRow}
    → stream_ok r ≡ true
    → r.status ≡ status
    → attach_by r status nonce now ≡ ok r'
    → Continues r r'
attach_by-Continues r open_ nonce now v e h =
    let read = stream_from_row (connected r nonce now) in
    let (_, last) = guard-eq-ok (is_free r.connected_nonce nonce) bridge_binding read h in
    read-Continues r (connected r nonce now) last
      (Lives.reconnects (some nonce) none none (timestamp r.last_seen now) e)
attach_by-Continues r clean_closed nonce now v e h = cc
attach_by-Continues r abandoned nonce now v e h = cc

pub close_by-Continues :
    (r : StreamRow) (status : StreamStatus) (final now : ℕ) {r' : StreamRow}
    → stream_ok r ≡ true
    → r.status ≡ status
    → close_by r status final now ≡ ok r'
    → Continues r r'
close_by-Continues r open_ final now v e h =
    let read = stream_from_row (closed r final now) in
    let (last, rest) =
      guard-eq-ok (final + 1 == r.next_capture_seq) capture_sequence_error read h in
    read-Continues r (closed r final now) rest (Lives.closes final now e (ground arith))
close_by-Continues r clean_closed final now {r' = r'} v e h =
    let done : Result StreamRow = ok r in
    let (_, last) = guard-eq-ok (is_at r.closed_final_seq final) capture_sequence_error done h in
    let same : r ≡ r' = cc in same-Continues r v same
close_by-Continues r abandoned final now v e h = cc

pub abandon_by-Continues :
    (r : StreamRow) (status : StreamStatus) (cutoff : Option ℕ) (now : ℕ)
    (ledger : Result (Unit {0})) {r' : StreamRow}
    → stream_ok r ≡ true
    → r.status ≡ status
    → abandon_by r status cutoff now ledger ≡ ok r'
    → Continues r r'
abandon_by-Continues r open_ cutoff now ledger v e h =
    let read = stream_from_row (abandoned_at r now) in
    let (absent, rest) =
      guard-eq-ok (is_none r.connected_nonce) bridge_binding
        (guard (is_before r.last_seen cutoff) bridge_binding >> (ledger >> read)) h in
    let (_, rest') =
      guard-eq-ok (is_before r.last_seen cutoff) bridge_binding (ledger >> read) rest in
    let last = >>-eq-ok ledger read rest' in
    read-Continues r (abandoned_at r now) last
      (Lives.abandons now e (none_eq r.connected_nonce absent))
abandon_by-Continues r clean_closed cutoff now ledger v e h = cc
abandon_by-Continues r abandoned cutoff now ledger {r' = r'} v e h =
    let same : r ≡ r' = cc in same-Continues r v same

pub recover_by-Continues :
    (r : StreamRow) (status : StreamStatus) (final : ℕ) {r' : StreamRow}
    → stream_ok r ≡ true
    → recover_by r status final ≡ ok r'
    → Continues r r'
recover_by-Continues r open_ final v h = cc
recover_by-Continues r abandoned final v h = cc
recover_by-Continues r clean_closed final {r' = r'} v h =
    let done : Result StreamRow = ok r in
    let (_, last) = guard-eq-ok (is_at r.closed_final_seq final) capture_sequence_error done h in
    let same : r ≡ r' = cc in same-Continues r v same
