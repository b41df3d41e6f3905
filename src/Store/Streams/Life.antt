-- ===== src/Store/Streams/Life.antt =====
-- The life of a stream: its row stays one that can be read, its cursor moves only by commits, and its end is final.
use mathlib.Core.Path.{subst}
use alice_brain_hermes.Prelude.{
  none_eq, if◌then◌else◌, ℕ, ◌+◌, ◌≤◌, String, ◌≡◌, refl, sym, ◌∙◌, inl, inr, Bool, true, false,
  Option, none, some, arith, leb, ◌==◌, str_eq, opt_str_eq, is_none, Bool-cases, Result, ok, guard,
  ledger_integrity, bridge_binding, bridge_closed, ◌>>=◌, ◌>>◌, >>=-eq-ok, >>-eq-ok, guard-eq-ok,
}
use alice_brain_hermes.Ids.{validate_id}
use alice_brain_hermes.Bridge.{max_bridge_integer, max_capture_sequence}
use alice_brain_hermes.Store.Streams.{
  validate_attachment, validate_recovery, texts_ok, nonce_ok, same_presence, not_after, status_ok,
  StreamRow, StreamStatus, open_, clean_closed, abandoned, Reason, Binding, stream_ok,
  stream_from_row, find_stream, timestamp, is_bound, attach_by, resume, attach_row,
  attach_bridge_stream, recover_by, recover_with, recover_bridge_close, disconnected,
  disconnect_with, disconnect_bridge_stream, is_connection, close_by, close_with,
  close_bridge_stream, abandon_by, abandon_with, abandon_bridge_stream,
}
use alice_brain_hermes.Store.Streams.Restart.{
  restarted, restart_by, recover_stale_bridge_connection, is_daemon_restart, refreshed,
  waits_restart, refresh_daemon_restart_grace,
}
use alice_brain_hermes.Store.Streams.Commits.{
  Commit, is_open, moved, gap_or_sequence, commit_new, commit_with, commit_bridge_record,
}
use alice_brain_hermes.Store.Streams.Continuing.{
  Lives, Continues, stream_from_row-eq, read-Continues, same-Continues, attach_by-Continues,
  close_by-Continues, abandon_by-Continues, recover_by-Continues,
}

-- A valid interval of capture numbers.
pub record IsCommit (k : Commit) : Type 0 where
  pub forward : k.first_capture_seq ≤ k.last_capture_seq
  pub bound : k.last_capture_seq ≤ max_capture_sequence

not_after-later :
    (at : Option ℕ) (seen now : ℕ)
    → not_after at seen ≡ true
    → not_after at (timestamp seen now) ≡ true
not_after-later none seen now h = refl
not_after-later (some t) seen now h = ground arith

moved_ok :
    (r : StreamRow) (last now : ℕ)
    → stream_ok r ≡ true
    → r.status ≡ open_
    → last ≤ max_capture_sequence
    → stream_ok (moved r last now) ≡ true
unfolding stream_ok
moved_ok r last now v e bound =
    let status : status_ok r open_ ≡ true = subst (λ s. status_ok r s ≡ true) e (ground arith) in
    let presence : same_presence r.disconnected_reason r.disconnected_at ≡ true = ground arith in
    let before : not_after r.disconnected_at r.last_seen ≡ true = ground arith in
    let later = not_after-later r.disconnected_at r.last_seen now before in
    let low : leb 1 (last + 1) ≡ true = ground arith in
    let high : leb (last + 1) max_bridge_integer ≡ true = ground arith in
    let texts : texts_ok r.bridge_instance_id r.brain_id r.server_actor_id r.server_adapter_id
        ≡ true =
      ground arith in
    let nonce : nonce_ok r.connected_nonce ≡ true = ground arith in
    rw (e, texts, nonce, low, high, presence, later) status

restarted_ok :
    (r : StreamRow) (now : ℕ)
    → stream_ok r ≡ true
    → r.status ≡ open_
    → stream_ok (restarted r now) ≡ true
unfolding stream_ok
restarted_ok r now v e =
    let status : status_ok r open_ ≡ true = subst (λ s. status_ok r s ≡ true) e (ground arith) in
    let free : is_none r.closed_final_seq ≡ true = ground arith in
    let low : leb 1 r.next_capture_seq ≡ true = ground arith in
    let high : leb r.next_capture_seq max_bridge_integer ≡ true = ground arith in
    let texts : texts_ok r.bridge_instance_id r.brain_id r.server_actor_id r.server_adapter_id
        ≡ true =
      ground arith in
    rw (e, texts, low, high, free) (ground arith)

commit_new-Continues :
    (k : Commit) (now : ℕ) (r : StreamRow) (stored : Option (Result (Unit {0}))) {r' : StreamRow}
    → IsCommit k
    → stream_ok r ≡ true
    → r.status ≡ open_
    → commit_new k now r stored ≡ ok r'
    → Continues r r'
unfolding stream_ok
commit_new-Continues k now r (some duplicate) {r' = r'} i v e h =
    let done : Result StreamRow = ok r in
    let last = >>-eq-ok duplicate done h in let same : r ≡ r' = cc in same-Continues r v same
commit_new-Continues k now r none {r' = r'} i v e h =
    let done : Result StreamRow = ok (moved r k.last_capture_seq now) in
    let (at, rest) =
      guard-eq-ok (k.first_capture_seq == r.next_capture_seq) (gap_or_sequence k r)
        (k.ledger >> done) h in
    let last = >>-eq-ok k.ledger done rest in
    let same : moved r k.last_capture_seq now ≡ r' = cc in
    subst (Continues r) same (record {
      readable = moved_ok r k.last_capture_seq now v e i.bound;
      lives = Lives.commits k.first_capture_seq k.last_capture_seq now e (ground arith);
    })

-- One operation that succeeds on a stream that is there.
pub data StreamStep (r : StreamRow) : StreamRow → Type 0 where
  attaches :
      (p : Binding) (nonce : String) (now : ℕ) (brain_exists tail_fits : Bool) {r' : StreamRow}
      → attach_bridge_stream (some r) p nonce now brain_exists tail_fits ≡ ok r'
      → StreamStep r r'
  recovers :
      (p : Binding) (final : ℕ) {r' : StreamRow}
      → recover_bridge_close (some r) p final ≡ ok r'
      → StreamStep r r'
  closes :
      (id : String) (final : ℕ) (nonce : Option String) (now : ℕ) {r' : StreamRow}
      → close_bridge_stream id (some r) final nonce now ≡ ok r'
      → StreamStep r r'
  abandons :
      (id brain_id : String) (cutoff : Option ℕ) (now : ℕ) (ledger : Result (Unit {0}))
      {r' : StreamRow}
      → abandon_bridge_stream id (some r) brain_id cutoff now ledger ≡ ok r'
      → StreamStep r r'
  commits :
      (id : String) (k : Commit) (nonce : Option String) (now : ℕ) {r' : StreamRow}
      → IsCommit k
      → commit_bridge_record id (some r) k nonce now ≡ ok r'
      → StreamStep r r'
  disconnects :
      (id nonce : String) (now : ℕ) {r' : StreamRow}
      → disconnect_bridge_stream id (some r) nonce now ≡ ok r'
      → StreamStep r r'
  restarts : (now : ℕ) → StreamStep r (recover_stale_bridge_connection r now)
  refreshes : (now : ℕ) → StreamStep r (refresh_daemon_restart_grace r now)

-- Only an open stream is connected.
connected_by-open :
    (r : StreamRow) (status : StreamStatus)
    → status_ok r status ≡ true
    → is_none r.connected_nonce ≡ false
    → status ≡ open_
connected_by-open r open_ h e = refl
connected_by-open r clean_closed h e = absurd (ground arith)
connected_by-open r abandoned h e = absurd (ground arith)

connected-open :
    (r : StreamRow) → stream_ok r ≡ true → is_none r.connected_nonce ≡ false → r.status ≡ open_
unfolding stream_ok
connected-open r v e = connected_by-open r r.status (ground arith) e

disconnect_with-Continues :
    (nonce : String) (now : ℕ) (r : StreamRow) {r' : StreamRow}
    → stream_ok r ≡ true
    → disconnect_with nonce now r ≡ ok r'
    → Continues r r'
disconnect_with-Continues nonce now r v h =
    elim (Bool-cases (opt_str_eq r.connected_nonce (some nonce))) [
      | inl mine ↦
          let taken : disconnect_with nonce now r ≡ stream_from_row (disconnected r now) =
            rw mine refl in
          read-Continues r (disconnected r now) (sym taken ∙ h) (
            Lives.reconnects none (some Reason.connection_eof) (some (timestamp r.last_seen now))
              (timestamp r.last_seen now) (connected-open r v (ground arith)))
      | inr other ↦
          let kept : disconnect_with nonce now r ≡ stream_from_row r = rw other refl in
          read-Continues r r (sym kept ∙ h) Lives.stays
    ]

restart_by-Continues :
    (r : StreamRow) (status : StreamStatus) (now : ℕ)
    → stream_ok r ≡ true
    → r.status ≡ status
    → Continues r (restart_by r status now)
restart_by-Continues r open_ now v e = record {
  readable = restarted_ok r now v e;
  lives =
      Lives.reconnects none (some Reason.daemon_restart) (some (timestamp r.last_seen now))
        (timestamp r.last_seen now) e;
}
restart_by-Continues r clean_closed now v e = same-Continues r v refl
restart_by-Continues r abandoned now v e = same-Continues r v refl

restart_reason : (o : Option Reason) → is_daemon_restart o ≡ true → o ≡ some Reason.daemon_restart
restart_reason (some Reason.daemon_restart) h = refl
restart_reason none h = cc
restart_reason (some Reason.connection_eof) h = cc
restart_reason (some Reason.clean_close) h = cc
restart_reason (some Reason.grace_abandonment) h = cc

-- A row that is refreshed becomes what a restart makes of it.
refresh_by-Continues :
    (r : StreamRow) (status : StreamStatus) (now : ℕ)
    → stream_ok r ≡ true
    → r.status ≡ status
    → Continues r (if waits_restart r status then refreshed r now else r)
refresh_by-Continues r open_ now v e = elim (Bool-cases (waits_restart r open_)) [
  | inl waits ↦
      let absent = none_eq r.connected_nonce (ground arith) in
      let reason = restart_reason r.disconnected_reason (ground arith) in
      let same : restarted r now ≡ refreshed r now = rw (absent, reason) refl in
      rw waits (subst (Continues r) same (restart_by-Continues r open_ now v e))
  | inr not_waits ↦ rw not_waits (same-Continues r v refl)
]
refresh_by-Continues r clean_closed now v e = same-Continues r v refl
refresh_by-Continues r abandoned now v e = same-Continues r v refl

-- Each operation reads the row first.
found-Continues :
    (id : String) (r : StreamRow) (rest : StreamRow → Result StreamRow) {r' : StreamRow}
    → (find_stream id (some r) >>= rest) ≡ ok r'
    → rest r ≡ ok r'
found-Continues id r rest {r' = r'} h =
    let (x, read, last) = >>=-eq-ok (find_stream id (some r)) rest h in
    let same = stream_from_row-eq r (>>-eq-ok (validate_id id) (stream_from_row r) read) in
    subst (λ x. rest x ≡ ok r') (sym same) last

read-rest :
    (r : StreamRow) (rest : StreamRow → Result StreamRow) {r' : StreamRow}
    → (stream_from_row r >>= rest) ≡ ok r'
    → rest r ≡ ok r'
read-rest r rest {r' = r'} h =
    let (x, read, last) = >>=-eq-ok (stream_from_row r) rest h in
    let same = stream_from_row-eq r read in subst (λ x. rest x ≡ ok r') (sym same) last

resume-Continues :
    (p : Binding) (nonce : String) (now : ℕ) (tail_fits : Bool) (r : StreamRow) {r' : StreamRow}
    → stream_ok r ≡ true
    → resume p nonce now tail_fits r ≡ ok r'
    → Continues r r'
resume-Continues p nonce now tail_fits r v h =
    let attach = attach_by r r.status nonce now in
    let (_, rest) =
      guard-eq-ok tail_fits ledger_integrity (guard (is_bound r p) bridge_binding >> attach) h in
    let (_, last) = guard-eq-ok (is_bound r p) bridge_binding attach rest in
    attach_by-Continues r r.status nonce now v refl last

commit_with-Continues :
    (k : Commit) (nonce : Option String) (now : ℕ) (r : StreamRow) {r' : StreamRow}
    → IsCommit k
    → stream_ok r ≡ true
    → commit_with k nonce now r ≡ ok r'
    → Continues r r'
commit_with-Continues k nonce now r i v h =
    let new = commit_new k now r k.stored in
    let connection = guard (is_connection nonce r) bridge_binding >> new in
    let (_, rest) =
      guard-eq-ok (str_eq r.brain_id k.brain_id) bridge_binding
        (guard (is_open r.status) bridge_closed >> connection) h in
    let (opened_, rest') = guard-eq-ok (is_open r.status) bridge_closed connection rest in
    let (_, last) = guard-eq-ok (is_connection nonce r) bridge_binding new rest' in
    commit_new-Continues k now r k.stored i v (open_eq r.status opened_) last
  where
    open_eq : (s : StreamStatus) → is_open s ≡ true → s ≡ open_
    open_eq open_ h = refl
    open_eq clean_closed h = cc
    open_eq abandoned h = cc

-- From a row that can be read, every operation that succeeds leaves a row that can be read, and takes the stream a step
-- further in its life: the stream stays as it is, or it is open and changes its connection, or moves its cursor from the
-- first number of a commit past the last one, or is closed at its cursor, or is abandoned without a connection.
pub StreamStep-Continues :
    (r : StreamRow) {r' : StreamRow} → stream_ok r ≡ true → StreamStep r r' → Continues r r'
unfolding attach_bridge_stream recover_bridge_close close_bridge_stream abandon_bridge_stream
    commit_bridge_record disconnect_bridge_stream recover_stale_bridge_connection
    refresh_daemon_restart_grace
StreamStep-Continues r v (StreamStep.attaches p nonce now brain_exists tail_fits h) =
    let attach = attach_row (some r) p nonce now tail_fits in
    let checked =
      >>-eq-ok (validate_attachment p nonce) (guard brain_exists bridge_binding >> attach) h in
    let (_, rest) = guard-eq-ok brain_exists bridge_binding attach checked in
    resume-Continues p nonce now tail_fits r v (read-rest r (resume p nonce now tail_fits) rest)
StreamStep-Continues r v (StreamStep.recovers p final h) =
    let read =
      >>-eq-ok (validate_recovery p)
        (find_stream p.bridge_instance_id (some r) >>= recover_with p final) h in
    let rest = found-Continues p.bridge_instance_id r (recover_with p final) read in
    let (_, last) = guard-eq-ok (is_bound r p) bridge_binding (recover_by r r.status final) rest in
    recover_by-Continues r r.status final v last
StreamStep-Continues r v (StreamStep.closes id final nonce now h) =
    let rest = found-Continues id r (close_with final nonce now) h in
    let (_, last) =
      guard-eq-ok (is_connection nonce r) bridge_binding (close_by r r.status final now) rest in
    close_by-Continues r r.status final now v refl last
StreamStep-Continues r v (StreamStep.abandons id brain_id cutoff now ledger h) =
    let rest = found-Continues id r (abandon_with brain_id cutoff now ledger) h in
    let (_, last) =
      guard-eq-ok (str_eq r.brain_id brain_id) bridge_binding
        (abandon_by r r.status cutoff now ledger) rest in
    abandon_by-Continues r r.status cutoff now ledger v refl last
StreamStep-Continues r v (StreamStep.commits id k nonce now i h) =
    let commit = find_stream id (some r) >>= commit_with k nonce now in
    let own = guard (str_eq k.bridge_instance_id id) bridge_binding in
    let read = >>-eq-ok own commit (>>-eq-ok (validate_id id) (own >> commit) h) in
    commit_with-Continues k nonce now r i v (found-Continues id r (commit_with k nonce now) read)
StreamStep-Continues r v (StreamStep.disconnects id nonce now h) =
    disconnect_with-Continues nonce now r v (found-Continues id r (disconnect_with nonce now) h)
StreamStep-Continues r v (StreamStep.restarts now) = restart_by-Continues r r.status now v refl
StreamStep-Continues r v (StreamStep.refreshes now) = refresh_by-Continues r r.status now v refl
