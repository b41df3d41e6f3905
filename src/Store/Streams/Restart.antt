-- ===== src/Store/Streams/Restart.antt =====
-- What a restart of the daemon does to the rows of the streams, and which rows may be abandoned (runtime/store.py,
-- recover_stale_bridge_connections, refresh_daemon_restart_grace and list_abandonable_bridge_streams).
use alice_brain_hermes.Prelude.{
  ℕ, Bool, true, false, ◌&&◌, Option, none, some, leb, is_none, if◌then◌else◌,
}
use alice_brain_hermes.Store.Streams.{
  StreamStatus, Reason, StreamRow, timestamp, open_, clean_closed, abandoned, daemon_restart,
}

abbrev pub restarted : StreamRow → ℕ → StreamRow
restarted r now = record r {
  connected_nonce = none;
  disconnected_reason = some daemon_restart;
  disconnected_at = some (timestamp r.last_seen now);
  last_seen = timestamp r.last_seen now;
}

abbrev pub restart_by : StreamRow → StreamStatus → ℕ → StreamRow
restart_by r open_ now = restarted r now
restart_by r clean_closed now = r
restart_by r abandoned now = r

-- `recover_stale_bridge_connections`, of one row
unfoldable pub recover_stale_bridge_connection : StreamRow → ℕ → StreamRow
recover_stale_bridge_connection r now = restart_by r r.status now

abbrev pub is_daemon_restart : Option Reason → Bool
is_daemon_restart (some daemon_restart) = true
is_daemon_restart _ = false

abbrev pub refreshed : StreamRow → ℕ → StreamRow
refreshed r now = record r {
  disconnected_at = some (timestamp r.last_seen now);
  last_seen = timestamp r.last_seen now;
}

-- The stream is open, has no connection, and was disconnected by a restart.
abbrev pub waits_restart : StreamRow → StreamStatus → Bool
waits_restart r open_ = is_none r.connected_nonce && is_daemon_restart r.disconnected_reason
waits_restart r clean_closed = false
waits_restart r abandoned = false

-- `refresh_daemon_restart_grace`, of one row
unfoldable pub refresh_daemon_restart_grace : StreamRow → ℕ → StreamRow
refresh_daemon_restart_grace r now = if waits_restart r r.status then refreshed r now else r

-- `list_abandonable_bridge_streams`, of one row: open, without a connection, and not seen after the cutoff
abbrev pub is_abandonable : StreamRow → StreamStatus → ℕ → Bool
is_abandonable r open_ cutoff = is_none r.connected_nonce && leb r.last_seen cutoff
is_abandonable r clean_closed cutoff = false
is_abandonable r abandoned cutoff = false
