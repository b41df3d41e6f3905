-- ===== src/Bridge/Run.antt =====
-- Runs of the bridge: callbacks, reservations, and the turns of a worker that selects without a callback between its
-- steps. In every run each number that was captured is sent or held, once, and the records are sent in order.
use alice_brain_hermes.Prelude.{
  ℕ, ◌≤◌, String, ◌≡◌, refl, Bool, true, false, some, arith, ok, if◌then◌else◌,
}
use alice_brain_hermes.Json.{Fields}
use alice_brain_hermes.Bridge.{BridgeRecord, Frame, HookBridge, Disposition, fresh_bridge}
use alice_brain_hermes.Bridge.Capture.{Shape, Fault, capture_atomic}
use alice_brain_hermes.Bridge.Reserve.{Reservation, capture_reserved}
use alice_brain_hermes.Bridge.Worker.{select_next_record}
use alice_brain_hermes.Bridge.Close.{
  is_drained, sealed_at, seal_if, request_clean_close, seal_close_if_ready,
}
use alice_brain_hermes.Bridge.Exchange.{Reply, StreamState, ConnectReply, connect, close_stream}
use alice_brain_hermes.Bridge.Commit.{Ack, commit_retained, refresh_frame}
use alice_brain_hermes.Bridge.Held.{IsHookBridge}
use alice_brain_hermes.Bridge.Edges.{Extends, edge}
use alice_brain_hermes.Bridge.Invariant.{
  capture_atomic-IsHookBridge, capture_atomic-Captures, capture_atomic_retained,
}
use alice_brain_hermes.Bridge.Accepted.{Reserves, capture_reserved-Reserves}
use alice_brain_hermes.Bridge.Stream.{IsStream, select_next_record-Selects}
use alice_brain_hermes.Bridge.Exchanges.{Same-IsStream}
use alice_brain_hermes.Bridge.Commits.{committed, commit_retained-IsStream}
use alice_brain_hermes.Bridge.Replies.{
  connect_abandons, refresh_abandons, connect-IsStream, refresh_frame-IsStream,
}
use alice_brain_hermes.Bridge.Unchanged.{close_stream-Same, request_clean_close-Same}

module _ (shape : Shape) (fingerprint : BridgeRecord → String) where
  -- One operation, with the cursor of the stream before and after it.
  pub data Step : ℕ → HookBridge → ℕ → HookBridge → Type 0 where
    captures :
        {c : ℕ} {b : HookBridge} (fault : Fault) (hook : String) (kwargs : Fields)
        → Step c b c (capture_atomic shape b fault hook kwargs).0
    reserves :
        {c : ℕ} {b b' : HookBridge} {d : Disposition} (fault : Fault) (r : Reservation)
        → capture_reserved shape fault b r ≡ ok (b', d)
        → Step c b c b'
    selects : {c : ℕ} {b b' : HookBridge} → select_next_record b ≡ ok b' → Step c b c b'
    commits :
        {c : ℕ} {b : HookBridge} (r : BridgeRecord) (reply : Reply Ack) (id : String)
        → b.retained ≡ some r
        → Step c b
            (committed c b r reply (commit_retained fingerprint b r reply id).1)
            (commit_retained fingerprint b r reply id).0
    connects :
        {c : ℕ} {b : HookBridge} (reply : ConnectReply) (id : String)
        → Step c b (if connect_abandons b reply then 1 else c) (connect b reply id).0
    refreshes :
        {c : ℕ} {b : HookBridge} (reply : Reply Frame) (id : String)
        → Step c b (if refresh_abandons b reply then 1 else c) (refresh_frame b reply id).0
    requests : {c : ℕ} {b : HookBridge} → Step c b c (request_clean_close b)
    seals : {c : ℕ} {b : HookBridge} → Step c b c (seal_close_if_ready b).0
    closes :
        {c : ℕ} {b : HookBridge} (reply : Reply StreamState) → Step c b c (close_stream b reply).0

  pub data Run : ℕ → HookBridge → ℕ → HookBridge → Type 0 where
    stop : {c : ℕ} {b : HookBridge} → Run c b c b
    next : {c d e : ℕ} {a b f : HookBridge} → Step c a d b → Run d b e f → Run c a e f

-- A stream that takes more numbers is still a stream.
Extends-IsStream :
    (c : ℕ) (b b' : HookBridge)
    → IsStream c b
    → IsHookBridge b'
    → Extends b b'
    → b'.retained ≡ b.retained
    → IsStream c b'
Extends-IsStream c b b' i v x e =
    let later = x.later in
    let reach = i.reaches in
    record {
      consistent = v;
      started = i.started;
      reaches = omega arith;
      holds = λ n. let now = i.holds n in let more = x.holds n in ground arith;
      in_turn = rw e i.in_turn;
    }

sealed-IsStream :
    (c : ℕ) (b : HookBridge) → IsStream c b → b.close_sealed ≡ false → IsStream c (sealed_at b)
sealed-IsStream c b i open_ =
    let v = i.consistent in
    let now : edge b ≡ b.next_capture_seq = rw open_ refl in
    let start = i.started in
    let reach = i.reaches in
    record {
      consistent = record {
        observed = v.observed;
        dropped = v.dropped;
        retained_below = v.retained_below;
        within_capacity = v.within_capacity;
        sized = v.sized;
        within_sequence = v.within_sequence;
        counted = v.counted;
        finished = refl;
        honest = v.honest;
      };
      started = i.started;
      reaches = omega arith;
      holds = λ n. let before = i.holds n in ground arith;
      in_turn = i.in_turn;
    }

seal_if-IsStream :
    (c : ℕ) (b : HookBridge) (sealed drained : Bool)
    → IsStream c b
    → b.close_sealed ≡ sealed
    → IsStream c (seal_if b sealed drained).0
seal_if-IsStream c b true drained i e = i
seal_if-IsStream c b false true i e = sealed-IsStream c b i e
seal_if-IsStream c b false false i e = i

pub seal-IsStream : (c : ℕ) (b : HookBridge) → IsStream c b → IsStream c (seal_close_if_ready b).0
unfolding seal_close_if_ready
seal-IsStream c b i = seal_if-IsStream c b b.close_sealed (is_drained b) i refl

Reserves-IsStream :
    (c : ℕ) (b : HookBridge) (r : Reservation) {b' : HookBridge} {d : Disposition}
    → IsStream c b
    → Reserves b r b' d
    → IsStream c b'
Reserves-IsStream c b r i (Reserves.taken v read e a) =
    Extends-IsStream c b _ i a.consistent a.extends a.same_retained
Reserves-IsStream c b r i (Reserves.repeated v reads receipt latest) = i

-- Every operation leads from a stream to a stream: each number from the cursor to the edge is held once, and no other.
pub Step-IsStream :
    (shape : Shape) (fingerprint : BridgeRecord → String) {c : ℕ} {b : HookBridge} {d : ℕ}
    {b' : HookBridge}
    → IsStream c b
    → Step shape fingerprint c b d b'
    → IsStream d b'
Step-IsStream shape fingerprint {c = c} {b = b} i (Step.captures fault hook kwargs) =
    let v = i.consistent in
    let captures = capture_atomic-Captures shape b fault hook kwargs v in
    Extends-IsStream c b _ i (capture_atomic-IsHookBridge shape b fault hook kwargs v)
      captures.extends (capture_atomic_retained shape b fault hook kwargs v)
Step-IsStream shape fingerprint {c = c} {b = b} i (Step.reserves fault r e) =
    Reserves-IsStream c b r i (capture_reserved-Reserves shape fault b r i.consistent e)
Step-IsStream shape fingerprint {c = c} {b = b} i (Step.selects e) =
    (select_next_record-Selects c b i e).0
Step-IsStream shape fingerprint {c = c} {b = b} i (Step.commits r reply id e) =
    commit_retained-IsStream fingerprint c b r reply id i e
Step-IsStream shape fingerprint {c = c} {b = b} i (Step.connects reply id) =
    connect-IsStream c b reply id i
Step-IsStream shape fingerprint {c = c} {b = b} i (Step.refreshes reply id) =
    refresh_frame-IsStream c b reply id i
Step-IsStream shape fingerprint {c = c} {b = b} i Step.requests =
    Same-IsStream c b _ (request_clean_close-Same b) i
Step-IsStream shape fingerprint {c = c} {b = b} i Step.seals = seal-IsStream c b i
Step-IsStream shape fingerprint {c = c} {b = b} i (Step.closes reply) =
    Same-IsStream c b _ (close_stream-Same b reply) i

Run-IsStream :
    (shape : Shape) (fingerprint : BridgeRecord → String) {c : ℕ} {b : HookBridge} {d : ℕ}
    {b' : HookBridge}
    → IsStream c b
    → Run shape fingerprint c b d b'
    → IsStream d b'
Run-IsStream shape fingerprint i Run.stop = i
Run-IsStream shape fingerprint i (Run.next step more) =
    Run-IsStream shape fingerprint (Step-IsStream shape fingerprint i step) more

fresh-IsStream : (id : String) (capacity : ℕ) → 1 ≤ capacity → IsStream 1 (fresh_bridge id capacity)
fresh-IsStream id capacity room = record {
  consistent = record {
    observed = omega arith;
    dropped = omega arith;
    retained_below = omega arith;
    within_capacity = omega arith;
    sized = room;
    within_sequence = omega arith;
    counted = omega arith;
    finished = refl;
    honest = λ h. refl;
  };
  started = omega arith;
  reaches = omega arith;
  holds = λ n. ground arith;
  in_turn = refl;
}

-- After any run of a fresh bridge whose worker selects in one step, the numbers from the cursor, which follows what was
-- committed, to the edge of the stream are held once each, and no other number is; the queue is within its capacity and
-- the health counts the gaps.
pub fresh-Run-IsStream :
    (shape : Shape) (fingerprint : BridgeRecord → String) (id : String) (capacity c : ℕ)
    (b : HookBridge)
    → 1 ≤ capacity
    → Run shape fingerprint 1 (fresh_bridge id capacity) c b
    → IsStream c b
fresh-Run-IsStream shape fingerprint id capacity c b room run =
    Run-IsStream shape fingerprint (fresh-IsStream id capacity room) run
