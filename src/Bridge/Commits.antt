-- ===== src/Bridge/Commits.antt =====
-- What the replies of the daemon leave of a stream: a commit that is acknowledged moves its cursor past the record, the
-- answer that the stream was abandoned starts another one, and nothing else touches what is held.
use mathlib.Core.Path.{subst}
use alice_brain_hermes.Prelude.{
  ℕ, ◌+◌, ◌≤◌, String, ◌≡◌, refl, sym, ◌∙◌, inl, inr, Bool, true, false, ◌&&◌, Option, none, some,
  is_some, is_none, str_eq, Bool-cases, ok, err, Result, if◌then◌else◌, value_error, ◌>>=◌,
  >>=-eq-ok, guard-eq-ok,
}
use alice_brain_hermes.Bridge.{BridgeRecord, Frame, HookBridge}
use alice_brain_hermes.Bridge.Close.{last_of, rotate_abandoned_stream}
use alice_brain_hermes.Bridge.Connection.{
  publish_connection, disconnect_client, validate_connected_frame, or_empty,
}
use alice_brain_hermes.Bridge.Exchange.{Reply, replied, rpc_error, failed, rotated_if_abandoned}
use alice_brain_hermes.Bridge.Commit.{
  Ack, ack_binds, settled, published_unless, published, effective_frame, acknowledged_as,
  acknowledge, acknowledged, answered, commit_retained,
}
use alice_brain_hermes.Bridge.Edges.{Same}
use alice_brain_hermes.Bridge.Stream.{IsStream}
use alice_brain_hermes.Bridge.Exchanges.{
  Same-refl, Same-trans, Same-IsStream, publish_connection-Same, attempted-Same, publish_frame-Same,
  disconnect_client-Same,
}
use alice_brain_hermes.Bridge.Settling.{settled-IsStream, rotate-IsStream}

-- Whether a reply says that the stream was abandoned.
abbrev pub is_abandoned : {A : Type 0} → Reply A → Bool
is_abandoned (replied a) = false
is_abandoned (rpc_error code) = str_eq code "bridge_abandoned"
is_abandoned (failed label) = false

-- What an exchange leaves: the same stream, or another one that begins.
abbrev pub Leaves : Bool → HookBridge → HookBridge → Type 0
Leaves false b b' = Same b b'
Leaves true b b' = IsStream 1 b'

pub Leaves-IsStream :
    (c : ℕ) (abandoned : Bool) (b b' : HookBridge)
    → IsStream c b
    → Leaves abandoned b b'
    → IsStream (if abandoned then 1 else c) b'
Leaves-IsStream c false b b' i s = Same-IsStream c b b' s i
Leaves-IsStream c true b b' i s = s

pub rotated-Leaves :
    (b0 b : HookBridge) (code id : String) (error : Option String)
    → Same b0 b
    → 1 ≤ b.queue_capacity
    → Leaves
        (str_eq code "bridge_abandoned")
        b0
        (disconnect_client (rotated_if_abandoned b code id) error)
rotated-Leaves b0 b code id error s room = elim (Bool-cases (str_eq code "bridge_abandoned")) [
  | inl abandoned ↦
      let other = rotate_abandoned_stream b id in
      rw abandoned
        (Same-IsStream 1 other _ (disconnect_client-Same other error) (rotate-IsStream b id room))
  | inr other ↦ rw other (Same-trans b0 b _ s (disconnect_client-Same b error))
]

published_unless-Same :
    (fingerprint : BridgeRecord → String) (b : HookBridge) (f : Frame) (historical : Bool)
    → Same b (published_unless fingerprint b f historical)
published_unless-Same fingerprint b f true = Same-refl b
published_unless-Same fingerprint b f false = publish_frame-Same b f

acknowledge-IsStream :
    (fingerprint : BridgeRecord → String) (c : ℕ) (b : HookBridge) (r : BridgeRecord) (a : Ack)
    {b' : HookBridge}
    → IsStream c b
    → b.retained ≡ some r
    → acknowledge fingerprint b r a ≡ ok b'
    → IsStream (last_of r + 1) b'
unfolding acknowledge
acknowledge-IsStream fingerprint c b r a {b' = b'} i e h =
    let validated =
      validate_connected_frame b a.frame (or_empty b.brain_id) (some (last_of r)) none
        b.exact_retry_pending in
    let (_, rest) =
      guard-eq-ok (ack_binds fingerprint b r a) value_error
        (validated >>= acknowledged_as fingerprint b r a) h in
    let (historical, _, rest') = >>=-eq-ok validated (acknowledged_as fingerprint b r a) rest in
    let (f, _, made) =
      >>=-eq-ok (effective_frame fingerprint b a.frame historical)
        (published fingerprint b r a historical) rest' in
    let shown = published_unless fingerprint b a.frame historical in
    let same = published_unless-Same fingerprint b a.frame historical in
    let left = settled fingerprint shown r in
    let i' =
      settled-IsStream fingerprint c shown r (Same-IsStream c b shown same i)
        (same.same_retained ∙ e) in
    let done : publish_connection left true (some f) none ≡ b' = cc in
    subst (IsStream (last_of r + 1)) done
      (Same-IsStream (last_of r + 1) left _ (publish_connection-Same left true (some f) none) i')

acknowledged-true :
    (fingerprint : BridgeRecord → String) (b : HookBridge) (m : Result HookBridge)
    → (acknowledged fingerprint b m).1 ≡ true
    → m ≡ ok (acknowledged fingerprint b m).0
acknowledged-true fingerprint b (ok b') h = refl
acknowledged-true fingerprint b (err e) h = cc

acknowledged-false :
    (fingerprint : BridgeRecord → String) (b : HookBridge) (m : Result HookBridge)
    → (acknowledged fingerprint b m).1 ≡ false
    → Same b (acknowledged fingerprint b m).0
acknowledged-false fingerprint b (ok b') h = cc
acknowledged-false fingerprint b (err e) h = disconnect_client-Same b (some "DaemonClientError")

answered-true :
    (fingerprint : BridgeRecord → String) (c : ℕ) (b : HookBridge) (r : BridgeRecord)
    (reply : Reply Ack) (id : String)
    → IsStream c b
    → b.retained ≡ some r
    → (answered fingerprint b r reply id).1 ≡ true
    → IsStream (last_of r + 1) (answered fingerprint b r reply id).0
answered-true fingerprint c b r (replied a) id i e h =
    acknowledge-IsStream fingerprint c b r a i e
      (acknowledged-true fingerprint b (acknowledge fingerprint b r a) h)
answered-true fingerprint c b r (rpc_error code) id i e h = cc
answered-true fingerprint c b r (failed label) id i e h = cc

answered-false :
    (fingerprint : BridgeRecord → String) (b0 b : HookBridge) (r : BridgeRecord) (reply : Reply Ack)
    (id : String)
    → Same b0 b
    → 1 ≤ b.queue_capacity
    → (answered fingerprint b r reply id).1 ≡ false
    → Leaves (is_abandoned reply) b0 (answered fingerprint b r reply id).0
answered-false fingerprint b0 b r (replied a) id s room h =
    Same-trans b0 b _ s (acknowledged-false fingerprint b (acknowledge fingerprint b r a) h)
answered-false fingerprint b0 b r (rpc_error code) id s room h =
    rotated-Leaves b0 b code id (some code) s room
answered-false fingerprint b0 b r (failed label) id s room h =
    Same-trans b0 b _ s (disconnect_client-Same b (some label))

-- The cursor after a commit, by whether it succeeded.
abbrev pub committed : ℕ → HookBridge → BridgeRecord → Reply Ack → Bool → ℕ
committed c b r reply true = last_of r + 1
committed c b r reply false = if is_some b.binding && is_abandoned reply then 1 else c

answered-IsStream :
    (fingerprint : BridgeRecord → String) (c : ℕ) (b0 b : HookBridge) (r : BridgeRecord)
    (reply : Reply Ack) (id : String)
    → Same b0 b
    → 1 ≤ b.queue_capacity
    → IsStream c b0
    → b0.retained ≡ some r
    → is_none b0.binding ≡ false
    → (done : Bool) → (answered fingerprint b r reply id).1 ≡ done
    → IsStream (committed c b0 r reply done) (answered fingerprint b r reply id).0
answered-IsStream fingerprint c b0 b r reply id s room i e present true h =
    answered-true fingerprint c b r reply id (Same-IsStream c b0 b s i) (s.same_retained ∙ e) h
answered-IsStream fingerprint c b0 b r reply id s room i e present false h = rw present (
    Leaves-IsStream c (is_abandoned reply) b0 _ i
      (answered-false fingerprint b0 b r reply id s room h))

commit_retained_cases :
    (fingerprint : BridgeRecord → String) (b : HookBridge) (r : BridgeRecord) (reply : Reply Ack)
    (id : String) (P : HookBridge × Bool → Type 0)
    → (is_none b.binding ≡ true → P (b, false))
    → (is_none b.binding ≡ false
        → P (answered fingerprint (record b { retained_attempted = true }) r reply id))
    → P (commit_retained fingerprint b r reply id)
unfolding commit_retained
commit_retained_cases fingerprint b r reply id P absent present =
    elim (Bool-cases (is_none b.binding)) [
      | inl e ↦
          let kept : HookBridge × Bool = (b, false) in
          let same : commit_retained fingerprint b r reply id ≡ kept = rw e refl in
          subst P (sym same) (absent e)
      | inr e ↦
          let same : commit_retained fingerprint b r reply id
              ≡ answered fingerprint (record b { retained_attempted = true }) r reply id =
            rw e refl in
          subst P (sym same) (present e)
    ]

-- From a stream at a cursor, with the record at the cursor retained, a commit that succeeds leaves a stream whose cursor
-- is past the record; one that fails leaves the stream as it is, unless the daemon answers that it was abandoned, and
-- then another stream begins at 1.
pub commit_retained-IsStream :
    (fingerprint : BridgeRecord → String) (c : ℕ) (b : HookBridge) (r : BridgeRecord)
    (reply : Reply Ack) (id : String)
    → IsStream c b
    → b.retained ≡ some r
    → IsStream
        (committed c b r reply (commit_retained fingerprint b r reply id).1)
        (commit_retained fingerprint b r reply id).0
commit_retained-IsStream fingerprint c b r reply id i e =
    let v = i.consistent in
    let room = v.sized in
    commit_retained_cases fingerprint b r reply id (λ p. IsStream (committed c b r reply p.1) p.0)
      (λ absent. rw absent i)
      (λ present.
        answered-IsStream fingerprint c b (record b { retained_attempted = true }) r reply id
          (attempted-Same b) room i e present _ refl)
