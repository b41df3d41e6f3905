-- ===== src/Bridge/Selection.antt =====
-- What the worker selects, and when it cannot.
use mathlib.Core.Path.{subst}
use alice_brain_hermes.Prelude.{
  ◌≡◌, refl, sym, ◌∙◌, true, false, inl, inr, Option, none, some, List, [], ◌∷◌, arith, Bool-cases,
  ok, Result, value_error, >>=-eq-ok, guard-eq-ok,
}
use alice_brain_hermes.Bridge.{GapSpan, Observation, BridgeGap, BridgeRecord, HookBridge}
use alice_brain_hermes.Bridge.Gaps.{gap_ok, gap_of_span, gap_from_span}
use alice_brain_hermes.Bridge.Worker.{
  poll_queue, retain_gap, claim_first_gap, gap_is_first, retain_head, choose_if, choose_record,
  select_next_record,
}
use alice_brain_hermes.Bridge.Held.{IsHookBridge}
use alice_brain_hermes.Bridge.Keeping.{
  Keeps, Keeps-refl, Keeps-trans, poll_queue-Keeps, claim-Keeps, retain_head-Keeps,
}

-- The choice of the worker: what is retained already, the first gap, the head of the queue, or nothing.
pub data Chooses (b : HookBridge) : HookBridge → Type 0 where
  retains : (r : BridgeRecord) → b.retained ≡ some r → Chooses b b
  claims :
      (s : GapSpan) (rest : List GapSpan)
      → b.retained ≡ none
      → b.gap_spans ≡ s ∷ rest
      → gap_is_first b.gap_spans b.queue_head ≡ true
      → Chooses b (retain_gap b rest (gap_of_span b s))
  observes :
      (o : Observation)
      → b.retained ≡ none
      → b.queue_head ≡ some o
      → gap_is_first b.gap_spans b.queue_head ≡ false
      → Chooses b (retain_head b (some o))
  idles : b.retained ≡ none → b.queue_head ≡ none → b.gap_spans ≡ [] → Chooses b b

claim_first_gap-Chooses :
    (b : HookBridge) (spans : List GapSpan) {b' : HookBridge}
    → b.retained ≡ none
    → b.gap_spans ≡ spans
    → gap_is_first b.gap_spans b.queue_head ≡ true
    → claim_first_gap b spans ≡ ok b'
    → Chooses b b'
unfolding claim_first_gap gap_from_span
claim_first_gap-Chooses b [] e f first h = absurd (ground arith)
claim_first_gap-Chooses b (s ∷ rest) {b' = b'} e f first h =
    let retain : BridgeGap → Result HookBridge = λ g. ok (retain_gap b rest g) in
    let (g, from, e') = >>=-eq-ok (gap_from_span b s) retain h in
    let (_, made) =
      guard-eq-ok (gap_ok (gap_of_span b s)) value_error (ok (gap_of_span b s)) from in
    let same : retain_gap b rest (gap_of_span b s) ≡ b' = cc in
    subst (Chooses b) same (Chooses.claims s rest e f first)

none_first : (spans : List GapSpan) → gap_is_first spans none ≡ false → spans ≡ []
none_first [] h = refl
none_first (s ∷ rest) h = cc

retain_head-Chooses :
    (b : HookBridge) (head : Option Observation)
    → b.retained ≡ none
    → b.queue_head ≡ head
    → gap_is_first b.gap_spans head ≡ false
    → Chooses b (retain_head b head)
retain_head-Chooses b none e f later = Chooses.idles e f (none_first b.gap_spans later)
retain_head-Chooses b (some o) e f later = Chooses.observes o e f (rw f later)

choose_if-Chooses :
    (b : HookBridge) (r : Option BridgeRecord) {b' : HookBridge}
    → b.retained ≡ r
    → choose_if b r ≡ ok b'
    → Chooses b b'
choose_if-Chooses b (some r) {b' = b'} e h =
    let same : b ≡ b' = cc in subst (Chooses b) same (Chooses.retains r e)
choose_if-Chooses b none {b' = b'} e h = elim (Bool-cases (gap_is_first b.gap_spans b.queue_head)) [
  | inl first ↦
      let claims : choose_if b none ≡ claim_first_gap b b.gap_spans = rw first refl in
      claim_first_gap-Chooses b b.gap_spans e refl first (sym claims ∙ h)
  | inr later ↦
      let takes : choose_if b none ≡ ok (retain_head b b.queue_head) = rw later refl in
      let same : retain_head b b.queue_head ≡ b' = cc in
      subst (Chooses b) same (retain_head-Chooses b b.queue_head e refl later)
]

pub choose_record-Chooses :
    (b : HookBridge) {b' : HookBridge} → choose_record b ≡ ok b' → Chooses b b'
unfolding choose_record
choose_record-Chooses b h = choose_if-Chooses b b.retained refl h

pub Chooses-Keeps : (b : HookBridge) {b' : HookBridge} → IsHookBridge b → Chooses b b' → Keeps b b'
Chooses-Keeps b v (Chooses.retains r e) = Keeps-refl b v
Chooses-Keeps b v (Chooses.claims s rest e f first) = claim-Keeps b s rest v e f
Chooses-Keeps b v (Chooses.observes o e f later) = retain_head-Keeps b o v e f
Chooses-Keeps b v (Chooses.idles e f g) = Keeps-refl b v

choose_record-Keeps :
    (b : HookBridge) {b' : HookBridge} → IsHookBridge b → choose_record b ≡ ok b' → Keeps b b'
choose_record-Keeps b v h = Chooses-Keeps b v (choose_record-Chooses b h)

select_next_record-Keeps :
    (b : HookBridge) {b' : HookBridge} → IsHookBridge b → select_next_record b ≡ ok b' → Keeps b b'
unfolding select_next_record
select_next_record-Keeps b {b' = b'} v h =
    let polled = poll_queue-Keeps b v in
    Keeps-trans b (poll_queue b) b' polled (choose_record-Keeps (poll_queue b) polled.consistent h)
