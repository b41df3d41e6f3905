-- ===== src/Bridge/Growth.antt =====
-- What is held as queues and gaps grow.
use mathlib.Core.Path.{subst}
use alice_brain_hermes.Prelude.{
  ℕ, ◌+◌, ◌≤◌, ◌<◌, String, ◌≡◌, refl, true, some, List, [], ◌∷◌, length, all, arith,
}
use alice_brain_hermes.Bridge.{Causes, GapSpan, Observation}
use alice_brain_hermes.Bridge.Gaps.{
  total, add_cause, merge_causes, last_span, set_last, append_span,
}
use alice_brain_hermes.Bridge.Capture.{append_observation}
use alice_brain_hermes.Bridge.Held.{
  within, held_by_queue, held_by_spans, IsQueue, is_cause, IsSpan, IsSpans,
}

pub IsQueue-append :
    (low : ℕ) (q : List Observation) (o : Observation)
    → IsQueue low q o.capture_seq
    → IsQueue low (append_observation q o) (o.capture_seq + 1)
IsQueue-append low [] o h = (h, omega arith)
IsQueue-append low (x ∷ rest) o (h, later) = (h, IsQueue-append (x.capture_seq + 1) rest o later)

pub IsQueue-weaken :
    (low : ℕ) (q : List Observation) {high higher : ℕ}
    → IsQueue low q high
    → high ≤ higher
    → IsQueue low q higher
IsQueue-weaken low [] h e = omega arith
IsQueue-weaken low (x ∷ rest) (h, later) e = (h, IsQueue-weaken (x.capture_seq + 1) rest later e)

pub IsSpans-weaken :
    (low : ℕ) (spans : List GapSpan) {high higher : ℕ}
    → IsSpans low spans high
    → high ≤ higher
    → IsSpans low spans higher
IsSpans-weaken low [] h e = omega arith
IsSpans-weaken low (s ∷ rest) (h, is, later) e =
    (h, is, IsSpans-weaken (s.last_capture_seq + 1) rest later e)

pub IsSpans-append :
    (low : ℕ) (spans : List GapSpan) (s : GapSpan) {high : ℕ}
    → IsSpans low spans s.first_capture_seq
    → IsSpan s
    → s.last_capture_seq + 1 ≤ high
    → IsSpans low (append_span spans s) high
IsSpans-append low [] s h is e = (h, is, e)
IsSpans-append low (x ∷ rest) s (h, ix, later) is e =
    (h, ix, IsSpans-append (x.last_capture_seq + 1) rest s later is e)

-- What is said of the last span.
pub IsSpans-last :
    (low : ℕ) (spans : List GapSpan) {s : GapSpan} {high : ℕ}
    → IsSpans low spans high
    → last_span spans ≡ some s
    → (low ≤ s.first_capture_seq) × IsSpan s × (s.last_capture_seq + 1 ≤ high)
IsSpans-last low [] h e = cc
IsSpans-last low (x ∷ []) {s = s} {high = high} (h, ix, later) e =
    let same : x ≡ s = cc in
    subst (λ t. (low ≤ t.first_capture_seq) × IsSpan t × (t.last_capture_seq + 1 ≤ high)) same
      (h, ix, later)
IsSpans-last low (x ∷ y ∷ rest) (h, ix, later) e =
    let (h', is, below) = IsSpans-last (x.last_capture_seq + 1) (y ∷ rest) later e in
    let forward = ix.forward in (omega arith, is, below)

pub IsSpans-set_last :
    (low : ℕ) (spans : List GapSpan) (s t : GapSpan) (high : ℕ) {higher : ℕ}
    → IsSpans low spans high
    → last_span spans ≡ some t
    → s.first_capture_seq ≡ t.first_capture_seq
    → IsSpan s
    → s.last_capture_seq + 1 ≤ higher
    → IsSpans low (set_last spans s) higher
IsSpans-set_last low [] s t high h l e is below = cc
IsSpans-set_last low (x ∷ []) s t high (h, ix, later) l e is below =
    let same : x ≡ t = cc in
    let start : x.first_capture_seq ≡ t.first_capture_seq = cc in (omega arith, is, below)
IsSpans-set_last low (x ∷ y ∷ rest) s t high (h, ix, later) l e is below =
    (h, ix, IsSpans-set_last (x.last_capture_seq + 1) (y ∷ rest) s t high later l e is below)

total-add_cause :
    (causes : Causes) (cause : String) (count : ℕ)
    → total (add_cause causes cause count) ≡ total causes + count
total-add_cause [] cause count = omega arith
total-add_cause ((c, n) ∷ rest) cause count = ground (arith, total-add_cause rest cause count)

pub total-merge_causes :
    (causes more : Causes) → total (merge_causes causes more) ≡ total causes + total more
total-merge_causes causes [] = omega arith
total-merge_causes causes ((c, n) ∷ rest) =
    omega (arith, total-merge_causes (add_cause causes c n) rest, total-add_cause causes c n)

all-add_cause :
    (causes : Causes) (cause : String) (count : ℕ)
    → all is_cause causes ≡ true
    → is_cause (cause, count) ≡ true
    → all is_cause (add_cause causes cause count) ≡ true
all-add_cause [] cause count h e = ground arith
all-add_cause ((c, n) ∷ rest) cause count h e = ground (arith, all-add_cause rest cause count)

pub all-merge_causes :
    (causes more : Causes)
    → all is_cause causes ≡ true
    → all is_cause more ≡ true
    → all is_cause (merge_causes causes more) ≡ true
all-merge_causes causes [] h e = h
all-merge_causes causes ((c, n) ∷ rest) h e =
    all-merge_causes (add_cause causes c n) rest (all-add_cause causes c n h (ground arith))
      (ground arith)

pub held-append_observation :
    (n : ℕ) (q : List Observation) (o : Observation)
    → held_by_queue n (append_observation q o)
      ≡ held_by_queue n q + within n o.capture_seq o.capture_seq
held-append_observation n [] o = omega arith
held-append_observation n (x ∷ rest) o = omega (arith, held-append_observation n rest o)

pub held-append_span :
    (n : ℕ) (spans : List GapSpan) (s : GapSpan)
    → held_by_spans n (append_span spans s)
      ≡ held_by_spans n spans + within n s.first_capture_seq s.last_capture_seq
held-append_span n [] s = omega arith
held-append_span n (x ∷ rest) s = omega (arith, held-append_span n rest s)

pub held-set_last :
    (n : ℕ) (spans : List GapSpan) (s t : GapSpan)
    → last_span spans ≡ some t
    → held_by_spans n (set_last spans s) + within n t.first_capture_seq t.last_capture_seq
      ≡ held_by_spans n spans + within n s.first_capture_seq s.last_capture_seq
held-set_last n [] s t l = cc
held-set_last n (x ∷ []) s t l =
    let same : x ≡ t = cc in
    let start : x.first_capture_seq ≡ t.first_capture_seq = cc in
    let end : x.last_capture_seq ≡ t.last_capture_seq = cc in ground arith
held-set_last n (x ∷ y ∷ rest) s t l = omega (arith, held-set_last n (y ∷ rest) s t l)

pub length-append_observation :
    (q : List Observation) (o : Observation) → length (append_observation q o) ≡ length q + 1
length-append_observation [] o = omega arith
length-append_observation (x ∷ rest) o = omega (arith, length-append_observation rest o)

pub length-append_span :
    (spans : List GapSpan) (s : GapSpan) → length (append_span spans s) ≡ length spans + 1
length-append_span [] s = omega arith
length-append_span (x ∷ rest) s = omega (arith, length-append_span rest s)

pub length-set_last :
    (spans : List GapSpan) (s : GapSpan) → length (set_last spans s) ≡ length spans
length-set_last [] s = refl
length-set_last (x ∷ []) s = refl
length-set_last (x ∷ y ∷ rest) s = omega (arith, length-set_last (y ∷ rest) s)

-- Nothing below the first number is held.
pub held_by_queue_below :
    (n low : ℕ) (q : List Observation) (high : ℕ)
    → IsQueue low q high
    → n < low
    → held_by_queue n q ≡ 0
held_by_queue_below n low [] high h below = refl
held_by_queue_below n low (o ∷ rest) high (h, later) below =
    ground (arith, held_by_queue_below n (o.capture_seq + 1) rest high later)

pub held_by_spans_below :
    (n low : ℕ) (spans : List GapSpan) (high : ℕ)
    → IsSpans low spans high
    → n < low
    → held_by_spans n spans ≡ 0
held_by_spans_below n low [] high h below = refl
held_by_spans_below n low (s ∷ rest) high (h, is, later) below =
    let forward = is.forward in
    ground (arith, held_by_spans_below n (s.last_capture_seq + 1) rest high later)
