-- ===== src/Store/Iteration.antt =====
-- The pages of events, one after the other, are all the later events of the brain, in their order.
use mathlib.Core.Path.{subst}
use alice_brain_hermes.Prelude.{
  ℕ, zero, suc, ◌+◌, ◌≤◌, ◌<◌, String, ◌≡◌, refl, sym, ap, ◌∙◌, inl, inr, true, false, Option, none,
  some, List, [], ◌∷◌, ◌++◌, arith, ltb, str_eq, length, drop, All, All-drop, length-drop,
  Bool-cases, Result, ok, guard, ◌>>◌, >>-eq-ok, guard-eq-ok, rewrap, ledger_integrity,
}
use alice_brain_hermes.Ids.{validate_id}
use alice_brain_hermes.Events.{EventEnvelope, revalidated}
use alice_brain_hermes.Store.{
  Row, EventStore, Encoding, is_numbered, keys_ok, decode_event, of_brain,
}
use alice_brain_hermes.Store.Pages.{
  after, insert_ordered, ordered, take, decoded, is_page_size, list_events, last_sequence,
  or_cursor, yielded, map_some, continued, iter_pages, iter_events,
}
use alice_brain_hermes.Store.Ledger.{Numbered, IsRow, IsStore}

insert_ordered_first :
    (n : ℕ) (r : Row) (rest : List Row) → Numbered n (r ∷ rest) → insert_ordered r rest ≡ r ∷ rest
insert_ordered_first n r [] h = refl
insert_ordered_first n r (t ∷ rest) (h, (more, _)) =
    let late : ltb t.sequence r.sequence ≡ false = ground arith in rw late refl

ordered-Numbered : (n : ℕ) (rows : List Row) → Numbered n rows → ordered rows ≡ rows
ordered-Numbered n [] h = refl
ordered-Numbered n (r ∷ rest) (h, more) =
    ap (insert_ordered r) (ordered-Numbered (n + 1) rest more)
    ∙ insert_ordered_first n r rest (h, more)

after_below :
    (n cursor : ℕ) (rows : List Row) → Numbered n rows → cursor < n → after cursor rows ≡ rows
after_below n cursor [] h below = refl
after_below n cursor (r ∷ rest) (h, more) below =
    let late : ltb cursor r.sequence ≡ true = ground arith in
    rw late (ap (λ l. r ∷ l) (after_below (n + 1) cursor rest more (omega arith)))

after-drop : (n k : ℕ) (rows : List Row) → Numbered (n + 1) rows → after (n + k) rows ≡ drop k rows
after-drop n zero rows h = after_below (n + 1) (n + 0) rows h (omega arith)
after-drop n (suc k) [] h = refl
after-drop n (suc k) (r ∷ rest) (h, more) =
    let early : ltb (n + suc k) r.sequence ≡ false = ground arith in
    let shift : n + suc k ≡ n + 1 + k = omega arith in
    rw early (ap (λ m. after m rest) shift ∙ after-drop (n + 1) k rest more)

Numbered-drop : (n k : ℕ) (rows : List Row) → Numbered n rows → Numbered (n + k) (drop k rows)
Numbered-drop n zero rows h = subst (λ m. Numbered m rows) (omega arith) h
Numbered-drop n (suc k) [] h = refl
Numbered-drop n (suc k) (r ∷ rest) (h, more) =
    subst (λ m. Numbered m (drop k rest)) (omega arith) (Numbered-drop (n + 1) k rest more)

abbrev pub envelopes : List Row → List EventEnvelope
envelopes [] = []
envelopes (r ∷ rest) = r.envelope ∷ envelopes rest

decoded-All :
    (c : Encoding) (rows : List Row) → All (IsRow c) rows → decoded c rows ≡ ok (envelopes rows)
decoded-All c [] h = refl
decoded-All c (r ∷ rest) (h, more) = rw (h, decoded-All c rest more) refl

take-All :
    (c : Encoding) (k : ℕ) (rows : List Row) → All (IsRow c) rows → All (IsRow c) (take k rows)
take-All c zero rows h = tt
take-All c (suc k) [] h = tt
take-All c (suc k) (r ∷ rest) (h, more) = (h, take-All c k rest more)

of_brain-All :
    (c : Encoding) (id : String) (rows : List Row)
    → All (IsRow c) rows
    → All (IsRow c) (of_brain id rows)
of_brain-All c id [] h = tt
of_brain-All c id (r ∷ rest) (h, more) = elim (Bool-cases (str_eq r.brain_id id)) [
  | inl same ↦ rw same (h, of_brain-All c id rest more)
  | inr other ↦ rw other (of_brain-All c id rest more)
]

take-drop :
    (k : ℕ) (rows : List Row)
    → envelopes (take k rows) ++ envelopes (drop (length (take k rows)) rows) ≡ envelopes rows
take-drop zero rows = refl
take-drop (suc k) [] = refl
take-drop (suc k) (r ∷ rest) = ap (λ l. r.envelope ∷ l) (take-drop k rest)

take-Numbered : (n k : ℕ) (rows : List Row) → Numbered n rows → Numbered n (take k rows)
take-Numbered n zero rows h = refl
take-Numbered n (suc k) [] h = refl
take-Numbered n (suc k) (r ∷ rest) (h, more) = (h, take-Numbered (n + 1) k rest more)

drop-drop : (k m : ℕ) (rows : List Row) → drop (k + m) rows ≡ drop m (drop k rows)
drop-drop zero m rows = ap (λ n. drop n rows) (omega arith)
drop-drop (suc k) m [] = ap (λ n. drop n []) (omega arith) ∙ drop_nil (suc k + m) ∙ sym (drop_nil m)
  where
    drop_nil : (n : ℕ) → drop {A = Row} n [] ≡ []
    drop_nil zero = refl
    drop_nil (suc n) = refl
drop-drop (suc k) m (r ∷ rest) =
    let shift : suc k + m ≡ suc (k + m) = omega arith in
    ap (λ n. drop n (r ∷ rest)) shift ∙ drop-drop k m rest

is_numbered-eq : (o : Option ℕ) (n : ℕ) → is_numbered o n ≡ true → o ≡ some n
is_numbered-eq none n h = cc
is_numbered-eq (some m) n h = let e : m ≡ n = ground arith in ap some e

IsRow-sequence : (c : Encoding) (r : Row) → IsRow c r → r.envelope.sequence ≡ some r.sequence
unfolding decode_event
IsRow-sequence c r h =
    let done : Result EventEnvelope = ok r.envelope in
    let rest : Result EventEnvelope = guard (keys_ok c r) ledger_integrity >> done in
    let (keys, _) =
      guard-eq-ok (keys_ok c r) ledger_integrity done
        (>>-eq-ok (rewrap ledger_integrity (revalidated r.envelope)) rest h) in
    is_numbered-eq r.envelope.sequence r.sequence (ground arith)

last_sequence_eq :
    (c : Encoding) (n : ℕ) (r : Row) (rest : List Row)
    → All (IsRow c) (r ∷ rest)
    → Numbered (n + 1) (r ∷ rest)
    → last_sequence (envelopes (r ∷ rest)) ≡ some (n + length (r ∷ rest))
last_sequence_eq c n r [] (h, _) (e, _) =
    let same : r.sequence ≡ n + 1 = e in IsRow-sequence c r h ∙ ap some (omega arith)
last_sequence_eq c n r (t ∷ rest) (h, more) (e, later) =
    last_sequence_eq c (n + 1) t rest more later ∙ ap some (omega arith)

or_cursor-some : (n cursor : ℕ) → 1 ≤ n → or_cursor (some n) cursor ≡ n
or_cursor-some zero cursor h = absurd (omega arith)
or_cursor-some (suc n) cursor h = refl

pub list_events-eq :
    (c : Encoding) (s : EventStore) (id : String) (cursor limit : ℕ)
    → IsStore c s
    → validate_id id ≡ ok id
    → is_page_size limit ≡ true
    → list_events c s id cursor limit
      ≡ ok (envelopes (take limit (drop cursor (of_brain id s.events))))
unfolding list_events
list_events-eq c s id cursor limit v named size =
    let rows = of_brain id s.events in
    let zero_more : 0 + cursor ≡ cursor = omega arith in
    let later : after cursor rows ≡ drop cursor rows =
      ap (λ n. after n rows) (sym zero_more) ∙ after-drop 0 cursor rows (v.numbered id) in
    let sorted : ordered (after cursor rows) ≡ drop cursor rows =
      ap ordered later
      ∙ ordered-Numbered (1 + cursor) (drop cursor rows)
          (Numbered-drop 1 cursor rows (v.numbered id)) in
    let all = All-drop (IsRow c) cursor rows (of_brain-All c id s.events v.decodes) in
    rw (named, size, sorted)
      (decoded-All c (take limit (drop cursor rows)) (take-All c limit (drop cursor rows) all))

-- One step of the iteration, on what is left.
continued-eq :
    (c : Encoding) (rows left : List Row) (cursor limit : ℕ)
    (next : ℕ → Option (Result (List EventEnvelope)))
    → drop cursor rows ≡ left
    → All (IsRow c) left
    → Numbered (cursor + 1) left
    → 1 ≤ limit
    → ((later : ℕ)
        → cursor < later
        → 1 ≤ length left
        → next later ≡ some (ok (envelopes (drop later rows))))
    → continued next cursor (ok (envelopes (take limit left))) ≡ some (ok (envelopes left))
continued-eq c rows left cursor zero next e all numbered size more = absurd (omega arith)
continued-eq c rows [] cursor (suc limit) next e all numbered size more = refl
continued-eq c rows (r ∷ rest) cursor (suc limit) next e all numbered size more =
    let page = take limit rest in
    let whole = take-All c (suc limit) (r ∷ rest) all in
    let count = take-Numbered (cursor + 1) (suc limit) (r ∷ rest) numbered in
    let last = last_sequence_eq c cursor r page whole count in
    let later = cursor + length (r ∷ page) in
    let moved : or_cursor (last_sequence (envelopes (r ∷ page))) cursor ≡ later =
      ap (λ o. or_cursor o cursor) last ∙ or_cursor-some later cursor (omega arith) in
    let rest_of = more later (omega arith) (omega arith) in
    let split : drop later rows ≡ drop (length (r ∷ page)) (r ∷ rest) =
      drop-drop cursor (length (r ∷ page)) rows ∙ ap (drop (length (r ∷ page))) e in
    let joined = take-drop (suc limit) (r ∷ rest) in
    ap (λ n. map_some (yielded (envelopes (r ∷ page))) (next n)) moved
    ∙ ap (map_some (yielded (envelopes (r ∷ page)))) rest_of
    ∙ ap (λ l. some (ok (envelopes (r ∷ page) ++ envelopes l))) split
    ∙ ap (λ l. some (ok l)) joined

iter_from :
    (c : Encoding) (s : EventStore) (id : String) (page_size fuel cursor : ℕ)
    → IsStore c s
    → validate_id id ≡ ok id
    → is_page_size page_size ≡ true
    → length (drop cursor (of_brain id s.events)) < fuel
    → iter_pages c s id page_size fuel cursor
      ≡ some (ok (envelopes (drop cursor (of_brain id s.events))))
unfolding iter_pages
iter_from c s id page_size zero cursor v named size enough = absurd (omega arith)
iter_from c s id page_size (suc fuel) cursor v named size enough =
    let rows = of_brain id s.events in
    let page = list_events-eq c s id cursor page_size v named size in
    let all = All-drop (IsRow c) cursor rows (of_brain-All c id s.events v.decodes) in
    let numbered : Numbered (cursor + 1) (drop cursor rows) =
      subst (λ n. Numbered n (drop cursor rows)) (omega arith)
        (Numbered-drop 1 cursor rows (v.numbered id)) in
    ap (continued (λ next. iter_pages c s id page_size fuel next) cursor) page
    ∙ continued-eq c rows (drop cursor rows) cursor page_size
        (λ next. iter_pages c s id page_size fuel next) refl all numbered (ground arith)
        (λ later ahead some_left.
          iter_from c s id page_size fuel later v named size
            (omega (arith, length-drop cursor rows, length-drop later rows)))

pub iter_events_complete :
    (c : Encoding) (s : EventStore) (id : String) (page_size fuel cursor : ℕ)
    → IsStore c s
    → validate_id id ≡ ok id
    → is_page_size page_size ≡ true
    → length (of_brain id s.events) < fuel
    → iter_events c s id page_size fuel cursor
      ≡ some (ok (envelopes (drop cursor (of_brain id s.events))))
unfolding iter_events
iter_events_complete c s id page_size fuel cursor v named size enough =
    rw (named, size)
      (iter_from c s id page_size fuel cursor v named size
        (omega (arith, length-drop cursor (of_brain id s.events))))
